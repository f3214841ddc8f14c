-- ===== src/Query.antt =====
-- How server/src/forward.rs reads what a user typed: its tokens, and the parts of an address.
pub mod Words
pub mod Tokens
pub mod Postcodes
pub mod States
pub mod UnitPrefix
pub mod Freeform
pub mod Country
pub mod Address
pub mod Phrase
