-- ===== src/Autocomplete.antt =====
-- server/src/autocomplete.rs: prefix search in a finite-state map of names. The map is the `fst`
-- crate's; it walks its keys along the automaton that is modelled here.
pub mod Automaton
pub mod Abbreviations
pub mod Ranking
pub mod Countries
pub mod Hits
