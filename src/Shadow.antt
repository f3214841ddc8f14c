-- ===== src/Shadow.antt =====
-- server/src/shadow.rs: a sample of the requests is sent to Google's geocoder and compared.
pub mod Config
pub mod Worker
pub mod Url
pub mod Compare
pub mod Google
