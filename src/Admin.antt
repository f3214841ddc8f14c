-- ===== src/Admin.antt =====
-- The administrative areas of a point: `find_admin` of server/src/lib.rs and the mapping of levels to
-- fields of server/src/admin_config.rs.
pub mod Config
pub mod Search
pub mod Fields
pub mod Country
