-- ===== src/Importer.antt =====
-- The importer of Who's on First data, tools/wof-importer.
pub mod Simplify
