-- ===== src/Extensions.antt =====
-- extensions: the handlers that work on the SQL tables of migrations/001_initial.sql.
pub mod Transfer
