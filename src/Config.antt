-- ===== src/Config.antt =====
-- The configuration (internal/config): the histories of input.
pub mod History
