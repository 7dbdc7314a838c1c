-- ===== src/Jj.antt =====
-- What is passed to and read from jj (internal/jj).
pub mod Files
pub mod Selections
pub mod Toggling
pub mod Commands
mod Tests
