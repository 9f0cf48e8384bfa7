-- ===== src/Manager.antt =====
-- The package manager: the state that the goroutines share.
pub mod Positions
pub mod Tokens
