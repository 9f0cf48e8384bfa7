-- ===== src/Parser.antt =====
-- The package parser: what becomes of blocks, receipts and logs.
pub mod Blocks
pub mod Trades
pub mod Events
pub mod Create
pub mod Native
