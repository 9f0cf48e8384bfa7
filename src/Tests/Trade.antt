-- ===== src/Tests/Trade.antt =====
-- Trades at concrete inputs.
