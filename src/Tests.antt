-- ===== src/Tests.antt =====
-- Theorems at concrete inputs, and runs of the definitions.
mod Setup
mod Utils
mod Positions
mod Trade
mod Primary
mod Parser
mod Tokens
