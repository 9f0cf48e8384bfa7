-- ===== src/Client.antt =====
-- The package client: what the program asks of the chain and of the web.
pub mod Fourmeme
pub mod Price
pub mod Approve
