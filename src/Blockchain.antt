-- ===== src/Blockchain.antt =====
-- x/nvx/keeper/blockchain.go: the chain of blocks.
pub mod Block
pub mod Lines
pub mod Chain
pub mod Validity
pub mod Lookup
pub mod Storage
mod Tests
