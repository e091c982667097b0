-- ===== src/Types.antt =====
-- The data of the chain: the Go package types/.
pub mod Ltime
pub mod External
pub mod Vote
pub mod Tx
pub mod Block
pub mod Memory
pub mod Commit
pub mod Validators
pub mod Genesis
pub mod BlockSet
pub mod BlockTree
