-- ===== src/Consensus.antt =====
-- The consensus of a node: the Go packages consensus/ and consensus/types/.
pub mod VoteSet
pub mod Machine
pub mod SlotClock
pub mod Reactor
