-- ===== src/Tests.antt =====
-- The theorems at concrete inputs, and runs of the model.
mod Samples
mod VoteSet
mod BlockTree
mod State
mod Machine
mod Store
mod Mempool
mod Keys
mod Nodes
mod Peers
mod Clusters
mod Reports
mod Links
