-- ===== src/Lib.antt =====
-- A verification library of a BFT blockchain node: blocks and the tree of them, votes and threshold
-- quorums, the state machine of a slot, the execution that commits blocks, the keys and files of a
-- node, its messages, and its start.
--
-- The program. Time runs in slots. In each slot one validator of the set is the leader; it makes a
-- block (a proposal) on the latest block of its tree, and the others check it and vote. At the start
-- of the next slot a node judges its proposal by the votes: a quorum of support makes the block
-- precommit, one against it an error. A later proposal carries the quorums of the precommit blocks on
-- its path as evidences, and the latest block with such evidence whose witness is precommit or
-- committed is committed with its uncommitted ancestors.
--
-- The files.
-- - Prelude and below: names of the library, lists, machine integers, byte strings, decimals, and the
--   outcome of a Go call: a value, an error or a panic.
-- - Types/Ltime, Vote, Tx, Block, Commit, Validators, BlockSet, BlockTree: the files types/*.go of these
--   names; Types/Memory holds the objects that the code shares by pointer, and Types/External the
--   functions of third-party packages. Below Types/BlockTree: Shape (what a tree is), Frontier and
--   Search (breadth-first loops), Insertion, Traversal, Ancestors, Newest (`GetLatestBlock`), Paths
--   (`GetBlockByFilter`).
-- - Crypto/Threshold: crypto/threshold/threshol_signature.go over a group that is a parameter;
--   Crypto/Threshold/Distinctness is about the ids of the shares.
-- - Crypto/Bls: crypto/bls/bls.go over a pairing library that is a parameter; Signing has the laws of
--   that library and what follows for signatures.
-- - Privval/KeyFile: privval/file.go over files that are a parameter. Restart is about a start after a
--   stop, Signed about votes and proposals, Shares about the keys made from one seed.
-- - Types/Genesis: types/genesis.go; Completion and Loaded are about the document that is read.
-- - Consensus/VoteSet: consensus/types/slot_vote_set.go; Admission is about adding votes, Majority about
--   the quorum, Refines shows that it is a list of the votes taken.
-- - Consensus/Machine: consensus/state.go. Machine has the state, Machine/Evidence `updateEvidences`,
--   Machine/Proposing the making and taking in of proposals and votes, Machine/Handlers the handlers.
--   Slots, Votes, Acceptance, Aliasing and Endless prove what they do, Frame and Steps what they leave
--   alone; Runs has any sequence of steps of a node, Trees and Links the block tree and the hashes that
--   link its blocks along it, and Progress the steps of one whole slot.
--   Machine/Startup has the constructor with its options, Machine/Messages `handleMsg` and the queries.
-- - Consensus/SlotClock: consensus/slot.go, with the runtime's timer in its state; Order is about the
--   time-outs in any order of the routines.
-- - Consensus/Reactor: consensus/reactor.go, messages from and to peers; Gossip follows a vote from one
--   node to another, StartTime is about the first slot.
-- - State: state/state.go, and State/Executor state/executor.go. Commits, Executor/Commit and
--   Executor/Evidences prove what they do, Executor/Growth what ApplyBlock does to the tree;
--   Links, Executor/Links and Executor/Linked are about the hashes that link the blocks of the tree.
-- - Mempool: mempool/list_mempool.go; Mempool/Admission is about taking transactions in, Mempool/Reaping
--   about taking them out. Mempool/Generator has the generator of transactions, Mempool/Ids the numbers
--   of peers and Mempool/Reactor the messages of mempool/reactor.go.
-- - Store: store/kv_store.go, the small bank over a database that is a parameter; Store/Balances is about
--   what a block does to balances, Store/Arguments about transactions without arguments.
-- - Node: node/node.go, how the parts are put together from the files of a node; Addresses is about the
--   lists of addresses in the configuration.
-- - Commands: cmd/commands/gen_validator.go, gen_genesis.go and init.go, which make the files of a node;
--   Cluster is about the document and the keys of one seed, Launch about a node that starts on them.
--   Init has init.go, and Accounts init_db.go.
-- - Statistics: libs/utils/math.go over floats that are a parameter.
-- - Tests: a small chain, and each theorem at a concrete input.
--
-- How state corresponds. A pointer to a block, a commit or a quorum is an address of `Memory`; a node of
-- the tree is an address of `BlockTree`. All copies of a `State` share one set of uncommitted blocks and
-- one tree, which are in `World`. A handler takes the state and the current time, one reading for a call,
-- and gives the state after it; channels, events and timers are a list of effects. An error that the
-- code returns is a value beside what was changed before it. The hash of a block is a memo that a call of
-- `Hash` fills in, also where the call is only for a log line.
--
-- Rounds. A breadth-first loop over the tree is given a round for each node and one more, a walk to the
-- root a round for each node, which is enough on a tree that the operations build; a loop out of rounds
-- would give a panic. `updateEvidences` has no bound in the code, so its rounds are an argument. The
-- search for a free number of a peer has 65,536 rounds, one for each number of a uint16, which is enough
-- where fewer numbers are taken. The sending routine of the mempool is given the list it walks.
--
-- Machine integers. A slot is an int64 and a validator's index an int32; sums and differences wrap. Times
-- are unix nanoseconds. The values of a uint8 enumeration are numbers, as a message may hold any.
--
-- Third-party code. Hashes, signatures, the curve, the pairing library, JSON, the files and the database
-- are parameters, records of functions. What a theorem relies on stands in a record of laws beside them:
-- that a signature made by a key verifies with it, that a file that was written is read back, that a
-- message which was marshalled is unmarshalled to itself. The executor takes a store that gives a value or
-- an error.
--
-- Not modelled: how the runtime schedules the routines around the handlers, and locks (every method runs
-- whole, and what routines wait to write to a channel is a list taken in any order); logs, metrics, the
-- fields marked for debugging and the mock validators; the switch, the transport, the RPC server, the
-- command lines, and the tools, which are input and output or statistics over floats.
pub mod Prelude
pub mod Types
pub mod Crypto
pub mod Privval
pub mod Mempool
pub mod Store
pub mod State
pub mod Consensus
pub mod Node
pub mod Statistics
pub mod Commands
pub mod Tests
