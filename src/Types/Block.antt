-- ===== src/Types/Block.antt =====
-- types/block.go and types/utils.go: blocks and their headers. The lock of a block is left out: each
-- method runs whole. Times are unix nanoseconds, and the current time is an argument.
use obrs.Prelude.{ℕ, Option, none, some, List, [], ◌∷◌, ◌==◌}
use obrs.Prelude.Int.{ℤ, pos, ◌-ℤ◌, wrap64}
use obrs.Prelude.Bytes.{Bytes, bytes_of, is_empty}
use obrs.Prelude.Outcome.{
  Outcome, ok, block_state_error, no_block_hash, no_signature, fail_if, ◌>>◌,
}
use obrs.Types.Ltime.{LTime, ltime_zero, hash}
use obrs.Types.External.{External}
use obrs.Types.Vote.{Quorum, zero_quorum}
use obrs.Types.Tx.{Tx, txs_hash}

abbrev pub BlockState : Type 0
BlockState = ℕ

abbrev pub default_block : BlockState
default_block = 0

abbrev pub proposal_block : BlockState
proposal_block = 1

abbrev pub error_block : BlockState
error_block = 2

abbrev pub suspect_block : BlockState
suspect_block = 3

abbrev pub precommit_block : BlockState
precommit_block = 4

abbrev pub committed_block : BlockState
committed_block = 20

pub record Header : Type 0 where
  pub chain_id : Bytes
  pub slot : LTime
  pub slot_start_time : ℤ
  pub block_state : BlockState
  pub proposal_time : ℤ
  pub last_block_hash : Bytes
  pub txs_hash : Option Bytes
  pub validator_addr : Bytes
  pub validators_hash : Bytes
  pub result_hash : Bytes
  pub block_hash : Option Bytes
  pub signature : Bytes
  pub block_precommit_time : ℤ
  pub block_commit_time : ℤ
  pub time_precommit : ℤ
  pub time_commit : ℤ
  pub time_consensus : ℤ

-- The zero value `Header{}`.
abbrev pub zero_header : Header
zero_header = record {
  chain_id = [];
  slot = ltime_zero;
  slot_start_time = pos 0;
  block_state = default_block;
  proposal_time = pos 0;
  last_block_hash = [];
  txs_hash = none;
  validator_addr = [];
  validators_hash = [];
  result_hash = [];
  block_hash = none;
  signature = [];
  block_precommit_time = pos 0;
  block_commit_time = pos 0;
  time_precommit = pos 0;
  time_commit = pos 0;
  time_consensus = pos 0;
}

-- `commit` is a pointer, an address of Types/Memory.antt; `data_hash` is the memo of Data.
pub record Block : Type 0 where
  pub header : Header
  pub open header use *
  pub txs : List Tx
  pub data_hash : Option Bytes
  pub vote_quorum : Quorum
  pub evidences : List Quorum
  pub commit : Option ℕ

unfoldable pub validate_basic : Block → Outcome (Unit {0})
validate_basic block = do
  fail_if (block.block_state == error_block) block_state_error
  fail_if (is_empty (bytes_of block.block_hash)) no_block_hash
  fail_if (is_empty block.signature) no_signature
  ok tt

unfoldable pub fill : Bytes → LTime → BlockState → Bytes → Bytes → Bytes → ℤ → Header → Header
fill chain_id slot state last_block_hash validator_addr validators_hash slot_start_time h =
    record h {
      chain_id = chain_id;
      slot = slot;
      block_state = state;
      last_block_hash = last_block_hash;
      validator_addr = validator_addr;
      validators_hash = validators_hash;
      slot_start_time = slot_start_time;
    }

-- The bytes that a block's hash stands for: the state, the proposer and the times take no part.
unfoldable pub header_digest : External → Header → Bytes
header_digest ext h =
    ext.merkle_root
      (h.chain_id ∷ hash h.slot ∷ h.last_block_hash ∷ bytes_of h.txs_hash ∷ h.validators_hash ∷ [])

-- Header.Hash keeps the hash that it finds.
unfoldable pub header_hash : External → Header → Header
header_hash ext h = elim h.block_hash [
  | none ↦ record h { block_hash = some (header_digest ext h) }
  | some _ ↦ h
]

-- Data.Hash, and the memo that it leaves.
unfoldable pub data_hash_of : External → Block → Bytes
data_hash_of ext b = elim b.data_hash [ none ↦ txs_hash ext b.txs | some d ↦ d ]

unfoldable pub fill_header : External → Block → Block
unfolding data_hash_of
fill_header ext b = elim b.txs_hash [
  | none ↦ record b {
    header = record b.header { txs_hash = some (data_hash_of ext b) };
    data_hash = some (data_hash_of ext b);
  }
  | some _ ↦ b
]

-- Block.Hash, which fills the header in: the block afterwards, whose `block_hash` is the result.
unfoldable pub hash_block : External → Block → Block
unfolding fill_header header_hash
hash_block ext b = let b' = fill_header ext b in record b' { header = header_hash ext b'.header }

-- The value of the call `block.Hash()`.
unfoldable pub block_hash_value : External → Block → Bytes
unfolding hash_block
block_hash_value ext b = bytes_of (hash_block ext b).block_hash

unfoldable pub calculate_time : Header → Header
calculate_time h = record h {
  time_precommit = wrap64 (h.block_precommit_time -ℤ h.proposal_time);
  time_commit = wrap64 (h.block_commit_time -ℤ h.block_precommit_time);
  time_consensus = wrap64 (h.block_commit_time -ℤ h.proposal_time);
}

pub data TimeLabel : Type 0 where
  block_proposal_time block_precommit_time block_commit_time block_suspect_time : TimeLabel

unfoldable pub mark_time : TimeLabel → ℤ → Header → Header
mark_time TimeLabel.block_commit_time t h = record h { block_commit_time = t }
mark_time TimeLabel.block_precommit_time t h = record h { block_precommit_time = t }
mark_time TimeLabel.block_proposal_time t h = h
mark_time TimeLabel.block_suspect_time t h = h

unfoldable pub make_genesis_block : Bytes → ℤ → Block
make_genesis_block chain_id genesis_time = record {
  header = record zero_header {
    chain_id = chain_id;
    slot = ltime_zero;
    proposal_time = genesis_time;
    block_state = committed_block;
    last_block_hash = [];
    block_hash = none;
  };
  txs = [];
  data_hash = none;
  vote_quorum = zero_quorum;
  evidences = [];
  commit = none;
}

unfoldable pub make_block : ℤ → List Tx → Block
make_block now txs = record {
  header = record zero_header { proposal_time = now };
  txs = txs;
  data_hash = none;
  vote_quorum = zero_quorum;
  evidences = [];
  commit = none;
}

unfoldable pub make_empty_proposal : Block
make_empty_proposal = record {
  header = zero_header;
  txs = [];
  data_hash = none;
  vote_quorum = zero_quorum;
  evidences = [];
  commit = none;
}
