-- ===== src/Tests/Samples.antt =====
-- A small chain: a genesis block, two blocks above it, three validators and their votes.
use obrs.Prelude.{ℕ, zero, suc, ◌+◌, ◌*◌, true, Option, none, some, List, [], ◌∷◌, ◌++◌}
use obrs.Prelude.Int.{ℤ, pos, negsuc}
use obrs.Prelude.Bytes.{Bytes}
use obrs.Prelude.Text.{codes}
use obrs.Types.External.{External}
use obrs.Types.Vote.{Vote, Quorum, zero_quorum}
use obrs.Types.Block.{Block, Header, zero_header, precommit_block, committed_block, proposal_block}
use obrs.Types.Memory.{Memory, zero_commit}
use obrs.Types.Validators.{Validator, ValidatorSet}
use obrs.Types.BlockTree.{BlockTree, new_block_tree, attach}
use obrs.Prelude.Outcome.{Outcome, ok, err, panic}
use obrs.State.{State, World, new_state}
use obrs.Consensus.Machine.{Env, ConsensusState, round_step_slot}
use obrs.Consensus.VoteSet.{make_slot_vote_set}
use obrs.Crypto.Threshold.{Curve}

abbrev concat : List Bytes → Bytes
concat [] = []
concat (b ∷ bs) = b ++ concat bs

-- Hashes that keep everything, and signatures that are always good.
abbrev pub open_ext : External
open_ext = record {
  merkle_root = concat;
  tm_hash = λ b. b;
  verify_signature = λ _ _ _. true;
  ed25519_verify = λ _ _ _. true;
  marshal_key = λ b. b;
}

-- A group in which every signature is the number 7.
abbrev pub unit_curve : Curve
unit_curve = record {
  Scalar = ℕ;
  Point = ℕ;
  one = 1;
  set_int64 = λ _. 1;
  add_scalar = ◌+◌;
  mul_scalar = λ a _. a;
  div_scalar = λ a _. a;
  new_point = 0;
  add_point = ◌+◌;
  mul_point = λ _ p. p;
  unmarshal = λ _. some 7;
  marshal = λ p. some (p ∷ []);
}

abbrev nat_of : ℤ → ℕ
nat_of (pos n) = n
nat_of (negsuc n) = 0

-- The same with multiplication, where an index is its number.
abbrev pub line_curve : Curve
line_curve = record {
  Scalar = ℕ;
  Point = ℕ;
  one = 1;
  set_int64 = nat_of;
  add_scalar = ◌+◌;
  mul_scalar = ◌*◌;
  div_scalar = λ a _. a;
  new_point = 0;
  add_point = ◌+◌;
  mul_point = λ _ p. p;
  unmarshal = λ _. some 7;
  marshal = λ p. some (p ∷ []);
}

abbrev pub header_with : Bytes → Bytes → ℕ → ℕ → Header
header_with hash parent state slot = record zero_header {
  block_hash = some hash;
  last_block_hash = parent;
  block_state = state;
  slot = pos slot;
}

abbrev pub block_with : Header → List Quorum → Block
block_with h evidences = record {
  header = h;
  txs = [];
  data_hash = none;
  vote_quorum = zero_quorum;
  evidences = evidences;
  commit = none;
}

abbrev pub genesis : Block
genesis = block_with (header_with (codes "g") [] committed_block 0) []

abbrev pub first : Block
first = block_with (header_with (codes "a") (codes "g") precommit_block 1) []

abbrev pub second : Block
second =
    block_with
      (record (header_with (codes "b") (codes "a") proposal_block 2) {
        validator_addr = 2 ∷ [];
        validators_hash = 0 ∷ 1 ∷ 2 ∷ [];
        signature = codes "s";
      })
      []

abbrev blocks : ℕ → Block
blocks zero = genesis
blocks (suc zero) = first
blocks (suc (suc n)) = second

abbrev pub memory : Memory
memory = record {
  block_at = blocks;
  next_block = 3;
  quorum_at = λ _. zero_quorum;
  next_quorum = 0;
  commit_at = λ _. zero_commit;
  next_commit = 0;
}

abbrev pub vote_of : ℕ → ℕ → Vote
vote_of kind i = record {
  slot = pos 1;
  block_hash = codes "a";
  vote_type = kind;
  timestamp = pos 0;
  validator_address = i ∷ [];
  validator_index = pos i;
  signature = i ∷ [];
}

-- The tree of the genesis block and the first one.
abbrev pub two_nodes : BlockTree
two_nodes = attach (new_block_tree 0) 0 1

-- The genesis block is committed; the two others wait.
abbrev pub world : World
world = record { memory = memory; uncommit_blocks = 1 ∷ 2 ∷ []; block_tree = two_nodes }

abbrev pub validator_of : ℕ → Validator
validator_of i = record { address = i ∷ []; pub_key = some (i ∷ []) }

abbrev pub validators : ValidatorSet
validators = validator_of 0 ∷ validator_of 1 ∷ validator_of 2 ∷ []

abbrev pub node_state : State
node_state =
    record (new_state (codes "chain") (pos 0) (some (validator_of 0)) (some (validator_of 0))
      validators) { last_commited_block = some 0 }

-- A store that counts the blocks and executes all of them.
abbrev pub run_block : ℕ → Block → ℕ × Option Bytes
run_block n b = (n + 1, some (codes "done"))

abbrev pub node_env : Env
node_env = record {
  ext = open_ext;
  curve = unit_curve;
  Db = ℕ;
  exec_block = run_block;
  sign = λ b. some b;
}

-- A node in the second slot, with no votes and no proposal yet.
abbrev pub machine : ConsensusState node_env
machine = record {
  cur_slot = pos 2;
  last_slot = pos 1;
  step = round_step_slot;
  val_index = pos 0;
  validators = validators;
  proposer = none;
  proposal = none;
  vote_set = make_slot_vote_set;
  state = node_state;
  last_state = node_state;
  world = world;
  db = 0;
  future_proposal = λ _. none;
  cur_slot_start_time = pos 0;
  clock_slot = pos 3;
  effects = [];
}

-- The value of a call that returns one.
abbrev pub value_or {ℓ} : {A : Type ℓ} → A → Outcome A → A
value_or d (ok a) = a
value_or d (err e) = d
value_or d panic = d
