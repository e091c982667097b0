-- ===== src/Tests/Keys.antt =====
-- Keys of one number whose signatures are the key before the message, a disk of one file, and a vote that
-- goes from one node to another.
use obrs.Prelude.{
  ℕ, ◌+◌, ◌≡◌, refl, sym, true, false, Option, none, some, [], ◌∷◌, arith, if◌then◌else◌,
}
use obrs.Prelude.Int.{pos, wrap32}
use obrs.Prelude.Bytes.{Bytes, bytes_equal, bytes_equal_refl, is_empty}
use obrs.Prelude.Text.{codes}
use obrs.Prelude.Outcome.{ok}
use obrs.Types.Vote.{Vote, vote_sign_bytes}
use obrs.Types.Validators.{get_by_address}
use obrs.Crypto.Bls
use obrs.Crypto.Bls.{
  Suite, BlsLaws, pub_key, sign, verify_signature, gen_priv_key, gen_priv_key_with_seed,
  kyber2_priv_key,
}
use obrs.Privval.KeyFile.{
  FilePv, FilePvKey, Files, FilesLaws, new_file_pv, gen_file_pv, load_or_gen_file_pv, save,
  sign_vote, gen_file_pv_with_seed_and_idx,
}
use obrs.Privval.KeyFile.Restart.{load_or_gen_file_pv_twice}
use obrs.Privval.KeyFile.Shares.{gen_file_pv_with_seed_and_idx_primary}
use obrs.Consensus.VoteSet.{SlotVoteSet, make_slot_vote_set, add_slot_vote, put_slot}
use obrs.Consensus.Machine.{Env, ConsensusState, emit, fire_new_vote}
use obrs.Consensus.Machine.Messages.{MsgInfo, receive_all}
use obrs.Consensus.Reactor.{Wire, receive, broadcast_vote, on_effect}
use obrs.Consensus.Reactor.Gossip.{gossip_vote}
use obrs.Tests.Samples.{node_env, machine, validator_of, vote_of, line_curve}

abbrev one_number : Bytes → Option ℕ
one_number [] = none
one_number (x ∷ xs) = some x

abbrev pub suite : Suite ℕ
suite = record {
  Key = ℕ;
  unmarshal_scalar = one_number;
  marshal_scalar = λ x. some (x ∷ []);
  base_mul = λ x. x;
  unmarshal_key = one_number;
  marshal_key = λ x. some (x ∷ []);
  bls_sign = λ x msg. some (x ∷ msg);
  bls_verify = λ x msg sig. bytes_equal sig (x ∷ msg);
  seeded_keys = λ seed i. 7 + i;
  sum_truncated = λ b. b;
}

one_number-of :
    (x : ℕ) (b : Bytes) → ◌≡◌ {A = Option Bytes} (some (x ∷ [])) (some b) → one_number b ≡ some x
one_number-of x [] e = cc
one_number-of x (y ∷ ys) e = ground arith

pub suite_laws : BlsLaws suite
suite_laws = record {
  scalar_back = one_number-of;
  key_back = one_number-of;
  key_marshals = λ p. (p ∷ [], refl);
  scalar_marshals = λ x. (x ∷ [], refl);
  signature_verifies = λ x msg sig e. ground (arith, bytes_equal_refl (x ∷ msg));
  signature_nonempty = λ x msg sig e. ground arith;
}

abbrev private_of : FilePvKey → Option Bytes
private_of k = k.priv_key

abbrev key_with : Bytes → FilePvKey
key_with priv = record { address = []; pub_key = none; priv_key = some priv; file_path = [] }

-- A disk holds one file at most; a key's text is its private key.
abbrev pub files : Files
files = record {
  Disk = Option Bytes;
  marshal = private_of;
  unmarshal = λ b. some (key_with b);
  read = λ d path. d;
  file_exists = λ d path. elim d [ none ↦ false | some _ ↦ true ];
  write = λ d path b. some (some b);
}

pub files_laws : FilesLaws files
files_laws = record {
  read-write = λ d d' path b e. ground arith;
  file_exists-write = λ d d' path b e. ground arith;
  unmarshal-marshal = λ k b e. (key_with b, refl, sym e);
}

abbrev keys : ℕ → ℕ
keys i = i

abbrev path : Bytes
path = codes "key.json"

abbrev pub own_pv : FilePv
own_pv = record {
  key = record {
    address = 0 ∷ [];
    pub_key = some (0 ∷ []);
    priv_key = some (0 ∷ []);
    file_path = path;
  };
}

first_start : load_or_gen_file_pv suite files keys none path ≡ ok (own_pv, some (0 ∷ []))
unfolding load_or_gen_file_pv save pub_key Bls.address gen_file_pv gen_priv_key
first_start = refl

load_or_gen_file_pv_twice_example :
    load_or_gen_file_pv suite files (λ i. i + 5) (some (0 ∷ [])) path ≡ ok (own_pv, some (0 ∷ []))
load_or_gen_file_pv_twice_example =
    load_or_gen_file_pv_twice suite files files_laws keys (λ i. i + 5) path own_pv none
      (some (0 ∷ [])) first_start

-- The share of the node with index 2 is 7 + 7 * 2, as the curve's numbers are not reduced.
gen_file_pv_with_seed_and_idx_primary_example :
    gen_file_pv_with_seed_and_idx line_curve suite path (pos 1) (pos 2) (pos 0)
    ≡ new_file_pv suite (kyber2_priv_key suite 21) path
gen_file_pv_with_seed_and_idx_primary_example =
    gen_file_pv_with_seed_and_idx_primary line_curve suite suite_laws path (pos 2) (pos 0) (λ e. cc)

-- A node that checks signatures as the suite does.
abbrev bls_env : Env
bls_env = record node_env {
  ext = record node_env.ext { verify_signature = verify_signature suite };
}

abbrev pub listener : ConsensusState bls_env
listener = record {
  cur_slot = machine.cur_slot;
  last_slot = machine.last_slot;
  step = machine.step;
  val_index = machine.val_index;
  validators = machine.validators;
  proposer = machine.proposer;
  proposal = machine.proposal;
  vote_set = machine.vote_set;
  state = machine.state;
  last_state = machine.last_state;
  world = machine.world;
  db = machine.db;
  future_proposal = machine.future_proposal;
  cur_slot_start_time = machine.cur_slot_start_time;
  clock_slot = machine.clock_slot;
  effects = [];
}

abbrev vote : Vote
vote = vote_of 1 0

abbrev signed : Vote
signed = record vote { signature = 0 ∷ vote_sign_bytes bls_env.ext listener.state.chain_id vote }

-- The text of a vote is empty, and stands for the one vote that is sent.
abbrev wire : Wire
wire = record {
  marshal_vote = λ _. some [];
  unmarshal_vote = λ _. some signed;
  marshal_proposal = λ _. some [];
  unmarshal_proposal = λ b. if is_empty b then some none else none;
}

own_made : new_file_pv suite (0 ∷ []) path ≡ ok own_pv
unfolding new_file_pv pub_key Bls.address
own_made = refl

is_validator :
    get_by_address listener.validators vote.validator_address ≡ (pos 0, some (validator_of 0))
unfolding get_by_address bytes_equal wrap32
is_validator = refl

signs : sign_vote suite bls_env.ext own_pv listener.state.chain_id vote ≡ ok signed
unfolding sign_vote Bls.sign
signs = refl

abbrev with_vote : SlotVoteSet
with_vote =
    put_slot make_slot_vote_set (pos 1) (record { block_hash = codes "a"; votes = signed ∷ [] })

is_added : add_slot_vote listener.vote_set signed ≡ ok with_vote
unfolding add_slot_vote
is_added = refl

gossip_vote_example :
    (mi : MsgInfo) × ((receive wire
        (broadcast_vote wire signed).channel
        (codes "p")
        (broadcast_vote wire signed).bytes
        (record { peers = []; peer_msg_queue = [] })).peer_msg_queue
      ≡ mi ∷ [])
    × (receive_all bls_env ((pos 5, mi) ∷ []) listener
        ≡ ok (emit bls_env (fire_new_vote signed) (record listener { vote_set = with_vote })))
    × (on_effect wire bls_env listener (fire_new_vote signed) ≡ broadcast_vote wire signed ∷ [])
gossip_vote_example =
    gossip_vote suite suite_laws wire bls_env (0 ∷ []) path (codes "p") own_pv vote signed (pos 5)
      listener (validator_of 0) with_vote (λ key msg sig. refl) own_made is_validator refl signs
      is_added ([], refl, refl)
