-- ===== src/Consensus/Machine/Links/Fits.antt =====
-- The states of a node of consensus/state.go whose tree is linked by the hashes of its blocks, and whose
-- proposals are other blocks than the root.
use obrs.Prelude.{ℕ, ◌<◌, ◌≡◌, ◌≢◌, refl, sym, subst, ◌∙◌, Option, none, some, arith}
use obrs.Prelude.Outcome.{deref}
use obrs.Types.Ltime.{LTime}
use obrs.Types.External.{External}
use obrs.Types.Block.{Block, hash_block}
use obrs.Types.Memory.{Memory}
use obrs.Types.Validators.{Validator, get_proposer}
use obrs.State.{World, hash_shared}
use obrs.State.Links.{IsHashed}
use obrs.State.Executor.Links.{root_of, IsSound, Steady, Steady-Evolves, hash_block-IsHashed}
use obrs.Consensus.Machine.{Env, ConsensusState, is_proposer, with_proposer, decide_proposer}
use obrs.Consensus.Machine.Frame.{KeepsIn, keeps_ok, keeps_then, keeps_after}

pub hash_shared-IsHashed :
    (ext : External) (b : ℕ) (m : Memory) → IsHashed ((hash_shared ext b m).block_at b)
unfolding hash_shared
hash_shared-IsHashed ext b m =
    let same : (hash_shared ext b m).block_at b ≡ hash_block ext (m.block_at b) = ground arith in
    subst IsHashed (sym same) (hash_block-IsHashed ext (m.block_at b))

-- A block of the memory other than the one at the root.
abbrev pub IsApart : ℕ → World → ℕ → Type 0
IsApart root w b = (b ≢ root) × (b < w.memory.next_block)

-- What is asked of the block of the proposal: something that steady changes keep and a hash gives.
pub record Demand : Type 1 where
  pub Meets : Block → Type 0
  pub of_hash : (b : Block) → IsHashed b → Meets b
  pub steady :
      (w w' : World) (c : ℕ)
      → Steady w w'
      → c < w.memory.next_block
      → Meets (w.memory.block_at c)
      → Meets (w'.memory.block_at c)

-- The world is sound, its root is the given one, and the proposals are of other blocks.
pub record Fits (root : ℕ) (d : Demand) (w : World) (proposal : Option ℕ)
    (future : LTime → Option ℕ) : Type 0 where
  pub sound : IsSound w
  pub same_root : root_of w ≡ root
  pub current : (b : ℕ) → proposal ≡ some b → IsApart root w b × d.Meets (w.memory.block_at b)
  pub later : (s : LTime) (b : ℕ) → future s ≡ some b → IsApart root w b

module _ (env : Env) where
  -- The world and the proposals.
  abbrev pub parts : ConsensusState env → World × Option ℕ × (LTime → Option ℕ)
  parts cs = (cs.world, cs.proposal, cs.future_proposal)

  pub decide_proposer-KeepsParts :
      (cs : ConsensusState env) → KeepsIn env parts (λ c. c) cs (decide_proposer env cs)
  unfolding decide_proposer
  decide_proposer-KeepsParts cs =
      keeps_after env parts (λ c. c) cs (get_proposer cs.validators cs.cur_slot) _
        (λ chosen.
          keeps_after env parts (λ c. c) cs (deref chosen) _
            (λ val. keeps_ok env parts (λ c. c) cs _ refl))

  with_proposer-KeepsParts :
      (cs : ConsensusState env) (o : Option Validator)
      → KeepsIn env parts (λ c. c) cs (with_proposer env cs o)
  unfolding with_proposer
  with_proposer-KeepsParts cs none = decide_proposer-KeepsParts cs
  with_proposer-KeepsParts cs (some v) = keeps_ok env parts (λ c. c) cs cs refl

  pub is_proposer-KeepsParts :
      (cs : ConsensusState env) (o : Option Validator)
      → KeepsIn env parts (λ r. r.0) cs (is_proposer env cs o)
  unfolding is_proposer
  is_proposer-KeepsParts cs none = keeps_ok env parts (λ r. r.0) cs _ refl
  is_proposer-KeepsParts cs (some val) =
      keeps_then env parts (λ c. c) (λ r. r.0) cs (with_proposer env cs cs.proposer) _
        (with_proposer-KeepsParts cs cs.proposer)
        (λ mid.
          keeps_after env parts (λ r. r.0) mid (deref mid.proposer) _
            (λ leader.
              keeps_after env parts (λ r. r.0) mid (deref leader.pub_key) _
                (λ key. keeps_ok env parts (λ r. r.0) mid _ refl)))

module _ (env : Env) (root : ℕ) (d : Demand) where
  abbrev Cs : Type 0
  Cs = ConsensusState env

  abbrev pub IsFit : Cs → Type 0
  IsFit cs = Fits root d cs.world cs.proposal cs.future_proposal

  pub moved : (cs : Cs) (w : World) → IsFit cs → Steady cs.world w → IsFit (record cs { world = w })
  moved cs w f k =
      let (mild, r, s) = Steady-Evolves cs.world w f.sound k in
      record {
        sound = s;
        same_root = r ∙ f.same_root;
        current = λ b e.
            let ((x, l), m) = f.current b e in
            ((x, omega (arith, l, mild.more)), d.steady cs.world w b k l m);
        later = λ t b e. let (x, l) = f.later t b e in (x, omega (arith, l, mild.more));
      }
