-- ===== src/Consensus/Machine/Progress.antt =====
-- consensus/state.go goes on: a slot without a proposal is passed through by a node that is not its
-- leader, event by event, each one the event that the step before has emitted.
use obrs.Prelude.{
  ℕ, zero, suc, ◌%◌, ◌<◌, ◌≡◌, refl, sym, subst, ◌∙◌, false, Option, none, some, List, [], ◌∷◌,
  ◌++◌, arith, length, get_elem?,
}
use obrs.Prelude.Int.{ℤ, pos, rem_ℤ}
use obrs.Prelude.Bytes.{Bytes}
use obrs.Prelude.Outcome.{ok}
use obrs.Types.Ltime.{LTime, mod_len}
use obrs.Types.Tx.{Tx}
use obrs.Types.Block.{fill}
use obrs.Types.Validators.{Validator, ValidatorSet, get_proposer, get_by_index}
use obrs.Consensus.Machine.{
  Env, ConsensusState, Effect, event, emit, update_step, reset_clock, slot_time_out, RoundEvent,
  has_proposal, decide_proposer, is_proposer, same_key, round_step_slot, round_step_apply,
  round_step_wait, round_event_new_slot, round_event_apply, round_event_propose,
}
use obrs.Consensus.Machine.Handlers.{
  enter_new_slot, enter_apply, enter_propose, handle_event, finish_apply, opened, revise_slot_time,
}

get_elem?-lt {ℓ} :
    {A : Type ℓ} (xs : List A) (i : ℕ) → i < length xs → (a : A) × (get_elem? xs i ≡ some a)
get_elem?-lt [] i h = absurd (omega (arith, h))
get_elem?-lt (x ∷ xs) zero h = (x, refl)
get_elem?-lt (x ∷ xs) (suc i) h = get_elem?-lt xs i (omega arith)

-- A set that is not empty has a leader for every slot from 0 on.
pub get_proposer-total :
    (vals : ValidatorSet) (n : ℕ)
    → 0 < length vals
    → (leader : Validator) × (get_proposer vals (pos n) ≡ ok (some leader))
unfolding get_proposer mod_len rem_ℤ
get_proposer-total [] n h = absurd (omega (arith, h))
get_proposer-total (v ∷ vals) n h =
    let (leader, e) = get_elem?-lt (v ∷ vals) (n % length (v ∷ vals)) (grind arith) in
    (leader, rw e refl)

module _ (env : Env) where
  abbrev Cs : Type 0
  Cs = ConsensusState env

  -- The last effect is the event of a kind, of the current slot.
  abbrev pub Emits : ℕ → Cs → Type 0
  Emits kind cs =
      (before : List Effect) × (cs.effects
        ≡ before ++ event (record { event_type = kind; slot = cs.cur_slot }) ∷ [])

  abbrev pub at_event : ℕ → LTime → RoundEvent
  at_event kind slot = record { event_type = kind; slot = slot }

  -- Where a slot has been entered.
  record IsEntered (cs : Cs) (leader : Validator) (cs' : Cs) : Type 0 where
    slot : cs'.cur_slot ≡ cs.clock_slot
    step : cs'.step ≡ round_step_slot
    led : cs'.proposer ≡ some leader
    same_proposal : cs'.proposal ≡ cs.proposal
    same_world : cs'.world ≡ cs.world
    same_set : cs'.validators ≡ cs.validators
    same_index : cs'.val_index ≡ cs.val_index
    emits : Emits round_event_apply cs'

  revise-frame :
      (now : ℤ) (cs : Cs)
      → ((revise_slot_time env now cs).cur_slot ≡ cs.cur_slot)
        × ((revise_slot_time env now cs).proposer ≡ cs.proposer)
        × ((revise_slot_time env now cs).proposal ≡ cs.proposal)
        × ((revise_slot_time env now cs).world ≡ cs.world)
        × ((revise_slot_time env now cs).validators ≡ cs.validators)
        × ((revise_slot_time env now cs).val_index ≡ cs.val_index)
  unfolding revise_slot_time
  revise-frame now cs =
      (ground arith, ground arith, ground arith, ground arith, ground arith, ground arith)

  enter_new_slot-IsEntered :
      (now : ℤ) (cs : Cs) (leader : Validator)
      → get_proposer cs.validators cs.clock_slot ≡ ok (some leader)
      → (cs' : Cs) × (enter_new_slot env now cs ≡ ok cs') × IsEntered cs leader cs'
  unfolding enter_new_slot decide_proposer
  enter_new_slot-IsEntered now cs leader chosen =
      let mid : Cs = emit env (reset_clock slot_time_out) (record cs {
        last_slot = cs.cur_slot;
        cur_slot = cs.clock_slot;
        cur_slot_start_time = now;
        proposer = some leader;
      }) in
      let revised = revise_slot_time env now mid in
      let f = revise-frame now mid in
      (
        update_step env round_step_slot
            (emit env (event (at_event round_event_apply revised.cur_slot)) revised),
        rw chosen refl,
        record {
          slot = f.0;
          step = refl;
          led = f.1;
          same_proposal = f.2;
          same_world = f.3;
          same_set = f.4;
          same_index = f.5;
          emits = (revised.effects, refl);
        },
      )

  record IsOpen (cs cs' : Cs) : Type 0 where
    slot : cs'.cur_slot ≡ cs.cur_slot
    step : cs'.step ≡ round_step_apply
    led : cs'.proposer ≡ cs.proposer
    bare : has_proposal env cs' ≡ false
    same_set : cs'.validators ≡ cs.validators
    same_index : cs'.val_index ≡ cs.val_index
    emits : Emits round_event_propose cs'

  enter_apply-IsOpen :
      (fuel : ℕ) (now : ℤ) (cs : Cs) (leader : Validator)
      → cs.step ≡ round_step_slot
      → cs.proposer ≡ some leader
      → has_proposal env cs ≡ false
      → (cs' : Cs) × (enter_apply env fuel now cs ≡ ok cs') × IsOpen cs cs'
  unfolding enter_apply finish_apply has_proposal fill
  enter_apply-IsOpen fuel now cs leader here led bare = (
    opened env cs leader,
    ground arith,
    record {
      slot = refl;
      step = refl;
      led = refl;
      bare = ground arith;
      same_set = refl;
      same_index = refl;
      emits = (cs.effects, refl);
    },
  )

  has_proposal-same :
      (cs cs' : Cs)
      → cs'.proposal ≡ cs.proposal
      → cs'.world ≡ cs.world
      → has_proposal env cs' ≡ has_proposal env cs
  unfolding has_proposal
  has_proposal-same cs cs' p w = ground arith

  -- The node is not the leader: it is not in the set, or has another key than the leader's.
  abbrev pub Follows : Validator → Option Validator → Type 0
  Follows leader none = Unit
  Follows leader (some own) =
      (key : Bytes) × (leader.pub_key ≡ some key) × (same_key env key own.pub_key ≡ false)

  is_proposer-Follows :
      (cs : Cs) (leader : Validator) (own : Option Validator)
      → cs.proposer ≡ some leader
      → Follows leader own
      → is_proposer env cs own ≡ ok (cs, false)
  unfolding is_proposer
  is_proposer-Follows cs leader none led f = refl
  is_proposer-Follows cs leader (some own) led (key, has_key, other) = ground arith

  enter_propose-Follows :
      (now : ℤ) (txs : List Tx) (cs : Cs) (leader : Validator)
      → cs.step ≡ round_step_apply
      → cs.proposer ≡ some leader
      → Follows leader (get_by_index cs.validators cs.val_index)
      → enter_propose env now txs cs ≡ ok (update_step env round_step_wait cs)
  unfolding enter_propose
  enter_propose-Follows now txs cs leader here led f =
      ground (arith, is_proposer-Follows cs leader (get_by_index cs.validators cs.val_index) led f)

  handle_new_slot :
      (fuel : ℕ) (now : ℤ) (txs : List Tx) (cs c : Cs)
      → enter_new_slot env now cs ≡ ok c
      → handle_event env fuel now txs (at_event round_event_new_slot cs.clock_slot) cs ≡ ok c
  unfolding handle_event
  handle_new_slot fuel now txs cs c h = ground arith

  handle_apply :
      (fuel : ℕ) (now : ℤ) (txs : List Tx) (slot : LTime) (cs c : Cs)
      → cs.cur_slot ≡ slot
      → enter_apply env fuel now cs ≡ ok c
      → handle_event env fuel now txs (at_event round_event_apply slot) cs ≡ ok c
  unfolding handle_event
  handle_apply fuel now txs slot cs c e h = ground arith

  handle_propose :
      (fuel : ℕ) (now : ℤ) (txs : List Tx) (slot : LTime) (cs c : Cs)
      → cs.cur_slot ≡ slot
      → enter_propose env now txs cs ≡ ok c
      → handle_event env fuel now txs (at_event round_event_propose slot) cs ≡ ok c
  unfolding handle_event
  handle_propose fuel now txs slot cs c e h = ground arith

  own_of-same :
      (cs cs' : Cs)
      → cs'.validators ≡ cs.validators
      → cs'.val_index ≡ cs.val_index
      → get_by_index cs'.validators cs'.val_index ≡ get_by_index cs.validators cs.val_index
  own_of-same cs cs' v i = ground arith

  -- The four states of a node in a slot: after the time-out, and after each event.
  pub record Passes (fuel : ℕ) (now : ℤ) (txs : List Tx) (cs : Cs) : Type 0 where
    pub entered : Cs
    pub opened : Cs
    pub waiting : Cs
    pub enters :
        handle_event env fuel now txs (at_event round_event_new_slot cs.clock_slot) cs ≡ ok entered
    pub opens :
        handle_event env fuel now txs (at_event round_event_apply cs.clock_slot) entered ≡ ok opened
    pub waits :
        handle_event env fuel now txs (at_event round_event_propose cs.clock_slot) opened
        ≡ ok waiting
    pub apply_emitted : Emits round_event_apply entered
    pub propose_emitted : Emits round_event_propose opened
    pub slot : waiting.cur_slot ≡ cs.clock_slot
    pub step : waiting.step ≡ round_step_wait
    pub bare : has_proposal env waiting ≡ false

  -- A node that holds no proposal and is not the leader of its clock's slot, which is not negative, with
  -- validators in its set, enters the slot, opens it and waits in it, handling without an error or a
  -- panic the event of a new slot and the two events that the handlers emit; it holds no proposal then.
  pub slot_Passes :
      (fuel : ℕ) (now : ℤ) (txs : List Tx) (n : ℕ) (cs : Cs)
      → 0 < length cs.validators
      → cs.clock_slot ≡ pos n
      → has_proposal env cs ≡ false
      → ((leader : Validator)
          → get_proposer cs.validators cs.clock_slot ≡ ok (some leader)
          → Follows leader (get_by_index cs.validators cs.val_index))
      → Passes fuel now txs cs
  slot_Passes fuel now txs n cs many at bare follows =
      let (leader, chosen') = get_proposer-total cs.validators n many in
      let chosen : get_proposer cs.validators cs.clock_slot ≡ ok (some leader) = rw at chosen' in
      let (c1, e1, i1) = enter_new_slot-IsEntered now cs leader chosen in
      let bare1 : has_proposal env c1 ≡ false =
        has_proposal-same cs c1 i1.same_proposal i1.same_world ∙ bare in
      let (c2, e2, i2) = enter_apply-IsOpen fuel now c1 leader i1.step i1.led bare1 in
      let own =
        own_of-same c1 c2 i2.same_set i2.same_index ∙ own_of-same cs c1 i1.same_set i1.same_index in
      let e3 =
        enter_propose-Follows now txs c2 leader i2.step (i2.led ∙ i1.led)
          (subst (Follows leader) (sym own) (follows leader chosen)) in
      record {
        entered = c1;
        opened = c2;
        waiting = update_step env round_step_wait c2;
        enters = handle_new_slot fuel now txs cs c1 e1;
        opens = handle_apply fuel now txs cs.clock_slot c1 c2 i1.slot e2;
        waits = handle_propose fuel now txs cs.clock_slot c2 _ (i2.slot ∙ i1.slot) e3;
        apply_emitted = i1.emits;
        propose_emitted = i2.emits;
        slot = i2.slot ∙ i1.slot;
        step = refl;
        bare = has_proposal-same c2 _ refl refl ∙ i2.bare;
      }
