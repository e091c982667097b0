-- ===== src/Consensus/SlotClock/Order.antt =====
-- Runs of the clock of consensus/slot.go that is set again while its timer runs or the timer's value
-- still waits in its channel, or once for each time-out that was read. enterNewSlot of consensus/state.go
-- does the last, and reviseSlotTime and OnStart of consensus/reactor.go the first, as long as they come
-- before the timer has run out and its value has been taken: a start that waits more than a hundred
-- seconds for the time of genesis, or a slot that ends between the two calls of a new slot, may not.
use obrs.Prelude.{
  ℕ, zero, suc, ◌+◌, ◌≤◌, ◌≡◌, refl, sym, ap, ◌∙◌, Bool, true, false, Option, none, some, List, [],
  ◌∷◌, ◌++◌, map, arith, length, length-append,
}
use obrs.Prelude.Int.{ℤ, pos}
use obrs.Types.Ltime.{LTime, update}
use obrs.Consensus.Machine.{round_step_slot}
use obrs.Consensus.SlotClock.{
  SlotClock, TimeoutInfo, new_slot_clock, reset_clock, expire, forward, tick, deliver,
}

-- The clock, whether its reader has a time-out in hand, the number of slots that have ended, and the
-- slots of the time-outs that were read, the last one first.
pub record Watched : Type 0 where
  pub clock : SlotClock
  pub in_hand : Bool
  pub ended : ℕ
  pub out : List LTime

pub data Step (w : Watched) : Watched → Type 0 where
  expires :
      (now : ℤ) (d : ℤ) → w.clock.timer ≡ some d → Step w (record w { clock = expire now w.clock })
  forwards :
      (now : ℤ) → w.clock.fired ≡ some now → Step w (record w { clock = forward now w.clock })
  ticks :
      (now : ℤ) (before after : List ℤ)
      → w.clock.timer_chan ≡ before ++ now ∷ after
      → Step w (record w { clock = tick now (before ++ after) w.clock; ended = suc w.ended })
  delivers :
      (ti : TimeoutInfo) (before after : List TimeoutInfo)
      → w.clock.tock_chan ≡ before ++ ti ∷ after
      → w.in_hand ≡ false
      → Step w (record w {
        clock = deliver (before ++ after) w.clock;
        in_hand = true;
        out = ti.slot ∷ w.out;
      })
  resets_after :
      (d : ℤ)
      → w.in_hand ≡ true
      → Step w (record w { clock = reset_clock d w.clock; in_hand = false })
  resets_running :
      (d d' : ℤ) → w.clock.timer ≡ some d' → Step w (record w { clock = reset_clock d w.clock })
  resets_fired :
      (d now : ℤ)
      → w.clock.timer ≡ none
      → w.clock.fired ≡ some now
      → Step w (record w { clock = reset_clock d w.clock })

pub data Run (w : Watched) : Watched → Type 0 where
  start : Run w w
  then_step : {mid w' : Watched} → Run w mid → Step mid w' → Run w w'

abbrev pub watched : LTime → ℤ → Watched
watched init_slot now = record {
  clock = new_slot_clock init_slot now;
  in_hand = false;
  ended = 0;
  out = [];
}

-- The slot after a number of slots.
unfoldable pub slot_after : LTime → ℕ → LTime
slot_after init zero = init
slot_after init (suc n) = update (slot_after init n) (pos 1)

-- The slots after the first one, the last one first.
unfoldable pub slots_after : LTime → ℕ → List LTime
slots_after init zero = []
slots_after init (suc n) = slot_after init (suc n) ∷ slots_after init n

abbrev one_if : Bool → ℕ
one_if true = 1
one_if false = 0

abbrev held : Option ℤ → ℕ
held none = 0
held (some _) = 1

-- Where the next time-out may be: the timer, the channels, the reader's hand.
abbrev load : Watched → ℕ
load w =
    held w.clock.timer
    + held w.clock.fired
    + length w.clock.timer_chan
    + length w.clock.tock_chan
    + one_if w.in_hand

abbrev pub slots_of : List TimeoutInfo → List LTime
slots_of tis = map (λ (ti : TimeoutInfo). ti.slot) tis

record InOrder (init : LTime) (w : Watched) : Type 0 where
  single : load w ≡ 1
  slot : w.clock.curslot ≡ slot_after init w.ended
  order : slots_of w.clock.tock_chan ++ w.out ≡ slots_after init w.ended

nil-of-length {ℓ} : {A : Type ℓ} (xs : List A) → length xs ≡ 0 → xs ≡ []
nil-of-length [] h = refl
nil-of-length (x ∷ xs) h = absurd (omega (arith, h))

length-middle {ℓ} :
    {A : Type ℓ} (l before after : List A) (a : A)
    → l ≡ before ++ a ∷ after
    → length l ≡ length before + length after + 1
length-middle l before after a e = omega (arith, ap length e, length-append before (a ∷ after))

-- A time-out that is written to an empty channel is the only one, and one read from a channel of one
-- leaves none.
slots_of-write :
    (tis : List TimeoutInfo) (ti : TimeoutInfo) (out slots : List LTime)
    → length tis ≡ 0
    → slots_of tis ++ out ≡ slots
    → slots_of (tis ++ ti ∷ []) ++ out ≡ ti.slot ∷ slots
slots_of-write [] ti out slots e h = ap (λ (l : List LTime). ti.slot ∷ l) h
slots_of-write (x ∷ xs) ti out slots e h = absurd (omega (arith, e))

slots_of-read :
    (before after : List TimeoutInfo) (ti : TimeoutInfo) (out : List LTime)
    → length before + length after ≡ 0
    → slots_of (before ++ after) ++ ti.slot ∷ out ≡ slots_of (before ++ ti ∷ after) ++ out
slots_of-read [] [] ti out e = refl
slots_of-read [] (x ∷ xs) ti out e = absurd (omega (arith, e))
slots_of-read (x ∷ xs) after ti out e = absurd (omega (arith, e))

tick-InOrder :
    (init : LTime) (w : Watched) (now : ℤ) (before after : List ℤ)
    → w.clock.timer_chan ≡ before ++ now ∷ after
    → InOrder init w
    → InOrder init (record w { clock = tick now (before ++ after) w.clock; ended = suc w.ended })
unfolding tick slot_after slots_after
tick-InOrder init w now before after e h =
    let many = length-middle w.clock.timer_chan before after now e in
    let next = update w.clock.curslot (pos 1) in
    let on = ap (λ (t : LTime). update t (pos 1)) h.slot in
    record {
      single = ground (
        arith,
        many,
        h.single,
        length-append before after,
        length-append w.clock.tock_chan
            (record { duration = w.clock.last_duration; slot = next; step = round_step_slot } ∷ []),
      );
      slot = on;
      order =
          slots_of-write w.clock.tock_chan _ w.out (slots_after init w.ended)
            (omega (arith, h.single, many)) h.order
          ∙ ap (λ (t : LTime). t ∷ slots_after init w.ended) on;
    }

deliver-InOrder :
    (init : LTime) (w : Watched) (ti : TimeoutInfo) (before after : List TimeoutInfo)
    → w.clock.tock_chan ≡ before ++ ti ∷ after
    → w.in_hand ≡ false
    → InOrder init w
    → InOrder init (record w {
      clock = deliver (before ++ after) w.clock;
      in_hand = true;
      out = ti.slot ∷ w.out;
    })
unfolding deliver
deliver-InOrder init w ti before after e free h =
    let many = length-middle w.clock.tock_chan before after ti e in
    record {
      single = ground (arith, many, h.single, length-append before after);
      slot = h.slot;
      order =
          slots_of-read before after ti w.out (omega (arith, h.single, many))
          ∙ ap (λ (tis : List TimeoutInfo). slots_of tis ++ w.out) (sym e)
          ∙ h.order;
    }

Step-InOrder : (init : LTime) {w w' : Watched} → Step w w' → InOrder init w → InOrder init w'
unfolding expire forward reset_clock
Step-InOrder init (expires now d e) h = record {
  single = ground (arith, h.single);
  slot = h.slot;
  order = h.order;
}
Step-InOrder init {w} (forwards now e) h = record {
  single = ground (arith, h.single, length-append w.clock.timer_chan (now ∷ []));
  slot = h.slot;
  order = h.order;
}
Step-InOrder init {w} (ticks now before after e) h = tick-InOrder init w now before after e h
Step-InOrder init {w} (delivers ti before after e free) h =
    deliver-InOrder init w ti before after e free h
Step-InOrder init (resets_after d e) h = record {
  single = ground (arith, h.single);
  slot = h.slot;
  order = h.order;
}
Step-InOrder init (resets_running d d' e) h = record {
  single = ground (arith, h.single);
  slot = h.slot;
  order = h.order;
}
Step-InOrder init (resets_fired d now e e') h = record {
  single = ground (arith, h.single);
  slot = h.slot;
  order = h.order;
}

Run-InOrder : (init : LTime) {w w' : Watched} → Run w w' → InOrder init w → InOrder init w'
Run-InOrder init start h = h
Run-InOrder init (then_step r st) h = Step-InOrder init st (Run-InOrder init r h)

-- From a new clock on that is set again only while its timer runs or the timer's value still waits in its
-- channel, or once for each time-out that was read: the slots of the time-outs that were read and of the
-- one that may wait are the initial slot's successors in order, each one once and none left out, up to the
-- clock's slot.
pub Run-slots :
    (init : LTime) (now : ℤ) (w : Watched)
    → Run (watched init now) w
    → (w.clock.curslot ≡ slot_after init w.ended)
      × (slots_of w.clock.tock_chan ++ w.out ≡ slots_after init w.ended)
      × (length w.clock.tock_chan ≤ 1)
unfolding new_slot_clock slot_after slots_after
Run-slots init now w r =
    let h = Run-InOrder init r (record { single = refl; slot = refl; order = refl }) in
    (h.slot, h.order, omega (arith, h.single))
