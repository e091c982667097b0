-- ===== src/Consensus/SlotClock.antt =====
-- consensus/slot.go: the clock that ends the slots. The runtime's timer, its channel and the routines
-- that wait to write to a channel are part of the state; a routine may be taken in any order. Times and
-- durations are nanoseconds.
pub mod Order
use obrs.Prelude.{ℕ, Bool, true, false, Option, none, some, List, [], ◌∷◌, ◌++◌, if◌then◌else◌}
use obrs.Prelude.Int.{ℤ, pos}
use obrs.Types.Ltime.{LTime, update}
use obrs.Consensus.Machine.{round_step_slot}

-- timeoutInfo of consensus/state.go
pub record TimeoutInfo : Type 0 where
  pub duration : ℤ
  pub slot : LTime
  pub step : ℕ

-- `timer` is what a running timer was set to, `fired` what its channel holds; `timer_chan` and
-- `tock_chan` are what routines wait to write.
pub record SlotClock : Type 0 where
  pub curslot : LTime
  pub last_upt_time : ℤ
  pub last_duration : ℤ
  pub timer : Option ℤ
  pub fired : Option ℤ
  pub timer_chan : List ℤ
  pub tock_chan : List TimeoutInfo

-- A hundred seconds
abbrev pub first_duration : ℤ
first_duration = pos 100_000_000_000

unfoldable pub new_slot_clock : LTime → ℤ → SlotClock
new_slot_clock init_slot now = record {
  curslot = init_slot;
  last_upt_time = now;
  last_duration = first_duration;
  timer = some first_duration;
  fired = none;
  timer_chan = [];
  tock_chan = [];
}

-- GetSlot, GetLastUptTime and GetLastDuration
unfoldable pub get_slot : SlotClock → LTime
get_slot c = c.curslot

unfoldable pub get_last_upt_time : SlotClock → ℤ
get_last_upt_time c = c.last_upt_time

unfoldable pub get_last_duration : SlotClock → ℤ
get_last_duration c = c.last_duration

-- Whether Stop of the timer finds it running.
abbrev pub is_running : Option ℤ → Bool
is_running none = false
is_running (some _) = true

-- ResetClock: the channel of a timer that has run out is emptied.
unfoldable pub reset_clock : ℤ → SlotClock → SlotClock
reset_clock after c = record c {
  last_duration = after;
  fired = if is_running c.timer then c.fired else none;
  timer = some after;
}

-- Stop, on the timer
unfoldable pub stop : SlotClock → SlotClock
stop c = record c { timer = none }

-- The running timer runs out: its channel holds one value at most.
unfoldable pub expire : ℤ → SlotClock → SlotClock
expire now c = record c { timer = none; fired = elim c.fired [ none ↦ some now | some t ↦ some t ] }

-- The routine of OnStart takes the value of the timer's channel and hands it on.
unfoldable pub forward : ℤ → SlotClock → SlotClock
forward now c = record c { fired = none; timer_chan = c.timer_chan ++ now ∷ [] }

-- The routine of OnStart takes a time from the second channel, which leaves the others: the slot ends.
unfoldable pub tick : ℤ → List ℤ → SlotClock → SlotClock
tick now others c =
    let next = update c.curslot (pos 1) in
    record c {
      timer_chan = others;
      last_upt_time = now;
      curslot = next;
      tock_chan =
          c.tock_chan
          ++ record { duration = c.last_duration; slot = next; step = round_step_slot } ∷ [];
    }

-- The reader of Chan takes a time-out, which leaves the others.
unfoldable pub deliver : List TimeoutInfo → SlotClock → SlotClock
deliver others c = record c { tock_chan = others }
