-- ===== src/Consensus/Reactor/StartTime.antt =====
-- OnStart of consensus/reactor.go: when a node's first slot begins. Times are nanoseconds from the
-- genesis time on, which OnStart has waited for. The quotients are floats in the source; below 2 ^ 43
-- seconds their error is too small to change the rounding up.
use obrs.Prelude.{ℕ, ◌+◌, ◌-◌, ◌*◌, ◌/◌, ◌%◌, ◌≤◌, ◌<◌, ◌≡◌, arith}

abbrev pub slot_diffs : ℕ
slot_diffs = 3

-- SlotTimeOut, in seconds and in nanoseconds
abbrev pub slot_seconds : ℕ
slot_seconds = 2

abbrev pub second : ℕ
second = 1_000_000_000

abbrev milliseconds : ℕ → ℕ
milliseconds t = t / 1_000_000

-- diffSlot
unfoldable pub diff_slot : ℕ → ℕ
diff_slot now = (milliseconds now + (slot_seconds * 1000 - 1)) / (slot_seconds * 1000) + slot_diffs

-- startTime, and the time until then, which the clock is set to
unfoldable pub start_time : ℕ → ℕ
unfolding diff_slot
start_time now = diff_slot now * slot_seconds * second

unfoldable pub wait_time : ℕ → ℕ
unfolding start_time
wait_time now = start_time now - now

-- The first slot of a node begins a whole number of slots after the genesis time, less than eight
-- seconds after the node starts, and at least six but for the millisecond that is cut off.
pub start_time_bounds :
    (now : ℕ)
    → (now + wait_time now ≡ start_time now)
      × (start_time now % (slot_seconds * second) ≡ 0)
      × (6 * second ≤ wait_time now + 1_000_000)
      × (wait_time now < 8 * second)
unfolding wait_time
start_time_bounds now = (omega arith, omega arith, omega arith, omega arith)
