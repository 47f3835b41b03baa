-- ===== src/Watch/Tests.antt =====
-- Runs of the method and its watcher.
use cubrid_go.Prelude.{◌≤◌, ◌*◌, ◌+◌, ◌≡◌, refl, true, ◌⊎◌, ◌↔◌}
use mathlib.Core.Path.{subst}
use cubrid_go.Watch.{
  Deadline, zero_time, gone_by, in_body, waiting, deadline_cleared, returned, Watcher, ended, Watch,
  start, call, clear, stop, move, cancel, answer,
}
use cubrid_go.Watch.Invariant.{Run, here, then_step, returned-IsLeft}
use cubrid_go.Watch.Ends.{IsOver, Waits, CanMove, watch-ends}
use cubrid_go.Watch.Finishes.{Finishes, watch-Finishes}
use cubrid_go.Watch.Race.{LateRun, expires_behind}

-- QueryContext without a deadline, blocked in its first call, on a peer that is silent.
abbrev blocked : Watch
blocked = record (start zero_time 3) { method = waiting 2 }

block : Run (start zero_time 3) 1 blocked
block = then_step here (move (call (start zero_time 3) 2 refl))

watch-ends_example : (1 ≤ 2 * 3 + 6) × ((IsOver blocked ⊎ Waits blocked) ↔ (¬ CanMove blocked))
watch-ends_example = watch-ends block

abbrev NotGone : Deadline → Type 0
NotGone gone_by = ⊥
NotGone _ = Unit

-- It waits, until the context is cancelled.
blocked-Waits : Waits blocked
blocked-Waits = (2, refl, refl, refl, λ e. subst NotGone e tt)

watch-Finishes_example : Finishes (record blocked { cancelled = true })
watch-Finishes_example = watch-Finishes (then_step block (cancel blocked refl)) refl

abbrev answered : Watch
answered = record (start zero_time 3) { method = in_body 2 }

abbrev all_cleared : Watch
all_cleared = record answered { deadline = zero_time; method = deadline_cleared }

-- The method has returned, and the goroutine has not seen it yet.
abbrev behind : Watch
behind = record all_cleared { done_closed = true; method = returned }

return_first : Run (start zero_time 3) 4 behind
return_first =
    then_step (then_step (then_step block (answer blocked 2 refl)) (move (clear answered 2 refl)))
      (move (stop all_cleared refl))

returned-IsLeft_example :
    (behind.deadline ≡ zero_time) ⊎ ((behind.deadline ≡ gone_by) × (behind.cancelled ≡ true))
returned-IsLeft_example = returned-IsLeft return_first refl

abbrev Differs : Watcher → Type 0
Differs ended = ⊥
Differs _ = Unit

expires_behind_example : LateRun behind
expires_behind_example = expires_behind behind (λ e. subst Differs e tt)
