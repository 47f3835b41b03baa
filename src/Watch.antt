-- ===== src/Watch.antt =====
-- conn.go: watchContextCancel, run beside the method that started it (QueryContext, ExecContext).
-- The method, the goroutine of the watcher and the environment move one at a time, in any order.
pub mod Invariant
pub mod Ends
pub mod Finishes
pub mod Race
pub mod Tests
use cubrid_go.Prelude.{ℕ, suc, ◌≡◌, Bool, true, false}

-- The deadline of the socket: the zero time, the context's, or a `time.Now()` that has gone by.
pub data Deadline : Type 0 where
  zero_time : Deadline
  from_context : Deadline
  gone_by : Deadline

-- Where the method is: in its body, at most so many calls of the socket before the body's end;
-- blocked in such a call, with so many behind it; behind `SetDeadline(time.Time{})`; behind
-- `stopWatch()`. The deferred calls run in this order, the last deferred first.
pub data Method : Type 0 where
  in_body : ℕ → Method
  waiting : ℕ → Method
  deadline_cleared : Method
  returned : Method

-- Where the goroutine is: at the select, behind `<-ctx.Done()`, or at its end.
pub data Watcher : Type 0 where
  selecting : Watcher
  woken : Watcher
  ended : Watcher

-- `cancelled` and `done_closed` say whether the channels `ctx.Done()` and `done` are closed.
pub record Watch : Type 0 where
  pub deadline : Deadline
  pub cancelled : Bool
  pub done_closed : Bool
  pub method : Method
  pub watcher : Watcher

-- As the method's body begins, with the deadline that applyContextDeadline left and a bound on the
-- calls of the socket: 3 for QueryContext, one Write and two ReadFull, 12 for ExecContext.
abbrev pub start : Deadline → ℕ → Watch
start d calls = record {
  deadline = d;
  cancelled = false;
  done_closed = false;
  method = in_body calls;
  watcher = selecting;
}

-- What the two goroutines do by themselves. A call of the socket blocks, and fails once the deadline
-- has gone by; the body may end between any two calls. Where both channels are closed, the select
-- takes either.
pub data Move : Watch → Watch → Type 0 where
  call : (s : Watch) (k : ℕ) → s.method ≡ in_body (suc k) → Move s (record s { method = waiting k })
  fail :
      (s : Watch) (k : ℕ)
      → s.method ≡ waiting k
      → s.deadline ≡ gone_by
      → Move s (record s { method = in_body k })
  clear :
      (s : Watch) (k : ℕ)
      → s.method ≡ in_body k
      → Move s (record s { deadline = zero_time; method = deadline_cleared })
  stop :
      (s : Watch)
      → s.method ≡ deadline_cleared
      → Move s (record s { done_closed = true; method = returned })
  wake :
      (s : Watch)
      → s.watcher ≡ selecting
      → s.cancelled ≡ true
      → Move s (record s { watcher = woken })
  expire :
      (s : Watch) → s.watcher ≡ woken → Move s (record s { deadline = gone_by; watcher = ended })
  quit :
      (s : Watch)
      → s.watcher ≡ selecting
      → s.done_closed ≡ true
      → Move s (record s { watcher = ended })

-- The environment: the peer may let a call end, the context may be cancelled, once, and the
-- context's deadline may go by.
pub data Step : Watch → Watch → Type 0 where
  move : {s t : Watch} → Move s t → Step s t
  answer : (s : Watch) (k : ℕ) → s.method ≡ waiting k → Step s (record s { method = in_body k })
  cancel : (s : Watch) → s.cancelled ≡ false → Step s (record s { cancelled = true })
  elapse : (s : Watch) → s.deadline ≡ from_context → Step s (record s { deadline = gone_by })
