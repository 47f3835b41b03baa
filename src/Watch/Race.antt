-- ===== src/Watch/Race.antt =====
-- What the deferred calls of conn.go cannot prevent: the watcher expires the socket behind them.
use cubrid_go.Prelude.{ℕ, ◌≡◌, refl, Bool, true, false, suc, ◌≢◌}
use cubrid_go.Watch.{
  gone_by, zero_time, Method, in_body, waiting, answer, deadline_cleared, returned, Watcher,
  selecting, woken, ended, Watch, clear, stop, wake, expire, Step, move, cancel,
}
use cubrid_go.Watch.Invariant.{Run, here, then_step}

-- A run goes on to a state with the method returned and a deadline that has gone by.
pub record LateRun (s : Watch) : Type 0 where
  pub steps : ℕ
  pub last : Watch
  pub run : Run s steps last
  pub method_returned : last.method ≡ returned
  pub late : last.deadline ≡ gone_by

Run-front : {s t : Watch} → Step s t → {n : ℕ} {u : Watch} → Run t n u → Run s (suc n) u
Run-front st here = then_step here st
Run-front st (then_step r last) = then_step (Run-front st r) last

LateRun-front : {s t : Watch} → Step s t → LateRun t → LateRun s
LateRun-front st e = record {
  steps = suc e.steps;
  last = e.last;
  run = Run-front st e.run;
  method_returned = e.method_returned;
  late = e.late;
}

LateRun-woken : (s : Watch) → s.method ≡ returned → s.watcher ≡ woken → LateRun s
LateRun-woken s m w = record {
  steps = 1;
  last = record s { deadline = gone_by; watcher = ended };
  run = then_step here (move (expire s w));
  method_returned = m;
  late = refl;
}

LateRun-called :
    (s : Watch) → s.method ≡ returned → s.watcher ≡ selecting → s.cancelled ≡ true → LateRun s
LateRun-called s m w c =
    LateRun-front (move (wake s w c)) (LateRun-woken (record s { watcher = woken }) m refl)

LateRun-selecting :
    (s : Watch)
    → s.method ≡ returned
    → s.watcher ≡ selecting
    → (c : Bool) → s.cancelled ≡ c
    → LateRun s
LateRun-selecting s m w true c = LateRun-called s m w c
LateRun-selecting s m w false c =
    LateRun-front (cancel s c) (LateRun-called (record s { cancelled = true }) m w refl)

LateRun-returned :
    (s : Watch)
    → s.method ≡ returned
    → (w : Watcher) → s.watcher ≡ w
    → s.watcher ≢ ended
    → LateRun s
LateRun-returned s m selecting w h = LateRun-selecting s m w s.cancelled refl
LateRun-returned s m woken w h = LateRun-woken s m w
LateRun-returned s m ended w h = absurd (h w)

LateRun-cleared : (s : Watch) → s.method ≡ deadline_cleared → s.watcher ≢ ended → LateRun s
LateRun-cleared s m h =
    LateRun-front (move (stop s m))
      (LateRun-returned (record s { done_closed = true; method = returned }) refl s.watcher refl h)

LateRun-body : (s : Watch) (k : ℕ) → s.method ≡ in_body k → s.watcher ≢ ended → LateRun s
LateRun-body s k m h =
    LateRun-front (move (clear s k m))
      (LateRun-cleared (record s { deadline = zero_time; method = deadline_cleared }) refl h)

LateRun-method : (s : Watch) (m : Method) → s.method ≡ m → s.watcher ≢ ended → LateRun s
LateRun-method s returned m h = LateRun-returned s m s.watcher refl h
LateRun-method s deadline_cleared m h = LateRun-cleared s m h
LateRun-method s (in_body k) m h = LateRun-body s k m h
LateRun-method s (waiting k) m h =
    LateRun-front (answer s k m) (LateRun-body (record s { method = in_body k }) k refl h)

-- From every state in which the goroutine of the watcher has not ended, one in which `stopWatch`
-- has been called among them, a run leads to a state with the method returned and a deadline that
-- has gone by on the socket: neither the deferred `SetDeadline(time.Time{})` nor `stopWatch`
-- prevents it.
pub expires_behind : (s : Watch) → s.watcher ≢ ended → LateRun s
expires_behind s h = LateRun-method s s.method refl h
