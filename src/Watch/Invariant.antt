-- ===== src/Watch/Invariant.antt =====
-- Which deadlines the watcher of conn.go can leave on the socket.
use cubrid_go.Prelude.{ℕ, suc, ◌≡◌, refl, sym, Bool, true, false, ◌⊎◌, inl, inr}
use mathlib.Core.Path.{subst}
use cubrid_go.Watch.{
  Deadline, zero_time, from_context, gone_by, Method, in_body, waiting, deadline_cleared, returned,
  Watcher, selecting, woken, ended, Watch, start, Move, call, fail, clear, stop, wake, expire, quit,
  Step, move, answer, cancel, elapse,
}

-- `n` steps from `s`, the last one at the end.
pub data Run (s : Watch) : ℕ → Watch → Type 0 where
  here : Run s 0 s
  then_step : {n : ℕ} {t u : Watch} → Run s n t → Step t u → Run s (suc n) u

-- What is left on the socket, unless the body of the method is still running.
abbrev IsLeft : Method → Deadline → Bool → Type 0
IsLeft (in_body k) d c = Unit
IsLeft (waiting k) d c = Unit
IsLeft _ d c = (d ≡ zero_time) ⊎ ((d ≡ gone_by) × (c ≡ true))

abbrev pub IsDone : Method → Bool → Type 0
IsDone returned b = b ≡ true
IsDone _ b = b ≡ false

abbrev IsCalled : Watcher → Bool → Type 0
IsCalled woken c = c ≡ true
IsCalled _ c = Unit

-- The body of the method is not over.
abbrev pub IsInside : Method → Type 0
IsInside (in_body k) = Unit
IsInside (waiting k) = Unit
IsInside _ = ⊥

pub record Inv (s : Watch) : Type 0 where
  pub left : IsLeft s.method s.deadline s.cancelled
  pub done : IsDone s.method s.done_closed
  pub called : IsCalled s.watcher s.cancelled
  pub expired : IsInside s.method → s.watcher ≡ ended → s.deadline ≡ gone_by

IsLeft-gone_by : (m : Method) (c : Bool) → c ≡ true → IsLeft m gone_by c
IsLeft-gone_by (in_body k) c h = tt
IsLeft-gone_by (waiting k) c h = tt
IsLeft-gone_by deadline_cleared c h = inr (refl, h)
IsLeft-gone_by returned c h = inr (refl, h)

IsLeft-cancelled :
    (m : Method) (d : Deadline) (c : Bool) → c ≡ false → IsLeft m d c → IsLeft m d true
IsLeft-cancelled (in_body k) d c h l = tt
IsLeft-cancelled (waiting k) d c h l = tt
IsLeft-cancelled deadline_cleared d c h (inl e) = inl e
IsLeft-cancelled deadline_cleared d c h (inr e) = inr (e.0, refl)
IsLeft-cancelled returned d c h (inl e) = inl e
IsLeft-cancelled returned d c h (inr e) = inr (e.0, refl)

IsCalled-true : (w : Watcher) → IsCalled w true
IsCalled-true woken = refl
IsCalled-true selecting = tt
IsCalled-true ended = tt

IsLeft-elapsed :
    (m : Method) (d : Deadline) (c : Bool) → d ≡ from_context → IsLeft m d c → IsLeft m gone_by c
IsLeft-elapsed (in_body k) d c h l = tt
IsLeft-elapsed (waiting k) d c h l = tt
IsLeft-elapsed deadline_cleared d c h (inl e) = cc
IsLeft-elapsed deadline_cleared d c h (inr e) = cc
IsLeft-elapsed returned d c h (inl e) = cc
IsLeft-elapsed returned d c h (inr e) = cc

pub IsInside-IsDone : (m : Method) (b : Bool) → IsInside m → IsDone m b → b ≡ false
IsInside-IsDone (in_body k) b h d = d
IsInside-IsDone (waiting k) b h d = d
IsInside-IsDone deadline_cleared b h d = absurd h
IsInside-IsDone returned b h d = absurd h

-- From one place in the body to another.
Inv-body :
    (s : Watch) (m n : Method)
    → s.method ≡ m
    → IsInside m
    → IsLeft n s.deadline s.cancelled
    → IsDone n false
    → Inv s
    → Inv (record s { method = n })
Inv-body s m n e inside left done i =
    let inside_now : IsInside s.method = subst IsInside (sym e) inside in
    let not_done : s.done_closed ≡ false =
      IsInside-IsDone s.method s.done_closed inside_now i.done in
    record {
      left = left;
      done = subst (IsDone n) (sym not_done) done;
      called = i.called;
      expired = λ h w. i.expired inside_now w;
    }

pub Move-Inv : {s t : Watch} → Move s t → Inv s → Inv t
Move-Inv (call s k m) i = Inv-body s (in_body (suc k)) (waiting k) m tt tt refl i
Move-Inv (fail s k m d) i = Inv-body s (waiting k) (in_body k) m tt tt refl i
Move-Inv (clear s k m) i = record {
  left = inl refl;
  done = subst (λ m. IsDone m s.done_closed) m i.done;
  called = i.called;
  expired = λ h w. absurd h;
}
Move-Inv (stop s m) i = record {
  left = subst (λ m. IsLeft m s.deadline s.cancelled) m i.left;
  done = refl;
  called = i.called;
  expired = λ h w. absurd h;
}
Move-Inv (wake s w c) i = record { left = i.left; done = i.done; called = c; expired = λ h e. cc }
Move-Inv (expire s w) i = record {
  left = IsLeft-gone_by s.method s.cancelled (subst (λ w. IsCalled w s.cancelled) w i.called);
  done = i.done;
  called = tt;
  expired = λ h e. refl;
}
Move-Inv (quit s w d) i = record {
  left = i.left;
  done = i.done;
  called = tt;
  expired = λ h e. let open_still = IsInside-IsDone s.method s.done_closed h i.done in cc;
}

Step-Inv : {s t : Watch} → Step s t → Inv s → Inv t
Step-Inv (move m) i = Move-Inv m i
Step-Inv (answer s k m) i = Inv-body s (waiting k) (in_body k) m tt tt refl i
Step-Inv (cancel s c) i = record {
  left = IsLeft-cancelled s.method s.deadline s.cancelled c i.left;
  done = i.done;
  called = IsCalled-true s.watcher;
  expired = i.expired;
}
Step-Inv (elapse s d) i = record {
  left = IsLeft-elapsed s.method s.deadline s.cancelled d i.left;
  done = i.done;
  called = i.called;
  expired = λ h e. refl;
}

pub Run-Inv : {d : Deadline} {k n : ℕ} {s : Watch} → Run (start d k) n s → Inv s
Run-Inv here = record { left = tt; done = refl; called = tt; expired = λ h e. cc }
Run-Inv (then_step r st) = Step-Inv st (Run-Inv r)

-- After any run of the method, the watcher and the environment in which the method has returned,
-- whatever number of calls its body could make and whatever the deadline was in it, the socket has
-- no deadline, or one that has gone by, and that only if the context was cancelled.
pub returned-IsLeft :
    {d : Deadline} {k n : ℕ} {s : Watch}
    → Run (start d k) n s
    → s.method ≡ returned
    → (s.deadline ≡ zero_time) ⊎ ((s.deadline ≡ gone_by) × (s.cancelled ≡ true))
returned-IsLeft {s = s} r h = subst (λ m. IsLeft m s.deadline s.cancelled) h (Run-Inv r).left
