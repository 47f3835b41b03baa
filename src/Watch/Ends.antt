-- ===== src/Watch/Ends.antt =====
-- Where the method and its watcher in conn.go stop.
use mathlib.Core.Path.{subst}
use cubrid_go.Prelude.{
  ℕ, ◌*◌, ◌≢◌, ◌↔◌, sym, ◌+◌, ◌≤◌, ◌<◌, ◌≡◌, refl, Bool, true, false, ◌⊎◌, inl, inr, arith,
}
use cubrid_go.Watch.{
  zero_time, from_context, gone_by, Deadline, Method, in_body, waiting, deadline_cleared, returned,
  call, fail, answer, elapse, Watcher, selecting, woken, ended, Watch, start, Move, clear, stop,
  wake, expire, quit, Step, move, cancel,
}
use cubrid_go.Watch.Invariant.{
  Run, here, then_step, IsDone, IsInside, IsInside-IsDone, Inv, Run-Inv,
}

abbrev pub method_left : Method → ℕ
method_left (in_body k) = 2 * k + 2
method_left (waiting k) = 2 * k + 3
method_left deadline_cleared = 1
method_left returned = 0

abbrev pub deadline_left : Deadline → ℕ
deadline_left from_context = 1
deadline_left _ = 0

abbrev pub watcher_left : Watcher → ℕ
watcher_left selecting = 2
watcher_left woken = 1
watcher_left ended = 0

abbrev pub cancels_left : Bool → ℕ
cancels_left false = 1
cancels_left true = 0

abbrev pub left : Watch → ℕ
left s =
    method_left s.method
    + (watcher_left s.watcher + (cancels_left s.cancelled + deadline_left s.deadline))

pub Move-left : {s t : Watch} → Move s t → left t < left s
Move-left (call s k m) = rw m (omega arith)
Move-left (fail s k m d) = rw m (omega arith)
Move-left (clear s k m) = rw m (omega arith)
Move-left (stop s m) = rw m (omega arith)
Move-left (wake s w c) = rw (w, c) (omega arith)
Move-left (expire s w) = rw w (omega arith)
Move-left (quit s w d) = rw w (omega arith)

Step-left : {s t : Watch} → Step s t → left t < left s
Step-left (move m) = Move-left m
Step-left (answer s k m) = rw m (omega arith)
Step-left (cancel s c) = rw c (omega arith)
Step-left (elapse s d) = rw d (omega arith)

Run-left : {s t : Watch} {n : ℕ} → Run s n t → n + left t ≤ left s
Run-left here = omega arith
Run-left (then_step r st) = omega (arith, Run-left r, Step-left st)

abbrev pub IsOver : Watch → Type 0
IsOver s = (s.method ≡ returned) × (s.watcher ≡ ended)

-- The method is blocked on a peer that is silent, under a context that is not cancelled and without
-- a deadline that has gone by.
abbrev pub Waits : Watch → Type 0
Waits s =
    (k : ℕ) × (s.method ≡ waiting k)
    × (s.watcher ≡ selecting)
    × (s.cancelled ≡ false)
    × (s.deadline ≢ gone_by)

abbrev pub CanMove : Watch → Type 0
CanMove s = (t : Watch) × Move s t

-- A blocked call, by what the deadline, the watcher and the context are.
module _ (s : Watch) (i : Inv s) (k : ℕ) (m : s.method ≡ waiting k) where
  inside : IsInside s.method
  inside = subst IsInside (sym m) tt

  selecting_moves :
      s.watcher ≡ selecting
      → s.deadline ≢ gone_by
      → (c : Bool) → s.cancelled ≡ c
      → Waits s ⊎ CanMove s
  selecting_moves w d true c = inr (_, wake s w c)
  selecting_moves w d false c = inl (k, m, w, c, d)

  watcher_moves : s.deadline ≢ gone_by → (w : Watcher) → s.watcher ≡ w → Waits s ⊎ CanMove s
  watcher_moves d selecting w = selecting_moves w d s.cancelled refl
  watcher_moves d woken w = inr (_, expire s w)
  watcher_moves d ended w = absurd (d (i.expired inside w))

  waiting_moves : (d : Deadline) → s.deadline ≡ d → Waits s ⊎ CanMove s
  waiting_moves gone_by d = inr (_, fail s k m d)
  waiting_moves zero_time d = watcher_moves (λ e. cc) s.watcher refl
  waiting_moves from_context d = watcher_moves (λ e. cc) s.watcher refl

returned_moves :
    (s : Watch)
    → s.method ≡ returned
    → s.done_closed ≡ true
    → (w : Watcher) → s.watcher ≡ w
    → IsOver s ⊎ CanMove s
returned_moves s m d selecting w = inr (_, quit s w d)
returned_moves s m d woken w = inr (_, expire s w)
returned_moves s m d ended w = inl (m, w)

method_moves : (s : Watch) → Inv s → (m : Method) → s.method ≡ m → (IsOver s ⊎ Waits s) ⊎ CanMove s
method_moves s i (in_body k) m = inr (_, clear s k m)
method_moves s i (waiting k) m = elim (waiting_moves s i k m s.deadline refl) [
  | inl waits ↦ inl (inr waits)
  | inr moves ↦ inr moves
]
method_moves s i deadline_cleared m = inr (_, stop s m)
method_moves s i returned m =
    let done : s.done_closed ≡ true = subst (λ m. IsDone m s.done_closed) m i.done in
    elim (returned_moves s m done s.watcher refl) [
      | inl over ↦ inl (inl over)
      | inr moves ↦ inr moves
    ]

pub Inv-progress : {s : Watch} → Inv s → (IsOver s ⊎ Waits s) ⊎ CanMove s
Inv-progress {s} i = method_moves s i s.method refl

IsOver-stops : {s t : Watch} → Move s t → ¬ IsOver s
IsOver-stops (call s k m) over = cc
IsOver-stops (fail s k m d) over = cc
IsOver-stops (clear s k m) over = cc
IsOver-stops (stop s m) over = cc
IsOver-stops (wake s w c) over = cc
IsOver-stops (expire s w) over = cc
IsOver-stops (quit s w d) over = cc

Waits-stops : {s t : Watch} → Inv s → Move s t → ¬ Waits s
Waits-stops i (call s k m) (j, blocked, w', live, late) = cc
Waits-stops i (fail s k m d) (j, blocked, w, c, late) = late d
Waits-stops i (clear s k m) (j, blocked, w', live, late) = cc
Waits-stops i (stop s m) (j, blocked, w', live, late) = cc
Waits-stops i (wake s w c) (j, blocked, w', live, late) = cc
Waits-stops i (expire s w) (j, blocked, w', live, late) = cc
Waits-stops i (quit s w d) (j, blocked, w', live, late) =
    let open_still =
      IsInside-IsDone s.method s.done_closed (subst IsInside (sym blocked) tt) i.done in
    cc

stops_where : {s : Watch} → Inv s → (IsOver s ⊎ Waits s) ↔ (¬ CanMove s)
stops_where {s} i = (stopped, found)
  where
    stopped : IsOver s ⊎ Waits s → ¬ CanMove s
    stopped (inl over) (t, m) = IsOver-stops m over
    stopped (inr waits) (t, m) = Waits-stops i m waits

    found : ¬ CanMove s → IsOver s ⊎ Waits s
    found stuck = elim (Inv-progress i) [ inl rest ↦ rest | inr moves ↦ absurd (stuck moves) ]

-- A method whose body makes at most `k` calls of the socket, its watcher and what the environment
-- does to them take at most 2 * k + 6 steps together. After any of their runs the method and the
-- watcher can move by themselves, unless both are over, or the method is blocked in a call that the
-- peer leaves open, under a context that is not cancelled and with no deadline that has gone by;
-- and in these two cases they cannot.
pub watch-ends :
    {d : Deadline} {k n : ℕ} {s : Watch}
    → Run (start d k) n s
    → (n ≤ 2 * k + 6) × ((IsOver s ⊎ Waits s) ↔ (¬ CanMove s))
watch-ends {d} r = (run_length d r, stops_where (Run-Inv r))
  where
    run_length : (d : Deadline) {k n : ℕ} {s : Watch} → Run (start d k) n s → n ≤ 2 * k + 6
    run_length zero_time r = omega (arith, Run-left r)
    run_length from_context r = omega (arith, Run-left r)
    run_length gone_by r = omega (arith, Run-left r)
