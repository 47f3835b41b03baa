-- ===== src/Watch/Finishes.antt =====
-- A cancelled context ends the method in conn.go, whatever the peer does.
use cubrid_go.Prelude.{true, ◌≡◌, ℕ, zero, suc, ◌≤◌, inl, inr, arith}
use cubrid_go.Watch.{Deadline, Watch, start, Move, call, fail, clear, stop, wake, expire, quit}
use cubrid_go.Watch.Invariant.{Inv, Move-Inv, Run, Run-Inv}
use cubrid_go.Watch.Ends.{left, Move-left, IsOver, Inv-progress}

-- Moves of the method and the watcher alone: the environment does nothing, the peer among it.
pub data Alone : Watch → Watch → Type 0 where
  over : (s : Watch) → Alone s s
  first : {s t u : Watch} → Move s t → Alone t u → Alone s u

-- Moves lead to the end of both.
abbrev pub Finishes : Watch → Type 0
Finishes s = (t : Watch) × Alone s t × IsOver t

Finishes-first : {s t : Watch} → Move s t → Finishes t → Finishes s
Finishes-first m (u, moves, done) = (u, first m moves, done)

Move-cancelled : {s t : Watch} → Move s t → s.cancelled ≡ true → t.cancelled ≡ true
Move-cancelled (call s k m) h = h
Move-cancelled (fail s k m d) h = h
Move-cancelled (clear s k m) h = h
Move-cancelled (stop s m) h = h
Move-cancelled (wake s w c) h = h
Move-cancelled (expire s w) h = h
Move-cancelled (quit s w d) h = h

-- On fuel: `left s` rounds are enough.
Inv-Finishes : (fuel : ℕ) (s : Watch) → left s ≤ fuel → Inv s → s.cancelled ≡ true → Finishes s
Inv-Finishes zero s h i c = elim (Inv-progress i) [
  | inl (inl done) ↦ (s, over s, done)
  | inl (inr (k, m, w, live, late)) ↦ cc
  | inr (t, m) ↦ absurd (omega (arith, Move-left m, h))
]
Inv-Finishes (suc fuel) s h i c = elim (Inv-progress i) [
  | inl (inl done) ↦ (s, over s, done)
  | inl (inr (k, m, w, live, late)) ↦ cc
  | inr (t, m) ↦
      Finishes-first m
        (Inv-Finishes fuel t (omega (arith, Move-left m, h)) (Move-Inv m i) (Move-cancelled m c))
]

-- After any run from any deadline and any number of calls in which the context has been cancelled,
-- also one in which the method is blocked in a call of the socket: moves of the method and the
-- watcher alone lead on to a state in which the method has returned and the goroutine has ended. No
-- answer of the peer and no deadline of the context is needed.
pub watch-Finishes :
    {d : Deadline} {k n : ℕ} {s : Watch} → Run (start d k) n s → s.cancelled ≡ true → Finishes s
watch-Finishes {s = s} r cancelled = Inv-Finishes (left s) s (omega arith) (Run-Inv r) cancelled
