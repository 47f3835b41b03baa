-- ===== src/Rows/Closing.antt =====
-- rows.go: what is left of a result set behind Close.
use cubrid_go.Prelude.{
  ◌&&◌, ◌≡◌, refl, sym, ap, ◌∙◌, List, Bool, true, inl, inr, Bool-cases, is_positive,
}
use cubrid_go.Result.{Result, ok, err, panic, eof}
use cubrid_go.Runtime.{Runtime, Value}
use cubrid_go.Conn.Socket.{Socket}
use cubrid_go.Conn.Helpers.{close_query_handle}
use cubrid_go.Rows.Next.{Rows, Outcome, next, close, after_handle}

module _ (go : Runtime) {S : Type 0} (socket : Socket S) where
  abbrev is_closed : Outcome S (Unit {0}) → Bool
  is_closed o = o.1.closed

  after_handle-is_closed :
      (r : Rows) (o : Result (Unit {0}) × S)
      → r.closed ≡ true
      → is_closed (after_handle go socket r o) ≡ true
  unfolding after_handle
  after_handle-is_closed r (ok u, s) h = h
  after_handle-is_closed r (err e, s) h = h
  after_handle-is_closed r (panic, s) h = h

  close-is_closed : (r : Rows) (s : S) → is_closed (close go socket r s) ≡ true
  unfolding close
  close-is_closed r s = elim (Bool-cases r.closed) [
    | inl done ↦ rw done refl
    | inr opened ↦ elim (Bool-cases (r.close_handle && is_positive r.query_handle)) [
      | inl owner ↦
          rw (opened, owner)
            (after_handle-is_closed (record r { closed = true })
              (close_query_handle socket r.conn r.query_handle s) refl)
      | inr guest ↦ rw (opened, guest) refl
    ]
  ]

  -- Whatever Close met, an error of the peer included, the rows that it leaves are closed: Next
  -- gives the end and Close nothing, and neither changes the rows or touches the socket.
  pub closed_for_good :
      (r r' : Rows) (s s' : S) (res : Result (Unit {0})) (dest : List Value)
      → close go socket r s ≡ (res, r', s')
      → (next go socket r' dest s' ≡ (err eof, r', s')) × (close go socket r' s' ≡ (ok tt, r', s'))
  unfolding next close
  closed_for_good r r' s s' res dest left =
      let done : r'.closed ≡ true = sym (ap is_closed left) ∙ close-is_closed r s in
      (rw done refl, rw done refl)
