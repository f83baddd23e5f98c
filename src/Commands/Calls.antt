-- ===== src/Commands/Calls.antt =====
-- What the reply of the owner does to a ticket of rust/driver/src/remote_base.rs.
use usbradio_plus.Prelude.{
  ℕ, ◌<◌, ◌≡◌, refl, sym, ap, subst, ◌∙◌, inl, inr, true, false, some, [], ◌∷◌, length, get_elem?,
  if_cases, Result, err, ℤ, arith,
}
use usbradio_plus.Request.{RemoteRequestError, stopped}
use usbradio_plus.Commands.{
  ArrayQueue, IsArrayQueue, TicketState, RemoteWork, RemoteQueue, verdict, complete_work,
  push_or_keep, map_some, get_elem?-modify_self, detached_error, error_after, complete, complete_at,
  drop_work,
}

module _ {Reply S Q : Type 0} {slots : ArrayQueue S (Result RemoteRequestError Reply)}
    {works : ArrayQueue Q RemoteWork} (ls : IsArrayQueue slots) (lw : IsArrayQueue works) where
  complete_again :
      (t : TicketState S) (error : ℤ) (r : Result RemoteRequestError Reply)
      → t.completed ≡ true
      → complete slots t error r ≡ (t, error)
  unfolding complete
  complete_again t error r d =
      if_cases (λ (x : TicketState S × ℤ). x ≡ (t, error)) t.completed (t, error)
        (
          record t { completed = true; result = push_or_keep slots t.result r },
          detached_error t.detached r error,
        )
        (λ _. refl) (λ e. absurd (ground (arith, e, d)))

  abbrev Completed :
      Result RemoteRequestError Reply → TicketState S × ℤ → TicketState S → ℤ → Type 0
  Completed r x t error =
      (x.0.completed ≡ true)
      × (ls.items x.0.result ≡ r ∷ [])
      × (x.1 ≡ detached_error t.detached r error)

  complete_first :
      (t : TicketState S) (error : ℤ) (r : Result RemoteRequestError Reply)
      → t.completed ≡ false
      → ls.items t.result ≡ []
      → 0 < ls.capacity t.result
      → Completed r (complete slots t error r) t error
  unfolding complete
  complete_first t error r d empty room =
      if_cases (λ (x : TicketState S × ℤ). Completed r x t error) t.completed (t, error)
        (
          record t { completed = true; result = push_or_keep slots t.result r },
          detached_error t.detached r error,
        )
        (λ e. absurd (ground (arith, e, d)))
        (λ _. elim (ls.push_cases t.result r) [
          | inl (_, full) ↦ absurd (omega (arith, full, room, ap length empty))
          | inr (y, n, _, i, _) ↦ (refl, rw (push_or_keep, n, i, empty) refl, refl)
        ])

  -- The reply of a worker for a ticket that still waits.
  abbrev pub Delivered :
      ℕ → Result RemoteRequestError Reply → TicketState S → ℤ → RemoteQueue S Q → Type 0
  Delivered i r t error after =
      (u : TicketState S) × (get_elem? after.tickets i ≡ some u)
      × (u.completed ≡ true)
      × (ls.items u.result ≡ r ∷ [])
      × (after.parallel_error ≡ detached_error t.detached r error)

  delivered :
      (w : RemoteWork) (r : Result RemoteRequestError Reply) (q : RemoteQueue S Q)
      (t : TicketState S)
      → get_elem? q.tickets w.state ≡ some t
      → Completed r (complete slots t q.parallel_error r) t q.parallel_error
      → Delivered w.state r t q.parallel_error
          (drop_work slots works w (complete_at slots works w.state r q))
  unfolding drop_work complete_at
  delivered w r q t e (done, i, error) =
      let u = (complete slots t q.parallel_error r).0 in
      let p = complete_at slots works w.state r q in
      let first = get_elem?-modify_self w.state _ q.tickets ∙ ap (map_some _) e in
      let second = get_elem?-modify_self w.state _ p.tickets ∙ ap (map_some _) first in
      let same = complete_again u p.parallel_error (err stopped) done in
      (
        u,
        second ∙ ap (λ (x : TicketState S × ℤ). some x.0) same,
        done,
        i,
        ap (λ o. error_after slots works o p.parallel_error (err stopped)) first
            ∙ ap (λ (x : TicketState S × ℤ). x.1) same
            ∙ ap (λ o. error_after slots works o q.parallel_error r) e
            ∙ error,
      )

  -- The owner's reply for a ticket that is not completed and whose empty slot has room reaches
  -- the slot once, as the verdict on it, and only that verdict is recorded as an error of a
  -- parallel request.
  pub complete_work_lem :
      (w : RemoteWork) (r : Result RemoteRequestError Reply) (q : RemoteQueue S Q)
      (t : TicketState S)
      → get_elem? q.tickets w.state ≡ some t
      → t.completed ≡ false
      → ls.items t.result ≡ []
      → 0 < ls.capacity t.result
      → Delivered w.state
          (verdict q.accepting (some t) r)
          t
          q.parallel_error
          (complete_work slots works w r q)
  unfolding complete_work
  complete_work_lem w r q t e d empty room =
      let v = verdict q.accepting (some t) r in
      subst
        (λ o.
          Delivered w.state v t q.parallel_error
            (drop_work slots works w (complete_at slots works w.state (verdict q.accepting o r) q)))
        (sym e) (delivered w v q t e (complete_first t q.parallel_error v d empty room))
