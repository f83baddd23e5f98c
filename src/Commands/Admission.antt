-- ===== src/Commands/Admission.antt =====
-- What `enqueue` of rust/driver/src/remote_base.rs does with the new work: the queue takes it, or it
-- is dropped.
use usbradio_plus.Prelude.{
  ℕ, ◌+◌, ◌≡◌, refl, ◌⊎◌, inl, inr, Option, [], ◌∷◌, ◌++◌, ◌==◌, if◌then◌else◌, if_cases, Result,
  ap, arith,
}
use usbradio_plus.Request.{RemoteRequestError}
use usbradio_plus.Commands.{
  ArrayQueue, IsArrayQueue, TicketState, RemoteWork, RemoteQueue, drop_work, admitted, with_ticket,
  with_urgent, with_ordinary, push_work, is_urgent,
}
use usbradio_plus.Commands.Runs.{Service, with_queue}
use usbradio_plus.Commands.Inv.{works_of, works_of-append, owned}

module _ {Reply S Q : Type 0} {slots : ArrayQueue S (Result RemoteRequestError Reply)}
    {works : ArrayQueue Q RemoteWork} (ls : IsArrayQueue slots) (lw : IsArrayQueue works) where
  abbrev pub admission : Service Reply S Q → TicketState S → RemoteWork → RemoteQueue S Q
  admission s t w =
      (admitted slots works (with_ticket s.queue t) w (push_work works (with_ticket s.queue t) w)).0

  -- The queue that takes the work, and the one that does not.
  pub pushed_cases :
      (s : Service Reply S Q) (t : TicketState S) (w : RemoteWork)
      → (admission s t w ≡ drop_work slots works w (with_ticket s.queue t))
        ⊎ (((admission s t w).accepting ≡ s.queue.accepting)
            × ((admission s t w).tickets ≡ s.queue.tickets ++ (t ∷ []))
            × ((j : ℕ)
                → owned ls lw j (with_queue s (admission s t w))
                  ≡ owned ls lw j s + (if w.state == j then 1 else 0)))
  pushed_cases s t w =
      let r = with_ticket s.queue t in
      if_cases
        (λ (o : Option (RemoteQueue S Q)).
          ((admitted slots works r w o).0 ≡ drop_work slots works w r)
          ⊎ (((admitted slots works r w o).0.accepting ≡ s.queue.accepting)
              × ((admitted slots works r w o).0.tickets ≡ s.queue.tickets ++ (t ∷ []))
              × ((j : ℕ)
                  → owned ls lw j (with_queue s (admitted slots works r w o).0)
                    ≡ owned ls lw j s + (if w.state == j then 1 else 0))))
        (is_urgent w.input) (with_urgent r (works.push r.urgent_slot w))
        (with_ordinary r (works.push r.ordinary w))
        (λ _. elim (lw.push_cases s.queue.urgent_slot w) [
          | inl (n, _) ↦ inl (rw (with_urgent, n) refl)
          | inr (q, n, _, i, _) ↦ inr (
              rw (with_urgent, n)
                (
                  refl,
                  refl,
                  λ j. omega (
                    arith,
                    ap (works_of j) i,
                    works_of-append j (lw.items s.queue.urgent_slot) (w ∷ []),
                  ),
                ))
        ])
        (λ _. elim (lw.push_cases s.queue.ordinary w) [
          | inl (n, _) ↦ inl (rw (with_ordinary, n) refl)
          | inr (q, n, _, i, _) ↦ inr (
              rw (with_ordinary, n)
                (
                  refl,
                  refl,
                  λ j. omega (
                    arith,
                    ap (works_of j) i,
                    works_of-append j (lw.items s.queue.ordinary) (w ∷ []),
                  ),
                ))
        ])
