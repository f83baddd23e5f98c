-- ===== src/Commands/Enqueue.antt =====
-- What the admission of a command, and the owner's next work, do on each branch in
-- rust/driver/src/remote_base.rs.
use usbradio_plus.Prelude.{
  ℕ, ◌≤◌, ◌<◌, ◌≡◌, refl, ◌⊎◌, inl, inr, Bool, true, false, not, none, some, List, [], ◌∷◌, ◌++◌,
  length, get_elem?-snoc, if◌then◌else◌, if_cases, Result, ok, err, negsuc, arith,
}
use usbradio_plus.Request.{RemoteRequestError, busy, stopped, rejected}
use usbradio_plus.Commands.{
  ArrayQueue, IsArrayQueue, TicketState, RemoteInput, RemoteWork, RemoteQueue, is_parallel,
  is_urgent, is_incomplete, detached_error, error_after, complete, complete_at, drop_work,
  new_ticket, new_work, with_ticket, with_urgent, with_ordinary, admitted, enqueue, next,
  next_ordinary, after_next, after_urgent, after_ordinary,
}

module _ {Reply S Q : Type 0} {slots : ArrayQueue S (Result RemoteRequestError Reply)}
    {works : ArrayQueue Q RemoteWork} (ls : IsArrayQueue slots) (lw : IsArrayQueue works) where
  -- The urgent work and then the ordinary work, in the order in which it was admitted.
  abbrev pub waiting : RemoteQueue S Q → List RemoteWork
  waiting q = lw.items q.urgent_slot ++ lw.items q.ordinary

  -- The queue that an input goes to, and the other one.
  abbrev pub lane : Bool → RemoteQueue S Q → Q
  lane true q = q.urgent_slot
  lane false q = q.ordinary

  -- next takes the first of one list, the urgent work followed by the ordinary work, each in
  -- the order of admission, and leaves the rest and the tickets; it returns nothing exactly
  -- when the list is empty.
  pub next_lem :
      (q : RemoteQueue S Q)
      → ((waiting q ≡ []) × (next works q ≡ (q, none)))
        ⊎ ((w : RemoteWork) × ((next works q).1 ≡ some w)
            × (waiting q ≡ w ∷ waiting (next works q).0)
            × ((next works q).0.tickets ≡ q.tickets))
  unfolding next next_ordinary
  next_lem q = elim (lw.pop_cases q.urgent_slot) [
    | inl (n, e) ↦ elim (lw.pop_cases q.ordinary) [
      | inl (m, f) ↦ inl (rw (e, f) refl, rw (after_next, n, after_ordinary, m) refl)
      | inr (w, rest, m, f, _) ↦ inr (
        w,
        rw (after_next, n, after_ordinary, m) refl,
        rw (after_next, n, after_ordinary, m, e, f) refl,
        rw (after_next, n, after_ordinary, m) refl,
      )
    ]
    | inr (w, rest, n, e, _) ↦ inr (
      w,
      rw (after_next, n, after_urgent) refl,
      rw (after_next, n, after_urgent, e) refl,
      rw (after_next, n, after_urgent) refl,
    )
  ]

  -- The outcomes of an admission through one of the queues.
  abbrev pub Admission :
      Bool
      → RemoteInput
      → TicketState S
      → RemoteQueue S Q
      → RemoteQueue S Q × Result RemoteRequestError ℕ
      → Type 0
  Admission b input t q x =
      ((length (lw.items (lane b q)) < lw.capacity (lane b q))
        × (x.1 ≡ ok (length q.tickets))
        × (lw.items (lane b x.0) ≡ lw.items (lane b q) ++ (new_work input q.tickets ∷ []))
        × (lane (not b) x.0 ≡ lane (not b) q)
        × (x.0.tickets ≡ q.tickets ++ (t ∷ []))
        × (x.0.parallel_error ≡ q.parallel_error))
      ⊎ ((lw.capacity (lane b q) ≤ length (lw.items (lane b q)))
          × (x.1 ≡ err busy)
          × (lane b x.0 ≡ lane b q)
          × (lane (not b) x.0 ≡ lane (not b) q)
          × (x.0.parallel_error
              ≡ detached_error {Reply = Reply} (is_parallel input) (err stopped) q.parallel_error))

  dropped_error :
      (q : RemoteQueue S Q) (input : RemoteInput) (is_local active : Bool)
      → let t = new_ticket slots input is_local active in
        (drop_work slots works (new_work input q.tickets) (with_ticket q t)).parallel_error
        ≡ detached_error {Reply = Reply} (is_parallel input) (err stopped) q.parallel_error
  unfolding drop_work complete_at complete
  dropped_error q input is_local active =
      rw (error_after, get_elem?-snoc q.tickets (new_ticket slots input is_local active)) refl

  dropped_lanes :
      (b : Bool) (q : RemoteQueue S Q) (w : RemoteWork) (t : TicketState S)
      → lane b (drop_work slots works w (with_ticket q t)) ≡ lane b q
  unfolding drop_work complete_at
  dropped_lanes true q w t = refl
  dropped_lanes false q w t = refl

  pushed_lane :
      (b : Bool) (input : RemoteInput) (is_local active : Bool) (q : RemoteQueue S Q)
      → let t = new_ticket slots input is_local active in
        let w = new_work input q.tickets in
        let r = with_ticket q t in
        Admission b input t q (
          admitted slots works r w (
            if b
            then with_urgent r (works.push q.urgent_slot w)
            else with_ordinary r (works.push q.ordinary w)))
  pushed_lane true input is_local active q =
      let w = new_work input q.tickets in
      let t = new_ticket slots input is_local active in
      elim (lw.push_cases q.urgent_slot w) [
        | inl (n, full) ↦ inr (
          full,
          rw (with_urgent, n) refl,
          rw (with_urgent, n) (dropped_lanes true q w t),
          rw (with_urgent, n) (dropped_lanes false q w t),
          rw (with_urgent, n) (dropped_error q input is_local active),
        )
        | inr (x, n, room, i, _) ↦ inl (
          room,
          rw (with_urgent, n) refl,
          rw (with_urgent, n) i,
          rw (with_urgent, n) refl,
          rw (with_urgent, n) refl,
          rw (with_urgent, n) refl,
        )
      ]
  pushed_lane false input is_local active q =
      let w = new_work input q.tickets in
      let t = new_ticket slots input is_local active in
      elim (lw.push_cases q.ordinary w) [
        | inl (n, full) ↦ inr (
          full,
          rw (with_ordinary, n) refl,
          rw (with_ordinary, n) (dropped_lanes false q w t),
          rw (with_ordinary, n) (dropped_lanes true q w t),
          rw (with_ordinary, n) (dropped_error q input is_local active),
        )
        | inr (x, n, room, i, _) ↦ inl (
          room,
          rw (with_ordinary, n) refl,
          rw (with_ordinary, n) i,
          rw (with_ordinary, n) refl,
          rw (with_ordinary, n) refl,
          rw (with_ordinary, n) refl,
        )
      ]

  abbrev pub Outcome :
      RemoteInput
      → TicketState S
      → RemoteQueue S Q
      → RemoteQueue S Q × Result RemoteRequestError ℕ
      → Type 0
  Outcome input t q x =
      ((q.accepting ≡ false) × (x ≡ (q, err stopped)))
      ⊎ ((q.accepting ≡ true)
          × (is_incomplete input ≡ true)
          × (x ≡ (q, err (rejected (negsuc 1002)))))
      ⊎ ((q.accepting ≡ true)
          × (is_incomplete input ≡ false)
          × Admission (is_urgent input) input t q x)

  -- A retired port refuses every input and an accepting one refuses an incomplete command, both
  -- without a change. Otherwise the input goes behind the others of its own queue under a new
  -- ticket exactly when that queue has room, and the other queue is untouched; a full queue
  -- refuses it as busy, both queues are as they were, and if it is a parallel request that
  -- finds no earlier error, its error is recorded as that of a stopped owner.
  pub enqueue_lem :
      (input : RemoteInput) (is_local active : Bool) (q : RemoteQueue S Q)
      → Outcome input
          (new_ticket slots input is_local active)
          q
          (enqueue slots works input is_local active q)
  unfolding enqueue
  enqueue_lem input is_local active q =
      let P = RemoteQueue S Q × Result RemoteRequestError ℕ in
      let t = new_ticket slots input is_local active in
      if_cases (λ (x : P). Outcome input t q x) (not q.accepting) (q, err stopped) _
        (λ off. inl (ground (arith, off), refl))
        (λ on.
          if_cases (λ (x : P). Outcome input t q x) (is_incomplete input)
            (q, err (rejected (negsuc 1002))) _ (λ e. inr (inl (ground (arith, on), e, refl)))
            (λ e.
              inr (
                inr
                  (ground (arith, on), e, pushed_lane (is_urgent input) input is_local active q))))
