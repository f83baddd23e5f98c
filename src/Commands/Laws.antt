-- ===== src/Commands/Laws.antt =====
-- What becomes of the tickets of rust/driver/src/remote_base.rs, whatever the order of the calls.
use usbradio_plus.Prelude.{
  ℕ, ◌+◌, ◌≤◌, ◌<◌, ◌≡◌, refl, ◌⊎◌, inl, inr, true, false, Option, none, some, List, length,
  get_elem?, Bool-cases, ◌==◌, Result, err, arith, ap, subst, if_cases, ℤ, ◌∙◌,
}
use usbradio_plus.Request.{RemoteRequestError, stopped}
use usbradio_plus.Commands.{
  ArrayQueue, IsArrayQueue, map_some, get_elem?-modify_self, TicketState, RemoteWork, RemoteQueue,
  flag, complete, complete_at, popped, pop_result, take_completion,
}
use usbradio_plus.Commands.Runs.{Call, start, run}
use usbradio_plus.Commands.Inv.{taken_of, gone, owned, TicketOk, Waits, complete-TicketOk}
use usbradio_plus.Commands.Steps.{start-Inv, run-Inv}

module _ {Reply S Q : Type 0} {slots : ArrayQueue S (Result RemoteRequestError Reply)}
    {works : ArrayQueue Q RemoteWork} (ls : IsArrayQueue slots) (lw : IsArrayQueue works) where
  ticket_balance :
      (t : TicketState S) (own took : ℕ)
      → TicketOk ls lw (some t) own took
      → Waits ls lw (some t) own
      → (length (ls.items t.result) + took ≡ flag t.completed)
        × (own ≤ 1)
        × ((t.completed ≡ true) ⊎ (own ≡ 1))
  ticket_balance t own took (a, b, c) w = elim (Bool-cases t.completed) [
    | inl e ↦ (b, c, inl e)
    | inr e ↦ (b, c, inr (w e))
  ]

  -- After any series of calls on a new command port, by producers and owner in any order, with
  -- other calls between a completion's claim, its error and its push: a ticket that is
  -- completed has exactly one completion, which is on its way to its slot, waits there or was
  -- handed out once; a ticket that is not completed has had none, and its one piece of work is
  -- in a queue or in the owner's hands.
  pub one_completion :
      (capacity : ℕ) (cs : List (Call Reply)) (i : ℕ) (t : TicketState S)
      → 0 < capacity
      → get_elem? (run slots works (start works capacity) cs).queue.tickets i ≡ some t
      → let s = run slots works (start works capacity) cs in
        (length (ls.items t.result) + gone ls lw i s ≡ flag t.completed)
        × (owned ls lw i s ≤ 1)
        × ((t.completed ≡ true) ⊎ (owned ls lw i s ≡ 1))
  one_completion capacity cs i t h e =
      let s = run slots works (start works capacity) cs in
      let v = run-Inv ls lw (start works capacity) cs (start-Inv ls lw capacity h) in
      ticket_balance t (owned ls lw i s) (gone ls lw i s)
        (subst (λ o. TicketOk ls lw o (owned ls lw i s) (gone ls lw i s)) e (v.tickets_ok i))
        (subst (λ o. Waits ls lw o (owned ls lw i s)) e (v.waits i))

  pops :
      (i : ℕ) (q : RemoteQueue S Q) (o : Option (TicketState S)) (t : TicketState S)
      → o ≡ some t
      → length (ls.items t.result) ≡ 1
      → (r : Result RemoteRequestError Reply) × ((pop_result slots works i q o).1 ≡ some r)
  pops i q none t e n = absurd (ground (arith, e))
  pops i q (some u) t e n = elim (ls.pop_cases u.result) [
    | inl (p, empty) ↦ absurd (ground (arith, e, n, empty))
    | inr (r, rest, p, _, _) ↦ (r, rw (popped, p) refl)
  ]

  complete-completed :
      (t : TicketState S) (error : ℤ) (r : Result RemoteRequestError Reply)
      → (complete slots t error r).0.completed ≡ true
  unfolding complete
  complete-completed t error r = elim (Bool-cases t.completed) [
    | inl e ↦ rw e refl
    | inr e ↦ rw e refl
  ]

  -- A completion of a ticket with nothing handed out leaves one in its slot.
  filled :
      (t : TicketState S) (own : ℕ) (error : ℤ) (r : Result RemoteRequestError Reply)
      → TicketOk ls lw (some t) own 0
      → length (ls.items (complete slots t error r).0.result) ≡ 1
  filled t own error r ok_t =
      let (_, b, _) = complete-TicketOk ls lw (some t) own own 0 error r (omega arith) ok_t in
      omega (arith, b, ap flag (complete-completed t error r))

  takes_one :
      (i : ℕ) (q : RemoteQueue S Q) (t : TicketState S) (own : ℕ)
      → q.accepting ≡ false
      → get_elem? q.tickets i ≡ some t
      → TicketOk ls lw (some t) own 0
      → (r : Result RemoteRequestError Reply) × ((take_completion slots works i q).1 ≡ some r)
  unfolding take_completion complete_at
  takes_one i q t own off e ok_t =
      let R = Result RemoteRequestError Reply in
      let C = RemoteQueue S Q in
      if_cases
        (λ (p : C). (r : R) × ((pop_result slots works i p (get_elem? p.tickets i)).1 ≡ some r))
        q.accepting q (complete_at slots works i (err stopped) q)
        (λ on. absurd (ground (arith, on, off)))
        (λ _.
          pops i (complete_at slots works i (err stopped) q) _
            (complete slots t q.parallel_error (err stopped)).0
            (get_elem?-modify_self i _ q.tickets ∙ ap (map_some _) e)
            (filled t own q.parallel_error (err stopped) ok_t))

  nonzero : (n : ℕ) → (n == 0) ≡ false → 0 < n
  nonzero n h = ground (arith, h)

  one_on_its_way :
      (t : TicketState S) (own took flying : ℕ)
      → TicketOk ls lw (some t) own (took + flying)
      → took ≡ 0
      → (took + flying == 0) ≡ false
      → flying ≡ 1
  one_on_its_way t own took flying (_, b, _) e ne = elim (Bool-cases t.completed) [
    | inl d ↦ omega (arith, b, e, ap flag d, nonzero _ ne)
    | inr d ↦ omega (arith, b, e, ap flag d, nonzero _ ne)
  ]

  -- On a retired command port, after any series of calls since it was new, with other calls
  -- between a completion's claim and its push, a ticket that has handed out no completion hands
  -- one out at once, or exactly one was claimed and is on its way to the slot.
  pub take_completion-retired :
      (capacity : ℕ) (cs : List (Call Reply)) (i : ℕ) (t : TicketState S)
      → 0 < capacity
      → (run slots works (start works capacity) cs).queue.accepting ≡ false
      → get_elem? (run slots works (start works capacity) cs).queue.tickets i ≡ some t
      → taken_of i (run slots works (start works capacity) cs).taken ≡ 0
      → let s = run slots works (start works capacity) cs in
        ((r : Result RemoteRequestError Reply) × ((take_completion slots works i s.queue).1
            ≡ some r))
        ⊎ (taken_of i s.claims + taken_of i s.writes ≡ 1)
  take_completion-retired capacity cs i t h off e none_taken =
      let s = run slots works (start works capacity) cs in
      let v = run-Inv ls lw (start works capacity) cs (start-Inv ls lw capacity h) in
      let ok_t =
        subst (λ o. TicketOk ls lw o (owned ls lw i s) (gone ls lw i s)) e (v.tickets_ok i) in
      elim (Bool-cases (gone ls lw i s == 0)) [
        | inl none_gone ↦ inl (
            takes_one i s.queue t (owned ls lw i s) off e
              (subst (TicketOk ls lw (some t) (owned ls lw i s)) (ground (arith, none_gone)) ok_t))
        | inr some_gone ↦ inr (one_on_its_way t _ _ _ ok_t none_taken some_gone)
      ]
