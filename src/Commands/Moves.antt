-- ===== src/Commands/Moves.antt =====
-- Completions, and work on its way to the owner, keep the invariant of the command port.
use usbradio_plus.Prelude.{
  ℕ, suc, ◌+◌, ◌≤◌, ◌≡◌, refl, inl, inr, false, Option, none, some, List, ◌∷◌, length, get_elem?,
  ◌==◌, if_cases, Result, ap, subst, sym, ◌∙◌, err, arith,
}
use usbradio_plus.Request.{RemoteRequestError, stopped}
use usbradio_plus.Commands.{
  ArrayQueue, IsArrayQueue, modify, map_some, TicketState, RemoteWork, RemoteQueue, complete_at,
  drop_work, complete_work, verdict, popped, pop_result, take_completion, next, next_urgent,
  next_ordinary, after_urgent, after_ordinary, after_next,
}
use usbradio_plus.Commands.Runs.{Service, remove_at, with_queue, handed, received, finished}
use usbradio_plus.Commands.Inv.{
  modify_cases, works_of, taken_of, gone, works_of-remove_at, owned, TicketOk, Waits, Inv,
  complete-TicketOk, completed_after, shrinks-TicketOk, same-Inv,
}

module _ {Reply S Q : Type 0} {slots : ArrayQueue S (Result RemoteRequestError Reply)}
    {works : ArrayQueue Q RemoteWork} (ls : IsArrayQueue slots) (lw : IsArrayQueue works) where
  abbrev completed_to :
      Service Reply S Q → ℕ → Result RemoteRequestError Reply → List RemoteWork → Service Reply S Q
  completed_to s i r held = record s { queue = complete_at slots works i r s.queue; held = held }

  -- Whoever completes ticket `i` may give its work up at the same time.
  pub complete_at-Inv :
      (s : Service Reply S Q) (i : ℕ) (r : Result RemoteRequestError Reply) (held : List RemoteWork)
      → ((j : ℕ) → works_of j held ≤ works_of j s.held)
      → ((j : ℕ) → (j == i) ≡ false → works_of j held ≡ works_of j s.held)
      → ((j : ℕ) → TicketOk ls lw (get_elem? s.queue.tickets j) (owned ls lw j s) (gone ls lw j s))
      → ((j : ℕ) → (j == i) ≡ false → Waits ls lw (get_elem? s.queue.tickets j) (owned ls lw j s))
      → Inv ls lw (completed_to s i r held)
  unfolding complete_at
  complete_at-Inv s i r held le same tickets_ok waits = record {
    tickets_ok = λ j.
        let u = owned ls lw j (completed_to s i r held) in
        modify_cases (λ o. TicketOk ls lw o u (gone ls lw j s)) i j _ s.queue.tickets
          (λ e.
            complete-TicketOk ls lw _ (owned ls lw j s) u (gone ls lw j s) s.queue.parallel_error r
              (omega (arith, le j)) (tickets_ok j))
          (λ ne.
            shrinks-TicketOk ls lw _ (owned ls lw j s) u _ (omega (arith, le j)) (tickets_ok j));
    waits = λ j.
        let u = owned ls lw j (completed_to s i r held) in
        modify_cases (λ o. Waits ls lw o u) i j _ s.queue.tickets
          (λ e. completed_after ls lw _ u s.queue.parallel_error r)
          (λ ne. rw (same j ne) (waits j ne));
  }

  pub finished-Inv :
      (k : ℕ) (r : Option (Result RemoteRequestError Reply)) (s : Service Reply S Q)
      (o : Option RemoteWork)
      → get_elem? s.held k ≡ o
      → Inv ls lw s
      → Inv ls lw (finished slots works k r s o)
  unfolding drop_work complete_work
  finished-Inv k r s none e v = v
  finished-Inv k none s (some w) e v =
      complete_at-Inv s w.state (err stopped) (remove_at k s.held)
        (λ j. omega (arith, works_of-remove_at j k s.held w e))
        (λ j ne. ground (arith, works_of-remove_at j k s.held w e, ne)) v.tickets_ok
        (λ j ne. v.waits j)
  finished-Inv k (some r) s (some w) e v =
      let verdict_r = verdict s.queue.accepting (get_elem? s.queue.tickets w.state) r in
      let u =
        complete_at-Inv s w.state verdict_r s.held (λ j. omega arith) (λ j ne. refl) v.tickets_ok
          (λ j ne. v.waits j) in
      complete_at-Inv (completed_to s w.state verdict_r s.held) w.state (err stopped)
        (remove_at k s.held) (λ j. omega (arith, works_of-remove_at j k s.held w e))
        (λ j ne. ground (arith, works_of-remove_at j k s.held w e, ne)) u.tickets_ok
        (λ j ne. u.waits j)

  -- A ticket's change that leaves its completion alone.
  pub modify-Inv :
      (s : Service Reply S Q) (i : ℕ) (f : TicketState S → TicketState S)
      → ((t : TicketState S) → ((f t).result ≡ t.result) × ((f t).completed ≡ t.completed))
      → Inv ls lw s
      → Inv ls lw (with_queue s (record s.queue { tickets = modify i f s.queue.tickets }))
  modify-Inv s i f h v = record {
    tickets_ok = λ j.
        modify_cases (λ o. TicketOk ls lw o (owned ls lw j s) (gone ls lw j s)) i j f
          s.queue.tickets (λ e. kept (get_elem? s.queue.tickets j) j (v.tickets_ok j))
          (λ ne. v.tickets_ok j);
    waits = λ j.
        modify_cases (λ o. Waits ls lw o (owned ls lw j s)) i j f s.queue.tickets
          (λ e. still (get_elem? s.queue.tickets j) j (v.waits j)) (λ ne. v.waits j);
  }
    where
      kept :
          (o : Option (TicketState S)) (j : ℕ)
          → TicketOk ls lw o (owned ls lw j s) (gone ls lw j s)
          → TicketOk ls lw (map_some f o) (owned ls lw j s) (gone ls lw j s)
      kept none j p = p
      kept (some t) j p = rw ((h t).0, (h t).1) p

      still :
          (o : Option (TicketState S)) (j : ℕ)
          → Waits ls lw o (owned ls lw j s)
          → Waits ls lw (map_some f o) (owned ls lw j s)
      still none j p = p
      still (some t) j p = rw (h t).1 p

  pub taken_twice :
      (i : ℕ) (r : Result RemoteRequestError Reply)
      (log : List (ℕ × Result RemoteRequestError Reply))
      → taken_of i ((i, r) ∷ log) ≡ suc (taken_of i log)
  taken_twice i r log = ground arith

  pub taken_other :
      (i j : ℕ) (r : Result RemoteRequestError Reply)
      (log : List (ℕ × Result RemoteRequestError Reply))
      → (j == i) ≡ false
      → taken_of j ((i, r) ∷ log) ≡ taken_of j log
  taken_other i j r log h = ground (arith, h)

  pub pop_result-Inv :
      (i : ℕ) (s : Service Reply S Q) (o : Option (TicketState S))
      → get_elem? s.queue.tickets i ≡ o
      → Inv ls lw s
      → Inv ls lw (handed i s (pop_result slots works i s.queue o))
  pop_result-Inv i s none e v = v
  pop_result-Inv i s (some t) e v = elim (ls.pop_cases t.result) [
    | inl (n, _) ↦ rw (popped, n) v
    | inr (r, rest, n, l, c) ↦
        let (a, b, d) =
          subst (λ o. TicketOk ls lw o (owned ls lw i s) (gone ls lw i s)) e (v.tickets_ok i) in
        rw (popped, n)
          (record {
            tickets_ok = λ j.
                modify_cases
                  (λ o.
                    TicketOk ls lw o (owned ls lw j s)
                      (taken_of j ((i, r) ∷ s.taken) + (taken_of j s.claims + taken_of j s.writes)))
                  i j _ s.queue.tickets
                  (λ same.
                    subst
                      (λ k.
                        TicketOk ls lw
                          (map_some (λ (t : TicketState S). record t { result = rest })
                            (get_elem? s.queue.tickets k))
                          (owned ls lw k s)
                          (taken_of k ((i, r) ∷ s.taken)
                            + (taken_of k s.claims + taken_of k s.writes)))
                      (sym same)
                      (rw e (c ∙ a, omega (arith, taken_twice i r s.taken, b, ap length l), d)))
                  (λ ne. rw (taken_other i j r s.taken ne) (v.tickets_ok j));
            waits = λ j.
                modify_cases (λ o. Waits ls lw o (owned ls lw j s)) i j _ s.queue.tickets
                  (λ same.
                    rw (same, e) (subst (λ o. Waits ls lw o (owned ls lw i s)) e (v.waits i)))
                  (λ ne. v.waits j);
          })
  ]

  pub take-Inv :
      (i : ℕ) (s : Service Reply S Q)
      → Inv ls lw s
      → Inv ls lw (handed i s (take_completion slots works i s.queue))
  unfolding take_completion
  take-Inv i s v =
      let R = RemoteQueue S Q in
      if_cases
        (λ (q : R). Inv ls lw (handed i s (pop_result slots works i q (get_elem? q.tickets i))))
        s.queue.accepting s.queue (complete_at slots works i (err stopped) s.queue)
        (λ e. pop_result-Inv i s _ refl v)
        (λ e.
          pop_result-Inv i (with_queue s (complete_at slots works i (err stopped) s.queue)) _ refl (
            complete_at-Inv s i (err stopped) s.held (λ j. omega arith) (λ j ne. refl) v.tickets_ok
              (λ j ne. v.waits j)))

  pub next_ordinary-Inv :
      (s : Service Reply S Q) → Inv ls lw s → Inv ls lw (received s (next_ordinary works s.queue))
  unfolding next_ordinary
  next_ordinary-Inv s v = elim (lw.pop_cases s.queue.ordinary) [
    | inl (n, _) ↦ rw (after_ordinary, n) v
    | inr (w, rest, n, l, c) ↦
        let u = received s (record s.queue { ordinary = rest }, some w) in
        rw (after_ordinary, n)
          (same-Inv ls lw s u refl (λ j. refl) (λ j. omega (arith, ap (works_of j) l)) v)
  ]

  pub next_urgent-Inv :
      (s : Service Reply S Q) → Inv ls lw s → Inv ls lw (received s (next_urgent works s.queue))
  unfolding next_urgent
  next_urgent-Inv s v = elim (lw.pop_cases s.queue.urgent_slot) [
    | inl (n, _) ↦ rw (after_urgent, n) v
    | inr (w, rest, n, l, c) ↦
        let u = received s (record s.queue { urgent_slot = rest }, some w) in
        rw (after_urgent, n)
          (same-Inv ls lw s u refl (λ j. refl) (λ j. omega (arith, ap (works_of j) l)) v)
  ]

  pub next-Inv : (s : Service Reply S Q) → Inv ls lw s → Inv ls lw (received s (next works s.queue))
  unfolding next
  next-Inv s v = elim (lw.pop_cases s.queue.urgent_slot) [
    | inl (n, _) ↦ rw (after_next, n) (next_ordinary-Inv s v)
    | inr (w, rest, n, l, c) ↦
        let u = received s (record s.queue { urgent_slot = rest }, some w) in
        rw (after_urgent, after_next, n)
          (same-Inv ls lw s u refl (λ j. refl) (λ j. omega (arith, ap (works_of j) l)) v)
  ]
