-- ===== src/Commands/Steps.antt =====
-- Every call on the command port keeps its invariant.
use usbradio_plus.Prelude.{
  ℕ, ◌+◌, ◌≤◌, ◌≡◌, refl, inl, inr, Bool, true, false, not, ◌<◌, negsuc, none, some, List, [], ◌∷◌,
  ◌++◌, length, get_elem?, ◌==◌, if_cases, Result, ap, subst, sym, err, arith,
}
use usbradio_plus.Request.{RemoteRequestError, stopped, rejected}
use usbradio_plus.Commands.{
  ArrayQueue, IsArrayQueue, TicketState, RemoteInput, RemoteWork, RemoteQueue, drop_work,
  with_ticket, enqueue, submit, submit_parallel, source_state, drop_ticket, mark_ready, retire,
  new_queue, command, parallel_input, new_work, new_ticket, is_incomplete,
}
use usbradio_plus.Commands.Admission.{admission, pushed_cases}
use usbradio_plus.Commands.Runs.{
  Service, Call, submits, submits_parallel, sets_source, takes, drops_ticket, takes_next,
  takes_urgent, takes_ordinary, completes, abandons, marks_ready, retires, decides, claims_reply,
  begins_drop, begins_take, records, publishes, pops, claimed, start, step, run, with_queue,
}
use usbradio_plus.Commands.Inv.{
  snoc_cases, works_of, gone, owned, TicketOk, Waits, Inv, shrinks-TicketOk, same-Inv,
}
use usbradio_plus.Commands.Moves.{
  complete_at-Inv, finished-Inv, modify-Inv, take-Inv, next_ordinary-Inv, next_urgent-Inv, next-Inv,
  pop_result-Inv,
}
use usbradio_plus.Commands.Parts.{
  deciding-Inv, claiming-Inv, dropping-Inv, begin_take-Inv, recorded-Inv, published-Inv,
}

module _ {Reply S Q : Type 0} {slots : ArrayQueue S (Result RemoteRequestError Reply)}
    {works : ArrayQueue Q RemoteWork} (ls : IsArrayQueue slots) (lw : IsArrayQueue works) where
  abbrev Fresh : TicketState S → Type 0
  Fresh t = (t.completed ≡ false) × (ls.capacity t.result ≡ 1) × (ls.items t.result ≡ [])

  snoc-TicketOk :
      (s : Service Reply S Q) (t : TicketState S) (j own : ℕ)
      → Fresh t
      → own ≤ owned ls lw j s + 1
      → ((j == length s.queue.tickets) ≡ false → own ≤ owned ls lw j s)
      → Inv ls lw s
      → TicketOk ls lw (get_elem? (s.queue.tickets ++ (t ∷ [])) j) own (gone ls lw j s)
  snoc-TicketOk s t j own (d, c, i) le same v =
      snoc_cases (λ o. TicketOk ls lw o own (gone ls lw j s)) s.queue.tickets t j
        (λ e missing.
          let (a, b) =
            subst (λ o. TicketOk ls lw o (owned ls lw j s) (gone ls lw j s)) missing
              (v.tickets_ok j) in
          (c, rw (d, i) (omega (arith, b)), omega (arith, a, le)))
        (λ ne. shrinks-TicketOk ls lw _ (owned ls lw j s) own _ (same ne) (v.tickets_ok j))

  snoc-Waits :
      (s : Service Reply S Q) (t : TicketState S) (j own : ℕ)
      → (j ≡ length s.queue.tickets → own ≡ owned ls lw j s + 1)
      → ((j == length s.queue.tickets) ≡ false → own ≡ owned ls lw j s)
      → Inv ls lw s
      → Waits ls lw (get_elem? (s.queue.tickets ++ (t ∷ [])) j) own
  snoc-Waits s t j own one same v =
      snoc_cases (λ o. Waits ls lw o own) s.queue.tickets t j
        (λ e missing _.
          let (a, _) =
            subst (λ o. TicketOk ls lw o (owned ls lw j s) (gone ls lw j s)) missing
              (v.tickets_ok j) in
          omega (arith, a, one e))
        (λ ne. rw (same ne) (v.waits j))

  admission-Inv :
      (s : Service Reply S Q) (t : TicketState S) (w : RemoteWork)
      → Fresh t
      → w.state ≡ length s.queue.tickets
      → Inv ls lw s
      → Inv ls lw (with_queue s (admission ls lw s t w))
  unfolding drop_work
  admission-Inv s t w fresh at v = elim (pushed_cases ls lw s t w) [
    | inl e ↦
        subst (λ q. Inv ls lw (with_queue s q)) (sym e)
          (complete_at-Inv ls lw (with_queue s (with_ticket s.queue t)) w.state (err stopped) s.held
            (λ j. omega arith) (λ j ne. refl)
            (λ j. snoc-TicketOk s t j (owned ls lw j s) fresh (omega arith) (λ ne. omega arith) v)
            (λ j ne.
              snoc-Waits s t j (owned ls lw j s) (λ at_end. absurd (ground (arith, ne, at_end, at)))
                (λ _. refl) v))
    | inr (_, l, o) ↦ record {
      tickets_ok = λ j. rw l (
          snoc-TicketOk s t j (owned ls lw j (with_queue s (admission ls lw s t w))) fresh
            (ground (arith, o j)) (λ ne. ground (arith, o j, at, ne)) v);
      waits = λ j. rw l (
          snoc-Waits s t j (owned ls lw j (with_queue s (admission ls lw s t w)))
            (λ e. ground (arith, o j, at, e)) (λ ne. ground (arith, o j, at, ne)) v);
    }
  ]

  new-Fresh :
      (input : RemoteInput) (is_local active : Bool)
      → Fresh (new_ticket slots input is_local active)
  new-Fresh input is_local active =
      (refl, ls.capacity-new 1 (omega arith), ls.items-new 1 (omega arith))

  enqueue-Inv :
      (input : RemoteInput) (is_local active : Bool) (s : Service Reply S Q)
      → Inv ls lw s
      → Inv ls lw (with_queue s (enqueue slots works input is_local active s.queue).0)
  unfolding enqueue
  enqueue-Inv input is_local active s v =
      let t = new_ticket slots input is_local active in
      let w = new_work input s.queue.tickets in
      let P = RemoteQueue S Q × Result RemoteRequestError ℕ in
      if_cases (λ (x : P). Inv ls lw (with_queue s x.0)) (not s.queue.accepting)
        (s.queue, err stopped) _ (λ _. v)
        (λ _.
          if_cases (λ (x : P). Inv ls lw (with_queue s x.0)) (is_incomplete input)
            (s.queue, err (rejected (negsuc 1002))) _ (λ _. v)
            (λ _. admission-Inv s t w (new-Fresh input is_local active) refl v))

  pub step-Inv :
      (s : Service Reply S Q) (c : Call Reply) → Inv ls lw s → Inv ls lw (step slots works s c)
  unfolding step submit submit_parallel source_state drop_ticket mark_ready retire
  step-Inv s (submits r is_local active) v = enqueue-Inv (command r) is_local active s v
  step-Inv s (submits_parallel r) v = enqueue-Inv (parallel_input r) true false s v
  step-Inv s (sets_source i active valid) v = modify-Inv ls lw s i _ (λ t. (refl, refl)) v
  step-Inv s (takes i) v = take-Inv ls lw i s v
  step-Inv s (drops_ticket i) v = modify-Inv ls lw s i _ (λ t. (refl, refl)) v
  step-Inv s takes_next v = next-Inv ls lw s v
  step-Inv s takes_urgent v = next_urgent-Inv ls lw s v
  step-Inv s takes_ordinary v = next_ordinary-Inv ls lw s v
  step-Inv s (completes k r) v = finished-Inv ls lw k (some r) s _ refl v
  step-Inv s (abandons k) v = finished-Inv ls lw k none s _ refl v
  step-Inv s marks_ready v = same-Inv ls lw s _ refl (λ j. refl) (λ j. refl) v
  step-Inv s (decides k r) v = deciding-Inv ls lw k r s _ refl v
  step-Inv s (claims_reply n) v = claiming-Inv ls lw n s _ refl v
  step-Inv s (begins_drop k) v = dropping-Inv ls lw k s _ refl v
  step-Inv s (begins_take i) v =
      if_cases (Inv ls lw) s.queue.accepting s (claimed slots works i (err stopped) s) (λ _. v)
        (λ _. begin_take-Inv ls lw i (err stopped) s v)
  step-Inv s (records n) v = recorded-Inv ls lw n s _ refl v
  step-Inv s (publishes n) v = published-Inv ls lw n s _ refl v
  step-Inv s (pops i) v = pop_result-Inv ls lw i s _ refl v
  step-Inv s retires v = same-Inv ls lw s _ refl (λ j. refl) (λ j. refl) v

  pub run-Inv :
      (s : Service Reply S Q) (cs : List (Call Reply))
      → Inv ls lw s
      → Inv ls lw (run slots works s cs)
  unfolding run
  run-Inv s [] v = v
  run-Inv s (c ∷ cs) v = run-Inv (step slots works s c) cs (step-Inv s c v)

  pub start-Inv : (capacity : ℕ) → 0 < capacity → Inv ls lw (start works capacity)
  unfolding new_queue
  start-Inv capacity h = record {
    tickets_ok = λ j. (
      omega (
        arith,
        ap (works_of j) (lw.items-new 1 (omega arith)),
        ap (works_of j) (lw.items-new capacity h),
      ),
      refl,
    );
    waits = λ j. tt;
  }
