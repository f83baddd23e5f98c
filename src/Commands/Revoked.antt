-- ===== src/Commands/Revoked.antt =====
-- Revocation and retirement in rust/driver/src/remote_base.rs: what no later call can undo.
use usbradio_plus.Prelude.{
  ℕ, ◌≡◌, refl, sym, ap, subst, ◌∙◌, inl, inr, Bool, true, false, not, Option, none, some, List, [],
  ◌∷◌, ◌++◌, get_elem?, if_cases, Result, err, negsuc, arith,
}
use usbradio_plus.Request.{RemoteRequestError, stopped, rejected}
use usbradio_plus.Commands.{
  ArrayQueue, IsArrayQueue, TicketState, RemoteInput, command, parallel_input, RemoteWork,
  RemoteQueue, source_state, drop_ticket, drop_work, new_ticket, new_work, with_ticket, enqueue,
  submit, submit_parallel, next, next_urgent, next_ordinary, after_next, after_urgent,
  after_ordinary, mark_ready, retire, is_incomplete,
}
use usbradio_plus.Commands.Admission.{admission, pushed_cases}
use usbradio_plus.Commands.Runs.{
  Call, submits, submits_parallel, sets_source, takes, drops_ticket, takes_next, takes_urgent,
  takes_ordinary, completes, abandons, marks_ready, retires, decides, claims_reply, begins_drop,
  begins_take, records, publishes, pops, claimed, Service, with_queue, received, step, run,
}
use usbradio_plus.Commands.Inv.{snoc_cases, Inv}
use usbradio_plus.Commands.Steps.{step-Inv}
use usbradio_plus.Commands.Overlap.{
  deciding_settles, claiming_settles, dropping_settles, claimed_settles, recorded_settles,
  published_settles,
}
-- How many of the results, and of those handed out for ticket `i`, are successes.
use usbradio_plus.Commands.Settled.{
  oks, Kept, successes, IsOverAt, Settled, carries_over, modify_settles, complete_settles,
  finished_settles, take_settles, pop_result_settles, source_state-Kept, drop_ticket-Kept, logged,
}

module _ {Reply S Q : Type 0} {slots : ArrayQueue S (Result RemoteRequestError Reply)}
    {works : ArrayQueue Q RemoteWork} (ls : IsArrayQueue slots) (lw : IsArrayQueue works) where
  snoc_settles :
      (i : ℕ) (s u : Service Reply S Q) (t : TicketState S)
      → u.queue.tickets ≡ s.queue.tickets ++ (t ∷ [])
      → u.queue.accepting ≡ s.queue.accepting
      → logged ls lw i u ≡ logged ls lw i s
      → ls.items t.result ≡ []
      → IsOverAt ls lw i s
      → Settled ls lw i s u
  snoc_settles i s u t l a n e = carries_over ls lw i s u a n (
      rw l (
        snoc_cases (λ o. Kept ls lw (get_elem? s.queue.tickets i) o) s.queue.tickets t i
          (λ _ missing. rw missing (λ h. absurd (ground (arith, h)), ap oks e))
          (λ _. (λ e. e, refl))))

  admission_settles :
      (i : ℕ) (s : Service Reply S Q) (t : TicketState S) (w : RemoteWork)
      → ls.items t.result ≡ []
      → IsOverAt ls lw i s
      → Settled ls lw i s (with_queue s (admission ls lw s t w))
  unfolding drop_work
  admission_settles i s t w e v = elim (pushed_cases ls lw s t w) [
    | inl dropped ↦
        let u = with_queue s (with_ticket s.queue t) in
        let (a, m) = snoc_settles i s u t refl refl refl e v in
        let (b, n) = complete_settles ls lw i w.state (err stopped) s.held u (λ _. refl) a in
        subst (λ q. Settled ls lw i s (with_queue s q)) (sym dropped) (b, n ∙ m)
    | inr (a, l, _) ↦ snoc_settles i s (with_queue s (admission ls lw s t w)) t l a refl e v
  ]

  enqueue_settles :
      (i : ℕ) (input : RemoteInput) (is_local active : Bool) (s : Service Reply S Q)
      → IsOverAt ls lw i s
      → Settled ls lw i s (with_queue s (enqueue slots works input is_local active s.queue).0)
  unfolding enqueue drop_work
  enqueue_settles i input is_local active s v =
      let t = new_ticket slots input is_local active in
      let w = new_work input s.queue.tickets in
      let P = RemoteQueue S Q × Result RemoteRequestError ℕ in
      if_cases (λ (x : P). Settled ls lw i s (with_queue s x.0)) (not s.queue.accepting)
        (s.queue, err stopped) _ (λ _. (v, refl))
        (λ on.
          if_cases (λ (x : P). Settled ls lw i s (with_queue s x.0)) (is_incomplete input)
            (s.queue, err (rejected (negsuc 1002))) _ (λ _. (v, refl))
            (λ _. admission_settles i s t w (ls.items-new 1 (omega arith)) v))

  after_next_settles :
      (i : ℕ) (s : Service Reply S Q) (o : Option (RemoteWork × Q))
      → IsOverAt ls lw i s
      → Settled ls lw i s (received s (after_ordinary works s.queue o))
        × Settled ls lw i s (received s (after_urgent works s.queue o))
  after_next_settles i s none v = ((v, refl), (v, refl))
  after_next_settles i s (some (w, rest)) v = ((v, refl), (v, refl))

  next_settles :
      (i : ℕ) (s : Service Reply S Q) (o : Option (RemoteWork × Q))
      → IsOverAt ls lw i s
      → Settled ls lw i s (received s (after_next works s.queue o))
  unfolding next_ordinary
  next_settles i s none v = (after_next_settles i s (works.pop s.queue.ordinary) v).0
  next_settles i s (some p) v = (after_next_settles i s (some p) v).1

  step_settles :
      (i : ℕ) (s : Service Reply S Q) (c : Call Reply)
      → Inv ls lw s
      → IsOverAt ls lw i s
      → Settled ls lw i s (step slots works s c)
  unfolding step submit submit_parallel mark_ready retire next next_urgent next_ordinary
  step_settles i s (submits r is_local active) inv v =
      enqueue_settles i (command r) is_local active s v
  step_settles i s (submits_parallel r) inv v = enqueue_settles i (parallel_input r) true false s v
  step_settles i s (sets_source k active valid) inv v =
      modify_settles ls lw i k (source_state active valid) s
        (step slots works s (sets_source k active valid)) refl refl refl
        (λ _. source_state-Kept ls lw active valid (get_elem? s.queue.tickets i)) v
  step_settles i s (takes k) inv v = take_settles ls lw i k s v
  step_settles i s (drops_ticket k) inv v =
      modify_settles ls lw i k drop_ticket s (step slots works s (drops_ticket k)) refl refl refl
        (λ _. drop_ticket-Kept ls lw (get_elem? s.queue.tickets i)) v
  step_settles i s takes_next inv v = next_settles i s (works.pop s.queue.urgent_slot) v
  step_settles i s takes_urgent inv v = (after_next_settles i s (works.pop s.queue.urgent_slot) v).1
  step_settles i s takes_ordinary inv v = (after_next_settles i s (works.pop s.queue.ordinary) v).0
  step_settles i s (completes k r) inv v = finished_settles ls lw i k (some r) s _ v
  step_settles i s (abandons k) inv v = finished_settles ls lw i k none s _ v
  step_settles i s marks_ready inv v = (v, refl)
  step_settles i s retires inv v = (inl refl, refl)
  step_settles i s (decides k r) inv v = deciding_settles ls lw i k r s _ v
  step_settles i s (claims_reply n) inv v = claiming_settles ls lw i n s _ refl v
  step_settles i s (begins_drop k) inv v = dropping_settles ls lw i k s _ v
  step_settles i s (begins_take k) inv v =
      if_cases (Settled ls lw i s) s.queue.accepting s (claimed slots works k (err stopped) s)
        (λ _. (v, refl)) (λ _. claimed_settles ls lw i k (err stopped) s s.held (λ _. refl) v)
  step_settles i s (records n) inv v = recorded_settles ls lw i n s _ refl v
  step_settles i s (publishes n) inv v = published_settles ls lw i n s _ refl inv v
  step_settles i s (pops k) inv v = pop_result_settles ls lw i k s _ refl v

  -- From a state with the invariant of the port, which every state reached from a new one has:
  -- once the generation is retired or a ticket's source is revoked, no later series of calls,
  -- with other calls between a completion's verdict, its claim and its push, takes that back or
  -- changes the number of successes that the ticket has got or that the owner had decided on
  -- for it.
  pub run_settles :
      (i : ℕ) (s : Service Reply S Q) (cs : List (Call Reply))
      → Inv ls lw s
      → IsOverAt ls lw i s
      → IsOverAt ls lw i (run slots works s cs)
        × (successes ls lw i (run slots works s cs) ≡ successes ls lw i s)
  unfolding run
  run_settles i s [] inv v = (v, refl)
  run_settles i s (c ∷ cs) inv v =
      let (a, m) = step_settles i s c inv v in
      let (b, n) = run_settles i (step slots works s c) cs (step-Inv ls lw s c inv) a in (b, n ∙ m)
