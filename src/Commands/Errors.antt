-- ===== src/Commands/Errors.antt =====
-- The error cell of the parallel requests in rust/driver/src/remote_base.rs.
use usbradio_plus.Prelude.{
  ℕ, zero, suc, ◌≡◌, ◌≢◌, refl, Bool, true, false, not, Option, none, some, List, [], ◌∷◌,
  get_elem?, if_cases, Result, ok, err, ℤ, pos, negsuc,
}
use usbradio_plus.Request.{RemoteRequestError, stopped, rejected}
use usbradio_plus.Commands.{
  ArrayQueue, push_or_keep, TicketState, RemoteInput, command, parallel_input, RemoteWork,
  RemoteQueue, first_error, error_code, detached_error, error_after, verdict, complete, complete_at,
  drop_work, complete_work, popped, pop_result, stop_if_retired, take_completion, new_ticket,
  new_work, with_ticket, admitted, enqueue, submit, submit_parallel, next, next_urgent,
  next_ordinary, after_next, after_urgent, after_ordinary, mark_ready, retire, is_incomplete,
  is_urgent, with_urgent, with_ordinary, is_open, claim_at, noted, record_at, publish_at,
}
use usbradio_plus.Commands.Runs.{
  Call, submits, submits_parallel, sets_source, takes, drops_ticket, takes_next, takes_urgent,
  takes_ordinary, completes, abandons, marks_ready, retires, decides, claims_reply, begins_drop,
  begins_take, records, publishes, pops, claimed, dropping, deciding, claiming, recorded, published,
  remove_at, Service, handed, received, finished, step, run,
}

first_error_kept : (current code : ℤ) → current ≢ pos 0 → first_error current code ≡ current
first_error_kept (pos zero) code h = absurd (h refl)
first_error_kept (pos (suc n)) code h = refl
first_error_kept (negsuc n) code h = refl

detached_error_kept :
    {Reply : Type 0} (detached : Bool) (r : Result RemoteRequestError Reply) (current : ℤ)
    → current ≢ pos 0
    → detached_error detached r current ≡ current
detached_error_kept true (err e) current h = first_error_kept current (error_code e) h
detached_error_kept true (ok r) current h = refl
detached_error_kept false r current h = refl

module _ {Reply S Q : Type 0} (slots : ArrayQueue S (Result RemoteRequestError Reply))
    (works : ArrayQueue Q RemoteWork) (code : ℤ) (failed : code ≢ pos 0) where
  abbrev Has : RemoteQueue S Q → Type 0
  Has q = q.parallel_error ≡ code

  error_after_kept :
      (o : Option (TicketState S)) (current : ℤ) (r : Result RemoteRequestError Reply)
      → current ≡ code
      → error_after slots works o current r ≡ code
  unfolding complete
  error_after_kept none current r h = h
  error_after_kept (some t) current r h =
      if_cases (λ (x : TicketState S × ℤ). x.1 ≡ code) t.completed (t, current)
        (
          record t { completed = true; result = push_or_keep slots t.result r },
          detached_error t.detached r current,
        )
        (λ _. h) (λ _. rw h (detached_error_kept t.detached r code failed))

  complete_at_kept :
      (i : ℕ) (r : Result RemoteRequestError Reply) (q : RemoteQueue S Q)
      → Has q
      → Has (complete_at slots works i r q)
  unfolding complete_at
  complete_at_kept i r q h = error_after_kept (get_elem? q.tickets i) q.parallel_error r h

  finished_kept :
      (k : ℕ) (r : Option (Result RemoteRequestError Reply)) (s : Service Reply S Q)
      (o : Option RemoteWork)
      → Has s.queue
      → Has (finished slots works k r s o).queue
  unfolding drop_work complete_work
  finished_kept k r s none h = h
  finished_kept k none s (some w) h = complete_at_kept w.state (err stopped) s.queue h
  finished_kept k (some r) s (some w) h =
      let d = verdict s.queue.accepting (get_elem? s.queue.tickets w.state) r in
      complete_at_kept w.state (err stopped) (complete_at slots works w.state d s.queue)
        (complete_at_kept w.state d s.queue h)

  popped_kept :
      (i : ℕ) (s : Service Reply S Q) (q : RemoteQueue S Q)
      (o : Option (Result RemoteRequestError Reply × S))
      → Has q
      → Has (handed i s (popped slots works i q o)).queue
  popped_kept i s q none h = h
  popped_kept i s q (some (r, rest)) h = h

  pop_result_kept :
      (i : ℕ) (s : Service Reply S Q) (q : RemoteQueue S Q) (o : Option (TicketState S))
      → Has q
      → Has (handed i s (pop_result slots works i q o)).queue
  pop_result_kept i s q none h = h
  pop_result_kept i s q (some t) h = popped_kept i s q (slots.pop t.result) h

  stop_if_retired_kept :
      (i : ℕ) (q : RemoteQueue S Q) → Has q → Has (stop_if_retired slots works i q)
  stop_if_retired_kept i q h =
      if_cases Has q.accepting q (complete_at slots works i (err stopped) q) (λ _. h)
        (λ _. complete_at_kept i (err stopped) q h)

  urgent_kept :
      (q : RemoteQueue S Q) (w : RemoteWork) (o : Option Q)
      → Has q
      → Has (admitted slots works q w (with_urgent q o)).0
  unfolding drop_work
  urgent_kept q w none h = complete_at_kept w.state (err stopped) q h
  urgent_kept q w (some x) h = h

  ordinary_kept :
      (q : RemoteQueue S Q) (w : RemoteWork) (o : Option Q)
      → Has q
      → Has (admitted slots works q w (with_ordinary q o)).0
  unfolding drop_work
  ordinary_kept q w none h = complete_at_kept w.state (err stopped) q h
  ordinary_kept q w (some x) h = h

  enqueue_kept :
      (input : RemoteInput) (is_local active : Bool) (q : RemoteQueue S Q)
      → Has q
      → Has (enqueue slots works input is_local active q).0
  unfolding enqueue
  enqueue_kept input is_local active q h =
      let r = with_ticket q (new_ticket slots input is_local active) in
      let w = new_work input q.tickets in
      let P = RemoteQueue S Q × Result RemoteRequestError ℕ in
      if_cases (λ (x : P). Has x.0) (not q.accepting) (q, err stopped) _ (λ _. h)
        (λ _.
          if_cases (λ (x : P). Has x.0) (is_incomplete input) (q, err (rejected (negsuc 1002))) _
            (λ _. h)
            (λ _.
              if_cases (λ (o : Option (RemoteQueue S Q)). Has (admitted slots works r w o).0)
                (is_urgent input) (with_urgent r (works.push q.urgent_slot w))
                (with_ordinary r (works.push q.ordinary w)) (λ _. urgent_kept r w _ h)
                (λ _. ordinary_kept r w _ h)))

  ordinary_next_kept :
      (s : Service Reply S Q) (o : Option (RemoteWork × Q))
      → Has s.queue
      → Has (received s (after_ordinary works s.queue o)).queue
  ordinary_next_kept s none h = h
  ordinary_next_kept s (some (w, rest)) h = h

  urgent_next_kept :
      (s : Service Reply S Q) (o : Option (RemoteWork × Q))
      → Has s.queue
      → Has (received s (after_urgent works s.queue o)).queue
  urgent_next_kept s none h = h
  urgent_next_kept s (some (w, rest)) h = h

  next_kept :
      (s : Service Reply S Q) (o : Option (RemoteWork × Q))
      → Has s.queue
      → Has (received s (after_next works s.queue o)).queue
  unfolding next_ordinary
  next_kept s none h = ordinary_next_kept s (works.pop s.queue.ordinary) h
  next_kept s (some p) h = urgent_next_kept s (some p) h

  claimed_kept :
      (i : ℕ) (r : Result RemoteRequestError Reply) (s : Service Reply S Q)
      → Has s.queue
      → Has (claimed slots works i r s).queue
  unfolding claim_at
  claimed_kept i r s h =
      if_cases (λ (u : Service Reply S Q). Has u.queue)
        (is_open slots works (get_elem? s.queue.tickets i))
        (record s { queue = claim_at slots works i s.queue; claims = (i, r) ∷ s.claims }) s (λ _. h)
        (λ _. h)

  dropping_kept :
      (k : ℕ) (s : Service Reply S Q) (o : Option RemoteWork)
      → Has s.queue
      → Has (dropping slots works k s o).queue
  dropping_kept k s none h = h
  dropping_kept k s (some w) h =
      claimed_kept w.state (err stopped) (record s { held = remove_at k s.held }) h

  deciding_kept :
      (k : ℕ) (r : Result RemoteRequestError Reply) (s : Service Reply S Q) (o : Option RemoteWork)
      → Has s.queue
      → Has (deciding slots works k r s o).queue
  deciding_kept k r s none h = h
  deciding_kept k r s (some w) h = h

  claiming_kept :
      (n : ℕ) (s : Service Reply S Q) (o : Option (ℕ × Result RemoteRequestError Reply))
      → Has s.queue
      → Has (claiming slots works n s o).queue
  unfolding claim_at
  claiming_kept n s none h = h
  claiming_kept n s (some (i, r)) h =
      if_cases (λ (u : Service Reply S Q). Has u.queue)
        (is_open slots works (get_elem? s.queue.tickets i)) _ _ (λ _. h) (λ _. h)

  noted_kept :
      (o : Option (TicketState S)) (r : Result RemoteRequestError Reply) (current : ℤ)
      → current ≡ code
      → noted slots works o r current ≡ code
  noted_kept none r current h = h
  noted_kept (some t) r current h = rw h (detached_error_kept t.detached r code failed)

  recorded_kept :
      (n : ℕ) (s : Service Reply S Q) (o : Option (ℕ × Result RemoteRequestError Reply))
      → Has s.queue
      → Has (recorded slots works n s o).queue
  unfolding record_at
  recorded_kept n s none h = h
  recorded_kept n s (some (i, r)) h =
      noted_kept (get_elem? s.queue.tickets i) r s.queue.parallel_error h

  published_kept :
      (n : ℕ) (s : Service Reply S Q) (o : Option (ℕ × Result RemoteRequestError Reply))
      → Has s.queue
      → Has (published slots works n s o).queue
  unfolding publish_at
  published_kept n s none h = h
  published_kept n s (some (i, r)) h = h

  step_kept :
      (s : Service Reply S Q) (c : Call Reply) → Has s.queue → Has (step slots works s c).queue
  unfolding step submit submit_parallel mark_ready retire next next_urgent next_ordinary
      take_completion
  step_kept s (submits r is_local active) h = enqueue_kept (command r) is_local active s.queue h
  step_kept s (submits_parallel r) h = enqueue_kept (parallel_input r) true false s.queue h
  step_kept s (sets_source k active valid) h = h
  step_kept s (takes k) h =
      let q = stop_if_retired slots works k s.queue in
      pop_result_kept k s q (get_elem? q.tickets k) (stop_if_retired_kept k s.queue h)
  step_kept s (drops_ticket k) h = h
  step_kept s takes_next h = next_kept s (works.pop s.queue.urgent_slot) h
  step_kept s takes_urgent h = urgent_next_kept s (works.pop s.queue.urgent_slot) h
  step_kept s takes_ordinary h = ordinary_next_kept s (works.pop s.queue.ordinary) h
  step_kept s (completes k r) h = finished_kept k (some r) s (get_elem? s.held k) h
  step_kept s (abandons k) h = finished_kept k none s (get_elem? s.held k) h
  step_kept s marks_ready h = h
  step_kept s retires h = h
  step_kept s (decides k r) h = deciding_kept k r s (get_elem? s.held k) h
  step_kept s (claims_reply n) h = claiming_kept n s (get_elem? s.decided n) h
  step_kept s (begins_drop k) h = dropping_kept k s (get_elem? s.held k) h
  step_kept s (begins_take i) h =
      if_cases (λ (u : Service Reply S Q). Has u.queue) s.queue.accepting s
        (claimed slots works i (err stopped) s) (λ _. h) (λ _. claimed_kept i (err stopped) s h)
  step_kept s (records n) h = recorded_kept n s (get_elem? s.claims n) h
  step_kept s (publishes n) h = published_kept n s (get_elem? s.writes n) h
  step_kept s (pops i) h = pop_result_kept i s s.queue (get_elem? s.queue.tickets i) h

  -- Once an error of a parallel request other than 0 is recorded, no series of calls changes
  -- it.
  pub parallel_error-run :
      (s : Service Reply S Q) (cs : List (Call Reply))
      → s.queue.parallel_error ≡ code
      → (run slots works s cs).queue.parallel_error ≡ code
  unfolding run
  parallel_error-run s [] h = h
  parallel_error-run s (c ∷ cs) h = parallel_error-run (step slots works s c) cs (step_kept s c h)
