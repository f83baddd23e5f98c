-- ===== src/Commands/Settled.antt =====
-- What a completion, a change of the source and a taken completion of
-- rust/driver/src/remote_base.rs leave of a revoked ticket.
use usbradio_plus.Prelude.{
  ℕ, ◌+◌, ◌%◌, ◌≡◌, refl, sym, ap, subst, ◌∙◌, ◌⊎◌, inl, inr, Bool, true, false, Option, none, some,
  List, [], ◌∷◌, ◌++◌, get_elem?, ◌==◌, if◌then◌else◌, Bool-cases, if_cases, ==_iff, Result, ok,
  err, ℤ, arith,
}
use usbradio_plus.Request.{RemoteRequestError, stopped}
use usbradio_plus.Commands.{
  ArrayQueue, IsArrayQueue, push_or_keep, modify, map_some, get_elem?-modify_self, TicketState,
  RemoteWork, RemoteQueue, flag, source_of, source_state, drop_ticket, is_ok, detached_error,
  verdict, complete, complete_at, drop_work, complete_work, popped, pop_result, take_completion,
}
use usbradio_plus.Commands.Runs.{Service, remove_at, with_queue, handed, finished}
use usbradio_plus.Commands.Inv.{modify_cases}

-- How many of the results, and of those handed out for ticket `i`, are successes.
abbrev pub oks : {Reply : Type 0} → List (Result RemoteRequestError Reply) → ℕ
oks [] = 0
oks (r ∷ rs) = flag (is_ok r) + oks rs

abbrev pub oks_of : {Reply : Type 0} → ℕ → List (ℕ × Result RemoteRequestError Reply) → ℕ
oks_of i [] = 0
oks_of i ((j, r) ∷ log) = (if j == i then flag (is_ok r) else 0) + oks_of i log

pub oks-append :
    {Reply : Type 0} (xs ys : List (Result RemoteRequestError Reply))
    → oks (xs ++ ys) ≡ oks xs + oks ys
oks-append [] ys = omega arith
oks-append (x ∷ xs) ys = omega (arith, oks-append xs ys)

pub oks_of_other :
    {Reply : Type 0} (i j : ℕ) (r : Result RemoteRequestError Reply)
    (log : List (ℕ × Result RemoteRequestError Reply))
    → (j == i) ≡ false
    → oks_of j ((i, r) ∷ log) ≡ oks_of j log
oks_of_other i j r log h = ground (arith, h)

pub oks_of_self :
    {Reply : Type 0} (i : ℕ) (r : Result RemoteRequestError Reply)
    (log : List (ℕ × Result RemoteRequestError Reply))
    → oks_of i ((i, r) ∷ log) ≡ flag (is_ok r) + oks_of i log
oks_of_self i r log = ground arith

-- The source's bit for valid is clear.
abbrev pub IsRevoked : {S : Type 0} → Option (TicketState S) → Type 0
IsRevoked none = false ≡ true
IsRevoked (some t) = t.source % 2 ≡ 0

abbrev pub IsOver : {S : Type 0} → Bool → Option (TicketState S) → Type 0
IsOver accepting o = (accepting ≡ false) ⊎ IsRevoked o

not_valid :
    {S : Type 0} (accepting : Bool) (t : TicketState S)
    → IsOver accepting (some t)
    → (source_of accepting t).valid ≡ false
unfolding source_of
not_valid accepting t (inl e) = ground (arith, e)
not_valid accepting t (inr e) = ground (arith, e)

pub verdict-IsOver :
    {Reply S : Type 0} (accepting : Bool) (o : Option (TicketState S))
    (r : Result RemoteRequestError Reply)
    → IsOver accepting o
    → is_ok (verdict accepting o r) ≡ false
verdict-IsOver accepting none r h = refl
verdict-IsOver false (some t) r h = refl
verdict-IsOver true (some t) (ok r) h = rw (not_valid true t h) refl
verdict-IsOver true (some t) (err e) h = refl

module _ {Reply S Q : Type 0} {slots : ArrayQueue S (Result RemoteRequestError Reply)}
    {works : ArrayQueue Q RemoteWork} (ls : IsArrayQueue slots) (lw : IsArrayQueue works) where
  abbrev pub slot_oks : Option (TicketState S) → ℕ
  slot_oks none = 0
  slot_oks (some t) = oks (ls.items t.result)

  -- Of the completions that were handed out or are on their way, and of the owner's verdicts that
  -- wait for their claim or were refused.
  abbrev pub logged : ℕ → Service Reply S Q → ℕ
  logged i s =
      oks_of i s.taken
      + (oks_of i s.claims + oks_of i s.writes)
      + (oks_of i s.decided + oks_of i s.refused)

  -- The successes that a ticket ever got or that the owner decided on for it.
  abbrev pub successes : ℕ → Service Reply S Q → ℕ
  successes i s = slot_oks (get_elem? s.queue.tickets i) + logged i s

  abbrev pub Kept : Option (TicketState S) → Option (TicketState S) → Type 0
  Kept o p = (IsRevoked o → IsRevoked p) × (slot_oks p ≡ slot_oks o)

  pushed_oks :
      (x : S) (r : Result RemoteRequestError Reply)
      → is_ok r ≡ false
      → oks (ls.items (push_or_keep slots x r)) ≡ oks (ls.items x)
  pushed_oks x r h = elim (ls.push_cases x r) [
    | inl (e, _) ↦ rw (push_or_keep, e) refl
    | inr (y, e, _, i, _) ↦
        rw (push_or_keep, e, i) (omega (arith, oks-append (ls.items x) (r ∷ []), ap flag h))
  ]

  complete-Kept :
      (o : Option (TicketState S)) (error : ℤ) (r : Result RemoteRequestError Reply)
      → is_ok r ≡ false
      → Kept o (map_some (λ t. (complete slots t error r).0) o)
  unfolding complete
  complete-Kept none error r h = (λ e. e, refl)
  complete-Kept (some t) error r h =
      if_cases (λ (x : TicketState S × ℤ). Kept (some t) (some x.0)) t.completed (t, error)
        (
          record t { completed = true; result = push_or_keep slots t.result r },
          detached_error t.detached r error,
        )
        (λ _. (λ e. e, refl)) (λ _. (λ e. e, pushed_oks t.result r h))

  abbrev pub IsOverAt : ℕ → Service Reply S Q → Type 0
  IsOverAt i s = IsOver s.queue.accepting (get_elem? s.queue.tickets i)

  abbrev pub Settled : ℕ → Service Reply S Q → Service Reply S Q → Type 0
  Settled i s u = IsOverAt i u × (successes i u ≡ successes i s)

  pub carries_over :
      (i : ℕ) (s u : Service Reply S Q)
      → u.queue.accepting ≡ s.queue.accepting
      → logged i u ≡ logged i s
      → Kept (get_elem? s.queue.tickets i) (get_elem? u.queue.tickets i)
      → IsOverAt i s
      → Settled i s u
  carries_over i s u a l (k, n) (inl off) = (inl (a ∙ off), omega (arith, n, l))
  carries_over i s u a l (k, n) (inr off) = (inr (k off), omega (arith, n, l))

  pub modify_settles :
      (i k : ℕ) (f : TicketState S → TicketState S) (s u : Service Reply S Q)
      → u.queue.tickets ≡ modify k f s.queue.tickets
      → u.queue.accepting ≡ s.queue.accepting
      → logged i u ≡ logged i s
      → (i ≡ k → Kept (get_elem? s.queue.tickets i) (map_some f (get_elem? s.queue.tickets i)))
      → IsOverAt i s
      → Settled i s u
  modify_settles i k f s u t a l h = carries_over i s u a l (
      rw t (
        modify_cases (λ o. Kept (get_elem? s.queue.tickets i) o) k i f s.queue.tickets h
          (λ _. (λ e. e, refl))))

  same_settles :
      (i : ℕ) (s u : Service Reply S Q)
      → u.queue.tickets ≡ s.queue.tickets
      → u.queue.accepting ≡ s.queue.accepting
      → logged i u ≡ logged i s
      → IsOverAt i s
      → Settled i s u
  same_settles i s u t a l = carries_over i s u a l (rw t (λ e. e, refl))

  pub complete_settles :
      (i k : ℕ) (r : Result RemoteRequestError Reply) (held : List RemoteWork)
      (s : Service Reply S Q)
      → (i ≡ k → is_ok r ≡ false)
      → IsOverAt i s
      → Settled i s (record s { queue = complete_at slots works k r s.queue; held = held })
  unfolding complete_at
  complete_settles i k r held s h =
      modify_settles i k _ s (record s { queue = complete_at slots works k r s.queue; held = held })
        refl refl refl
        (λ e. complete-Kept (get_elem? s.queue.tickets i) s.queue.parallel_error r (h e))

  pub finished_settles :
      (i k : ℕ) (r : Option (Result RemoteRequestError Reply)) (s : Service Reply S Q)
      (o : Option RemoteWork)
      → IsOverAt i s
      → Settled i s (finished slots works k r s o)
  unfolding drop_work complete_work
  finished_settles i k r s none v = (v, refl)
  finished_settles i k none s (some w) v =
      complete_settles i w.state (err stopped) (remove_at k s.held) s (λ _. refl) v
  finished_settles i k (some r) s (some w) v =
      let d = verdict s.queue.accepting (get_elem? s.queue.tickets w.state) r in
      let (a, m) =
        complete_settles i w.state d s.held s
          (λ e.
            verdict-IsOver s.queue.accepting (get_elem? s.queue.tickets w.state) r
              (subst (λ j. IsOver s.queue.accepting (get_elem? s.queue.tickets j)) e v))
          v in
      let (b, n) =
        complete_settles i w.state (err stopped) (remove_at k s.held)
          (with_queue s (complete_at slots works w.state d s.queue)) (λ _. refl) a in
      (b, n ∙ m)

  pub source_state-Kept :
      (active valid : Bool) (o : Option (TicketState S))
      → Kept o (map_some (source_state active valid) o)
  unfolding source_state
  source_state-Kept active valid none = (λ e. e, refl)
  source_state-Kept active valid (some t) = (λ e. ground (arith, e), refl)

  pub drop_ticket-Kept : (o : Option (TicketState S)) → Kept o (map_some drop_ticket o)
  unfolding drop_ticket
  drop_ticket-Kept none = (λ e. e, refl)
  drop_ticket-Kept (some t) = (λ e. omega (arith, e), refl)

  abbrev after_pop : ℕ → Service Reply S Q → Result RemoteRequestError Reply → S → Service Reply S Q
  after_pop k s r rest =
      let q = record s.queue {
        tickets = modify k (λ t. record t { result = rest }) s.queue.tickets;
      } in
      record s { queue = q; taken = (k, r) ∷ s.taken }

  pop_self :
      (k : ℕ) (s : Service Reply S Q) (t : TicketState S) (r : Result RemoteRequestError Reply)
      (rest : S)
      → get_elem? s.queue.tickets k ≡ some t
      → ls.items t.result ≡ r ∷ ls.items rest
      → IsOverAt k s
      → Settled k s (after_pop k s r rest)
  pop_self k s t r rest e l v =
      rw
        (
          get_elem?-modify_self k (λ (t : TicketState S). record t { result = rest })
              s.queue.tickets,
          e,
        )
        (subst (IsOver s.queue.accepting) e v, omega (arith, oks_of_self k r s.taken, ap oks l))

  pop_settles :
      (i k : ℕ) (s : Service Reply S Q) (t : TicketState S) (r : Result RemoteRequestError Reply)
      (rest : S)
      → get_elem? s.queue.tickets k ≡ some t
      → ls.items t.result ≡ r ∷ ls.items rest
      → IsOverAt i s
      → Settled i s (after_pop k s r rest)
  pop_settles i k s t r rest e l v = elim (Bool-cases (i == k)) [
    | inl same ↦
        let eq = (==_iff i k).0 same in
        subst (λ j. Settled j s (after_pop k s r rest)) (sym eq)
          (pop_self k s t r rest e l (subst (λ j. IsOverAt j s) eq v))
    | inr ne ↦
        carries_over i s (after_pop k s r rest) refl (omega (arith, oks_of_other k i r s.taken ne))
          (modify_cases (λ o. Kept (get_elem? s.queue.tickets i) o) k i
            (λ (t : TicketState S). record t { result = rest }) s.queue.tickets
            (λ same. absurd (ground (arith, ne, same))) (λ _. (λ e. e, refl)))
          v
  ]

  pub pop_result_settles :
      (i k : ℕ) (s : Service Reply S Q) (o : Option (TicketState S))
      → get_elem? s.queue.tickets k ≡ o
      → IsOverAt i s
      → Settled i s (handed k s (pop_result slots works k s.queue o))
  pop_result_settles i k s none e v = (v, refl)
  pop_result_settles i k s (some t) e v = elim (ls.pop_cases t.result) [
    | inl (n, _) ↦ rw (popped, n) (v, refl)
    | inr (r, rest, n, l, c) ↦ rw (popped, n) (pop_settles i k s t r rest e l v)
  ]

  pub take_settles :
      (i k : ℕ) (s : Service Reply S Q)
      → IsOverAt i s
      → Settled i s (handed k s (take_completion slots works k s.queue))
  unfolding take_completion
  take_settles i k s v =
      let R = RemoteQueue S Q in
      if_cases
        (λ (q : R). Settled i s (handed k s (pop_result slots works k q (get_elem? q.tickets k))))
        s.queue.accepting s.queue (complete_at slots works k (err stopped) s.queue)
        (λ _. pop_result_settles i k s _ refl v)
        (λ _.
          let (a, m) = complete_settles i k (err stopped) s.held s (λ _. refl) v in
          let (b, n) =
            pop_result_settles i k (with_queue s (complete_at slots works k (err stopped) s.queue))
              _ refl a in
          (b, n ∙ m))
