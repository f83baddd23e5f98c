-- ===== src/Commands/Inv.antt =====
-- The invariant of the command port of rust/driver/src/remote_base.rs, ticket by ticket: how often a
-- ticket's work and its completion are anywhere.
use usbradio_plus.Prelude.{
  ℕ, zero, suc, ◌+◌, ◌≤◌, ◌≡◌, refl, inl, inr, true, false, Option, none, some, List, [], ◌∷◌, ◌++◌,
  length, length-append, get_elem?, ◌==◌, if◌then◌else◌, Bool-cases, if_cases, ==_iff, Result,
  arith, ℤ, subst,
}
use usbradio_plus.Request.{RemoteRequestError}
use usbradio_plus.Commands.{
  ArrayQueue, IsArrayQueue, push_or_keep, modify, map_some, get_elem?-modify_self,
  get_elem?-modify_ne, TicketState, RemoteWork, flag, complete, detached_error,
}
use usbradio_plus.Commands.Runs.{Service, remove_at}

pub modify_cases :
    {A : Type 0} (P : Option A → Type 0) (i j : ℕ) (f : A → A) (xs : List A)
    → (j ≡ i → P (map_some f (get_elem? xs j)))
    → ((j == i) ≡ false → P (get_elem? xs j))
    → P (get_elem? (modify i f xs) j)
modify_cases P i j f xs same other = elim (Bool-cases (j == i)) [
  | inl e ↦
      let eq = (==_iff j i).0 e in
      rw (eq, get_elem?-modify_self i f xs)
        (subst (λ k. P (map_some f (get_elem? xs k))) eq (same eq))
  | inr ne ↦ rw (get_elem?-modify_ne i j f xs ne) (other ne)
]

pub snoc_cases :
    {A : Type 0} (P : Option A → Type 0) (xs : List A) (x : A) (j : ℕ)
    → (j ≡ length xs → get_elem? xs j ≡ none → P (some x))
    → ((j == length xs) ≡ false → P (get_elem? xs j))
    → P (get_elem? (xs ++ (x ∷ [])) j)
snoc_cases P [] x zero new old = new refl refl
snoc_cases P [] x (suc j) new old = old (ground arith)
snoc_cases P (y ∷ xs) x zero new old = old (ground arith)
snoc_cases P (y ∷ xs) x (suc j) new old =
    snoc_cases P xs x j (λ e. new (omega (arith, e))) (λ ne. old (ground (arith, ne)))

-- How many of the works share this ticket, and how many of its completions were handed out.
abbrev pub works_of : ℕ → List RemoteWork → ℕ
works_of i [] = 0
works_of i (w ∷ ws) = (if w.state == i then 1 else 0) + works_of i ws

abbrev pub taken_of : {R : Type 0} → ℕ → List (ℕ × R) → ℕ
taken_of i [] = 0
taken_of i ((j, r) ∷ log) = (if j == i then 1 else 0) + taken_of i log

pub works_of-append :
    (i : ℕ) (xs ys : List RemoteWork) → works_of i (xs ++ ys) ≡ works_of i xs + works_of i ys
works_of-append i [] ys = omega arith
works_of-append i (x ∷ xs) ys = omega (arith, works_of-append i xs ys)

pub works_of-remove_at :
    (i k : ℕ) (ws : List RemoteWork) (w : RemoteWork)
    → get_elem? ws k ≡ some w
    → works_of i ws ≡ works_of i (remove_at k ws) + (if w.state == i then 1 else 0)
works_of-remove_at i k [] w h = absurd (ground (arith, h))
works_of-remove_at i zero (x ∷ ws) w h = ground (arith, h)
works_of-remove_at i (suc k) (x ∷ ws) w h = omega (arith, works_of-remove_at i k ws w h)

module _ {Reply S Q : Type 0} {slots : ArrayQueue S (Result RemoteRequestError Reply)}
    {works : ArrayQueue Q RemoteWork} (ls : IsArrayQueue slots) (lw : IsArrayQueue works) where
  abbrev pub owned : ℕ → Service Reply S Q → ℕ
  owned i s =
      works_of i (lw.items s.queue.urgent_slot)
      + works_of i (lw.items s.queue.ordinary)
      + works_of i s.held
      + taken_of i s.decided

  -- The completions of a ticket that were handed out or are on their way to its slot.
  abbrev pub gone : ℕ → Service Reply S Q → ℕ
  gone i s = taken_of i s.taken + (taken_of i s.claims + taken_of i s.writes)

  -- A completion waits, is on its way or was handed out as soon as the ticket is completed, and only then.
  abbrev pub TicketOk : Option (TicketState S) → ℕ → ℕ → Type 0
  TicketOk none own took = (own ≡ 0) × (took ≡ 0)
  TicketOk (some t) own took =
      (ls.capacity t.result ≡ 1)
      × (length (ls.items t.result) + took ≡ flag t.completed)
      × (own ≤ 1)

  abbrev pub Waits : Option (TicketState S) → ℕ → Type 0
  Waits none own = Unit
  Waits (some t) own = t.completed ≡ false → own ≡ 1

  pub record Inv (s : Service Reply S Q) : Type 0 where
    pub tickets_ok : (j : ℕ) → TicketOk (get_elem? s.queue.tickets j) (owned j s) (gone j s)
    pub waits : (j : ℕ) → Waits (get_elem? s.queue.tickets j) (owned j s)

  pub one_pushed :
      (x : S) (r : Result RemoteRequestError Reply)
      → ls.capacity x ≡ 1
      → length (ls.items x) ≡ 0
      → (ls.capacity (push_or_keep slots x r) ≡ 1)
        × (length (ls.items (push_or_keep slots x r)) ≡ 1)
  one_pushed x r c h = elim (ls.push_cases x r) [
    | inl (e, full) ↦ absurd (omega arith)
    | inr (y, e, room, i, k) ↦
        rw (push_or_keep, e)
          (omega arith, rw i (omega (arith, length-append (ls.items x) (r ∷ []))))
  ]

  pub complete-TicketOk :
      (o : Option (TicketState S)) (own own2 took : ℕ) (error : ℤ)
      (r : Result RemoteRequestError Reply)
      → own2 ≤ own
      → TicketOk o own took
      → TicketOk (map_some (λ t. (complete slots t error r).0) o) own2 took
  unfolding complete
  complete-TicketOk none own own2 took error r le (a, b) = (omega arith, b)
  complete-TicketOk (some t) own own2 took error r le (k, n, m) =
      if_cases (λ (x : TicketState S × ℤ). TicketOk (some x.0) own2 took) t.completed (t, error)
        (
          record t { completed = true; result = push_or_keep slots t.result r },
          detached_error t.detached r error,
        )
        (λ e. (k, n, omega (arith, le, m)))
        (λ e.
          let (a, b) = one_pushed t.result r k (ground (arith, n, e)) in
          (a, rw b (ground (arith, n, e)), omega (arith, le, m)))

  pub completed_after :
      (o : Option (TicketState S)) (own : ℕ) (error : ℤ) (r : Result RemoteRequestError Reply)
      → Waits (map_some (λ t. (complete slots t error r).0) o) own
  unfolding complete
  completed_after none own error r = tt
  completed_after (some t) own error r = elim (Bool-cases t.completed) [
    | inl e ↦ λ h. absurd (ground (arith, h, e))
    | inr e ↦ λ h. absurd (ground (arith, h, e))
  ]

  pub shrinks-TicketOk :
      (o : Option (TicketState S)) (own own2 took : ℕ)
      → own2 ≤ own
      → TicketOk o own took
      → TicketOk o own2 took
  shrinks-TicketOk none own own2 took le (a, b) = (omega arith, b)
  shrinks-TicketOk (some t) own own2 took le (a, b, c) = (a, b, omega arith)

  -- An `Inv` over the numbers alone, for a change that moves work between the places.
  pub same-Inv :
      (s u : Service Reply S Q)
      → u.queue.tickets ≡ s.queue.tickets
      → ((j : ℕ) → gone j u ≡ gone j s)
      → ((j : ℕ) → owned j u ≡ owned j s)
      → Inv s
      → Inv u
  same-Inv s u t l o v = record {
    tickets_ok = λ j. rw (t, l j, o j) (v.tickets_ok j);
    waits = λ j. rw (t, o j) (v.waits j);
  }
