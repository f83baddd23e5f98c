-- ===== src/Commands/Parts.antt =====
-- The parts of a completion that other calls can come between keep the invariant of the command port.
use usbradio_plus.Prelude.{
  ℕ, zero, suc, ◌+◌, ◌≤◌, ◌≡◌, refl, sym, ap, subst, ◌∙◌, inl, inr, true, false, Option, none, some,
  List, [], ◌∷◌, get_elem?, ◌==◌, if◌then◌else◌, if_cases, Bool-cases, ==_iff, Result, err, arith,
}
use usbradio_plus.Request.{RemoteRequestError, stopped}
use usbradio_plus.Commands.{
  ArrayQueue, IsArrayQueue, map_some, TicketState, RemoteWork, claim, publish, is_open, claim_at,
  record_at, publish_at,
}
use usbradio_plus.Commands.Runs.{
  Service, remove_at, claimed, dropping, deciding, claiming, recorded, published,
}
use usbradio_plus.Commands.Inv.{
  modify_cases, works_of, taken_of, works_of-remove_at, owned, gone, TicketOk, Waits, Inv,
  shrinks-TicketOk, same-Inv, one_pushed,
}

pub taken_of-remove_at :
    {R : Type 0} (i k : ℕ) (xs : List (ℕ × R)) (x : ℕ × R)
    → get_elem? xs k ≡ some x
    → taken_of i xs ≡ taken_of i (remove_at k xs) + (if x.0 == i then 1 else 0)
taken_of-remove_at i k [] x h = absurd (ground (arith, h))
taken_of-remove_at i zero ((j, r) ∷ xs) x h =
    ap
      (λ (o : Option (ℕ × _)). elim o [
        | none ↦ taken_of i ((j, r) ∷ xs)
        | some y ↦ (if y.0 == i then 1 else 0) + taken_of i xs
      ])
      h
    ∙ omega arith
taken_of-remove_at i (suc k) ((j, r) ∷ xs) x h = omega (arith, taken_of-remove_at i k xs x h)

module _ {Reply S Q : Type 0} {slots : ArrayQueue S (Result RemoteRequestError Reply)}
    {works : ArrayQueue Q RemoteWork} (ls : IsArrayQueue slots) (lw : IsArrayQueue works) where
  claim-TicketOk :
      (o : Option (TicketState S)) (own own2 took : ℕ)
      → own2 ≤ own
      → is_open slots works o ≡ true
      → TicketOk ls lw o own took
      → TicketOk ls lw (map_some (claim slots) o) own2 (suc took)
  claim-TicketOk none own own2 took le h v = absurd (ground (arith, h))
  claim-TicketOk (some t) own own2 took le h (k, n, m) =
      (k, ground (arith, n, h), omega (arith, le, m))

  claim-Waits : (o : Option (TicketState S)) (own : ℕ) → Waits ls lw (map_some (claim slots) o) own
  claim-Waits none own = tt
  claim-Waits (some t) own = λ h. absurd (ground (arith, h))

  closed-Waits :
      (o : Option (TicketState S)) (own : ℕ) → is_open slots works o ≡ false → Waits ls lw o own
  closed-Waits none own h = tt
  closed-Waits (some t) own h = λ e. absurd (ground (arith, h, e))

  -- A claim on ticket `i`, whose work, or the verdict on it, may be given up at the same time.
  claim_made :
      (s : Service Reply S Q) (i : ℕ) (r : Result RemoteRequestError Reply) (held : List RemoteWork)
      (decided : List (ℕ × Result RemoteRequestError Reply))
      → ((j : ℕ) → works_of j held + taken_of j decided ≤ works_of j s.held + taken_of j s.decided)
      → ((j : ℕ)
          → (j == i) ≡ false
          → works_of j held + taken_of j decided ≡ works_of j s.held + taken_of j s.decided)
      → is_open slots works (get_elem? s.queue.tickets i) ≡ true
      → Inv ls lw s
      → Inv ls lw (record s {
        queue = claim_at slots works i s.queue;
        held = held;
        decided = decided;
        claims = (i, r) ∷ s.claims;
      })
  unfolding claim_at
  claim_made s i r held decided le same open_i v =
      let w = record s {
        queue = claim_at slots works i s.queue;
        held = held;
        decided = decided;
        claims = (i, r) ∷ s.claims;
      } in
      record {
        tickets_ok = λ j.
            modify_cases (λ o. TicketOk ls lw o (owned ls lw j w) (gone ls lw j w)) i j _
              s.queue.tickets
              (λ e.
                subst
                  (λ took.
                    TicketOk ls lw (map_some (claim slots) (get_elem? s.queue.tickets j))
                      (owned ls lw j w) took)
                  (more j e)
                  (claim-TicketOk (get_elem? s.queue.tickets j) (owned ls lw j s) (owned ls lw j w)
                    (gone ls lw j s) (omega (arith, le j))
                    (subst (λ k. is_open slots works (get_elem? s.queue.tickets k) ≡ true) (sym e)
                      open_i)
                    (v.tickets_ok j)))
              (λ ne.
                subst (λ took. TicketOk ls lw (get_elem? s.queue.tickets j) (owned ls lw j w) took)
                  (other j ne)
                  (shrinks-TicketOk ls lw _ (owned ls lw j s) _ _ (omega (arith, le j))
                    (v.tickets_ok j)));
        waits = λ j.
            modify_cases (λ o. Waits ls lw o (owned ls lw j w)) i j _ s.queue.tickets
              (λ e. claim-Waits _ _)
              (λ ne.
                subst (Waits ls lw (get_elem? s.queue.tickets j)) (omega (arith, same j ne))
                  (v.waits j));
      }
    where
      more :
          (j : ℕ)
          → j ≡ i
          → suc (gone ls lw j s)
            ≡ taken_of j s.taken + (taken_of j ((i, r) ∷ s.claims) + taken_of j s.writes)
      more j e = ground (arith, e)

      other :
          (j : ℕ)
          → (j == i) ≡ false
          → gone ls lw j s
            ≡ taken_of j s.taken + (taken_of j ((i, r) ∷ s.claims) + taken_of j s.writes)
      other j ne = ground (arith, ne)

  -- A claim that fails, for the same.
  claim_failed :
      (s : Service Reply S Q) (i : ℕ) (held : List RemoteWork)
      (decided refused : List (ℕ × Result RemoteRequestError Reply))
      → ((j : ℕ) → works_of j held + taken_of j decided ≤ works_of j s.held + taken_of j s.decided)
      → ((j : ℕ)
          → (j == i) ≡ false
          → works_of j held + taken_of j decided ≡ works_of j s.held + taken_of j s.decided)
      → is_open slots works (get_elem? s.queue.tickets i) ≡ false
      → Inv ls lw s
      → Inv ls lw (record s { held = held; decided = decided; refused = refused })
  claim_failed s i held decided refused le same closed v =
      let u = record s { held = held; decided = decided; refused = refused } in
      record {
        tickets_ok = λ j.
            shrinks-TicketOk ls lw _ (owned ls lw j s) (owned ls lw j u) _ (omega (arith, le j))
              (v.tickets_ok j);
        waits = λ j. elim (Bool-cases (j == i)) [
          | inl e ↦ closed-Waits (get_elem? s.queue.tickets j) (owned ls lw j u) (
              subst (λ k. is_open slots works (get_elem? s.queue.tickets k) ≡ false)
                (sym ((==_iff j i).0 e)) closed)
          | inr ne ↦
              subst (Waits ls lw (get_elem? s.queue.tickets j)) (omega (arith, same j ne))
                (v.waits j)
        ];
      }

  claimed-Inv :
      (s : Service Reply S Q) (i : ℕ) (r : Result RemoteRequestError Reply) (held : List RemoteWork)
      → ((j : ℕ) → works_of j held ≤ works_of j s.held)
      → ((j : ℕ) → (j == i) ≡ false → works_of j held ≡ works_of j s.held)
      → Inv ls lw s
      → Inv ls lw (claimed slots works i r (record s { held = held }))
  claimed-Inv s i r held le same v =
      if_cases (Inv ls lw) (is_open slots works (get_elem? s.queue.tickets i)) _ _
        (λ e.
          claim_made s i r held s.decided (λ j. omega (arith, le j))
            (λ j ne. omega (arith, same j ne)) e v)
        (λ e.
          claim_failed s i held s.decided s.refused (λ j. omega (arith, le j))
            (λ j ne. omega (arith, same j ne)) e v)

  pub begin_take-Inv :
      (i : ℕ) (r : Result RemoteRequestError Reply) (s : Service Reply S Q)
      → Inv ls lw s
      → Inv ls lw (claimed slots works i r s)
  begin_take-Inv i r s v = claimed-Inv s i r s.held (λ j. omega arith) (λ j ne. refl) v

  pub dropping-Inv :
      (k : ℕ) (s : Service Reply S Q) (o : Option RemoteWork)
      → get_elem? s.held k ≡ o
      → Inv ls lw s
      → Inv ls lw (dropping slots works k s o)
  dropping-Inv k s none e v = v
  dropping-Inv k s (some w) e v =
      claimed-Inv s w.state (err stopped) (remove_at k s.held)
        (λ j. omega (arith, works_of-remove_at j k s.held w e))
        (λ j ne. ground (arith, works_of-remove_at j k s.held w e, ne)) v

  pub deciding-Inv :
      (k : ℕ) (r : Result RemoteRequestError Reply) (s : Service Reply S Q) (o : Option RemoteWork)
      → get_elem? s.held k ≡ o
      → Inv ls lw s
      → Inv ls lw (deciding slots works k r s o)
  deciding-Inv k r s none e v = v
  deciding-Inv k r s (some w) e v =
      same-Inv ls lw s (deciding slots works k r s (some w)) refl (λ j. refl)
        (λ j. omega (arith, works_of-remove_at j k s.held w e)) v

  pub claiming-Inv :
      (n : ℕ) (s : Service Reply S Q) (o : Option (ℕ × Result RemoteRequestError Reply))
      → get_elem? s.decided n ≡ o
      → Inv ls lw s
      → Inv ls lw (claiming slots works n s o)
  claiming-Inv n s none e v = v
  claiming-Inv n s (some (i, r)) e v =
      if_cases (Inv ls lw) (is_open slots works (get_elem? s.queue.tickets i)) _ _
        (λ h.
          claim_made s i r s.held (remove_at n s.decided)
            (λ j. omega (arith, taken_of-remove_at j n s.decided (i, r) e))
            (λ j ne. ground (arith, taken_of-remove_at j n s.decided (i, r) e, ne)) h v)
        (λ h.
          claim_failed s i s.held (remove_at n s.decided) ((i, r) ∷ s.refused)
            (λ j. omega (arith, taken_of-remove_at j n s.decided (i, r) e))
            (λ j ne. ground (arith, taken_of-remove_at j n s.decided (i, r) e, ne)) h v)

  pub recorded-Inv :
      (n : ℕ) (s : Service Reply S Q) (o : Option (ℕ × Result RemoteRequestError Reply))
      → get_elem? s.claims n ≡ o
      → Inv ls lw s
      → Inv ls lw (recorded slots works n s o)
  unfolding record_at
  recorded-Inv n s none e v = v
  recorded-Inv n s (some (i, r)) e v = record {
    tickets_ok = λ j.
        subst (TicketOk ls lw (get_elem? s.queue.tickets j) (owned ls lw j s)) (moved j)
          (v.tickets_ok j);
    waits = v.waits;
  }
    where
      moved :
          (j : ℕ)
          → gone ls lw j s
            ≡ taken_of j s.taken
              + (taken_of j (remove_at n s.claims) + taken_of j ((i, r) ∷ s.writes))
      moved j = omega (arith, taken_of-remove_at j n s.claims (i, r) e)

  publish-TicketOk :
      (o : Option (TicketState S)) (own took : ℕ) (r : Result RemoteRequestError Reply)
      → TicketOk ls lw o own (suc took)
      → TicketOk ls lw (map_some (publish slots r) o) own took
  publish-TicketOk none own took r (a, b) = absurd (omega (arith, b))
  publish-TicketOk (some t) own took r (k, n, m) =
      let (a, b) = one_pushed ls lw t.result r k (ground (arith, n)) in
      (a, rw b (ground (arith, n)), m)

  publish-Waits :
      (o : Option (TicketState S)) (own : ℕ) (r : Result RemoteRequestError Reply)
      → Waits ls lw o own
      → Waits ls lw (map_some (publish slots r) o) own
  publish-Waits none own r v = v
  publish-Waits (some t) own r v = v

  pub published-Inv :
      (n : ℕ) (s : Service Reply S Q) (o : Option (ℕ × Result RemoteRequestError Reply))
      → get_elem? s.writes n ≡ o
      → Inv ls lw s
      → Inv ls lw (published slots works n s o)
  unfolding publish_at
  published-Inv n s none e v = v
  published-Inv n s (some (i, r)) e v =
      let left =
        λ (j : ℕ). taken_of j s.taken + (taken_of j s.claims + taken_of j (remove_at n s.writes)) in
      record {
        tickets_ok = λ j.
            modify_cases (λ o. TicketOk ls lw o (owned ls lw j s) (left j)) i j (publish slots r)
              s.queue.tickets
              (λ same. publish-TicketOk (get_elem? s.queue.tickets j) (owned ls lw j s) (left j) r (
                subst (TicketOk ls lw (get_elem? s.queue.tickets j) (owned ls lw j s))
                  (ground (arith, taken_of-remove_at j n s.writes (i, r) e, same))
                  (v.tickets_ok j)))
              (λ ne.
                subst (TicketOk ls lw (get_elem? s.queue.tickets j) (owned ls lw j s))
                  (ground (arith, taken_of-remove_at j n s.writes (i, r) e, ne)) (v.tickets_ok j));
        waits = λ j.
            modify_cases (λ o. Waits ls lw o (owned ls lw j s)) i j (publish slots r)
              s.queue.tickets (λ _. publish-Waits (get_elem? s.queue.tickets j) _ r (v.waits j))
              (λ _. v.waits j);
      }
