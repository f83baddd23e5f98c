-- ===== src/Commands/Overlap.antt =====
-- The parts of a completion in rust/driver/src/remote_base.rs, for a ticket that is over.
use usbradio_plus.Prelude.{
  ℕ, zero, suc, ◌+◌, ◌<◌, ◌≡◌, refl, sym, ap, subst, ◌∙◌, inl, inr, Bool, false, Option, none, some,
  List, [], ◌∷◌, get_elem?, ◌==◌, if◌then◌else◌, if_cases, Bool-cases, ==_iff, Result, err, arith,
}
use usbradio_plus.Request.{RemoteRequestError, stopped}
use usbradio_plus.Commands.{
  ArrayQueue, IsArrayQueue, push_or_keep, map_some, get_elem?-modify_self, TicketState, RemoteWork,
  claim, publish, is_open, claim_at, record_at, publish_at, verdict, flag, is_ok,
}
use usbradio_plus.Commands.Runs.{
  Service, remove_at, claimed, dropping, deciding, claiming, recorded, published,
}
use usbradio_plus.Commands.Inv.{modify_cases, owned, gone, TicketOk, Inv}
use usbradio_plus.Commands.Parts.{taken_of-remove_at}
use usbradio_plus.Commands.Settled.{
  oks-append, oks_of, IsOver, verdict-IsOver, slot_oks, Kept, IsOverAt, Settled, carries_over,
  modify_settles,
}

oks_of-remove_at :
    {Reply : Type 0} (i k : ℕ) (xs : List (ℕ × Result RemoteRequestError Reply))
    (x : ℕ × Result RemoteRequestError Reply)
    → get_elem? xs k ≡ some x
    → oks_of i xs ≡ oks_of i (remove_at k xs) + (if x.0 == i then flag (is_ok x.1) else 0)
oks_of-remove_at i k [] x h = absurd (ground (arith, h))
oks_of-remove_at i zero ((j, r) ∷ xs) x h =
    ap
      (λ (o : Option (ℕ × _)). elim o [
        | none ↦ oks_of i ((j, r) ∷ xs)
        | some y ↦ (if y.0 == i then flag (is_ok y.1) else 0) + oks_of i xs
      ])
      h
    ∙ omega arith
oks_of-remove_at i (suc k) ((j, r) ∷ xs) x h = omega (arith, oks_of-remove_at i k xs x h)

module _ {Reply S Q : Type 0} {slots : ArrayQueue S (Result RemoteRequestError Reply)}
    {works : ArrayQueue Q RemoteWork} (ls : IsArrayQueue slots) (lw : IsArrayQueue works) where
  claim-Kept : (o : Option (TicketState S)) → Kept ls lw o (map_some (claim slots) o)
  claim-Kept none = (λ e. e, refl)
  claim-Kept (some t) = (λ e. e, refl)

  pub claimed_settles :
      (i k : ℕ) (r : Result RemoteRequestError Reply) (s : Service Reply S Q)
      (held : List RemoteWork)
      → (i ≡ k → is_ok r ≡ false)
      → IsOverAt ls lw i s
      → Settled ls lw i s (claimed slots works k r (record s { held = held }))
  unfolding claim_at
  claimed_settles i k r s held bad v =
      let u = record s {
        queue = claim_at slots works k s.queue;
        held = held;
        claims = (k, r) ∷ s.claims;
      } in
      if_cases (Settled ls lw i s) (is_open slots works (get_elem? s.queue.tickets k)) u
        (record s { held = held })
        (λ _.
          modify_settles ls lw i k (claim slots) s u refl refl (omega (arith, same))
            (λ _. claim-Kept (get_elem? s.queue.tickets i)) v)
        (λ _. (v, refl))
    where
      same : oks_of i ((k, r) ∷ s.claims) ≡ oks_of i s.claims
      same = elim (Bool-cases (k == i)) [
        | inl e ↦ ground (arith, e, bad)
        | inr e ↦ ground (arith, e)
      ]

  logged_bad :
      (i k : ℕ) (r : Result RemoteRequestError Reply)
      (log : List (ℕ × Result RemoteRequestError Reply))
      → (i ≡ k → is_ok r ≡ false)
      → oks_of i ((k, r) ∷ log) ≡ oks_of i log
  logged_bad i k r log bad = elim (Bool-cases (k == i)) [
    | inl e ↦ ground (arith, e, bad)
    | inr e ↦ ground (arith, e)
  ]

  pub dropping_settles :
      (i k : ℕ) (s : Service Reply S Q) (o : Option RemoteWork)
      → IsOverAt ls lw i s
      → Settled ls lw i s (dropping slots works k s o)
  dropping_settles i k s none v = (v, refl)
  dropping_settles i k s (some w) v =
      claimed_settles i w.state (err stopped) s (remove_at k s.held) (λ _. refl) v

  pub deciding_settles :
      (i k : ℕ) (r : Result RemoteRequestError Reply) (s : Service Reply S Q)
      (o : Option RemoteWork)
      → IsOverAt ls lw i s
      → Settled ls lw i s (deciding slots works k r s o)
  deciding_settles i k r s none v = (v, refl)
  deciding_settles i k r s (some w) v =
      let d = verdict s.queue.accepting (get_elem? s.queue.tickets w.state) r in
      (
        v,
        omega (
          arith,
          logged_bad i w.state d s.decided (λ e.
              verdict-IsOver s.queue.accepting (get_elem? s.queue.tickets w.state) r
                (subst (λ j. IsOver s.queue.accepting (get_elem? s.queue.tickets j)) e v)),
        ),
      )

  pub claiming_settles :
      (i n : ℕ) (s : Service Reply S Q) (o : Option (ℕ × Result RemoteRequestError Reply))
      → get_elem? s.decided n ≡ o
      → IsOverAt ls lw i s
      → Settled ls lw i s (claiming slots works n s o)
  unfolding claim_at
  claiming_settles i n s none e v = (v, refl)
  claiming_settles i n s (some (k, r)) e v =
      let m = oks_of-remove_at i n s.decided (k, r) e in
      let u = record s {
        queue = claim_at slots works k s.queue;
        decided = remove_at n s.decided;
        claims = (k, r) ∷ s.claims;
      } in
      if_cases (Settled ls lw i s) (is_open slots works (get_elem? s.queue.tickets k)) u
        (record s { decided = remove_at n s.decided; refused = (k, r) ∷ s.refused })
        (λ _.
          modify_settles ls lw i k (claim slots) s u refl refl (omega (arith, m))
            (λ _. claim-Kept (get_elem? s.queue.tickets i)) v)
        (λ _. (v, omega (arith, m)))

  pub recorded_settles :
      (i n : ℕ) (s : Service Reply S Q) (o : Option (ℕ × Result RemoteRequestError Reply))
      → get_elem? s.claims n ≡ o
      → IsOverAt ls lw i s
      → Settled ls lw i s (recorded slots works n s o)
  unfolding record_at
  recorded_settles i n s none e v = (v, refl)
  recorded_settles i n s (some (k, r)) e v =
      (v, omega (arith, oks_of-remove_at i n s.claims (k, r) e))

  -- The push finds room, since the ticket's one completion is on its way.
  publish_oks :
      (o : Option (TicketState S)) (own took : ℕ) (r : Result RemoteRequestError Reply)
      → TicketOk ls lw o own took
      → 0 < took
      → slot_oks ls lw (map_some (publish slots r) o) ≡ slot_oks ls lw o + flag (is_ok r)
  publish_oks none own took r (a, b) some_gone = absurd (omega (arith, b, some_gone))
  publish_oks (some t) own took r (c, n, m) some_gone = elim (ls.push_cases t.result r) [
    | inl (e, full) ↦ absurd (ground (arith, full, c, n, some_gone))
    | inr (y, e, _, l, _) ↦
        rw (push_or_keep, e, l) (omega (arith, oks-append (ls.items t.result) (r ∷ [])))
  ]

  publish-revoked :
      (o : Option (TicketState S)) (accepting : Bool) (r : Result RemoteRequestError Reply)
      → IsOver accepting o
      → IsOver accepting (map_some (publish slots r) o)
  publish-revoked none accepting r v = v
  publish-revoked (some t) accepting r v = v

  abbrev after_write :
      ℕ → ℕ → Result RemoteRequestError Reply → Service Reply S Q → Service Reply S Q
  after_write n k r s = record s {
    queue = publish_at slots works k r s.queue;
    writes = remove_at n s.writes;
  }

  write_self :
      (i n : ℕ) (r : Result RemoteRequestError Reply) (s : Service Reply S Q)
      → get_elem? s.writes n ≡ some (i, r)
      → Inv ls lw s
      → IsOverAt ls lw i s
      → Settled ls lw i s (after_write n i r s)
  unfolding publish_at
  write_self i n r s e inv v =
      let m = taken_of-remove_at i n s.writes (i, r) e in
      let l = oks_of-remove_at i n s.writes (i, r) e in
      rw (get_elem?-modify_self i (publish slots r) s.queue.tickets) (
        publish-revoked (get_elem? s.queue.tickets i) s.queue.accepting r v,
        ground (
          arith,
          l,
          publish_oks (get_elem? s.queue.tickets i) (owned ls lw i s) (gone ls lw i s) r
              (inv.tickets_ok i) (ground (arith, m)),
        ),
      )

  pub published_settles :
      (i n : ℕ) (s : Service Reply S Q) (o : Option (ℕ × Result RemoteRequestError Reply))
      → get_elem? s.writes n ≡ o
      → Inv ls lw s
      → IsOverAt ls lw i s
      → Settled ls lw i s (published slots works n s o)
  unfolding publish_at
  published_settles i n s none e inv v = (v, refl)
  published_settles i n s (some (k, r)) e inv v = elim (Bool-cases (i == k)) [
    | inl same ↦
        let eq = (==_iff i k).0 same in
        subst (λ j. Settled ls lw j s (after_write n k r s)) (sym eq)
          (write_self k n r s e inv (subst (λ j. IsOverAt ls lw j s) eq v))
    | inr ne ↦
        carries_over ls lw i s (after_write n k r s) refl
          (ground (arith, oks_of-remove_at i n s.writes (k, r) e, ne))
          (modify_cases (λ o. Kept ls lw (get_elem? s.queue.tickets i) o) k i (publish slots r)
            s.queue.tickets (λ same. absurd (ground (arith, ne, same))) (λ _. (λ e. e, refl)))
          v
  ]
