-- ===== src/Adapter/Publisher/Rounds.antt =====
-- The conversion loop of `ReceivePublisher` ends: every round uses input or fills the assembler.
use usbradio_plus.Prelude.{
  ℕ, zero, suc, ◌+◌, ◌-◌, ◌≤◌, ◌<◌, ◌≡◌, refl, ap, ◌∙◌, ◌⊎◌, inl, inr, ◌&&◌, ◌||◌, Option, none,
  some, List, [], ◌∷◌, length, map, take, drop, ltb, ◌==◌, if_cases, length-map, length-take,
  length-drop, Result, ok, err, arith,
}
use usbradio_plus.Pcm.{append, assembly_capacity}
use usbradio_plus.Pcm.Laws.{IsValid, append_lem}
use usbradio_plus.Adapter.{ReceivePacket}
use usbradio_plus.Handoff.{PublishOutcome}
use usbradio_plus.Adapter.Publisher.{
  PublishError, conversion_stalled, invalid_conversion_result, Convert, Conversion, used_of,
  next_round, assembled, progressed, convert_once, convert_loop,
}

module _ {C F H : Type 0} (convert : Convert C F) (to_s16 : F → ℕ)
    (push : H → ReceivePacket → H × PublishOutcome) where
  -- The round failed, or it used this much of the input and did something.
  abbrev Progress : Conversion C F → List F → Conversion C F × Result PublishError ℕ → Type 0
  Progress s input r =
      ((e : PublishError) × (r.1 ≡ err e))
      ⊎ ((used : ℕ) × (r.1 ≡ ok used)
          × (used ≤ length input)
          × (s.assembler.count ≤ r.0.assembler.count)
          × (0 < used + (r.0.assembler.count - s.assembler.count)))

  record Round (s : Conversion C F) (input : List F) (r : Conversion C F × Result PublishError ℕ)
      : Type 0 where
    valid : IsValid r.0.assembler
    same_mode : r.0.assembler.mode ≡ s.assembler.mode
    progress : Progress s input r

  assembled-Round :
      (s : Conversion C F) (input : List F) (used generated : ℕ)
      → IsValid s.assembler
      → used ≤ length input
      → generated ≤ length s.converted
      → 0 < used + generated
      → Round s input (
          assembled convert to_s16 push s used
            (append s.assembler (map to_s16 (take generated s.converted))))
  assembled-Round s input used generated v u g some_work =
      let samples = map to_s16 (take generated s.converted) in
      let size = length-map to_s16 (take generated s.converted) in
      elim (append_lem s.assembler samples v) [
        | inl (_, e) ↦
            rw (assembled, e) (record { valid = v; same_mode = refl; progress = inl (_, refl) })
        | inr (b, e, w, _, m, n) ↦
            rw (assembled, e)
              (record {
                valid = w;
                same_mode = m;
                progress = inr (
                  used,
                  refl,
                  u,
                  omega (arith, n),
                  omega (arith, n, size, length-take generated s.converted, g, some_work),
                );
              })
      ]

  progressed-Round :
      (s : Conversion C F) (input : List F) (o : Option (ℕ × ℕ))
      → IsValid s.assembler
      → Round s input (progressed convert to_s16 push s input o)
  progressed-Round s input none v = record { valid = v; same_mode = refl; progress = inl (_, refl) }
  progressed-Round s input (some (used, generated)) v =
      if_cases (Round s input) (ltb (length input) used || ltb (length s.converted) generated)
        (s, err invalid_conversion_result) _
        (λ _. record { valid = v; same_mode = refl; progress = inl (_, refl) })
        (λ a.
          if_cases (Round s input) (used == 0 && generated == 0) (s, err conversion_stalled) _
            (λ _. record { valid = v; same_mode = refl; progress = inl (_, refl) })
            (λ b.
              assembled-Round s input used generated v (ground (arith, a)) (ground (arith, a))
                (ground (arith, b))))

  convert_once-Round :
      (s : Conversion C F) (input : List F)
      → IsValid s.assembler
      → Round s input (convert_once convert to_s16 push s input)
  unfolding convert_once
  convert_once-Round s input v =
      let r = convert s.converter input s.converted in
      let w = progressed-Round (record s { converter = r.0; converted = r.1 }) input r.2 v in
      record { valid = w.valid; same_mode = w.same_mode; progress = w.progress }

  -- What a conversion leaves behind, whether it fails or not.
  abbrev pub Ends :
      Conversion C F → Option (Conversion C F × Result PublishError (Unit {0})) → Type 0
  Ends s o =
      (x : Conversion C F × Result PublishError (Unit {0})) × (o ≡ some x)
      × IsValid x.0.assembler
      × (x.0.assembler.mode ≡ s.assembler.mode)

  next_round-Ends :
      (s : Conversion C F) (r : Conversion C F × Result PublishError ℕ)
      (rest : Option (Conversion C F × Result PublishError (Unit {0})))
      → IsValid r.0.assembler
      → r.0.assembler.mode ≡ s.assembler.mode
      → ((used : ℕ) → r.1 ≡ ok used → Ends r.0 rest)
      → Ends s (next_round r rest)
  next_round-Ends s (a, err e) rest v m h = ((a, err e), refl, v, m)
  next_round-Ends s (a, ok used) rest v m h = let (x, e, w, n) = h used refl in (x, e, w, n ∙ m)

  shrinks :
      (s : Conversion C F) (r : Conversion C F × Result PublishError ℕ) (input : List F)
      (used fuel : ℕ)
      → Round s input r
      → r.1 ≡ ok used
      → length input + (assembly_capacity - s.assembler.count) ≤ suc fuel
      → length (drop (used_of r.1) input) + (assembly_capacity - r.0.assembler.count) ≤ fuel
  shrinks s r input used fuel w e h = elim w.progress [
    | inl (bad, f) ↦ absurd (ground (arith, e, f))
    | inr (u, f, fits, grows, some_work) ↦
        let at = ap used_of f in
        omega
          (arith, h, length-drop (used_of r.1) input, at, fits, grows, some_work, w.valid.count_in)
  ]

  pub convert_loop-Ends :
      (fuel : ℕ) (s : Conversion C F) (input : List F)
      → IsValid s.assembler
      → length input + (assembly_capacity - s.assembler.count) ≤ fuel
      → Ends s (convert_loop convert to_s16 push fuel s input)
  unfolding convert_loop
  convert_loop-Ends fuel s [] v h = ((s, ok tt), refl, v, refl)
  convert_loop-Ends zero s (x ∷ xs) v h = absurd (omega (arith, h))
  convert_loop-Ends (suc fuel) s (x ∷ xs) v h =
      let input = x ∷ xs in
      let r = convert_once convert to_s16 push s input in
      let w = convert_once-Round s input v in
      next_round-Ends s r _ w.valid w.same_mode (λ used e.
        convert_loop-Ends fuel r.0 (drop (used_of r.1) input) w.valid
          (shrinks s r input used fuel w e (omega (arith, h))))
