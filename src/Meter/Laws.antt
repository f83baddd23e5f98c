-- ===== src/Meter/Laws.antt =====
-- What the meter of rust/core/src/loudness_meter.rs counts and publishes.
use usbradio_plus.Prelude.{
  ℕ, ◌+◌, ◌*◌, ◌%◌, ◌-◌, min, ◌≤◌, ◌≡◌, refl, Bool, true, false, Option, none, List, [], ◌∷◌,
  length, Bool-cases, if_cases, leb, ltb, ◌==◌, if◌then◌else◌, ◌&&◌, ◌||◌, ◌⊎◌, sym, subst, ◌∙◌,
  map, Result, ok, err, ◌>>=◌, arith, inl, inr,
}
use native.Mathlib.Nat.{mod-eq_of_lt, mod-add-mod, zero-mod}
use usbradio_plus.Meter.{
  OutputLoudnessError, OutputLoudnessMeter, Analyser, word, unmeasured, interval_of, new_meter,
  process, advanced, publish_state, clean, frame_too_large, unsupported_sample_rate,
  invalid_maximum_frame_count,
}

abbrev pub total : {F : Type 0} → List (List F) → ℕ
total [] = 0
total (xs ∷ blocks) = length xs + total blocks

-- Every block fits.
abbrev pub Fits : {F : Type 0} → ℕ → List (List F) → Type 0
Fits maximum [] = Unit
Fits maximum (xs ∷ blocks) = (length xs ≤ maximum) × Fits maximum blocks

module _ {E F V : Type 0} (analyser : Analyser E F V) where
  unfoldable pub process_all :
      OutputLoudnessMeter E V → List (List F) → Result OutputLoudnessError (OutputLoudnessMeter E V)
  process_all m [] = ok m
  process_all m (xs ∷ blocks) = process analyser m xs >>= λ n. process_all n blocks

  -- The state after `count` samples.
  pub record Counts (rate maximum epoch count : ℕ) (m : OutputLoudnessMeter E V) : Type 0 where
    pub same_rate : m.rate ≡ rate
    pub same_maximum : m.maximum ≡ maximum
    pub same_epoch : m.epoch ≡ epoch
    pub counted : m.samples ≡ min count (word - 1)
    pub at_phase : m.phase ≡ count % interval_of rate
    pub published_epoch : m.published.epoch ≡ epoch
    pub published_count : m.published.sample_count ≡ m.samples
    pub published_integrated : m.published.integrated_lufs ≡ m.integrated
    -- Nothing is measured in the first 400 ms.
    pub early :
        (4 * interval_of rate ≤ m.samples)
        ⊎ ((m.integrated ≡ none) × (m.published.true_peak_dbtp ≡ none))

  phase_step : (interval p : ℕ) → (if leb interval p then p % interval else p) ≡ p % interval
  phase_step interval p =
      if_cases (λ x. x ≡ p % interval) (leb interval p) (p % interval) p (λ _. refl)
        (λ e. sym (mod-eq_of_lt (ground (arith, e))))

  early_step :
      (b c : Bool) (v w : Option V) (p q : Option V)
      → c ≡ false
      → w ≡ none
      → q ≡ none
      → ((if b && c then v else w) ≡ none) × ((if c then p else q) ≡ none)
  early_step true true v w p q h e f = absurd (ground (arith, h))
  early_step false true v w p q h e f = absurd (ground (arith, h))
  early_step true false v w p q h e f = (e, f)
  early_step false false v w p q h e f = (e, f)

  abbrev after_block : OutputLoudnessMeter E V → List F → OutputLoudnessMeter E V
  after_block m xs = publish_state analyser (
      advanced analyser m (analyser.add_frames m.meter (map (clean analyser) xs))
        (min (m.samples + length xs) (word - 1)) (m.phase + length xs))

  after_block-early :
      (rate maximum epoch count : ℕ) (m : OutputLoudnessMeter E V) (xs : List F)
      → Counts rate maximum epoch count m
      → (4 * interval_of rate ≤ (after_block m xs).samples)
        ⊎ (((after_block m xs).integrated ≡ none)
            × ((after_block m xs).published.true_peak_dbtp ≡ none))
  after_block-early rate maximum epoch count m xs c =
      let samples = min (m.samples + length xs) (word - 1) in
      rw (← c.same_rate) (elim (Bool-cases (leb (4 * interval_of m.rate) samples)) [
        | inl late ↦ inl (ground (arith, late))
        | inr soon ↦ elim c.early [
          | inl late ↦ absurd (ground (arith, soon, late, c.same_rate, c.counted))
          | inr (e, _) ↦ inr (early_step _ _ _ m.integrated _ none soon e refl)
        ]
      ])

  after_block-Counts :
      (rate maximum epoch count : ℕ) (m : OutputLoudnessMeter E V) (xs : List F)
      → Counts rate maximum epoch count m
      → Counts rate maximum epoch (count + length xs) (after_block m xs)
  after_block-Counts rate maximum epoch count m xs c = record {
    same_rate = c.same_rate;
    same_maximum = c.same_maximum;
    same_epoch = c.same_epoch;
    counted = omega (arith, c.counted);
    at_phase =
        phase_step (interval_of m.rate) (m.phase + length xs)
        ∙ rw (c.same_rate, c.at_phase) (mod-add-mod count (interval_of rate) (length xs));
    published_epoch = c.same_epoch;
    published_count = refl;
    published_integrated = refl;
    early = after_block-early rate maximum epoch count m xs c;
  }

  pub process-Counts :
      (rate maximum epoch count : ℕ) (m : OutputLoudnessMeter E V) (xs : List F)
      → length xs ≤ maximum
      → Counts rate maximum epoch count m
      → (n : OutputLoudnessMeter E V) × (process analyser m xs ≡ ok n)
        × Counts rate maximum epoch (count + length xs) n
  unfolding process
  process-Counts rate maximum epoch count m xs fits c =
      let R = Result OutputLoudnessError (OutputLoudnessMeter E V) in
      let Q = λ (r : R).
        (n : OutputLoudnessMeter E V) × (r ≡ ok n)
        × Counts rate maximum epoch (count + length xs) n in
      if_cases Q (ltb m.maximum (length xs)) (err frame_too_large) _
        (λ e. absurd (ground (arith, e, fits, c.same_maximum)))
        (λ _.
          if_cases Q (length xs == 0) (ok m) (ok (after_block m xs))
            (λ e. (m, refl, subst (λ k. Counts rate maximum epoch k m) (ground (arith, e)) c))
            (λ _. (after_block m xs, refl, after_block-Counts rate maximum epoch count m xs c)))

  -- A block within the bound is always taken.
  pub process_fits :
      (m : OutputLoudnessMeter E V) (xs : List F)
      → length xs ≤ m.maximum
      → (n : OutputLoudnessMeter E V) × (process analyser m xs ≡ ok n) × (n.maximum ≡ m.maximum)
  unfolding process
  process_fits m xs fits =
      let R = Result OutputLoudnessError (OutputLoudnessMeter E V) in
      let Q = λ (r : R). (n : OutputLoudnessMeter E V) × (r ≡ ok n) × (n.maximum ≡ m.maximum) in
      if_cases Q (ltb m.maximum (length xs)) (err frame_too_large) _
        (λ e. absurd (ground (arith, e, fits)))
        (λ _.
          if_cases Q (length xs == 0) (ok m) (ok (after_block m xs)) (λ _. (m, refl, refl))
            (λ _. (after_block m xs, refl, refl)))

  process_all-Counts :
      (rate maximum epoch count : ℕ) (m : OutputLoudnessMeter E V) (blocks : List (List F))
      → Fits maximum blocks
      → Counts rate maximum epoch count m
      → (n : OutputLoudnessMeter E V) × (process_all m blocks ≡ ok n)
        × Counts rate maximum epoch (count + total blocks) n
  unfolding process_all
  process_all-Counts rate maximum epoch count m [] fits c =
      (m, refl, subst (λ k. Counts rate maximum epoch k m) (omega arith) c)
  process_all-Counts rate maximum epoch count m (xs ∷ blocks) (fits, rest) c =
      let (n, e, d) = process-Counts rate maximum epoch count m xs fits c in
      let (k, f, g) = process_all-Counts rate maximum epoch (count + length xs) n blocks rest d in
      (k, rw e f, subst (λ j. Counts rate maximum epoch j k) (omega arith) g)

  abbrev first_meter : ℕ → ℕ → ℕ → OutputLoudnessMeter E V
  first_meter rate maximum next_epoch = record {
    meter = analyser.start rate;
    maximum = maximum;
    rate = rate;
    samples = 0;
    phase = 0;
    integrated = none;
    epoch = next_epoch;
    published = unmeasured next_epoch;
  }

  pub new_meter_supported :
      (rate maximum next_epoch : ℕ)
      → 8000 ≤ rate
      → rate ≤ 384000
      → 1 ≤ maximum
      → maximum ≤ 4096
      → (new_meter analyser rate maximum next_epoch).0 ≡ ok (first_meter rate maximum next_epoch)
  unfolding new_meter
  new_meter_supported rate maximum next_epoch a b c d =
      let P = Result OutputLoudnessError (OutputLoudnessMeter E V) × ℕ in
      let Q = λ (x : P). x.0 ≡ ok (first_meter rate maximum next_epoch) in
      if_cases Q (ltb rate 8000 || ltb 384000 rate) (err unsupported_sample_rate, next_epoch) _
        (λ e. absurd (ground (arith, e, a, b)))
        (λ _.
          if_cases Q (ltb maximum 1 || ltb 4096 maximum)
            (err invalid_maximum_frame_count, next_epoch)
            (ok (first_meter rate maximum next_epoch), (next_epoch + 1) % word)
            (λ e. absurd (ground (arith, e, c, d))) (λ _. refl))

  -- A meter for a supported rate and frame bound takes every series of blocks within the bound;
  -- afterwards its count is the number of samples, up to the largest 64-bit number, its phase
  -- is that number modulo 100 ms, the published count, epoch and loudness are its own, and
  -- nothing has been measured before 400 ms.
  pub process_all-new :
      (rate maximum next_epoch : ℕ) (blocks : List (List F))
      → 8000 ≤ rate
      → rate ≤ 384000
      → 1 ≤ maximum
      → maximum ≤ 4096
      → Fits maximum blocks
      → (m n : OutputLoudnessMeter E V) × ((new_meter analyser rate maximum next_epoch).0 ≡ ok m)
        × (process_all m blocks ≡ ok n)
        × Counts rate maximum next_epoch (total blocks) n
  process_all-new rate maximum next_epoch blocks a b c d fits =
      let m = first_meter rate maximum next_epoch in
      let (n, e, f) = process_all-Counts rate maximum next_epoch 0 m blocks fits (record {
        same_rate = refl;
        same_maximum = refl;
        same_epoch = refl;
        counted = omega arith;
        at_phase = sym (zero-mod (interval_of rate));
        published_epoch = refl;
        published_count = refl;
        published_integrated = refl;
        early = inr (refl, refl);
      }) in
      (
        m,
        n,
        new_meter_supported rate maximum next_epoch a b c d,
        e,
        subst (λ k. Counts rate maximum next_epoch k n) (omega arith) f,
      )
