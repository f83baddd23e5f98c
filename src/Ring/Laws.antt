-- ===== src/Ring/Laws.antt =====
-- The guarantees of rust/ring/src/lib.rs over any external ring: handles do not leak, and no count
-- exceeds what was asked for.
use usbradio_plus.Prelude.{
  ℕ, ◌≤◌, ◌<◌, ◌≡◌, refl, ◌⊎◌, inl, inr, true, false, Option, none, some, List, length, ltb, Result,
  ok, err, if_cases, arith,
}
use usbradio_plus.Ring.{
  RingSettings, RingError, Functions, Ring, is_supported, config_of, created, prepare, counted,
  push, render, invalid_argument,
}

abbrev pub handle_of : {H : Type 0} → Result RingError (Ring H) → Option H
handle_of (ok r) = some r.handle
handle_of (err e) = none

module _ {H F : Type 0} (functions : Functions H F) where
  -- A handle that `create` made is owned by the ring or was destroyed, and never both.
  abbrev pub OwnsOnce : Option H → Result RingError (Ring H) × Option H → Type 0
  OwnsOnce made answer =
      ((handle_of answer.0 ≡ made) × (answer.1 ≡ none))
      ⊎ ((handle_of answer.0 ≡ none) × (answer.1 ≡ made))

  created-OwnsOnce :
      (s : RingSettings) (made : Option H) (r : Result RingError (Unit {0}))
      → OwnsOnce made (created functions s made r)
  created-OwnsOnce s made (err e) = inr (refl, refl)
  created-OwnsOnce s none (ok tt) = inl (refl, refl)
  created-OwnsOnce s (some h) (ok tt) = inl (refl, refl)

  -- For supported settings, the handle that the external create made is either the prepared
  -- ring's or was destroyed with an error returned.
  pub prepare-OwnsOnce :
      (s : RingSettings)
      → is_supported s ≡ true
      → OwnsOnce (functions.create (config_of s)).1 (prepare functions s)
  unfolding prepare
  prepare-OwnsOnce s h = rw h (created-OwnsOnce s _ _)

  -- Unsupported settings are refused before the external ring is called.
  pub prepare-unsupported :
      (s : RingSettings)
      → is_supported s ≡ false
      → prepare functions s ≡ (err invalid_argument, none)
  unfolding prepare
  prepare-unsupported s h = rw h refl

  counted-le :
      (asked answered n : ℕ) (r : Result RingError (Unit {0}))
      → counted functions asked answered r ≡ ok n
      → n ≤ asked
  counted-le asked answered n (err e) h = ground arith
  counted-le asked answered n (ok tt) h = ground arith

  -- A push that succeeds was within the declared maximum and accepted no more than it was
  -- given, whatever the external ring answers.
  pub push-bounds :
      (r : Ring H) (input : List F) (n : ℕ)
      → (push functions r input).1 ≡ ok n
      → (n ≤ length input) × (length input ≤ r.settings.max_producer_samples)
  unfolding push
  push-bounds r input n h =
      let Q : Ring H × Result RingError ℕ → Type 0 =
        λ a. a.1 ≡ ok n → (n ≤ length input) × (length input ≤ r.settings.max_producer_samples) in
      if_cases Q (ltb r.settings.max_producer_samples (length input)) (r, err invalid_argument) _
        (λ over e. ground (arith, e))
        (λ within e. (counted-le (length input) _ n _ e, ground (arith, within))) h

  -- A push and a render beyond their declared maxima are refused and leave the ring as it was.
  pub over_maximum :
      (r : Ring H) (input : List F) (count : ℕ)
      → r.settings.max_producer_samples < length input
      → r.settings.max_output_samples < count
      → (push functions r input ≡ (r, err invalid_argument))
        × (render functions r count ≡ (r, none, err invalid_argument))
  unfolding push render
  over_maximum r input count h k = ground arith
