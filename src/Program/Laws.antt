-- ===== src/Program/Laws.antt =====
-- What rust/station/src/program.rs carries from the controller to the transmitter.
use usbradio_plus.Prelude.{
  ℕ, suc, ◌+◌, ◌*◌, ◌/◌, ◌^◌, ◌≤◌, ◌<◌, ◌≡◌, refl, ap, ◌∙◌, Bool, true, false, Option, none, some,
  List, length, take, overwrite, ◌==◌, if◌then◌else◌, Result, ok, err, Option-cases, inl, inr,
  take-overwrite, arith,
}
use usbradio_plus.Adapter.{ReceiveQualification, ctcss_tone_index}
use usbradio_plus.Ring.{
  RingError, RingObservation, default_observation, invalid_argument, Functions, is_supported,
}
use usbradio_plus.Ring
use usbradio_plus.Program.{
  ControllerTransport, app_rpt, rpt_advanced, milliseconds_to_samples, program_ring_plan,
  pack_qualification, unpack_qualification, decode_tone, with_bit, has_bit, with_tone, ProgramState,
  stored, push, staged, stage, render_direct, rendered, render,
}

abbrev pub HasTone : Option ℕ → Type 0
HasTone none = Unit {0}
HasTone (some tone) = tone < 38

abbrev low_bits : ReceiveQualification → ℕ
low_bits q =
    with_bit q.dcs_valid 8
      (with_bit q.receiver_keyed 4 (with_bit q.subaudible_active 2 (with_bit q.carrier_active 1 0)))

abbrev high : Option ℕ → ℕ
high none = 0
high (some tone) = suc tone

pack_lem :
    (q : ReceiveQualification) → pack_qualification q ≡ low_bits q + high q.ctcss_decoded * 16
unfolding pack_qualification
pack_lem q = elim q.ctcss_decoded as (λ o. with_tone o (low_bits q) ≡ low_bits q + high o * 16) [
  | none ↦ omega arith
  | some tone ↦ omega arith
]

low_bits_lt : (q : ReceiveQualification) → low_bits q < 16
low_bits_lt q = ground arith

decode-high : (o : Option ℕ) → HasTone o → decode_tone (high o) ≡ o
unfolding ctcss_tone_index
decode-high none h = refl
decode-high (some tone) h = ground arith

high_lt : (o : Option ℕ) → HasTone o → high o < 39
high_lt none h = omega arith
high_lt (some tone) h = omega arith

-- The four low bits of the word.
bits_lem :
    (q : ReceiveQualification) (k : ℕ)
    → let w = low_bits q + k * 16 in
      (has_bit w 1 ≡ q.carrier_active)
      × (has_bit w 2 ≡ q.subaudible_active)
      × (has_bit w 4 ≡ q.receiver_keyed)
      × (has_bit w 8 ≡ q.dcs_valid)
      × (w / 16 ≡ k)
bits_lem q k = ground arith

-- A qualification whose tone index is one of the 38 is read back from its packed word as it
-- was, and the word has 32 bits.
pub unpack-pack :
    (q : ReceiveQualification)
    → HasTone q.ctcss_decoded
    → (unpack_qualification (pack_qualification q) ≡ q) × (pack_qualification q < 2 ^ 32)
unfolding pack_qualification unpack_qualification ctcss_tone_index
unpack-pack q h =
    let k = high q.ctcss_decoded in
    let (carrier, subaudible, keyed, dcs, tone) = bits_lem q k in
    (
      ap unpack_qualification (pack_lem q)
          ∙ rw (carrier, subaudible, keyed, dcs, tone, decode-high q.ctcss_decoded h) refl,
      omega (arith, pack_lem q, low_bits_lt q, high_lt q.ctcss_decoded h),
    )

-- For both transports the ring plan is supported by the ring, its reserve is within the target,
-- and its capacity holds the target and one producer's call.
pub program_ring_plan-bounds :
    (transport : ControllerTransport)
    → let plan = program_ring_plan transport in
      (is_supported plan ≡ true)
      × (plan.reserve_samples ≤ plan.target_samples)
      × (plan.target_samples + plan.max_producer_samples ≤ plan.capacity_samples)
unfolding program_ring_plan milliseconds_to_samples is_supported
program_ring_plan-bounds app_rpt = (refl, omega arith, omega arith)
program_ring_plan-bounds rpt_advanced = (refl, omega arith, omega arith)

module _ {H F : Type 0} (functions : Functions H F) where
  stored-qualification :
      (s : ProgramState H F) (q : ReceiveQualification) (r : Result RingError ℕ) (n : ℕ)
      → (stored functions s q r).1 ≡ some n
      → (stored functions s q r).0.qualification
        ≡ (if n == 0 then s.qualification else pack_qualification q)
  stored-qualification s q (err e) n h = ground arith
  stored-qualification s q (ok a) n h = ground arith

  -- After a successful push of a qualification with a valid tone index, the consumer reads that
  -- qualification if samples were accepted, and the one before it if none were.
  pub push-qualification :
      (s : ProgramState H F) (input : List F) (q : ReceiveQualification) (n : ℕ)
      → HasTone q.ctcss_decoded
      → (push functions s input q).1 ≡ some n
      → unpack_qualification (push functions s input q).0.qualification
        ≡ (if n == 0 then unpack_qualification s.qualification else q)
  unfolding push
  push-qualification s input q n t h =
      let out = Ring.push functions s.ring input in
      let e = stored-qualification (record s { ring = out.0 }) q out.1 n h in
      ap unpack_qualification e ∙ chosen (n == 0)
    where
      chosen :
          (b : Bool)
          → unpack_qualification (if b then s.qualification else pack_qualification q)
            ≡ (if b then unpack_qualification s.qualification else q)
      chosen true = refl
      chosen false = (unpack-pack q t).0

  staged_lem :
      (samples : List F) (o : Option (List F × ℕ)) (block : List F × ℕ)
      → staged functions samples o ≡ some block
      → (take block.1 block.0 ≡ samples) × (block.1 ≡ length samples)
  staged_lem samples none block h = ground arith
  staged_lem samples (some (buffer, count)) block h =
      let kept : take (length samples) (overwrite buffer 0 samples) ≡ samples =
        ap (λ n. take n (overwrite buffer 0 samples)) (omega arith)
        ∙ take-overwrite buffer 0 samples (omega arith) in
      ground (arith, kept)

  render_direct-staged :
      (block : List F × ℕ) (samples : List F) (count : ℕ)
      → (take block.1 block.0 ≡ samples) × (block.1 ≡ length samples)
      → render_direct functions (some block) count
        ≡ (if length samples == count then some (ok samples) else some (err invalid_argument))
  unfolding render_direct
  render_direct-staged block samples count h = ground (arith, h)

  stage-direct :
      (s t : ProgramState H F) (samples : List F)
      → stage functions s samples ≡ some t
      → (block : List F × ℕ) × (staged functions samples s.direct ≡ some block)
        × (t.direct ≡ some block)
  unfolding stage
  stage-direct s t samples h = elim (Option-cases (staged functions samples s.direct)) [
    | inl failed ↦ absurd (ground (arith, failed, h))
    | inr (block, put) ↦ (block, put, ground (arith, put, h))
  ]

  -- After a successful stage into the direct block, a render of as many samples as were staged
  -- gives those samples and leaves the ring alone; a render of another length is refused, and
  -- its buffer and the state stay as they were.
  pub render-stage :
      (s t : ProgramState H F) (samples output : List F)
      → stage functions s samples ≡ some t
      → render functions t output ≡ (
          if length samples == length output
          then (t, samples, ok (default_observation, unpack_qualification t.qualification))
          else (t, output, err invalid_argument))
  unfolding stage render render_direct
  render-stage s t samples output h =
      let (block, put, direct) = stage-direct s t samples h in
      let e : render_direct functions t.direct (length output) ≡ (
          if length samples == length output
          then some (ok samples)
          else some (err invalid_argument)) =
        ap (λ o. render_direct functions o (length output)) direct
        ∙ render_direct-staged block samples (length output)
            (staged_lem samples s.direct block put) in
      ap (rendered functions t output) e ∙ chosen (length samples == length output)
    where
      chosen :
          (b : Bool)
          → rendered functions t output
              (if b then some (ok samples) else some (err invalid_argument))
            ≡ (if b
                then (t, samples, ok (default_observation, unpack_qualification t.qualification))
                else (t, output, err invalid_argument))
      chosen true = refl
      chosen false = refl
