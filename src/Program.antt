-- ===== src/Program.antt =====
-- rust/station/src/program.rs: the one program ring of a station, its producer with the receiver's
-- qualification packed in one word, and its consumer with the direct source in its place.
pub mod Laws
pub mod Writes
mod Tests
use usbradio_plus.Prelude.{
  ℕ, zero, suc, ◌+◌, ◌-◌, ◌*◌, ◌/◌, ◌%◌, ◌^◌, min, Bool, true, false, not, Option, none, some, List,
  [], ◌∷◌, ◌++◌, length, take, drop, replicate, overwrite, ltb, leb, ◌==◌, if◌then◌else◌, Result,
  ok, err, ℤ,
}
use usbradio_plus.Adapter.{ReceiveQualification, ctcss_tone_index}
use usbradio_plus.Adapter.Controller.{ProgramRing}
use usbradio_plus.Ring.{
  PlcMode, plc_disabled, g711_appendix_i, RingSettings, RingError, invalid_argument,
  RingObservation, default_observation, Functions, Ring,
}
use usbradio_plus.Ring

pub data ControllerTransport : Type 0 where
  app_rpt rpt_advanced : ControllerTransport

unfoldable pub milliseconds_to_samples : ℕ → ℕ → ℕ
milliseconds_to_samples rate_hz milliseconds = (rate_hz * milliseconds + 999) / 1000

abbrev pub native_rate_hz : ℕ
native_rate_hz = 48000

abbrev pub input_rate_of : ControllerTransport → ℕ
input_rate_of app_rpt = 8000
input_rate_of rpt_advanced = native_rate_hz

unfoldable pub program_ring_plan : ControllerTransport → RingSettings
unfolding milliseconds_to_samples
program_ring_plan transport =
    let rate = input_rate_of transport in
    record {
      capacity_samples = milliseconds_to_samples rate 80;
      input_rate_hz = rate;
      output_rate_hz = native_rate_hz;
      reserve_samples = elim transport [
        | app_rpt ↦ 162
        | rpt_advanced ↦ milliseconds_to_samples rate 20
      ];
      target_samples = milliseconds_to_samples rate 40;
      max_producer_samples = milliseconds_to_samples rate 20;
      max_output_samples = 960;
      plc_mode = elim transport [ app_rpt ↦ g711_appendix_i | rpt_advanced ↦ plc_disabled ];
    }

-- `packed |= bit` for a bit that is not set yet.
abbrev pub with_bit : Bool → ℕ → ℕ → ℕ
with_bit true bit packed = packed + bit
with_bit false bit packed = packed

-- `packed |= (tone + 1) << 4` over the four bits below.
abbrev pub with_tone : Option ℕ → ℕ → ℕ
with_tone none packed = packed
with_tone (some tone) packed = packed + (tone + 1) * 2 ^ 4

unfoldable pub pack_qualification : ReceiveQualification → ℕ
pack_qualification q = with_tone q.ctcss_decoded (
    with_bit q.dcs_valid 8 (
      with_bit q.receiver_keyed 4 (with_bit q.subaudible_active 2 (with_bit q.carrier_active 1 0))))

-- `value & bit != 0`
abbrev pub has_bit : ℕ → ℕ → Bool
has_bit value bit = value / bit % 2 == 1

abbrev pub narrow_u8 : ℕ → Option ℕ
narrow_u8 n = if ltb n 256 then some n else none

abbrev pub decode_tone : ℕ → Option ℕ
decode_tone zero = none
decode_tone (suc tone) = elim (narrow_u8 tone) [ none ↦ none | some t ↦ ctcss_tone_index t ]

unfoldable pub unpack_qualification : ℕ → ReceiveQualification
unfolding ctcss_tone_index
unpack_qualification value = record {
  carrier_active = has_bit value 1;
  subaudible_active = has_bit value 2;
  receiver_keyed = has_bit value 4;
  ctcss_decoded = decode_tone (value / 2 ^ 4);
  dcs_valid = has_bit value 8;
}

unfoldable pub saturating_u32 : ℕ → ℕ
saturating_u32 value = if ltb value (2 ^ 32) then value else 2 ^ 32 - 1

-- The ring, the word of `qualification`, and the direct block: its buffer and the staged count.
pub record ProgramState (H F : Type 0) : Type 0 where
  pub ring : Ring H
  pub qualification : ℕ
  pub direct : Option (List F × ℕ)

pub record RadioRingObservation (R : Type 0) : Type 0 where
  pub occupancy_frames : ℕ
  pub reserve_frames : ℕ
  pub target_frames : ℕ
  pub capacity_frames : ℕ
  pub ratio : R
  pub underrun_samples : ℕ
  pub overrun_samples : ℕ
  pub concealment_samples : ℕ

pub record ProgramRingResult (R : Type 0) : Type 0 where
  pub ring : RadioRingObservation R
  pub receiver_keyed : Bool
  pub ctcss : Option ℕ
  pub dcs_valid : Bool

module _ {H F : Type 0} (functions : Functions H F) where
  abbrev pub stored :
      ProgramState H F → ReceiveQualification → Result RingError ℕ → ProgramState H F × Option ℕ
  stored s q (err e) = (s, none)
  stored s q (ok accepted) =
      if accepted == 0
      then (s, some accepted)
      else (record s { qualification = pack_qualification q }, some accepted)

  -- `ControllerProgramProducer::push`.
  unfoldable pub push :
      ProgramState H F → List F → ReceiveQualification → ProgramState H F × Option ℕ
  push s input q =
      let (r, answer) = Ring.push functions s.ring input in stored (record s { ring = r }) q answer

  -- The producer that a controller state writes to.
  abbrev pub producer : (ℕ → F) → ProgramRing (ProgramState H F) F
  producer s16_to_f32 = record { push = push; s16_to_f32 = s16_to_f32 }

  -- `DirectProgram::prepare` with the float zero.
  unfoldable pub prepare_direct : F → ProgramState H F → ℕ → ProgramState H F
  prepare_direct zero_sample s maximum_frames = record s {
    direct = some (replicate maximum_frames zero_sample, 0);
  }

  abbrev pub staged : List F → Option (List F × ℕ) → Option (List F × ℕ)
  staged samples none = none
  staged samples (some (buffer, count)) =
      if leb (length samples) (length buffer)
      then some (overwrite buffer 0 samples, length samples)
      else none

  -- `DirectProgram::stage`; `none` is a panic: no prepared block, or more samples than it holds.
  unfoldable pub stage : ProgramState H F → List F → Option (ProgramState H F)
  stage s samples = elim (staged samples s.direct) [
    | none ↦ none
    | some block ↦ some (record s { direct = some block })
  ]

  -- `DirectProgram::render` for `count` samples.
  unfoldable pub render_direct : Option (List F × ℕ) → ℕ → Option (Result RingError (List F))
  render_direct none count = none
  render_direct (some (buffer, staged)) count =
      if staged == count then some (ok (take staged buffer)) else some (err invalid_argument)

  abbrev pub observed_ring :
      ProgramState H F
      → List F
      → Result RingError RingObservation
      → ProgramState H F × List F × Result RingError (RingObservation × ReceiveQualification)
  observed_ring s output (err e) = (s, output, err e)
  observed_ring s output (ok o) = (s, output, ok (o, unpack_qualification s.qualification))

  abbrev pub rendered_ring :
      ProgramState H F
      → List F
      → Option (List F)
      → Result RingError ℕ
      → ProgramState H F × List F × Result RingError (RingObservation × ReceiveQualification)
  rendered_ring s output none (err e) = (s, output, err e)
  rendered_ring s output (some written) (err e) = (s, written, err e)
  rendered_ring s output none (ok n) = observed_ring s output (Ring.observe functions s.ring)
  rendered_ring s output (some written) (ok n) =
      observed_ring s written (Ring.observe functions s.ring)

  -- The answer of the direct source, or the ring's where there is no such source.
  abbrev pub rendered :
      ProgramState H F
      → List F
      → Option (Result RingError (List F))
      → ProgramState H F × List F × Result RingError (RingObservation × ReceiveQualification)
  rendered s output (some (ok samples)) =
      (s, samples, ok (default_observation, unpack_qualification s.qualification))
  rendered s output (some (err e)) = (s, output, err e)
  rendered s output none =
      let (r, written, answer) = Ring.render functions s.ring (length output) in
      rendered_ring (record s { ring = r }) output written answer

  -- `ProgramRingConsumer::render` over the buffer `output`, which is part of the answer.
  unfoldable pub render :
      ProgramState H F
      → List F
      → ProgramState H F × List F × Result RingError (RingObservation × ReceiveQualification)
  unfolding render_direct
  render s output = rendered s output (render_direct s.direct (length output))

-- `radio_observation`; `adjust` is the floating-point product of the nominal ratio and
-- `1 + ppm / 1e6`.
unfoldable pub radio_observation :
    {R : Type 0} → (R → ℤ → R) → R → RingObservation → RadioRingObservation R
unfolding saturating_u32
radio_observation adjust nominal o = record {
  occupancy_frames = saturating_u32 o.available_samples;
  reserve_frames = saturating_u32 o.reserve_samples;
  target_frames = saturating_u32 o.target_samples;
  capacity_frames = saturating_u32 o.capacity_samples;
  ratio = adjust nominal o.ratio_correction_ppm;
  underrun_samples = o.missing_samples;
  overrun_samples = o.discarded_samples;
  concealment_samples = o.missing_samples;
}
