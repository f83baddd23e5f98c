-- ===== src/Meter.antt =====
-- rust/core/src/loudness_meter.rs: the output meter that a link and a station feed with every block.
-- The loudness analyser of the ebur128 library and 64-bit floats are parameters; the static counter of
-- epochs is an argument and a result. The published snapshot is kept whole here; the words that carry
-- it between two threads are in Published.
pub mod Laws
pub mod Published
mod Tests
use usbradio_plus.Prelude.{
  ℕ, ◌+◌, ◌*◌, ◌/◌, ◌%◌, ◌-◌, ◌^◌, min, Bool, true, false, ◌&&◌, ◌||◌, Option, none, some, List,
  length, map, ltb, leb, ◌==◌, if◌then◌else◌, Result, ok, err,
}

pub data OutputLoudnessError : Type 0 where
  unsupported_sample_rate invalid_maximum_frame_count frame_too_large : OutputLoudnessError

pub record OutputLoudnessSnapshot (V : Type 0) : Type 0 where
  pub epoch : ℕ
  pub sample_count : ℕ
  pub integrated_lufs : Option V
  pub true_peak_dbtp : Option V

-- The analyser `E` over samples `F`, and the tests on floats `V`: `decibels` is `20 * log10`.
pub record Analyser (E F V : Type 0) : Type 0 where
  pub start : ℕ → E
  pub restart : E → E
  pub add_frames : E → List F → E
  pub loudness_global : E → V
  pub true_peak : E → V
  pub silence : F
  pub is_finite_sample : F → Bool
  pub is_finite : V → Bool
  pub is_positive : V → Bool
  pub decibels : V → V

-- `maximum` is the length of the scratch storage, whose contents are written before each use.
pub record OutputLoudnessMeter (E V : Type 0) : Type 0 where
  pub meter : E
  pub maximum : ℕ
  pub rate : ℕ
  pub samples : ℕ
  pub phase : ℕ
  pub integrated : Option V
  pub epoch : ℕ
  pub published : OutputLoudnessSnapshot V

abbrev pub word : ℕ
word = 2 ^ 64

abbrev pub unmeasured : {V : Type 0} → ℕ → OutputLoudnessSnapshot V
unmeasured epoch = record {
  epoch = epoch;
  sample_count = 0;
  integrated_lufs = none;
  true_peak_dbtp = none;
}

-- 100 ms of samples.
abbrev pub interval_of : ℕ → ℕ
interval_of rate = (rate + 5) / 10

module _ {E F V : Type 0} (analyser : Analyser E F V) where
  unfoldable pub new_meter : ℕ → ℕ → ℕ → Result OutputLoudnessError (OutputLoudnessMeter E V) × ℕ
  new_meter rate maximum next_epoch =
      if ltb rate 8000 || ltb 384000 rate
      then (err unsupported_sample_rate, next_epoch)
      else if ltb maximum 1 || ltb 4096 maximum
      then (err invalid_maximum_frame_count, next_epoch)
      else (
        ok (record {
          meter = analyser.start rate;
          maximum = maximum;
          rate = rate;
          samples = 0;
          phase = 0;
          integrated = none;
          epoch = next_epoch;
          published = unmeasured next_epoch;
        }),
        (next_epoch + 1) % word,
      )

  unfoldable pub reset : OutputLoudnessMeter E V → ℕ → OutputLoudnessMeter E V × ℕ
  reset m next_epoch = (
    record m {
      meter = analyser.restart m.meter;
      samples = 0;
      phase = 0;
      integrated = none;
      epoch = next_epoch;
      published = unmeasured next_epoch;
    },
    (next_epoch + 1) % word,
  )

  abbrev pub clean : F → F
  clean x = if analyser.is_finite_sample x then x else analyser.silence

  abbrev pub finite_only : V → Option V
  finite_only v = if analyser.is_finite v then some v else none

  abbrev pub peak_of : V → Option V
  peak_of v =
      if analyser.is_finite v && analyser.is_positive v then some (analyser.decibels v) else none

  -- The meter after the analyser took the block, and the publication of its state.
  abbrev pub advanced : OutputLoudnessMeter E V → E → ℕ → ℕ → OutputLoudnessMeter E V
  advanced m meter samples phase =
      let interval = interval_of m.rate in
      record m {
        meter = meter;
        samples = samples;
        phase = if leb interval phase then phase % interval else phase;
        integrated =
            if leb interval phase && leb (4 * interval) samples
            then finite_only (analyser.loudness_global meter)
            else m.integrated;
      }

  abbrev pub publish_state : OutputLoudnessMeter E V → OutputLoudnessMeter E V
  publish_state m = record m {
    published = record {
      epoch = m.epoch;
      sample_count = m.samples;
      integrated_lufs = m.integrated;
      true_peak_dbtp =
          if leb (4 * interval_of m.rate) m.samples
          then peak_of (analyser.true_peak m.meter)
          else none;
    };
  }

  unfoldable pub process :
      OutputLoudnessMeter E V → List F → Result OutputLoudnessError (OutputLoudnessMeter E V)
  process m xs =
      if ltb m.maximum (length xs)
      then err frame_too_large
      else if length xs == 0
      then ok m
      else ok (
          publish_state (
            advanced m (analyser.add_frames m.meter (map clean xs))
              (min (m.samples + length xs) (word - 1)) (m.phase + length xs)))
