-- ===== src/Link/Tests.antt =====
-- A link of rust/asl3/src/link.rs whose graph gives every block back.
use usbradio_plus.Prelude.{ℕ, ◌+◌, true, Option, [], ◌∷◌, length}
use usbradio_plus.Meter.{Analyser}
use usbradio_plus.Link.{ProcessExact, PreparedLink}

abbrev counting : Analyser ℕ ℕ ℕ
counting = record {
  start = λ rate. 0;
  restart = λ e. 0;
  add_frames = λ e xs. e + length xs;
  loudness_global = λ e. e;
  true_peak = λ e. e;
  silence = 0;
  is_finite_sample = λ x. true;
  is_finite = λ v. true;
  is_positive = λ v. true;
  decibels = λ v. v;
}

-- A graph that writes its output workspace back as it was.
abbrev unchanged : ProcessExact ℕ ℕ
unchanged g i o = (true, g + 1, o)

abbrev link : PreparedLink ℕ ℕ ℕ ℕ
link = record {
  sample_rate_hz = 8000;
  input = 0 ∷ 0 ∷ 0 ∷ [];
  output = 0 ∷ 0 ∷ 0 ∷ [];
  graph = 0;
  meter = record {
    meter = 0;
    maximum = 3;
    rate = 8000;
    samples = 0;
    phase = 0;
    integrated = Option.none;
    epoch = 1;
    published = record {
      epoch = 1;
      sample_count = 0;
      integrated_lufs = Option.none;
      true_peak_dbtp = Option.none;
    };
  };
  counters = record { processed_blocks = 0; bypassed_blocks = 0; failed_blocks = 0 };
}
