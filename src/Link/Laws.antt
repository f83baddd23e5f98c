-- ===== src/Link/Laws.antt =====
-- What one call of a link's processor does, on every branch of rust/asl3/src/link.rs.
use usbradio_plus.Prelude.{
  ℕ, ◌≤◌, ◌<◌, ◌≡◌, ◌≢◌, ◌⊎◌, Bool, true, false, Option, some, List, length, map, take, ok,
}
use usbradio_plus.Meter.{Analyser, process}
use usbradio_plus.Link.{
  LinkDirection, read, write, silence, LinkProcessOutcome, processed, bypassed, graph_failed,
  ProcessExact, PreparedLink, count_block, counted,
}
use usbradio_plus.Link.Silence.{IsValid, Advanced}

module _ {E F V G : Type 0} (analyser : Analyser E F V) (process_exact : ProcessExact G F)
    (zero_float : F)
    (keeps : (g : G) (i o : List F) → length (process_exact g i o).2 ≡ length o) where
  module _ {T : Type 0} (to_float : T → F) (from_float : F → T) where
    -- The graph's answer to a frame.
    abbrev pub answer : PreparedLink E F V G → List T → Bool × G × List F
    answer l pcm = process_exact l.graph (map to_float pcm) (take (length pcm) l.output)

    -- What a frame that reaches the graph becomes, and what is measured.
    abbrev pub Read :
        PreparedLink E F V G
        → List T
        → Bool × G × List F
        → PreparedLink E F V G × List T × LinkProcessOutcome
        → Type 0
    Read l pcm g r =
        (((g.0 ≡ true) × (r.2 ≡ processed) × (r.1 ≡ map from_float g.2))
          ⊎ ((g.0 ≡ false) × (r.2 ≡ graph_failed) × (r.1 ≡ pcm)))
        × (process analyser l.meter (map to_float r.1) ≡ ok r.0.meter)

    -- Every call counts itself once and keeps the link valid and the frame's length.
    pub record Did (l : PreparedLink E F V G) (pcm : List T)
        (r : PreparedLink E F V G × List T × LinkProcessOutcome) : Type 0 where
      pub valid : IsValid analyser process_exact zero_float r.0
      pub same_length : length r.1 ≡ length pcm
      pub counted_once : r.0.counters ≡ count_block r.2 l.counters

    -- A frame that the processor leaves alone.
    abbrev pub Outside : PreparedLink E F V G → LinkDirection → ℕ → List T → Type 0
    Outside l direction rate pcm =
        (direction ≡ write)
        ⊎ (rate ≢ l.sample_rate_hz)
        ⊎ (length pcm ≡ 0)
        ⊎ (length l.input < length pcm)

    -- A frame that it works on.
    abbrev pub Inside : PreparedLink E F V G → ℕ → List T → Type 0
    Inside l rate pcm = (rate ≡ l.sample_rate_hz) × (0 < length pcm) × (length pcm ≤ length l.input)

    abbrev pub Behaves :
        PreparedLink E F V G
        → LinkDirection
        → ℕ
        → List T
        → PreparedLink E F V G × List T × LinkProcessOutcome
        → Type 0
    Behaves l direction rate pcm r =
        (Outside l direction rate pcm
          × (r ≡ (counted analyser process_exact zero_float bypassed l, pcm, bypassed)))
        ⊎ ((direction ≡ silence)
            × Inside l rate pcm
            × (r.1 ≡ map (λ _. from_float zero_float) pcm)
            × Advanced analyser process_exact zero_float l (length pcm) (r.0, r.2))
        ⊎ ((direction ≡ read) × Inside l rate pcm × Read l pcm (answer l pcm) r)

    abbrev Handled :
        PreparedLink E F V G
        → LinkDirection
        → ℕ
        → List T
        → Option (PreparedLink E F V G × List T × LinkProcessOutcome)
        → Type 0
    Handled l direction rate pcm x =
        (r : PreparedLink E F V G × List T × LinkProcessOutcome) × (x ≡ some r)
        × Did l pcm r
        × Behaves l direction rate pcm r
