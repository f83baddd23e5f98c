-- ===== src/Link/Silence.antt =====
-- Silence, and the measurement of a block, in rust/asl3/src/link.rs: the workspaces keep their sizes
-- and the meter takes every block.
use usbradio_plus.Prelude.{
  ℕ, ◌≤◌, ◌<◌, ◌≡◌, refl, sym, ap, ◌∙◌, Bool, ◌||◌, Option, some, List, length, take, replicate,
  overwrite, take-overwrite, length-overwrite, length-replicate, ltb, ◌==◌, if_cases, ok, arith,
}
use usbradio_plus.Meter.{Analyser, OutputLoudnessMeter, process}
use usbradio_plus.Meter.Laws.{process_fits}
use usbradio_plus.Link.{
  LinkProcessOutcome, ProcessExact, PreparedLink, count_block, counted, metered, graph_call,
  outcome_of, idle_workspace, silenced, with_outcome, advance_silence,
}

-- The first places of a workspace that a block was written into are the block.
pub take-written :
    {A : Type 0} (n : ℕ) (ys xs : List A) → n ≡ length ys → take n (overwrite xs 0 ys) ≡ ys
take-written n ys xs e =
    ap (λ k. take k (overwrite xs 0 ys)) (omega (arith, e)) ∙ take-overwrite xs 0 ys (omega arith)

module _ {E F V G : Type 0} (analyser : Analyser E F V) (process_exact : ProcessExact G F)
    (zero_float : F) where
  pub record IsValid (l : PreparedLink E F V G) : Type 0 where
    pub input_length : length l.input ≡ l.meter.maximum
    pub output_length : length l.output ≡ l.meter.maximum

  pub workspace-IsValid :
      (l : PreparedLink E F V G) (i o : List F) (g : G)
      → length i ≡ length l.input
      → length o ≡ length l.output
      → IsValid l
      → IsValid (record l { input = i; output = o; graph = g })
  workspace-IsValid l i o g a b v = record {
    input_length = a ∙ v.input_length;
    output_length = b ∙ v.output_length;
  }

  pub meter_takes :
      (o : LinkProcessOutcome) (count : ℕ) (l : PreparedLink E F V G) (xs : List F)
      → take count l.input ≡ xs
      → length xs ≤ length l.input
      → IsValid l
      → (m : OutputLoudnessMeter E V) × (process analyser l.meter xs ≡ ok m)
        × (metered analyser process_exact zero_float o count l
            ≡ some (counted analyser process_exact zero_float o (record l { meter = m })))
        × IsValid (counted analyser process_exact zero_float o (record l { meter = m }))
  meter_takes o count l xs e fits v =
      let (m, h, k) = process_fits analyser l.meter xs (omega (arith, fits, v.input_length)) in
      (
        m,
        h,
        rw (metered, e, h) refl,
        record { input_length = v.input_length ∙ sym k; output_length = v.output_length ∙ sym k },
      )

  -- The link once `block` is in its input workspace, the graph has answered and `out` is in its output
  -- workspace.
  abbrev pub worked : PreparedLink E F V G → List F → List F → G → PreparedLink E F V G
  worked l block out g = record l {
    input = overwrite l.input 0 block;
    output = overwrite l.output 0 out;
    graph = g;
  }

  pub worked-IsValid :
      (l : PreparedLink E F V G) (block out : List F) (g : G)
      → length block ≤ length l.input
      → length out ≤ length l.input
      → IsValid l
      → IsValid (worked l block out g)
  worked-IsValid l block out g a b v =
      workspace-IsValid l _ _ g (length-overwrite l.input 0 block (omega (arith, a)))
        (length-overwrite l.output 0 out (omega (arith, b, v.input_length, v.output_length))) v

  -- The graph's answer to silence.
  abbrev pub silent_answer : PreparedLink E F V G → ℕ → Bool × G × List F
  silent_answer l count = process_exact l.graph (replicate count zero_float) (take count l.output)

  -- An idle interval is processed or failed as the graph says, and silence is measured.
  abbrev pub Advanced :
      PreparedLink E F V G → ℕ → PreparedLink E F V G × LinkProcessOutcome → Type 0
  Advanced l count r =
      IsValid r.0
      × (r.0.counters ≡ count_block r.1 l.counters)
      × (r.1 ≡ outcome_of (silent_answer l count).0)
      × (process analyser l.meter (replicate count zero_float) ≡ ok r.0.meter)

  abbrev metered_silence :
      PreparedLink E F V G
      → ℕ
      → Bool × G × List F
      → Option (PreparedLink E F V G × LinkProcessOutcome)
  metered_silence l count g = with_outcome analyser process_exact zero_float (outcome_of g.0) (
      metered analyser process_exact zero_float (outcome_of g.0) count (
        silenced analyser process_exact zero_float count
          (idle_workspace analyser process_exact zero_float count l) g))

  metered_silence-Advanced :
      (l : PreparedLink E F V G) (count : ℕ) (g : Bool × G × List F)
      → IsValid l
      → count ≤ length l.input
      → (r : PreparedLink E F V G × LinkProcessOutcome) × (metered_silence l count g ≡ some r)
        × IsValid r.0
        × (r.0.counters ≡ count_block r.1 l.counters)
        × (r.1 ≡ outcome_of g.0)
        × (process analyser l.meter (replicate count zero_float) ≡ ok r.0.meter)
  metered_silence-Advanced l count g v fits =
      let zeros = replicate count zero_float in
      let size = length-replicate count zero_float in
      let b = worked l zeros zeros g.1 in
      let w =
        worked-IsValid l zeros zeros g.1 (omega (arith, size, fits)) (omega (arith, size, fits))
          v in
      let (m, h, k, valid) =
        meter_takes (outcome_of g.0) count b zeros (take-written count zeros l.input (sym size))
          (omega (arith, size, fits, length-overwrite l.input 0 zeros (omega (arith, size, fits))))
          w in
      (
        (
          counted analyser process_exact zero_float (outcome_of g.0) (record b { meter = m }),
          outcome_of g.0,
        ),
        rw (k, with_outcome) refl,
        valid,
        refl,
        refl,
        h,
      )

  pub advance_silence-Advanced :
      (l : PreparedLink E F V G) (count : ℕ)
      → IsValid l
      → 0 < count
      → count ≤ length l.input
      → (r : PreparedLink E F V G × LinkProcessOutcome) × (advance_silence analyser process_exact
            zero_float l count
          ≡ some r)
        × Advanced l count r
  unfolding advance_silence
  advance_silence-Advanced l count v positive fits =
      let O = Option (PreparedLink E F V G × LinkProcessOutcome) in
      let zeros = replicate count zero_float in
      let g = silent_answer l count in
      let (r, e, ok_r, count_r, o, m) = metered_silence-Advanced l count g v fits in
      let Q = λ (x : O).
        (r : PreparedLink E F V G × LinkProcessOutcome) × (x ≡ some r) × Advanced l count r in
      if_cases Q (count == 0 || ltb (length l.input) count) _
        (metered_silence l count (
          graph_call analyser process_exact zero_float count
            (idle_workspace analyser process_exact zero_float count l)))
        (λ h. absurd (ground (arith, h, positive, fits)))
        (λ _. (
          r,
          ap (λ xs. metered_silence l count (process_exact l.graph xs (take count l.output)))
                (take-written count zeros l.input (sym (length-replicate count zero_float)))
              ∙ e,
          (ok_r, count_r, o, m),
        ))
