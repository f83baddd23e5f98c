-- ===== src/Link.antt =====
-- rust/asl3/src/link.rs: the processor of one remote link's audio, with its counters and its output
-- meter. The prepared graph and the conversions between samples and floats are parameters. `none`
-- stands for the panic of an `expect`.
pub mod Laws
pub mod Silence
mod Tests
use usbradio_plus.Prelude.{
  ℕ, ◌+◌, ◌%◌, Bool, true, false, not, ◌||◌, Option, none, some, List, length, map, take, replicate,
  overwrite, ltb, ◌==◌, if◌then◌else◌, Result, ok, err,
}
use usbradio_plus.Meter.{
  Analyser, OutputLoudnessMeter, OutputLoudnessSnapshot, OutputLoudnessError, word, new_meter,
  process,
}

pub data LinkDirection : Type 0 where
  read write silence : LinkDirection

pub data LinkError : Type 0 where
  invalid_configuration : LinkError

pub data LinkProcessOutcome : Type 0 where
  processed bypassed graph_failed : LinkProcessOutcome

pub record LinkObservation (V : Type 0) : Type 0 where
  pub processed_blocks : ℕ
  pub bypassed_blocks : ℕ
  pub failed_blocks : ℕ
  pub loudness : OutputLoudnessSnapshot V

pub record LinkCounters : Type 0 where
  pub processed_blocks : ℕ
  pub bypassed_blocks : ℕ
  pub failed_blocks : ℕ

-- `ExactRateGraph::process_exact` with the input and the output workspace: whether it succeeded, the
-- graph, and the workspace afterwards.
abbrev pub ProcessExact : Type 0 → Type 0 → Type 0
ProcessExact G F = G → List F → List F → Bool × G × List F

pub record PreparedLink (E F V G : Type 0) : Type 0 where
  pub sample_rate_hz : ℕ
  pub input : List F
  pub output : List F
  pub graph : G
  pub meter : OutputLoudnessMeter E V
  pub counters : LinkCounters

-- One of the counters, which wrap.
abbrev pub count_block : LinkProcessOutcome → LinkCounters → LinkCounters
count_block processed c = record c { processed_blocks = (c.processed_blocks + 1) % word }
count_block bypassed c = record c { bypassed_blocks = (c.bypassed_blocks + 1) % word }
count_block graph_failed c = record c { failed_blocks = (c.failed_blocks + 1) % word }

abbrev pub is_write : LinkDirection → Bool
is_write write = true
is_write _ = false

abbrev pub is_silence : LinkDirection → Bool
is_silence silence = true
is_silence _ = false

abbrev pub outcome_of : Bool → LinkProcessOutcome
outcome_of true = processed
outcome_of false = graph_failed

module _ {E F V G : Type 0} (analyser : Analyser E F V) (process_exact : ProcessExact G F)
    (zero_float : F) where
  unfoldable pub observe : PreparedLink E F V G → LinkObservation V
  observe l = record {
    processed_blocks = l.counters.processed_blocks;
    bypassed_blocks = l.counters.bypassed_blocks;
    failed_blocks = l.counters.failed_blocks;
    loudness = l.meter.published;
  }

  abbrev pub prepared :
      ℕ
      → ℕ
      → G
      → Result OutputLoudnessError (OutputLoudnessMeter E V)
      → Result LinkError (PreparedLink E F V G)
  prepared rate maximum graph (err e) = err invalid_configuration
  prepared rate maximum graph (ok m) = ok (record {
    sample_rate_hz = rate;
    input = replicate maximum zero_float;
    output = replicate maximum zero_float;
    graph = graph;
    meter = m;
    counters = record { processed_blocks = 0; bypassed_blocks = 0; failed_blocks = 0 };
  })

  unfoldable pub new_link : ℕ → ℕ → G → ℕ → Result LinkError (PreparedLink E F V G) × ℕ
  new_link rate maximum graph next_epoch =
      let m = new_meter analyser rate maximum next_epoch in (prepared rate maximum graph m.0, m.1)

  abbrev pub counted : LinkProcessOutcome → PreparedLink E F V G → PreparedLink E F V G
  counted o l = record l { counters = count_block o l.counters }

  -- `self.meter.process(&self.input[..count]).expect(...)`, and then the counter.
  abbrev pub with_meter :
      LinkProcessOutcome
      → PreparedLink E F V G
      → Result OutputLoudnessError (OutputLoudnessMeter E V)
      → Option (PreparedLink E F V G)
  with_meter o l (err e) = none
  with_meter o l (ok m) = some (counted o (record l { meter = m }))

  abbrev pub metered : LinkProcessOutcome → ℕ → PreparedLink E F V G → Option (PreparedLink E F V G)
  metered o count l = with_meter o l (process analyser l.meter (take count l.input))

  -- The graph's answer for the first `count` samples of the workspaces.
  abbrev pub graph_call : ℕ → PreparedLink E F V G → Bool × G × List F
  graph_call count l = process_exact l.graph (take count l.input) (take count l.output)

  abbrev pub idle_workspace : ℕ → PreparedLink E F V G → PreparedLink E F V G
  idle_workspace count l = record l { input = overwrite l.input 0 (replicate count zero_float) }

  abbrev pub silenced : ℕ → PreparedLink E F V G → Bool × G × List F → PreparedLink E F V G
  silenced count l r = record l {
    graph = r.1;
    output = overwrite l.output 0 (replicate count zero_float);
  }

  abbrev pub with_outcome :
      LinkProcessOutcome
      → Option (PreparedLink E F V G)
      → Option (PreparedLink E F V G × LinkProcessOutcome)
  with_outcome o none = none
  with_outcome o (some l) = some (l, o)

  unfoldable pub advance_silence :
      PreparedLink E F V G → ℕ → Option (PreparedLink E F V G × LinkProcessOutcome)
  advance_silence l count =
      if count == 0 || ltb (length l.input) count
      then some (counted bypassed l, bypassed)
      else let a = idle_workspace count l in
        let r = graph_call count a in
        let o = outcome_of r.0 in with_outcome o (metered o count (silenced count a r))

  module _ {T : Type 0} (to_float : T → F) (from_float : F → T) where
    abbrev pub with_pcm :
        List T
        → Option (PreparedLink E F V G × LinkProcessOutcome)
        → Option (PreparedLink E F V G × List T × LinkProcessOutcome)
    with_pcm pcm none = none
    with_pcm pcm (some (l, o)) = some (l, pcm, o)

    -- The graph's output becomes the PCM, and what the PCM then holds is measured.
    abbrev pub delivered :
        List T
        → PreparedLink E F V G
        → List F
        → Option (PreparedLink E F V G × List T × LinkProcessOutcome)
    delivered pcm l out =
        let sent = map from_float (take (length pcm) out) in
        with_pcm sent (
          with_outcome processed (
            metered processed (length pcm)
              (record l { input = overwrite l.input 0 (map to_float sent) })))

    abbrev pub after_graph :
        List T
        → PreparedLink E F V G
        → Bool × G × List F
        → Option (PreparedLink E F V G × List T × LinkProcessOutcome)
    after_graph pcm l r =
        let a = record l { graph = r.1; output = overwrite l.output 0 r.2 } in
        if r.0
        then delivered pcm a a.output
        else with_pcm pcm (with_outcome graph_failed (metered graph_failed (length pcm) a))

    unfoldable pub process_link :
        PreparedLink E F V G
        → LinkDirection
        → ℕ
        → List T
        → Option (PreparedLink E F V G × List T × LinkProcessOutcome)
    process_link l direction rate pcm =
        if is_write direction
          || not (rate == l.sample_rate_hz)
          || length pcm == 0
          || ltb (length l.input) (length pcm)
        then some (counted bypassed l, pcm, bypassed)
        else if is_silence direction
        then with_pcm (map (λ _. from_float zero_float) pcm) (advance_silence l (length pcm))
        else let a = record l { input = overwrite l.input 0 (map to_float pcm) } in
          after_graph pcm a (graph_call (length pcm) a)

  -- `process_f32`: the conversions are the identity.
  unfoldable pub process_f32 :
      PreparedLink E F V G
      → LinkDirection
      → ℕ
      → List F
      → Option (PreparedLink E F V G × List F × LinkProcessOutcome)
  process_f32 = process_link (λ x. x) (λ x. x)
