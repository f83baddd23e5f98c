-- ===== src/Program/Tests.antt =====
-- The program ring of rust/station/src/program.rs and rust/ring/src/lib.rs over a small ring: a list
-- of waiting samples.
use usbradio_plus.Prelude.{
  ℕ, ◌-◌, ◌^◌, ◌<◌, ◌≡◌, ◌≢◌, refl, true, some, List, [], ◌∷◌, ◌++◌, length, take, drop, replicate,
  min, ok, err, pos, arith,
}
use usbradio_plus.Pcm
use usbradio_plus.Pcm.{ControllerPcmFrame}
use usbradio_plus.Adapter.{ReceiveQualification, default_qualification}
use usbradio_plus.Adapter.Controller.{
  ControllerState, prepare, write_program, invalid_program_ring_result,
}
use usbradio_plus.Adapter.Echo.{echo_disabled}
use usbradio_plus.Ring.{
  Functions, Ring, RingSettings, Config, config_of, abi_version, plc_disabled, default_observation,
  invalid_argument, is_supported,
}
use usbradio_plus.Ring
use usbradio_plus.Ring.Laws.{OwnsOnce, prepare-OwnsOnce}
use usbradio_plus.Program.{
  pack_qualification, unpack_qualification, ProgramState, producer, stage, render,
}
use usbradio_plus.Program.Laws.{unpack-pack, render-stage}
use usbradio_plus.Program.Writes.{write_program-producer}

-- A ring that keeps at most eight samples.
abbrev eight : Functions (List ℕ) ℕ
eight = record {
  create = λ c. (pos 0, some []);
  push =
      λ h input. let room = 8 - length h in (h ++ take room input, pos 0, min room (length input));
  render = λ h count.
      (drop count h, take count h ++ replicate (count - length h) 0, pos 0, min count (length h));
  observe = λ h. (pos 0, abi_version, default_observation);
}

abbrev plan : RingSettings
plan = record {
  capacity_samples = 512;
  input_rate_hz = 8000;
  output_rate_hz = 48000;
  reserve_samples = 2;
  target_samples = 4;
  max_producer_samples = 3;
  max_output_samples = 6;
  plc_mode = plc_disabled;
}

abbrev ring : Ring (List ℕ)
ring = record { handle = []; settings = plan }

abbrev state : ProgramState (List ℕ) ℕ
state = record { ring = ring; qualification = 0; direct = some (0 ∷ 0 ∷ 0 ∷ [], 0) }

abbrev keyed : ReceiveQualification
keyed = record default_qualification { receiver_keyed = true; ctcss_decoded = some 37 }

packed : pack_qualification keyed ≡ 612
unfolding pack_qualification
packed = refl

prepare-OwnsOnce_example : OwnsOnce eight (some []) (Ring.prepare eight plan)
unfolding is_supported
prepare-OwnsOnce_example = prepare-OwnsOnce eight plan refl

unpack-pack_example :
    (unpack_qualification (pack_qualification keyed) ≡ keyed) × (pack_qualification keyed < 2 ^ 32)
unpack-pack_example = unpack-pack keyed (omega arith)

abbrev staged_state : ProgramState (List ℕ) ℕ
staged_state = record state { direct = some (5 ∷ 6 ∷ 0 ∷ [], 2) }

render-stage_example :
    render eight staged_state (1 ∷ 1 ∷ [])
    ≡ (staged_state, 5 ∷ 6 ∷ [], ok (default_observation, unpack_qualification 0))
unfolding stage
render-stage_example = render-stage eight state staged_state (5 ∷ 6 ∷ []) (1 ∷ 1 ∷ []) refl

abbrev channel : ControllerState ℕ (ProgramState (List ℕ) ℕ)
unfolding prepare
channel = prepare Pcm.app_rpt 0 state echo_disabled

abbrev frame : ControllerPcmFrame
frame = record { mode = Pcm.app_rpt; samples = replicate 160 9 }

write_program-producer_example :
    (write_program (producer eight (λ n. n)) channel frame).1 ≢ err invalid_program_ring_result
write_program-producer_example = write_program-producer eight channel frame (λ n. n)
