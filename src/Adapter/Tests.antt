-- ===== src/Adapter/Tests.antt =====
-- The channel state of rust/asl3/src/adapter.rs over a handoff that is a list of packets and a
-- program ring that takes everything.
use usbradio_plus.Prelude.{
  ℕ, ◌+◌, ◌≡◌, refl, true, false, none, some, List, [], ◌∷◌, ◌++◌, length, replicate, arith,
}
use usbradio_plus.Pcm.{app_rpt, ControllerPcmFrame}
use usbradio_plus.Control.{default_snapshot}
use usbradio_plus.Adapter.{
  default_qualification, ReceiveStatus, voter_rssi, transmit_ctcss_ready, StatusJournal,
  new_journal, get_status, ReceivePacket,
}
use usbradio_plus.Adapter.Status.{push_all, get_status-push_all}
use usbradio_plus.Adapter.Echo.{
  LegacyEcho, recording, playing, receive, recording_of, recording_of-receive, receive-IsValid,
  finish_playback_frame, finish-IsValid,
}
use usbradio_plus.Adapter.Echo
use usbradio_plus.Adapter.Dtmf.{
  begin, end, DtmfEvent, dtmf_on, forward_begin, forward_end, handle, handle_all, Hears,
  handle_all-Hears, suppress_repeated_begin,
}
use usbradio_plus.Adapter.Controller.{
  Receiver, ProgramRing, ControllerState, ControllerReloadState, status, prepare, next_action,
  reload_state, restore_reload_state, write_program, receiver_key, returned, rounds, round,
  deliver_phase,
}
use usbradio_plus.Adapter.Echo.{EchoConfiguration}
use usbradio_plus.Adapter.Controller.Owed.{Delivers, owed}
use usbradio_plus.Adapter.Controller.Delivery.{next_action-pending}
use usbradio_plus.Adapter.Controller.Program.{Writes, write_program_lem}
use usbradio_plus.Adapter.Controller.Reload.{restore-reload}

abbrev packets : Receiver (List ReceivePacket)
packets = record {
  pop = λ h. elim h [ [] ↦ (none, []) | p ∷ rest ↦ (some p, rest) ];
  available = length;
}

abbrev greedy : ProgramRing ℕ ℕ
greedy = record {
  push = λ count input q. (count + length input, some (length input));
  s16_to_f32 = λ n. n;
}

abbrev frame : ControllerPcmFrame
frame = record { mode = app_rpt; samples = replicate 160 3 }

abbrev journal : StatusJournal
journal = record { events = replicate 16 (voter_rssi 4); produced = 1 }

abbrev packet : ReceivePacket
packet = record {
  frame = frame;
  qualification = record default_qualification { receiver_keyed = true };
  controller_ctcss = some 1000;
  statuses = journal;
}

-- Two recorded frames, the first of which is played.
abbrev echo : LegacyEcho
echo = record { state = playing; samples = replicate 320 5; recorded = 320; playback = 0 }

abbrev echo_config : EchoConfiguration
echo_config = record { enabled = true; maximum_frames = 2 }

abbrev empty_echo : LegacyEcho
empty_echo = record { state = recording; samples = replicate 320 0; recorded = 0; playback = 0 }

abbrev idle : ControllerState (List ReceivePacket) ℕ
idle = record {
  mode = app_rpt;
  receive = [];
  pending = none;
  delivered_keyed = false;
  status = record { next_sequence = 0; discarded = 0 };
  program = 0;
  echo = empty_echo;
  dtmf = dtmf_on;
  control = default_snapshot;
  latest_receive = default_qualification;
}

prepare-idle : prepare app_rpt [] 0 echo_config ≡ idle
unfolding prepare Echo.new_echo
prepare-idle = refl

abbrev waiting : ControllerState (List ReceivePacket) ℕ
waiting = record idle { receive = packet ∷ [] }

abbrev at_status : ControllerState (List ReceivePacket) ℕ
at_status = record idle { pending = some (record { packet = packet; phase = status }) }

first_action : (next_action packets waiting).1 ≡ returned (receiver_key (some 1000))
unfolding next_action rounds round deliver_phase
first_action = refl

next_action-pending_example : Delivers (owed at_status) (next_action packets at_status)
next_action-pending_example =
    next_action-pending packets at_status (record { packet = packet; phase = status }) refl refl

echo-IsValid : Echo.IsValid echo
echo-IsValid = omega arith

abbrev echoing : ControllerState (List ReceivePacket) ℕ
echoing = record idle { echo = echo }

write_program_lem_example : Writes greedy echoing frame (write_program greedy echoing frame)
write_program_lem_example = write_program_lem greedy echoing frame echo-IsValid

abbrev handed_over : ControllerReloadState
handed_over = record {
  mode = app_rpt;
  delivered_keyed = false;
  echo = echo;
  dtmf = dtmf_on;
  control = idle.control;
  latest_receive = default_qualification;
}

abbrev replacement : ControllerState (List ReceivePacket) ℕ
replacement = record idle { receive = packet ∷ []; program = 9 }

restore-reload_example :
    restore_reload_state replacement handed_over
    ≡ record echoing { receive = packet ∷ []; program = 9 }
unfolding reload_state
restore-reload_example = restore-reload packets echoing replacement handed_over refl refl

empty_echo-IsValid : Echo.IsValid empty_echo
empty_echo-IsValid = ground arith

abbrev presses : List (DtmfEvent × ℕ)
presses =
    (record { kind = begin; digit = b'5' }, 100)
    ∷ (record { kind = begin; digit = b'5' }, 120)
    ∷ (record { kind = end; digit = b'5' }, 180)
    ∷ []

forwarded :
    handle_all dtmf_on presses
    ≡ (100, forward_begin b'5') ∷ (120, suppress_repeated_begin) ∷ (180, forward_end b'5' 80) ∷ []
unfolding handle_all handle
forwarded = refl

handle_all-Hears_example : Hears none (handle_all dtmf_on presses)
handle_all-Hears_example = handle_all-Hears dtmf_on presses

abbrev statuses : List ReceiveStatus
statuses = replicate 20 (voter_rssi 6) ++ (transmit_ctcss_ready 3 ∷ [])

get_status-push_all_example :
    get_status (push_all new_journal statuses) 20 ≡ some (transmit_ctcss_ready 3)
get_status-push_all_example =
    get_status-push_all statuses 20 (omega arith) (omega arith) (omega arith)
