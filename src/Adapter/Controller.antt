-- ===== src/Adapter/Controller.antt =====
-- `ControllerState` of rust/asl3/src/adapter.rs: what the controller side of a channel receives,
-- sends, and carries over a reload. The scratch buffer `program_f32` is rewritten before each use and
-- has no field. The handoff's consumer and the program ring are interfaces.
pub mod Owed
pub mod Delivery
pub mod Playback
pub mod Program
pub mod Reload
use usbradio_plus.Prelude.{
  ℕ, suc, zero, ◌+◌, ◌-◌, ◌≤◌, ◌<◌, ◌≡◌, Bool, true, false, ◌&&◌, not, Option, none, some, List,
  map, leb, ltb, ◌==◌, if◌then◌else◌, length, take, drop, Result, ok, err,
}
use usbradio_plus.Pcm.{
  AsteriskPcmMode, app_rpt, advanced, frame_samples, app_rpt_frame_samples, ControllerPcmFrame,
}
use usbradio_plus.Control.{ControlSnapshot, ControlMessage, ControlAction, default_snapshot}
use usbradio_plus.Control
use usbradio_plus.Adapter.{
  ReceiveQualification, default_qualification, ReceiveStatus, transmit_ctcss_ready, voter_rssi,
  StatusJournal, oldest_sequence, get_status, ReceivePacket,
}
use usbradio_plus.Adapter.Echo.{
  LegacyEcho, EchoConfiguration, EchoState, is_playing, is_disabled, is_app_rpt, new_echo,
}
use usbradio_plus.Adapter.Echo
use usbradio_plus.Adapter.Dtmf.{DtmfState, DtmfEvent, DtmfAction, dtmf_on, dtmf_off}
use usbradio_plus.Adapter.Dtmf

pub data DeliveryPhase : Type 0 where
  receiver_state status voice : DeliveryPhase

pub record PendingDelivery : Type 0 where
  pub packet : ReceivePacket
  pub phase : DeliveryPhase

-- `voice` carries the frame that the caller's buffer is given.
pub data DeliveryAction : Type 0 where
  receiver_key : Option ℕ → DeliveryAction
  receiver_unkey : DeliveryAction
  deliver_voice : ControllerPcmFrame → DeliveryAction
  deliver_ctcss_ready deliver_rssi : ℕ → DeliveryAction

pub record StatusObservation : Type 0 where
  pub next_sequence : ℕ
  pub discarded : ℕ

pub data ProgramSource : Type 0 where
  controller legacy_echo : ProgramSource

pub record ProgramWrite : Type 0 where
  pub source : ProgramSource
  pub submitted_samples : ℕ
  pub accepted_samples : ℕ
  pub echo_completed : Bool

pub data AdapterError : Type 0 where
  wrong_interface program_ring invalid_program_ring_result out_of_bounds : AdapterError

-- `Consumer<ReceivePacket>`: `pop`, and the `available` of its `observe`.
pub record Receiver (H : Type 0) : Type 0 where
  pub pop : H → Option ReceivePacket × H
  pub available : H → ℕ

-- `ProgramProducer`, and the conversion `s16_to_f32` of the samples that it is given. `none` is
-- `ProgramProducerError`.
pub record ProgramRing (P F : Type 0) : Type 0 where
  pub push : P → List F → ReceiveQualification → P × Option ℕ
  pub s16_to_f32 : ℕ → F

pub record ControllerState (H P : Type 0) : Type 0 where
  pub mode : AsteriskPcmMode
  pub receive : H
  pub pending : Option PendingDelivery
  pub delivered_keyed : Bool
  pub status : StatusObservation
  pub program : P
  pub echo : LegacyEcho
  pub dtmf : DtmfState
  pub control : ControlSnapshot
  pub latest_receive : ReceiveQualification

pub record ControllerReloadState : Type 0 where
  pub mode : AsteriskPcmMode
  pub delivered_keyed : Bool
  pub echo : LegacyEcho
  pub dtmf : DtmfState
  pub control : ControlSnapshot
  pub latest_receive : ReceiveQualification

-- How a round of the loop of `next_action` ends. `fault` is a read outside the journal's array.
pub data Exit : Type 0 where
  again empty fault : Exit
  returned : DeliveryAction → Exit

abbrev pub same_mode : AsteriskPcmMode → AsteriskPcmMode → Bool
same_mode app_rpt app_rpt = true
same_mode advanced advanced = true
same_mode _ _ = false

abbrev pub same_bool : Bool → Bool → Bool
same_bool true b = b
same_bool false b = not b

abbrev pub status_action : ReceiveStatus → DeliveryAction
status_action (transmit_ctcss_ready tone) = deliver_ctcss_ready tone
status_action (voter_rssi value) = deliver_rssi value

abbrev pub key_action : ReceivePacket → DeliveryAction
key_action p =
    if p.qualification.receiver_keyed then receiver_key p.controller_ctcss else receiver_unkey

-- The status observation after the numbers that the journal no longer holds are given up.
abbrev pub catch_up : StatusObservation → StatusJournal → StatusObservation
catch_up o j =
    if ltb o.next_sequence (oldest_sequence j)
    then record {
      next_sequence = oldest_sequence j;
      discarded = o.discarded + (oldest_sequence j - o.next_sequence);
    }
    else o

abbrev pub started : Option ReceivePacket → Option PendingDelivery
started none = none
started (some p) = some (record { packet = p; phase = receiver_state })

abbrev pub count_of : ControllerPcmFrame → ProgramSource → ℕ
count_of frame legacy_echo = app_rpt_frame_samples
count_of frame controller = length frame.samples

module _ {H P : Type 0} where
  -- `ControllerState::prepare`, the controller's half.
  unfoldable pub prepare : AsteriskPcmMode → H → P → EchoConfiguration → ControllerState H P
  prepare mode receive program echo = record {
    mode = mode;
    receive = receive;
    pending = none;
    delivered_keyed = false;
    status = record { next_sequence = 0; discarded = 0 };
    program = program;
    echo = new_echo echo;
    dtmf = if is_app_rpt mode then dtmf_on else dtmf_off;
    control = default_snapshot;
    latest_receive = default_qualification;
  }

  abbrev pub at_status :
      ControllerState H P
      → ReceivePacket
      → StatusObservation
      → Option ReceiveStatus
      → ControllerState H P × Exit
  at_status s p o none = (record s { status = o }, fault)
  at_status s p o (some event) = (
    record s { status = record o { next_sequence = o.next_sequence + 1 } },
    returned (status_action event),
  )

  -- One phase of the pending delivery.
  unfoldable pub deliver_phase :
      ControllerState H P → DeliveryPhase → ReceivePacket → ControllerState H P × Exit
  deliver_phase s receiver_state p =
      let s' = record s {
        pending = some (record { packet = p; phase = status });
        latest_receive = p.qualification;
      } in
      if same_bool s.delivered_keyed p.qualification.receiver_keyed
      then (s', again)
      else (record s' { delivered_keyed = p.qualification.receiver_keyed }, returned (key_action p))
  deliver_phase s status p =
      let o = catch_up s.status p.statuses in
      if ltb o.next_sequence p.statuses.produced
      then at_status s p o (get_status p.statuses o.next_sequence)
      else (record s { status = o; pending = some (record { packet = p; phase = voice }) }, again)
  deliver_phase s voice p = (
    record s { pending = none; echo = Echo.receive s.echo p.frame p.qualification.receiver_keyed },
    returned (deliver_voice p.frame),
  )

  abbrev deliver_pending : ControllerState H P → Option PendingDelivery → ControllerState H P × Exit
  deliver_pending s none = (s, empty)
  deliver_pending s (some d) = deliver_phase s d.phase d.packet

  module _ (rx : Receiver H) where
    abbrev filled : ControllerState H P → Option PendingDelivery → ControllerState H P
    filled s none = let (p, h) = rx.pop s.receive in record s { pending = started p; receive = h }
    filled s (some d) = s

    unfoldable pub round : ControllerState H P → ControllerState H P × Exit
    unfolding deliver_phase
    round s = let s' = filled s s.pending in deliver_pending s' s'.pending

    unfoldable pub rounds : ℕ → ControllerState H P → ControllerState H P × Exit
    rounds zero s = (s, again)
    rounds (suc fuel) s =
        let (s', exit) = round s in elim exit [ again ↦ rounds fuel s' | other ↦ (s', other) ]

    -- A phase that returns nothing passes to a later one, so three rounds are enough.
    unfoldable pub next_action : ControllerState H P → ControllerState H P × Exit
    unfolding rounds
    next_action s = rounds 3 s

    -- `reload_state`; `none` while a delivery is pending or a packet waits.
    unfoldable pub reload_state : ControllerState H P → Option ControllerReloadState
    reload_state s = elim s.pending [
      | some d ↦ none
      | none ↦
          if not (rx.available s.receive == 0)
          then none
          else some (record {
            mode = s.mode;
            delivered_keyed = s.delivered_keyed;
            echo = s.echo;
            dtmf = s.dtmf;
            control = s.control;
            latest_receive = s.latest_receive;
          })
    ]

  unfoldable pub restore_reload_state :
      ControllerState H P → ControllerReloadState → ControllerState H P
  restore_reload_state s r = if not (same_mode s.mode r.mode) then s else record s {
    delivered_keyed = r.delivered_keyed;
    echo = r.echo;
    dtmf = r.dtmf;
    control = r.control;
    latest_receive = r.latest_receive;
  }

  unfoldable pub apply_control :
      ControllerState H P → ControlMessage → ControllerState H P × ControlAction
  apply_control s message =
      let (control, action) = Control.apply s.control message in
      (record s { control = control }, action)

  unfoldable pub set_dtmf_detection : ControllerState H P → Bool → ControllerState H P
  set_dtmf_detection s on =
      if is_app_rpt s.mode then record s { dtmf = Dtmf.set_detection s.dtmf on } else s

  unfoldable pub handle_dtmf :
      ControllerState H P → DtmfEvent → ℕ → ControllerState H P × DtmfAction
  handle_dtmf s event now =
      let (dtmf, action) = Dtmf.handle s.dtmf event now in (record s { dtmf = dtmf }, action)

  unfoldable pub set_echo_enabled : ControllerState H P → Bool → ControllerState H P
  set_echo_enabled s on =
      if is_app_rpt s.mode then record s { echo = Echo.set_enabled s.echo on } else s

  -- The samples that `write_program` submits; `none` is an index outside the echo's storage.
  abbrev pub submitted :
      ControllerState H P → ControllerPcmFrame → ProgramSource → ℕ → Option (List ℕ)
  submitted s frame controller n = some (take n frame.samples)
  submitted s frame legacy_echo n =
      if leb (s.echo.playback + n) (length s.echo.samples)
      then some (take n (drop s.echo.playback s.echo.samples))
      else none

  abbrev pub source_of : ControllerState H P → ProgramSource
  source_of s = if is_playing s.echo.state then legacy_echo else controller

  module _ {F : Type 0} (tx : ProgramRing P F) where
    abbrev pub program_result :
        ControllerState H P
        → ProgramSource
        → ℕ
        → Option ℕ
        → ControllerState H P × Result AdapterError ProgramWrite
    program_result s source n none = (s, err program_ring)
    program_result s source n (some accepted) =
        if ltb n accepted then (s, err invalid_program_ring_result) else elim source [
          | legacy_echo ↦ (
            record s { echo = Echo.finish_playback_frame s.echo n },
            ok (record {
              source = legacy_echo;
              submitted_samples = n;
              accepted_samples = accepted;
              echo_completed = leb s.echo.recorded (s.echo.playback + n);
            }),
          )
          | controller ↦ (
            s,
            ok (record {
              source = controller;
              submitted_samples = n;
              accepted_samples = accepted;
              echo_completed = false;
            }),
          )
        ]

    -- The push of the submitted samples.
    abbrev pub pushed :
        ControllerState H P
        → ProgramSource
        → ℕ
        → Option (List ℕ)
        → ControllerState H P × Result AdapterError ProgramWrite
    pushed s source n none = (s, err out_of_bounds)
    pushed s source n (some samples) =
        let (p, accepted) = tx.push s.program (map tx.s16_to_f32 samples) s.latest_receive in
        program_result (record s { program = p }) source n accepted

    unfoldable pub write_program :
        ControllerState H P
        → ControllerPcmFrame
        → ControllerState H P × Result AdapterError ProgramWrite
    write_program s frame =
        let source = source_of s in
        let n = count_of frame source in
        if not (same_mode frame.mode s.mode)
        then (s, err wrong_interface)
        else pushed s source n (submitted s frame source n)
