-- ===== src/Adapter/Publisher.antt =====
-- `ReceivePublisher` of rust/asl3/src/adapter.rs: the receive callback's conversion of native audio to
-- controller frames. The sample-rate converter, the rounding of a float to a sample and the
-- handoff's producer are parameters. The buffer `quantized` is written before each use and has no
-- field. `none` stands for a loop that is still running when its fuel is used up.
pub mod Rounds
pub mod Spans
pub mod Remainder
pub mod Lossless
pub mod Laws
mod Tests
use usbradio_plus.Prelude.{
  ℕ, zero, suc, ◌+◌, ◌-◌, min, Bool, true, false, ◌&&◌, ◌||◌, Option, none, some, List, [], ◌∷◌,
  length, map, take, drop, replicate, ltb, ◌==◌, if◌then◌else◌, Result, ok, err,
}
use usbradio_plus.Pcm.{
  AsteriskPcmMode, ControllerPcmFrame, FrameAssembler, PcmBoundaryError, append, take_padded,
  frame_samples, advanced_frame_samples, assembly_capacity,
}
use usbradio_plus.Adapter.{
  ReceivePacket, ReceiveMetadata, ReceiveStatus, StatusJournal, push_status,
}
use usbradio_plus.Handoff.{PublishOutcome}

abbrev pub native_frame_samples : ℕ
native_frame_samples = advanced_frame_samples

-- The errors of `AdapterError` that the publisher returns.
pub data PublishError : Type 0 where
  invalid_native_frame sample_rate conversion_stalled invalid_conversion_result : PublishError
  pcm_error : PcmBoundaryError → PublishError

pub data ReceiveEgress (C : Type 0) : Type 0 where
  egress_app_rpt : C → ReceiveEgress C
  egress_advanced : ReceiveEgress C

pub record ReceivePublisher (C F H : Type 0) : Type 0 where
  pub mode : AsteriskPcmMode
  pub egress : ReceiveEgress C
  pub assembler : FrameAssembler
  pub native_remainder : ℕ
  pub converted : List F
  pub statuses : StatusJournal
  pub handoff : H

pub record PublishReport : Type 0 where
  pub completed_frame : Bool
  pub handoff : Option PublishOutcome

abbrev pub default_report : PublishReport
default_report = record { completed_frame = false; handoff = none }

-- `AppRptConverter::process` with its output buffer: the converter and the buffer afterwards, and how
-- much it used and generated, if it succeeded.
abbrev pub Convert : Type 0 → Type 0 → Type 0
Convert C F = C → List F → List F → C × List F × Option (ℕ × ℕ)

abbrev pub push_some : Option ReceiveStatus → StatusJournal → StatusJournal
push_some none j = j
push_some (some status) j = push_status j status

abbrev pub silenced : Bool → List ℕ → List ℕ
silenced true samples = samples
silenced false samples = replicate (length samples) 0

-- What the converter works on.
pub record Conversion (C F : Type 0) : Type 0 where
  pub converter : C
  pub converted : List F
  pub assembler : FrameAssembler

abbrev pub used_of : Result PublishError ℕ → ℕ
used_of (ok used) = used
used_of (err e) = 0

abbrev pub next_round :
    {A : Type 0}
    → A × Result PublishError ℕ
    → Option (A × Result PublishError (Unit {0}))
    → Option (A × Result PublishError (Unit {0}))
next_round (a, err e) rest = some (a, err e)
next_round (a, ok used) rest = rest

module _ {C F H : Type 0} (convert : Convert C F) (to_s16 : F → ℕ)
    (push : H → ReceivePacket → H × PublishOutcome) where
  abbrev pub assembled :
      Conversion C F
      → ℕ
      → Result PcmBoundaryError FrameAssembler
      → Conversion C F × Result PublishError ℕ
  assembled s used (err e) = (s, err (pcm_error e))
  assembled s used (ok a) = (record s { assembler = a }, ok used)

  abbrev pub progressed :
      Conversion C F → List F → Option (ℕ × ℕ) → Conversion C F × Result PublishError ℕ
  progressed s input none = (s, err sample_rate)
  progressed s input (some (used, generated)) =
      if ltb (length input) used || ltb (length s.converted) generated
      then (s, err invalid_conversion_result)
      else if used == 0 && generated == 0
      then (s, err conversion_stalled)
      else assembled s used (append s.assembler (map to_s16 (take generated s.converted)))

  -- One round of the conversion loop.
  unfoldable pub convert_once : Conversion C F → List F → Conversion C F × Result PublishError ℕ
  convert_once s input =
      let r = convert s.converter input s.converted in
      progressed (record s { converter = r.0; converted = r.1 }) input r.2

  unfoldable pub convert_loop :
      ℕ → Conversion C F → List F → Option (Conversion C F × Result PublishError (Unit {0}))
  convert_loop fuel s [] = some (s, ok tt)
  convert_loop zero s (x ∷ xs) = none
  convert_loop (suc fuel) s (x ∷ xs) =
      let r = convert_once s (x ∷ xs) in
      next_round r (convert_loop fuel r.0 (drop (used_of r.1) (x ∷ xs)))

  abbrev pub appended :
      ReceivePublisher C F H
      → Result PcmBoundaryError FrameAssembler
      → ReceivePublisher C F H × Result PublishError (Unit {0})
  appended p (err e) = (p, err (pcm_error e))
  appended p (ok a) = (record p { assembler = a }, ok tt)

  abbrev pub converted_by :
      ReceivePublisher C F H
      → Option (Conversion C F × Result PublishError (Unit {0}))
      → Option (ReceivePublisher C F H × Result PublishError (Unit {0}))
  converted_by p none = none
  converted_by p (some (s, r)) = some (
    record p {
      egress = egress_app_rpt s.converter;
      converted = s.converted;
      assembler = s.assembler;
    },
    r,
  )

  abbrev pub convert_through :
      ReceivePublisher C F H
      → ReceiveEgress C
      → List F
      → Option (ReceivePublisher C F H × Result PublishError (Unit {0}))
  convert_through p egress_advanced input =
      some (appended p (append p.assembler (map to_s16 input)))
  convert_through p (egress_app_rpt c) input = converted_by p (
      convert_loop (length input + assembly_capacity)
        (record { converter = c; converted = p.converted; assembler = p.assembler }) input)

  unfoldable pub convert_span :
      ReceivePublisher C F H
      → List F
      → Option (ReceivePublisher C F H × Result PublishError (Unit {0}))
  convert_span p input = convert_through p p.egress input

  abbrev pub framed :
      AsteriskPcmMode
      → Bool
      → ReceivePublisher C F H
      → FrameAssembler × List ℕ × Result PcmBoundaryError (Unit {0})
      → ReceivePublisher C F H × Result PublishError ControllerPcmFrame
  framed mode keyed p (a, samples, err e) = (record p { assembler = a }, err (pcm_error e))
  framed mode keyed p (a, samples, ok _) =
      (record p { assembler = a }, ok (record { mode = mode; samples = silenced keyed samples }))

  unfoldable pub take_frame :
      ReceivePublisher C F H
      → Bool
      → ReceivePublisher C F H × Result PublishError ControllerPcmFrame
  take_frame p keyed = framed p.mode keyed p (take_padded p.assembler (frame_samples p.mode))

  abbrev pub handed_off :
      ReceiveMetadata
      → ReceivePublisher C F H × Result PublishError ControllerPcmFrame
      → ReceivePublisher C F H × Result PublishError PublishReport
  handed_off metadata (p, err e) = (p, err e)
  handed_off metadata (p, ok frame) =
      let r = push p.handoff (record {
        frame = frame;
        qualification = metadata.qualification;
        controller_ctcss = metadata.controller_ctcss;
        statuses = p.statuses;
      }) in
      (record p { handoff = r.0 }, ok (record { completed_frame = true; handoff = some r.1 }))

  -- The end of one span of `publish`: a frame, if the remainder is full.
  abbrev pub completed :
      ReceiveMetadata
      → PublishReport
      → ReceivePublisher C F H
      → ReceivePublisher C F H × Result PublishError PublishReport
  completed metadata report p =
      if p.native_remainder == native_frame_samples
      then handed_off metadata
          (take_frame (record p { native_remainder = 0 }) metadata.qualification.receiver_keyed)
      else (p, ok report)

  abbrev pub span_done :
      ReceiveMetadata
      → PublishReport
      → ℕ
      → Option (ReceivePublisher C F H × Result PublishError (Unit {0}))
      → Option (ReceivePublisher C F H × Result PublishError PublishReport)
  span_done metadata report count none = none
  span_done metadata report count (some (p, err e)) = some (p, err e)
  span_done metadata report count (some (p, ok _)) =
      some (completed metadata report (record p { native_remainder = p.native_remainder + count }))

  abbrev pub span_length : ReceivePublisher C F H → List F → ℕ
  span_length p native = min (native_frame_samples - p.native_remainder) (length native)

  unfoldable pub publish_span :
      ReceiveMetadata
      → PublishReport
      → ReceivePublisher C F H
      → List F
      → Option (ReceivePublisher C F H × Result PublishError PublishReport)
  publish_span metadata report p native =
      let count = span_length p native in
      span_done metadata report count (convert_span p (take count native))

  abbrev pub and_then :
      Option (ReceivePublisher C F H × Result PublishError PublishReport)
      → (ReceivePublisher C F H
          → PublishReport
          → Option (ReceivePublisher C F H × Result PublishError PublishReport))
      → Option (ReceivePublisher C F H × Result PublishError PublishReport)
  and_then none f = none
  and_then (some (p, err e)) f = some (p, err e)
  and_then (some (p, ok report)) f = f p report

  -- The loop of `publish` over what is left of the native frame.
  unfoldable pub publish_loop :
      ℕ
      → ReceiveMetadata
      → PublishReport
      → ReceivePublisher C F H
      → List F
      → Option (ReceivePublisher C F H × Result PublishError PublishReport)
  publish_loop fuel metadata report p [] = some (p, ok report)
  publish_loop zero metadata report p (x ∷ xs) = none
  publish_loop (suc fuel) metadata report p (x ∷ xs) =
      and_then (publish_span metadata report p (x ∷ xs))
        λ q next. publish_loop fuel metadata next q (drop (span_length p (x ∷ xs)) (x ∷ xs))

  unfoldable pub publish :
      ReceivePublisher C F H
      → List F
      → ReceiveMetadata
      → Option (ReceivePublisher C F H × Result PublishError PublishReport)
  publish p native metadata =
      if length native == 0 || ltb native_frame_samples (length native)
      then some (p, err invalid_native_frame)
      else let journal = push_some metadata.statuses.1 (push_some metadata.statuses.0 p.statuses) in
        publish_loop (length native) metadata default_report (record p { statuses = journal })
          native
