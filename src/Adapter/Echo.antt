-- ===== src/Adapter/Echo.antt =====
-- The legacy echo of rust/asl3/src/adapter.rs: it records keyed app_rpt frames and plays them back.
use usbradio_plus.Prelude.{
  ℕ, zero, suc, ◌+◌, ◌-◌, ◌*◌, ◌%◌, ◌≤◌, ◌<◌, ◌≡◌, refl, ap, ◌∙◌, Bool, true, false, ◌&&◌, not,
  List, [], ◌++◌, length, take, replicate, overwrite, min, leb, ltb, ◌==◌, if◌then◌else◌,
  length-overwrite, length-take, length-replicate, take-overwrite, take-length, append-nil, arith,
}
use usbradio_plus.Pcm.{
  AsteriskPcmMode, app_rpt, advanced, frame_samples, app_rpt_frame_samples, ControllerPcmFrame,
}

pub data EchoState : Type 0 where
  disabled recording playing : EchoState

pub record EchoConfiguration : Type 0 where
  pub enabled : Bool
  pub maximum_frames : ℕ

abbrev pub echo_disabled : EchoConfiguration
echo_disabled = record { enabled = false; maximum_frames = 0 }

abbrev pub echo_default : EchoConfiguration
echo_default = record { enabled = false; maximum_frames = 1000 }

-- `samples` is the whole fixed storage, of which `length` samples are recorded.
pub record LegacyEcho : Type 0 where
  pub state : EchoState
  pub samples : List ℕ
  pub recorded : ℕ
  pub playback : ℕ

unfoldable pub new_echo : EchoConfiguration → LegacyEcho
new_echo c = record {
  state = if c.enabled then recording else disabled;
  samples = replicate (c.maximum_frames * app_rpt_frame_samples) 0;
  recorded = 0;
  playback = 0;
}

abbrev pub is_disabled : EchoState → Bool
is_disabled disabled = true
is_disabled _ = false

abbrev pub is_recording : EchoState → Bool
is_recording recording = true
is_recording _ = false

abbrev pub is_playing : EchoState → Bool
is_playing playing = true
is_playing _ = false

abbrev pub is_app_rpt : AsteriskPcmMode → Bool
is_app_rpt app_rpt = true
is_app_rpt advanced = false

unfoldable pub clear : LegacyEcho → LegacyEcho
clear e = record e {
  samples = overwrite e.samples 0 (replicate e.recorded 0);
  recorded = 0;
  playback = 0;
}

unfoldable pub set_enabled : LegacyEcho → Bool → LegacyEcho
unfolding clear
set_enabled e on = record (clear e) { state = if on then recording else disabled }

unfoldable pub receive : LegacyEcho → ControllerPcmFrame → Bool → LegacyEcho
receive e frame keyed =
    if not (is_recording e.state)
    then e
    else if keyed && is_app_rpt frame.mode
    then record e {
      samples = overwrite e.samples e.recorded (take copied frame.samples);
      recorded = e.recorded + copied;
    }
    else if not (e.recorded == 0)
    then record e { state = playing; playback = 0 }
    else e
  where
    copied : ℕ
    copied = min (length frame.samples) (length e.samples - e.recorded)

unfoldable pub finish_playback_frame : LegacyEcho → ℕ → LegacyEcho
unfolding clear
finish_playback_frame e count =
    if leb e.recorded (e.playback + count)
    then record (clear (record e { playback = e.playback + count })) { state = recording }
    else record e { playback = e.playback + count }

-- The storage and the recording are whole frames, and playback stands at one that was recorded.
pub record IsValid (e : LegacyEcho) : Type 0 where
  pub within : e.recorded ≤ length e.samples
  pub storage_frames : length e.samples % app_rpt_frame_samples ≡ 0
  pub recorded_frames : e.recorded % app_rpt_frame_samples ≡ 0
  pub playback_frames : e.playback % app_rpt_frame_samples ≡ 0
  pub playing_inside : e.state ≡ playing → e.playback < e.recorded

-- A frame holds as many samples as its mode says.
abbrev pub IsWhole : ControllerPcmFrame → Type 0
IsWhole f = length f.samples ≡ frame_samples f.mode

pub new_echo-IsValid : (c : EchoConfiguration) → IsValid (new_echo c)
unfolding new_echo
new_echo-IsValid c =
    ground (arith, length-replicate {A = ℕ} (c.maximum_frames * app_rpt_frame_samples) 0)

pub clear-IsValid : (e : LegacyEcho) → is_playing e.state ≡ false → IsValid e → IsValid (clear e)
unfolding clear
clear-IsValid e p v = ground (
  arith,
  length-overwrite e.samples 0 (replicate e.recorded 0),
  length-replicate {A = ℕ} e.recorded 0,
)

pub set_enabled-IsValid : (e : LegacyEcho) (on : Bool) → IsValid e → IsValid (set_enabled e on)
unfolding set_enabled
set_enabled-IsValid e on v = ground (
  arith,
  length-overwrite e.samples 0 (replicate e.recorded 0),
  length-replicate {A = ℕ} e.recorded 0,
)

-- Receiving a frame of its mode's full length keeps a valid echo valid: storage and recording
-- are whole frames, and playback stands at a recorded one.
pub receive-IsValid :
    (e : LegacyEcho) (f : ControllerPcmFrame) (keyed : Bool)
    → IsWhole f
    → IsValid e
    → IsValid (receive e f keyed)
unfolding receive
receive-IsValid e f keyed w v =
    let copied = min (length f.samples) (length e.samples - e.recorded) in
    ground (
      arith,
      length-overwrite e.samples e.recorded (take copied f.samples),
      length-take copied f.samples,
    )

-- Finishing an app_rpt frame of a valid, playing echo keeps it valid.
pub finish-IsValid :
    (e : LegacyEcho)
    → e.state ≡ playing
    → IsValid e
    → IsValid (finish_playback_frame e app_rpt_frame_samples)
unfolding finish_playback_frame
finish-IsValid e p v = ground (
  arith,
  length-overwrite e.samples 0 (replicate e.recorded 0),
  length-replicate {A = ℕ} e.recorded 0,
)

-- What is recorded, and what of it is still to be played.
abbrev pub recording_of : LegacyEcho → List ℕ
recording_of e = take e.recorded e.samples

take-zero : (n : ℕ) (xs : List ℕ) → n ≡ 0 → take n xs ≡ []
take-zero zero xs h = refl
take-zero (suc n) xs h = absurd (omega arith)

record_span :
    (e : LegacyEcho) (xs : List ℕ) (n : ℕ)
    → n ≤ length xs
    → e.recorded ≤ length e.samples
    → take (e.recorded + n) (overwrite e.samples e.recorded (take n xs))
      ≡ recording_of e ++ take n xs
record_span e xs n h k =
    ap (λ m. take (e.recorded + m) (overwrite e.samples e.recorded (take n xs))) same
    ∙ take-overwrite e.samples e.recorded (take n xs) k
  where
    same : n ≡ length (take n xs)
    same = omega (arith, length-take n xs)

-- With a valid echo in the recording state, a keyed app_rpt frame of its full length joins the
-- recording whole if the storage has room, and not at all if it is full.
pub recording_of-receive :
    (e : LegacyEcho) (f : ControllerPcmFrame)
    → IsWhole f
    → f.mode ≡ app_rpt
    → e.state ≡ recording
    → IsValid e
    → recording_of (receive e f true)
      ≡ (if ltb e.recorded (length e.samples) then recording_of e ++ f.samples else recording_of e)
unfolding receive
recording_of-receive e f w m r v =
    let copied = min (length f.samples) (length e.samples - e.recorded) in
    ground (
      arith,
      record_span e f.samples copied,
      take-length copied f.samples,
      ap frame_samples m,
      append-nil (recording_of e),
      take-zero copied f.samples,
    )
