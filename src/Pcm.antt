-- ===== src/Pcm.antt =====
-- rust/asl3/src/pcm.rs: signed-16 PCM at the Asterisk boundary. A sample is its 16-bit pattern: the
-- code only moves samples and writes zeros. The conversions from and to f32 are not modelled.
pub mod Laws
mod Tests
use usbradio_plus.Prelude.{
  ℕ, ◌+◌, ◌-◌, ◌*◌, Bool, true, false, List, [], ◌++◌, ltb, ◌==◌, if◌then◌else◌, length, take, drop,
  replicate, overwrite, min, not, Result, ok, err,
}

abbrev pub app_rpt_frame_samples : ℕ
app_rpt_frame_samples = 160

abbrev pub advanced_frame_samples : ℕ
advanced_frame_samples = 960

abbrev pub assembly_capacity : ℕ
assembly_capacity = advanced_frame_samples * 2

pub data AsteriskPcmMode : Type 0 where
  app_rpt advanced : AsteriskPcmMode

abbrev pub sample_rate_hz : AsteriskPcmMode → ℕ
sample_rate_hz app_rpt = 8000
sample_rate_hz advanced = 48000

abbrev pub frame_samples : AsteriskPcmMode → ℕ
frame_samples app_rpt = app_rpt_frame_samples
frame_samples advanced = advanced_frame_samples

-- `ControllerPcmFrame`, by the samples that `samples()` shows.
pub record ControllerPcmFrame : Type 0 where
  pub mode : AsteriskPcmMode
  pub samples : List ℕ

pub data PcmBoundaryError : Type 0 where
  assembly_overflow invalid_frame_size : PcmBoundaryError

pub record FrameAssembler : Type 0 where
  pub mode : AsteriskPcmMode
  pub samples : List ℕ
  pub count : ℕ

unfoldable pub new_assembler : AsteriskPcmMode → FrameAssembler
new_assembler mode = record { mode = mode; samples = replicate assembly_capacity 0; count = 0 }

unfoldable pub append : FrameAssembler → List ℕ → Result PcmBoundaryError FrameAssembler
append a input =
    if ltb (length a.samples) (a.count + length input)
    then err assembly_overflow
    else ok
        (record a { samples = overwrite a.samples a.count input; count = a.count + length input })

-- `samples.copy_within(from..to, 0)`
abbrev pub copy_within : List ℕ → ℕ → ℕ → List ℕ
copy_within xs from to = overwrite xs 0 (take (to - from) (drop from xs))

-- `take`: the buffer that it fills, and what it returns. `output_len` is the length of the buffer;
-- where the buffer is left alone the first part is empty.
unfoldable pub take_frame :
    FrameAssembler → ℕ → FrameAssembler × List ℕ × Result PcmBoundaryError Bool
take_frame a output_len =
    let size = frame_samples a.mode in
    if not (output_len == size)
    then (a, [], err invalid_frame_size)
    else if ltb a.count size
    then (a, [], ok false)
    else (
      record a { samples = copy_within a.samples size a.count; count = a.count - size },
      take size a.samples,
      ok true,
    )

unfoldable pub take_padded :
    FrameAssembler → ℕ → FrameAssembler × List ℕ × Result PcmBoundaryError (Unit {0})
take_padded a output_len =
    let size = frame_samples a.mode in
    let copied = min a.count size in
    if not (output_len == size) then (a, [], err invalid_frame_size) else (
      record a { samples = copy_within a.samples copied a.count; count = a.count - copied },
      take copied a.samples ++ replicate (size - copied) 0,
      ok tt,
    )

unfoldable pub clear : FrameAssembler → FrameAssembler
clear a = record a { samples = overwrite a.samples 0 (replicate a.count 0); count = 0 }
