-- ===== src/Pcm/Tests.antt =====
-- The frame assembler of rust/asl3/src/pcm.rs on concrete frames.
use usbradio_plus.Prelude.{
  ℕ, ◌+◌, ◌-◌, ◌≡◌, ◌≢◌, ◌<◌, ◌≤◌, ◌⊎◌, refl, true, false, List, ◌++◌, length, replicate, ok, err,
  arith,
}
use usbradio_plus.Pcm.{
  app_rpt, frame_samples, assembly_capacity, assembly_overflow, invalid_frame_size, FrameAssembler,
  new_assembler, append, take_frame, take_padded,
}
use usbradio_plus.Pcm.Laws.{
  IsValid, pending, new-IsValid, append_lem, take_frame_lem, take_padded_lem,
}

abbrev empty : FrameAssembler
empty = new_assembler app_rpt

abbrev hundred : List ℕ
hundred = replicate 100 7

empty-IsValid : IsValid empty
empty-IsValid = new-IsValid app_rpt

append_lem_example :
    ((assembly_capacity < empty.count + length hundred)
      × (append empty hundred ≡ err assembly_overflow))
    ⊎ ((b : FrameAssembler) × (append empty hundred ≡ ok b)
        × IsValid b
        × (pending b ≡ pending empty ++ hundred)
        × (b.mode ≡ empty.mode)
        × (b.count ≡ empty.count + length hundred))
append_lem_example = append_lem empty hundred empty-IsValid

-- An assembler in which a hundred samples wait.
abbrev half : FrameAssembler
half = record { mode = app_rpt; samples = hundred ++ replicate 1820 0; count = 100 }

half-IsValid : IsValid half
half-IsValid = record { storage = refl; count_in = omega arith }

take_frame_lem_example :
    let (b, out, r) = take_frame half 160 in
    ((r ≡ ok true)
      × (160 ≡ frame_samples half.mode)
      × IsValid b
      × (length out ≡ frame_samples half.mode)
      × (frame_samples half.mode ≤ half.count)
      × (pending half ≡ out ++ pending b))
    ⊎ ((r ≡ ok false)
        × (160 ≡ frame_samples half.mode)
        × (half.count < frame_samples half.mode)
        × (b ≡ half))
    ⊎ ((r ≡ err invalid_frame_size) × (160 ≢ frame_samples half.mode) × (b ≡ half))
take_frame_lem_example = take_frame_lem half 160 half-IsValid

take_padded_lem_example :
    let (b, out, r) = take_padded half (frame_samples half.mode) in
    IsValid b
    × (r ≡ ok tt)
    × (b.mode ≡ half.mode)
    × (length out ≡ frame_samples half.mode)
    × (b.count ≡ half.count - frame_samples half.mode)
    × (pending half ++ replicate (frame_samples half.mode - half.count) 0 ≡ out ++ pending b)
take_padded_lem_example = take_padded_lem half half-IsValid
