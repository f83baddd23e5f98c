-- ===== src/Pcm/Laws.antt =====
-- The frame assembler of rust/asl3/src/pcm.rs is a bounded queue of samples.
use native.Mathlib.Decide.{dec_le}
use usbradio_plus.Prelude.{
  append-nil, ℕ, ◌+◌, ◌-◌, ◌≤◌, ◌<◌, ◌≡◌, ◌≢◌, ◌⊎◌, refl, ap, sym, ◌∙◌, true, false, List, [], ◌++◌,
  Bool-cases, inl, inr, length, take, drop, replicate, overwrite, min, length-take, length-drop,
  length-append, length-overwrite, length-replicate, take-overwrite, take-split, ok, err, ltb,
  arith,
}
use usbradio_plus.Pcm.{
  AsteriskPcmMode, frame_samples, assembly_capacity, assembly_overflow, invalid_frame_size,
  FrameAssembler, new_assembler, append, copy_within, take_frame, take_padded, clear,
}

pub record IsValid (a : FrameAssembler) : Type 0 where
  pub storage : length a.samples ≡ assembly_capacity
  pub count_in : a.count ≤ assembly_capacity

-- The samples that wait, oldest first.
abbrev pub pending : FrameAssembler → List ℕ
pending a = take a.count a.samples

pub new-IsValid : (mode : AsteriskPcmMode) → IsValid (new_assembler mode)
unfolding new_assembler
new-IsValid mode = omega (arith, length-replicate {A = ℕ} assembly_capacity 0)

length-copy_within :
    (xs : List ℕ) (from to : ℕ)
    → from ≤ to
    → to ≤ length xs
    → length (copy_within xs from to) ≡ length xs
length-copy_within xs from to h k =
    length-overwrite xs 0 (take (to - from) (drop from xs))
      (omega (arith, length-take (to - from) (drop from xs), length-drop from xs))

take-copy_within :
    (xs : List ℕ) (from to : ℕ)
    → from ≤ to
    → to ≤ length xs
    → take (to - from) (copy_within xs from to) ≡ take (to - from) (drop from xs)
take-copy_within xs from to h k =
    ap (λ n. take n (copy_within xs from to)) same
    ∙ take-overwrite xs 0 (take (to - from) (drop from xs)) (omega arith)
  where
    same : to - from ≡ 0 + length (take (to - from) (drop from xs))
    same = omega (arith, length-take (to - from) (drop from xs), length-drop from xs)

-- On a valid assembler, append adds the whole input behind what waits and keeps the assembler
-- valid, or refuses it whole, exactly when it would not fit into 1920 samples.
pub append_lem :
    (a : FrameAssembler) (input : List ℕ)
    → IsValid a
    → ((assembly_capacity < a.count + length input) × (append a input ≡ err assembly_overflow))
      ⊎ ((b : FrameAssembler) × (append a input ≡ ok b)
          × IsValid b
          × (pending b ≡ pending a ++ input)
          × (b.mode ≡ a.mode)
          × (b.count ≡ a.count + length input))
unfolding append
append_lem a input v = elim (Bool-cases (ltb (length a.samples) (a.count + length input))) [
  | inl over ↦ inl (ground arith, rw over)
  | inr fits ↦ inr (
    record a { samples = overwrite a.samples a.count input; count = a.count + length input },
    rw fits,
    ground (arith, length-overwrite a.samples a.count input),
    take-overwrite a.samples a.count input (omega arith),
    refl,
    refl,
  )
]

-- On a valid assembler, for a buffer of the frame's size, take hands out the oldest frame and
-- keeps the rest if a whole frame waits; for such a buffer with less waiting, and for every
-- buffer of another size, it changes nothing and says which.
pub take_frame_lem :
    (a : FrameAssembler) (size : ℕ)
    → IsValid a
    → let (b, out, r) = take_frame a size in
      ((r ≡ ok true)
        × (size ≡ frame_samples a.mode)
        × IsValid b
        × (length out ≡ frame_samples a.mode)
        × (frame_samples a.mode ≤ a.count)
        × (pending a ≡ out ++ pending b))
      ⊎ ((r ≡ ok false)
          × (size ≡ frame_samples a.mode)
          × (a.count < frame_samples a.mode)
          × (b ≡ a))
      ⊎ ((r ≡ err invalid_frame_size) × (size ≢ frame_samples a.mode) × (b ≡ a))
unfolding take_frame
take_frame_lem a size v = ground (
  arith,
  length-copy_within a.samples (frame_samples a.mode) a.count,
  take-copy_within a.samples (frame_samples a.mode) a.count,
  take-split (frame_samples a.mode) a.count a.samples,
  length-take (frame_samples a.mode) a.samples,
)

-- What a padded take hands out and keeps, `copied` being the lesser of `count` and `size`.
padded :
    (xs : List ℕ) (count size copied : ℕ)
    → copied ≡ min count size
    → count ≤ length xs
    → take count xs ++ replicate (size - count) 0
      ≡ (take copied xs ++ replicate (size - copied) 0)
        ++ take (count - copied) (copy_within xs copied count)
padded xs count size copied e h = elim (dec_le count size) [
  | yes all ↦
      let same : copied ≡ count = omega arith in
      let left : count - count ≡ 0 = omega arith in rw (same, left) (sym (append-nil _))
  | no some_left ↦
      let same : copied ≡ size = omega arith in
      let none_missing : size - count ≡ 0 = omega arith in
      let no_pad : size - size ≡ 0 = omega arith in
      rw (same, none_missing, no_pad, take-copy_within xs size count (omega arith) h)
        (rw (append-nil, append-nil) (take-split size count xs (omega arith)))
]

-- On a valid assembler, take_padded fills a frame of the right size with the oldest samples and
-- then zeros, pads only what is missing, keeps the rest waiting and the assembler valid.
pub take_padded_lem :
    (a : FrameAssembler)
    → IsValid a
    → let (b, out, r) = take_padded a (frame_samples a.mode) in
      IsValid b
      × (r ≡ ok tt)
      × (b.mode ≡ a.mode)
      × (length out ≡ frame_samples a.mode)
      × (b.count ≡ a.count - frame_samples a.mode)
      × (pending a ++ replicate (frame_samples a.mode - a.count) 0 ≡ out ++ pending b)
unfolding take_padded
take_padded_lem a v = ground (
  arith,
  length-copy_within a.samples (min a.count (frame_samples a.mode)) a.count,
  length-take (min a.count (frame_samples a.mode)) a.samples,
  length-replicate {A = ℕ} (frame_samples a.mode - min a.count (frame_samples a.mode)) 0,
  length-append (take (min a.count (frame_samples a.mode)) a.samples)
      (replicate {A = ℕ} (frame_samples a.mode - min a.count (frame_samples a.mode)) 0),
  padded a.samples a.count (frame_samples a.mode) (min a.count (frame_samples a.mode)) refl,
)

-- `clear` leaves nothing waiting and keeps the storage.
pub clear_lem : (a : FrameAssembler) → IsValid a → IsValid (clear a) × (pending (clear a) ≡ [])
unfolding clear
clear_lem a v = (
  omega (
    arith,
    length-overwrite a.samples 0 (replicate a.count 0),
    length-replicate {A = ℕ} a.count 0,
  ),
  refl,
)
