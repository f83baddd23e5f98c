-- ===== src/Adapter/Controller/Playback.antt =====
-- What of its recording the legacy echo of rust/asl3/src/adapter.rs has still to play.
use usbradio_plus.Prelude.{
  ℕ, zero, suc, ◌+◌, ◌-◌, ◌≤◌, ◌<◌, ◌≡◌, ◌⊎◌, ◌∙◌, inl, inr, refl, sym, ap, Bool, true, false, List,
  [], ◌∷◌, ◌++◌, length, take, drop, leb, if◌then◌else◌, take-append-drop, length-take, length-drop,
  arith,
}
use usbradio_plus.Pcm.{app_rpt_frame_samples}
use usbradio_plus.Adapter.Echo
use usbradio_plus.Adapter.Echo.{
  clear, LegacyEcho, EchoState, playing, is_playing, recording, disabled, finish_playback_frame,
  recording_of,
}

-- What of the recording is still to be played.
abbrev pub unplayed : LegacyEcho → List ℕ
unplayed e = drop e.playback (recording_of e)

drop_nil : {A : Type 0} (b : ℕ) → ◌≡◌ {A = List A} (drop b []) []
drop_nil zero = refl
drop_nil (suc b) = refl

drop-drop : {A : Type 0} (a b : ℕ) (xs : List A) → drop b (drop a xs) ≡ drop (a + b) xs
drop-drop zero b xs = ap (λ n. drop n xs) {x = b} {y = 0 + b} (omega arith)
drop-drop {A = A} (suc a) b [] = drop_nil {A = A} b ∙ sym (drop_nil {A = A} (suc a + b))
drop-drop (suc a) b (x ∷ xs) =
    drop-drop a b xs ∙ ap (λ n. drop n (x ∷ xs)) {x = suc (a + b)} {y = suc a + b} (omega arith)

-- A span that ends before `r` is the same with what stands from `r` on left out.
take-drop-take :
    {A : Type 0} (n p r : ℕ) (xs : List A)
    → p + n ≤ r
    → take n (drop p (take r xs)) ≡ take n (drop p xs)
take-drop-take zero zero r xs h = refl
take-drop-take (suc n) zero zero xs h = absurd (omega (arith, h))
take-drop-take (suc n) zero (suc r) [] h = refl
take-drop-take (suc n) zero (suc r) (x ∷ xs) h =
    ap (λ ys. x ∷ ys) (take-drop-take n zero r xs (omega (arith, h)))
take-drop-take n (suc p) zero xs h = absurd (omega (arith, h))
take-drop-take n (suc p) (suc r) [] h = refl
take-drop-take n (suc p) (suc r) (x ∷ xs) h = take-drop-take n p r xs (omega (arith, h))

-- The echo goes on with the rest of the recording, or with a new one if there is no rest.
abbrev pub GoesOn : LegacyEcho → List ℕ → Bool → LegacyEcho → Type 0
GoesOn e rest completed after =
    ((completed ≡ false)
      × (0 < length rest)
      × (after.state ≡ playing)
      × (unplayed after ≡ rest)
      × (after.samples ≡ e.samples))
    ⊎ ((completed ≡ true)
        × (rest ≡ [])
        × (after.state ≡ recording)
        × (after.recorded ≡ 0)
        × (after.playback ≡ 0))

-- A frame of the recording is played: `frame` is the first of what was to be played, and `rest`
-- comes behind it.
abbrev pub Plays : LegacyEcho → List ℕ → List ℕ → Bool → LegacyEcho → Type 0
Plays e frame rest completed after =
    (unplayed e ≡ frame ++ rest)
    × (length frame ≡ app_rpt_frame_samples)
    × GoesOn e rest completed after

abbrev pub next_frame : LegacyEcho → List ℕ
next_frame e = take app_rpt_frame_samples (drop e.playback e.samples)

finished-GoesOn :
    (e : LegacyEcho) (rest : List ℕ) (last : Bool)
    → e.state ≡ playing
    → drop (e.playback + app_rpt_frame_samples) (recording_of e) ≡ rest
    → (last ≡ true → rest ≡ [])
    → (last ≡ false → 0 < length rest)
    → GoesOn e rest last (
        if last
        then record (clear (record e { playback = e.playback + app_rpt_frame_samples })) {
          state = recording;
        }
        else record e { playback = e.playback + app_rpt_frame_samples })
unfolding clear
finished-GoesOn e rest true p r none_left some_left = inr (refl, none_left refl, refl, refl, refl)
finished-GoesOn e rest false p r none_left some_left = inl (refl, some_left refl, p, r, refl)

no_samples : (xs : List ℕ) → length xs ≡ 0 → xs ≡ []
no_samples [] h = refl
no_samples (x ∷ xs) h = absurd (omega (arith, h))

-- A playing, valid echo has a frame left.
pub whole_frame :
    (e : LegacyEcho)
    → e.state ≡ playing
    → Echo.IsValid e
    → e.playback + app_rpt_frame_samples ≤ e.recorded
whole_frame e p v = omega (arith, v.recorded_frames, v.playback_frames, v.playing_inside p)

none_over : (a b n : ℕ) → leb a b ≡ true → n ≡ a - b → n ≡ 0
none_over a b n h e = ground (arith, h, e)

some_over : (a b n : ℕ) → leb a b ≡ false → n ≡ a - b → 0 < n
some_over a b n h e = ground (arith, h, e)

pub next_frame-Plays :
    (e : LegacyEcho)
    → e.state ≡ playing
    → Echo.IsValid e
    → Plays e
        (next_frame e)
        (drop app_rpt_frame_samples (unplayed e))
        (leb e.recorded (e.playback + app_rpt_frame_samples))
        (finish_playback_frame e app_rpt_frame_samples)
unfolding finish_playback_frame
next_frame-Plays e p v =
    let inside = whole_frame e p v in
    let frame : take app_rpt_frame_samples (unplayed e) ≡ next_frame e =
      take-drop-take app_rpt_frame_samples e.playback e.recorded e.samples inside in
    let rest = drop app_rpt_frame_samples (unplayed e) in
    let left : length rest ≡ e.recorded - (e.playback + app_rpt_frame_samples) = omega (
      arith,
      length-drop app_rpt_frame_samples (unplayed e),
      length-drop e.playback (recording_of e),
      length-take e.recorded e.samples,
      v.within,
    ) in
    let size : length (unplayed e) ≡ e.recorded - e.playback = omega (
      arith,
      length-drop e.playback (recording_of e),
      length-take e.recorded e.samples,
      v.within,
    ) in
    (
      sym (take-append-drop app_rpt_frame_samples (unplayed e)) ∙ ap (λ xs. xs ++ rest) frame,
      ap length (sym frame)
          ∙ omega (arith, length-take app_rpt_frame_samples (unplayed e), size, inside),
      finished-GoesOn e rest (leb e.recorded (e.playback + app_rpt_frame_samples)) p
          (sym (drop-drop e.playback app_rpt_frame_samples (recording_of e)))
          (λ h. no_samples rest (none_over _ _ _ h left)) (λ h. some_over _ _ _ h left),
    )
