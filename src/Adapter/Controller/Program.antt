-- ===== src/Adapter/Controller/Program.antt =====
-- `write_program` of rust/asl3/src/adapter.rs: the controller's audio, or the recording in its place.
use usbradio_plus.Prelude.{
  ℕ, ◌+◌, ◌≤◌, ◌<◌, ◌≡◌, ◌≢◌, ◌⊎◌, inl, inr, refl, sym, ap, subst, Bool, true, false, not, Option,
  none, some, List, map, length, leb, ltb, Result, ok, err, Bool-cases, if_cases, take-length,
  arith,
}
use usbradio_plus.Pcm.{AsteriskPcmMode, ControllerPcmFrame, app_rpt_frame_samples}
use usbradio_plus.Adapter.Echo
use usbradio_plus.Adapter.Echo.{
  clear, LegacyEcho, EchoState, playing, is_playing, recording, disabled, finish_playback_frame,
  recording_of,
}
use usbradio_plus.Adapter.Controller.{
  ProgramSource, controller, legacy_echo, ProgramWrite, AdapterError, program_ring, wrong_interface,
  invalid_program_ring_result, ProgramRing, program_result, pushed, ControllerState, same_mode,
  submitted, source_of, count_of, write_program,
}
use usbradio_plus.Adapter.Controller.Playback.{Plays, next_frame, whole_frame, next_frame-Plays}

enough_room : (a b : ℕ) → a ≤ b → leb a b ≡ true
enough_room a b h = ground (arith, h)

other_mode : (a b : AsteriskPcmMode) → not (same_mode a b) ≡ true → a ≢ b
other_mode a b h e = ground (arith, h, e)

equal_mode : (a b : AsteriskPcmMode) → not (same_mode a b) ≡ false → a ≡ b
equal_mode a b h = ground (arith, h)

module _ {H P F : Type 0} (tx : ProgramRing P F) where
  -- What becomes of the program ring's answer to `samples`. `completed` and `after` are what a
  -- success reports of the echo and leaves of it.
  abbrev pub Answered :
      ControllerState H P
      → ProgramSource
      → List ℕ
      → Bool
      → LegacyEcho
      → P × Option ℕ
      → ControllerState H P × Result AdapterError ProgramWrite
      → Type 0
  Answered s source samples completed after (p, answer) x =
      ((answer ≡ none) × (x ≡ (record s { program = p }, err program_ring)))
      ⊎ ((accepted : ℕ) × (answer ≡ some accepted)
          × (((length samples < accepted)
                × (x ≡ (record s { program = p }, err invalid_program_ring_result)))
              ⊎ ((accepted ≤ length samples)
                  × (x ≡ (
                    record s { program = p; echo = after },
                    ok (record {
                      source = source;
                      submitted_samples = length samples;
                      accepted_samples = accepted;
                      echo_completed = completed;
                    }),
                  )))))

  -- One push of `samples`, with the qualification of the latest receive frame.
  abbrev pub Sends :
      ControllerState H P
      → ProgramSource
      → List ℕ
      → Bool
      → LegacyEcho
      → ControllerState H P × Result AdapterError ProgramWrite
      → Type 0
  Sends s source samples completed after =
      Answered s source samples completed after
        (tx.push s.program (map tx.s16_to_f32 samples) s.latest_receive)

  abbrev pub Writes :
      ControllerState H P
      → ControllerPcmFrame
      → ControllerState H P × Result AdapterError ProgramWrite
      → Type 0
  Writes s frame x =
      ((frame.mode ≢ s.mode) × (x ≡ (s, err wrong_interface)))
      ⊎ ((frame.mode ≡ s.mode)
          × (s.echo.state ≢ playing)
          × Sends s controller frame.samples false s.echo x)
      ⊎ ((frame.mode ≡ s.mode)
          × (s.echo.state ≡ playing)
          × ((samples : List ℕ) × (rest : List ℕ) × (completed : Bool) × (after : LegacyEcho)
              × Plays s.echo samples rest completed after
              × Sends s legacy_echo samples completed after x))

  from_controller :
      (s : ControllerState H P) (samples : List ℕ) (p : P) (a : Option ℕ)
      → Answered s controller samples false s.echo
          (p, a)
          (program_result tx (record s { program = p }) controller (length samples) a)
  from_controller s samples p none = inl (refl, refl)
  from_controller s samples p (some a) = elim (Bool-cases (ltb (length samples) a)) [
    | inl over ↦ rw over (inr (a, refl, inl (ground (arith, over), refl)))
    | inr within ↦ rw within (inr (a, refl, inr (ground (arith, within), refl)))
  ]

  from_echo :
      (s : ControllerState H P) (samples : List ℕ) (n : ℕ) (p : P) (a : Option ℕ)
      → n ≡ length samples
      → Answered s legacy_echo samples
          (leb s.echo.recorded (s.echo.playback + n))
          (finish_playback_frame s.echo n)
          (p, a)
          (program_result tx (record s { program = p }) legacy_echo n a)
  from_echo s samples n p none size = inl (refl, refl)
  from_echo s samples n p (some a) size = elim (Bool-cases (ltb n a)) [
    | inl over ↦ rw over (inr (a, refl, inl (ground (arith, over, size), refl)))
    | inr within ↦ rw within (
        inr (
          a,
          refl,
          inr (
            ground (arith, within, size),
            ap
                (λ m. (
                  record s { program = p; echo = finish_playback_frame s.echo n },
                  ok (record {
                    source = legacy_echo;
                    submitted_samples = m;
                    accepted_samples = a;
                    echo_completed = leb s.echo.recorded (s.echo.playback + n);
                  }),
                ))
                size,
          ),
        ))
  ]

  sent :
      (s : ControllerState H P) (frame : ControllerPcmFrame) (source : ProgramSource)
      → Echo.IsValid s.echo
      → frame.mode ≡ s.mode
      → (source ≡ controller → s.echo.state ≢ playing)
      → (source ≡ legacy_echo → s.echo.state ≡ playing)
      → Writes s frame (
          pushed tx s source
            (count_of frame source)
            (submitted s frame source (count_of frame source)))
  sent s frame controller v same quiet plays = inr (
      inl (
        same,
        quiet refl,
        subst
            (λ xs.
              Sends s controller frame.samples false s.echo
                (pushed tx s controller (length frame.samples) (some xs)))
            (sym (take-length (length frame.samples) frame.samples refl))
            (from_controller s frame.samples _ _),
      ))
  sent s frame legacy_echo v same quiet plays =
      let p = plays refl in
      let inside : leb (s.echo.playback + app_rpt_frame_samples) (length s.echo.samples) ≡ true =
        enough_room _ _ (omega (arith, whole_frame s.echo p v, v.within)) in
      let played = next_frame-Plays s.echo p v in
      rw inside (
        inr (
          inr (
            same,
            p,
            (
              next_frame s.echo,
              _,
              _,
              _,
              played,
              from_echo s (next_frame s.echo) app_rpt_frame_samples _ _ (sym played.1),
            ),
          )))

  source_of-playing : (s : ControllerState H P) → source_of s ≡ legacy_echo → s.echo.state ≡ playing
  source_of-playing s h = ground arith

  source_of-controller :
      (s : ControllerState H P) → source_of s ≡ controller → s.echo.state ≢ playing
  source_of-controller s h p = ground (arith, h, p)

  -- From a valid echo: a frame of the other mode is refused without a change. Otherwise one
  -- block is pushed with the qualification of the latest receive frame: the whole controller
  -- frame, if the echo does not play, or else the next recorded frame that was not played yet.
  -- What the ring refuses, or accepts beyond the block, is an error that leaves all but the
  -- ring as it was; a success reports the block's source and length and what was accepted, and
  -- moves a playing echo behind the frame, or to a new recording, which it reports, if that
  -- frame was the last.
  pub write_program_lem :
      (s : ControllerState H P) (frame : ControllerPcmFrame)
      → Echo.IsValid s.echo
      → Writes s frame (write_program tx s frame)
  unfolding write_program
  write_program_lem s frame v =
      if_cases (Writes s frame) (not (same_mode frame.mode s.mode)) (s, err wrong_interface) _
        (λ other. inl (other_mode frame.mode s.mode other, refl))
        (λ same.
          sent s frame (source_of s) v (equal_mode frame.mode s.mode same) (source_of-controller s)
            (source_of-playing s))
