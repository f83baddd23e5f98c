-- ===== src/Program/Writes.antt =====
-- The controller state of rust/asl3/src/adapter.rs writing to the producer of
-- rust/station/src/program.rs.
use usbradio_plus.Prelude.{
  ℕ, ◌≤◌, ◌≡◌, ◌≢◌, refl, not, Option, none, some, List, [], ◌∷◌, map, length, drop, Result, ok,
  err, if_cases, length-take, arith,
}
use usbradio_plus.Pcm.{ControllerPcmFrame}
use usbradio_plus.Adapter.{ReceiveQualification}
use usbradio_plus.Adapter.Controller.{
  ControllerState, ProgramSource, controller, legacy_echo, ProgramWrite, AdapterError,
  wrong_interface, invalid_program_ring_result, program_result, pushed, submitted, source_of,
  count_of, same_mode, write_program,
}
use usbradio_plus.Ring.{Functions, RingError}
use usbradio_plus.Ring.Laws.{push-bounds}
use usbradio_plus.Ring
use usbradio_plus.Program.{ProgramState, stored, push, producer}

length-map : {A B : Type 0} (f : A → B) (xs : List A) → length (map f xs) ≡ length xs
length-map f [] = refl
length-map f (x ∷ xs) = omega (arith, length-map f xs)

module _ {H F : Type 0} (functions : Functions H F) where
  stored-ok :
      (s : ProgramState H F) (q : ReceiveQualification) (r : Result RingError ℕ) (n : ℕ)
      → (stored functions s q r).1 ≡ some n
      → r ≡ ok n
  stored-ok s q (err e) n h = ground arith
  stored-ok s q (ok a) n h = ground arith

  -- The producer accepts no more than it is given.
  push-le :
      (s : ProgramState H F) (input : List F) (q : ReceiveQualification) (n : ℕ)
      → (push functions s input q).1 ≡ some n
      → n ≤ length input
  unfolding push
  push-le s input q n h =
      (push-bounds functions s.ring input n
        (stored-ok _ q (Ring.push functions s.ring input).1 n h)).0

  submitted-le :
      {G : Type 0} (s : ControllerState G (ProgramState H F)) (frame : ControllerPcmFrame)
      (source : ProgramSource) (samples : List ℕ) (n : ℕ)
      → submitted s frame source n ≡ some samples
      → length samples ≤ n
  submitted-le s frame controller samples n h = ground (arith, length-take n frame.samples)
  submitted-le s frame legacy_echo samples n h =
      ground (arith, length-take n (drop s.echo.playback s.echo.samples))

  result-valid :
      {G : Type 0} (s : ControllerState G (ProgramState H F)) (source : ProgramSource) (n : ℕ)
      (a : Option ℕ) (c : ℕ → F)
      → ((k : ℕ) → a ≡ some k → k ≤ n)
      → (program_result (producer functions c) s source n a).1 ≢ err invalid_program_ring_result
  result-valid s source n none c h = ground arith
  result-valid s controller n (some k) c h = ground (arith, h k refl)
  result-valid s legacy_echo n (some k) c h = ground (arith, h k refl)

  write-valid :
      {G : Type 0} (s : ControllerState G (ProgramState H F)) (frame : ControllerPcmFrame)
      (source : ProgramSource) (o : Option (List ℕ)) (n : ℕ) (c : ℕ → F)
      → submitted s frame source n ≡ o
      → (pushed (producer functions c) s source n o).1 ≢ err invalid_program_ring_result
  write-valid s frame source none n c e = ground arith
  write-valid s frame source (some samples) n c e = result-valid _ source n _ c (λ k h. omega (
    arith,
    push-le s.program (map c samples) s.latest_receive k h,
    length-map c samples,
    submitted-le s frame source samples n e,
  ))

  -- A controller state whose program ring is the station's producer never gets the error for a
  -- ring that accepts more than it was given, whatever the external ring answers.
  pub write_program-producer :
      {G : Type 0} (s : ControllerState G (ProgramState H F)) (frame : ControllerPcmFrame)
      (c : ℕ → F)
      → (write_program (producer functions c) s frame).1 ≢ err invalid_program_ring_result
  unfolding write_program
  write_program-producer {G = G} s frame c =
      let Q : ControllerState G (ProgramState H F) × Result AdapterError ProgramWrite → Type 0 =
        λ a. a.1 ≢ err invalid_program_ring_result in
      if_cases Q (not (same_mode frame.mode s.mode)) (s, err wrong_interface) _ (λ e. ground arith)
        (λ e. write-valid s frame (source_of s) _ (count_of frame (source_of s)) c refl)
