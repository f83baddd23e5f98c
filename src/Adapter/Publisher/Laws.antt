-- ===== src/Adapter/Publisher/Laws.antt =====
-- What one callback publishes through `ReceivePublisher` of rust/asl3/src/adapter.rs.
use usbradio_plus.Prelude.{
  ℕ, zero, suc, ◌+◌, ◌≤◌, ◌<◌, ◌≡◌, refl, sym, ap, ◌∙◌, ◌⊎◌, inl, inr, true, ◌||◌, Option, some,
  List, [], ◌∷◌, length, drop, ltb, ◌==◌, if_cases, Bool-cases, length-drop, Result, ok, err, arith,
}
use usbradio_plus.Pcm.{frame_samples}
use usbradio_plus.Adapter.{ReceivePacket, ReceiveMetadata}
use usbradio_plus.Handoff.{PublishOutcome}
use usbradio_plus.Adapter.Publisher.{
  PublishError, invalid_native_frame, ReceivePublisher, PublishReport, default_report, Convert,
  native_frame_samples, span_length, and_then, publish_loop, publish, push_some, silenced,
}
use usbradio_plus.Adapter.Publisher.Spans.{IsPublisher, publish_span-Spans}

module _ {C F H : Type 0} (convert : Convert C F) (to_s16 : F → ℕ)
    (push : H → ReceivePacket → H × PublishOutcome) where
  pub loop-end :
      (fuel : ℕ) (metadata : ReceiveMetadata) (report : PublishReport) (p : ReceivePublisher C F H)
      (native : List F)
      → length native ≡ 0
      → publish_loop convert to_s16 push fuel metadata report p native ≡ some (p, ok report)
  unfolding publish_loop
  loop-end fuel metadata report p [] h = refl
  loop-end fuel metadata report p (x ∷ xs) h = absurd (omega (arith, h))

  and_then-err :
      (y : ReceivePublisher C F H × Result PublishError PublishReport) (e : PublishError)
      (f : ReceivePublisher C F H
        → PublishReport
        → Option (ReceivePublisher C F H × Result PublishError PublishReport))
      → y.1 ≡ err e
      → and_then convert to_s16 push (some y) f ≡ some y
  and_then-err (p, err e) b f h = refl
  and_then-err (p, ok r) b f h = absurd (ground (arith, h))

  pub and_then-ok :
      (y : ReceivePublisher C F H × Result PublishError PublishReport) (next : PublishReport)
      (f : ReceivePublisher C F H
        → PublishReport
        → Option (ReceivePublisher C F H × Result PublishError PublishReport))
      → y.1 ≡ ok next
      → and_then convert to_s16 push (some y) f ≡ f y.0 next
  and_then-ok (p, err e) next f h = absurd (ground (arith, h))
  and_then-ok (p, ok r) next f h = ap (f p) (ground (arith, h))

  abbrev pub later :
      ℕ
      → ReceiveMetadata
      → ReceivePublisher C F H
      → List F
      → ReceivePublisher C F H
      → PublishReport
      → Option (ReceivePublisher C F H × Result PublishError PublishReport)
  later fuel metadata p native q next =
      publish_loop convert to_s16 push fuel metadata next q
        (drop (span_length convert to_s16 push p native) native)

  -- A frame that does not fill the remainder.
  abbrev Short :
      PublishReport
      → ReceivePublisher C F H
      → ℕ
      → Option (ReceivePublisher C F H × Result PublishError PublishReport)
      → Type 0
  Short report p count o =
      (x : ReceivePublisher C F H × Result PublishError PublishReport) × (o ≡ some x)
      × IsPublisher convert to_s16 push x.0
      × (x.0.handoff ≡ p.handoff)
      × (((e : PublishError) × (x.1 ≡ err e))
          ⊎ ((x.1 ≡ ok report) × (x.0.native_remainder ≡ p.native_remainder + count)))

  publish_loop-Short :
      (fuel : ℕ) (metadata : ReceiveMetadata) (report : PublishReport) (p : ReceivePublisher C F H)
      (native : List F)
      → IsPublisher convert to_s16 push p
      → length native ≤ fuel
      → p.native_remainder + length native < native_frame_samples
      → Short report p
          (length native)
          (publish_loop convert to_s16 push fuel metadata report p native)
  unfolding publish_loop
  publish_loop-Short fuel metadata report p [] v enough short =
      ((p, ok report), refl, v, refl, inr (refl, omega arith))
  publish_loop-Short zero metadata report p (x ∷ xs) v enough short = absurd (omega (arith, enough))
  publish_loop-Short (suc fuel) metadata report p (x ∷ xs) v enough short =
      let native = x ∷ xs in
      let count = span_length convert to_s16 push p native in
      let (y, e, spans) = publish_span-Spans convert to_s16 push metadata report p native v in
      elim spans [
        | inl (w, h, (bad, f)) ↦ (
          y,
          ap (λ z. and_then convert to_s16 push z (later fuel metadata p native)) e
              ∙ and_then-err y bad _ f,
          w,
          h,
          inl (bad, f),
        )
        | inr (inl (w, h, _, _, r, f)) ↦ (
          y,
          ap (λ z. and_then convert to_s16 push z (later fuel metadata p native)) e
              ∙ and_then-ok y report _ f
              ∙ loop-end fuel metadata report y.0 (drop count native)
                  (omega (arith, length-drop count native, short))
              ∙ ap (λ r. some (y.0, r)) (sym f),
          w,
          h,
          inr (f, omega (arith, r, short)),
        )
        | inr (inr (full, _)) ↦ absurd (omega (arith, full, short))
      ]

  -- The one packet that a call hands off, and what it reports if its last span succeeds.
  abbrev pub OnePacket :
      ReceiveMetadata
      → ReceivePublisher C F H
      → ℕ
      → ReceivePublisher C F H × Result PublishError PublishReport
      → Type 0
  OnePacket metadata p count x =
      (packet : ReceivePacket) × (out : List ℕ) × (packet.qualification ≡ metadata.qualification)
      × (packet.frame.mode ≡ p.mode)
      × (length out ≡ frame_samples p.mode)
      × (packet.frame.samples ≡ silenced metadata.qualification.receiver_keyed out)
      × (x.0.handoff ≡ (push p.handoff packet).0)
      × (((e : PublishError) × (x.1 ≡ err e))
          ⊎ ((x.1
                ≡ ok (record { completed_frame = true; handoff = some (push p.handoff packet).1 }))
              × (x.0.native_remainder + native_frame_samples ≡ p.native_remainder + count)))

  abbrev Long :
      ReceiveMetadata
      → ReceivePublisher C F H
      → ℕ
      → Option (ReceivePublisher C F H × Result PublishError PublishReport)
      → Type 0
  Long metadata p count o =
      (x : ReceivePublisher C F H × Result PublishError PublishReport) × (o ≡ some x)
      × IsPublisher convert to_s16 push x.0
      × (((x.0.handoff ≡ p.handoff) × ((e : PublishError) × (x.1 ≡ err e)))
          ⊎ OnePacket metadata p count x)

  publish_loop-Long :
      (fuel : ℕ) (metadata : ReceiveMetadata) (report : PublishReport) (p : ReceivePublisher C F H)
      (native : List F)
      → IsPublisher convert to_s16 push p
      → length native ≤ fuel
      → length native ≤ native_frame_samples
      → native_frame_samples ≤ p.native_remainder + length native
      → Long metadata p
          (length native)
          (publish_loop convert to_s16 push fuel metadata report p native)
  unfolding publish_loop
  publish_loop-Long fuel metadata report p [] v enough bound long =
      absurd (omega (arith, long, v.partial))
  publish_loop-Long zero metadata report p (x ∷ xs) v enough bound long =
      absurd (omega (arith, enough))
  publish_loop-Long (suc fuel) metadata report p (x ∷ xs) v enough bound long =
      let native = x ∷ xs in
      let count = span_length convert to_s16 push p native in
      let (y, e, spans) = publish_span-Spans convert to_s16 push metadata report p native v in
      elim spans [
        | inl (w, h, (bad, f)) ↦ (
          y,
          ap (λ z. and_then convert to_s16 push z (later fuel metadata p native)) e
              ∙ and_then-err y bad _ f,
          w,
          inl (h, (bad, f)),
        )
        | inr (inl (_, _, _, short, _, _)) ↦ absurd (omega (arith, short, long, v.partial))
        | inr (inr (full, (w, zero_rem, m, (packet, out, k, l, size, frame, g, r)))) ↦
            let next : PublishReport = record {
              completed_frame = true;
              handoff = some (push p.handoff packet).1;
            } in
            let (z, f, u, h, rest) =
              publish_loop-Short fuel metadata next y.0 (drop count native) w
                (omega (arith, length-drop count native, enough, bound, long, v.partial))
                (omega (arith, length-drop count native, bound, long, zero_rem, v.partial)) in
            (
              z,
              ap (λ o. and_then convert to_s16 push o (later fuel metadata p native)) e
                  ∙ and_then-ok y next _ r
                  ∙ f,
              u,
              inr (
                packet,
                out,
                k,
                l,
                size,
                frame,
                h ∙ g,
                elim rest [
                  | inl bad ↦ inl bad
                  | inr (done, at) ↦ inr (
                    done,
                    omega (arith, at, zero_rem, length-drop count native, bound, long, v.partial),
                  )
                ],
              ),
            )
      ]

  abbrev pub Publishes :
      ReceivePublisher C F H
      → List F
      → ReceiveMetadata
      → ReceivePublisher C F H × Result PublishError PublishReport
      → Type 0
  Publishes p native metadata x =
      (((length native ≡ 0) ⊎ (native_frame_samples < length native))
        × (x ≡ (p, err invalid_native_frame)))
      ⊎ ((0 < length native)
          × (p.native_remainder + length native < native_frame_samples)
          × (x.0.handoff ≡ p.handoff)
          × (((e : PublishError) × (x.1 ≡ err e))
              ⊎ ((x.1 ≡ ok default_report)
                  × (x.0.native_remainder ≡ p.native_remainder + length native))))
      ⊎ ((0 < length native)
          × (length native ≤ native_frame_samples)
          × (native_frame_samples ≤ p.native_remainder + length native)
          × (((x.0.handoff ≡ p.handoff) × ((e : PublishError) × (x.1 ≡ err e)))
              ⊎ OnePacket metadata p (length native) x))

  -- On a valid publisher, for any converter, publish ends, however much or little the converter
  -- uses and generates, and leaves the publisher valid. An empty frame or one of more than 960
  -- samples is refused without a change; a call that does not fill the remainder hands nothing
  -- off and, without an error, adds its length to it; a call that fills it hands off at most
  -- one packet, with the call's qualification and one frame of the mode's length, silent unless
  -- keyed, and without an error hands off exactly one and reports it.
  pub publish_lem :
      (p : ReceivePublisher C F H) (native : List F) (metadata : ReceiveMetadata)
      → IsPublisher convert to_s16 push p
      → (x : ReceivePublisher C F H × Result PublishError PublishReport) × (publish convert to_s16
            push p native metadata
          ≡ some x)
        × IsPublisher convert to_s16 push x.0
        × Publishes p native metadata x
  unfolding publish
  publish_lem p native metadata v =
      let X = ReceivePublisher C F H × Result PublishError PublishReport in
      let journal = push_some metadata.statuses.1 (push_some metadata.statuses.0 p.statuses) in
      let q = record p { statuses = journal } in
      let w : IsPublisher convert to_s16 push q = record {
        assembler_valid = v.assembler_valid;
        same_mode = v.same_mode;
        partial = v.partial;
      } in
      let Q = λ (o : Option X).
        (x : X) × (o ≡ some x)
        × IsPublisher convert to_s16 push x.0
        × Publishes p native metadata x in
      if_cases Q (length native == 0 || ltb native_frame_samples (length native))
        (some (p, err invalid_native_frame)) _
        (λ e. ((p, err invalid_native_frame), refl, v, inl (ground (arith, e), refl)))
        (λ e. elim (Bool-cases (ltb (p.native_remainder + length native) native_frame_samples)) [
          | inl short ↦
              let (x, f, u, h, rest) =
                publish_loop-Short (length native) metadata default_report q native w (omega arith)
                  (ground (arith, short)) in
              (x, f, u, inr (inl (ground (arith, e), ground (arith, short), h, rest)))
          | inr long ↦
              let (x, f, u, rest) =
                publish_loop-Long (length native) metadata default_report q native w (omega arith)
                  (ground (arith, e)) (ground (arith, long)) in
              (
                x,
                f,
                u,
                inr (inr (ground (arith, e), ground (arith, e), ground (arith, long), rest)),
              )
        ])
