-- ===== src/Adapter/Publisher/Spans.antt =====
-- One span of `ReceivePublisher::publish` in rust/asl3/src/adapter.rs: its conversion, and the frame
-- that it completes.
use usbradio_plus.Prelude.{
  ℕ, ◌+◌, ◌≤◌, ◌<◌, ◌≡◌, refl, sym, ap, ◌∙◌, subst, ◌⊎◌, inl, inr, Bool, true, Option, some, List,
  length, map, take, ◌==◌, if_cases, Result, ok, err, arith,
}
use usbradio_plus.Pcm.{
  ControllerPcmFrame, FrameAssembler, assembly_overflow, take_padded, frame_samples,
  assembly_capacity,
}
use usbradio_plus.Pcm.Laws.{IsValid, append_lem, take_padded_lem}
use usbradio_plus.Adapter.{ReceivePacket, ReceiveMetadata}
use usbradio_plus.Handoff.{PublishOutcome}
use usbradio_plus.Adapter.Publisher.{
  PublishError, pcm_error, ReceiveEgress, egress_app_rpt, egress_advanced, ReceivePublisher,
  PublishReport, Convert, Conversion, native_frame_samples, appended, converted_by, convert_through,
  convert_span, framed, take_frame, handed_off, span_done, span_length, publish_span, silenced,
}
use usbradio_plus.Adapter.Publisher.Rounds.{convert_loop-Ends}

module _ {C F H : Type 0} (convert : Convert C F) (to_s16 : F → ℕ)
    (push : H → ReceivePacket → H × PublishOutcome) where
  pub record IsPublisher (p : ReceivePublisher C F H) : Type 0 where
    pub assembler_valid : IsValid p.assembler
    pub same_mode : p.assembler.mode ≡ p.mode
    pub partial : p.native_remainder < native_frame_samples

  -- What a conversion leaves alone.
  record Converted (p q : ReceivePublisher C F H) : Type 0 where
    valid : IsPublisher q
    remainder : q.native_remainder ≡ p.native_remainder
    handoff : q.handoff ≡ p.handoff
    mode : q.mode ≡ p.mode

  abbrev Converts :
      ReceivePublisher C F H
      → Option (ReceivePublisher C F H × Result PublishError (Unit {0}))
      → Type 0
  Converts p o =
      (x : ReceivePublisher C F H × Result PublishError (Unit {0})) × (o ≡ some x) × Converted p x.0

  convert_through-Converts :
      (p : ReceivePublisher C F H) (e : ReceiveEgress C) (input : List F)
      → IsPublisher p
      → Converts p (convert_through convert to_s16 push p e input)
  convert_through-Converts p egress_advanced input v =
      elim (append_lem p.assembler (map to_s16 input) v.assembler_valid) [
        | inl (_, e) ↦ (
          (p, err (pcm_error assembly_overflow)),
          rw (appended, e) refl,
          record { valid = v; remainder = refl; handoff = refl; mode = refl },
        )
        | inr (b, e, w, _, m, _) ↦ (
          (record p { assembler = b }, ok tt),
          rw (appended, e) refl,
          record {
            valid = record {
              assembler_valid = w;
              same_mode = m ∙ v.same_mode;
              partial = v.partial;
            };
            remainder = refl;
            handoff = refl;
            mode = refl;
          },
        )
      ]
  convert_through-Converts p (egress_app_rpt c) input v =
      let s : Conversion C F = record {
        converter = c;
        converted = p.converted;
        assembler = p.assembler;
      } in
      let (x, e, w, m) =
        convert_loop-Ends convert to_s16 push (length input + assembly_capacity) s input
          v.assembler_valid (omega arith) in
      (
        (
          record p {
            egress = egress_app_rpt x.0.converter;
            converted = x.0.converted;
            assembler = x.0.assembler;
          },
          x.1,
        ),
        rw (converted_by, e) refl,
        record {
          valid = record { assembler_valid = w; same_mode = m ∙ v.same_mode; partial = v.partial };
          remainder = refl;
          handoff = refl;
          mode = refl;
        },
      )

  -- The frame that `take_frame` makes of a full remainder.
  abbrev pub Frames :
      Bool
      → ReceivePublisher C F H
      → ReceivePublisher C F H × Result PublishError ControllerPcmFrame
      → Type 0
  Frames keyed p x =
      (out : List ℕ) × (b : FrameAssembler) × (x
        ≡ (record p { assembler = b }, ok (record { mode = p.mode; samples = silenced keyed out })))
      × IsValid b
      × (b.mode ≡ p.mode)
      × (length out ≡ frame_samples p.mode)

  take_frame-Frames :
      (p : ReceivePublisher C F H) (keyed : Bool)
      → IsValid p.assembler
      → p.assembler.mode ≡ p.mode
      → Frames keyed p (take_frame convert to_s16 push p keyed)
  unfolding take_frame
  take_frame-Frames p keyed v m =
      let (w, r, n, size, _, _) = take_padded_lem p.assembler v in
      let t = take_padded p.assembler (frame_samples p.assembler.mode) in
      subst
        (λ k.
          Frames keyed p
            (framed convert to_s16 push p.mode keyed p (take_padded p.assembler (frame_samples k))))
        m
        (
          t.1,
          t.0,
          ap (λ z. framed convert to_s16 push p.mode keyed p (t.0, t.1, z)) r,
          w,
          n ∙ m,
          size ∙ ap frame_samples m,
        )

  -- The packet that a full remainder becomes.
  abbrev pub Pushed :
      ReceiveMetadata → ReceivePublisher C F H → H → Result PublishError PublishReport → Type 0
  Pushed metadata p handoff report =
      (packet : ReceivePacket) × (out : List ℕ) × (packet.qualification ≡ metadata.qualification)
      × (packet.frame.mode ≡ p.mode)
      × (length out ≡ frame_samples p.mode)
      × (packet.frame.samples ≡ silenced metadata.qualification.receiver_keyed out)
      × (handoff ≡ (push p.handoff packet).0)
      × (report ≡ ok (record { completed_frame = true; handoff = some (push p.handoff packet).1 }))

  abbrev pub Filled :
      ReceiveMetadata
      → ReceivePublisher C F H
      → ReceivePublisher C F H × Result PublishError PublishReport
      → Type 0
  Filled metadata p x =
      IsPublisher x.0
      × (x.0.native_remainder ≡ 0)
      × (x.0.mode ≡ p.mode)
      × Pushed metadata p x.0.handoff x.1

  handed_off-Filled :
      (metadata : ReceiveMetadata) (p : ReceivePublisher C F H)
      → IsValid p.assembler
      → p.assembler.mode ≡ p.mode
      → p.native_remainder ≡ 0
      → Filled metadata p (
          handed_off convert to_s16 push metadata
            (take_frame convert to_s16 push p metadata.qualification.receiver_keyed))
  handed_off-Filled metadata p v m zero_rem =
      let keyed = metadata.qualification.receiver_keyed in
      let (out, b, e, w, n, size) = take_frame-Frames p keyed v m in
      subst (λ z. Filled metadata p (handed_off convert to_s16 push metadata z)) (sym e)
        (
          record { assembler_valid = w; same_mode = n; partial = omega (arith, zero_rem) },
          zero_rem,
          refl,
          (_, out, refl, refl, size, refl, refl, refl),
        )

  Filled-same :
      (metadata : ReceiveMetadata) (p q : ReceivePublisher C F H)
      (x : ReceivePublisher C F H × Result PublishError PublishReport)
      → q.handoff ≡ p.handoff
      → q.mode ≡ p.mode
      → Filled metadata q x
      → Filled metadata p x
  Filled-same metadata p q x h m (a, b, n, (packet, out, k, l, size, f, g, r)) = (
    a,
    b,
    n ∙ m,
    (
      packet,
      out,
      k,
      l ∙ m,
      size ∙ ap frame_samples m,
      f,
      g ∙ ap (λ z. (push z packet).0) h,
      r ∙ ap (λ z. ok (record { completed_frame = true; handoff = some (push z packet).1 })) h,
    ),
  )

  -- What a span of `publish` does: it fails, it leaves a remainder, or it completes a frame.
  abbrev pub Spans :
      ReceiveMetadata
      → PublishReport
      → ReceivePublisher C F H
      → ℕ
      → ReceivePublisher C F H × Result PublishError PublishReport
      → Type 0
  Spans metadata report p count x =
      (IsPublisher x.0 × (x.0.handoff ≡ p.handoff) × ((e : PublishError) × (x.1 ≡ err e)))
      ⊎ (IsPublisher x.0
          × (x.0.handoff ≡ p.handoff)
          × (x.0.mode ≡ p.mode)
          × (p.native_remainder + count < native_frame_samples)
          × (x.0.native_remainder ≡ p.native_remainder + count)
          × (x.1 ≡ ok report))
      ⊎ ((p.native_remainder + count ≡ native_frame_samples) × Filled metadata p x)

  span_done-Spans :
      (metadata : ReceiveMetadata) (report : PublishReport) (p : ReceivePublisher C F H) (count : ℕ)
      (y : ReceivePublisher C F H × Result PublishError (Unit {0}))
      → Converted p y.0
      → p.native_remainder + count ≤ native_frame_samples
      → (x : ReceivePublisher C F H × Result PublishError PublishReport) × (span_done convert to_s16
            push metadata report count
            (some y)
          ≡ some x)
        × Spans metadata report p count x
  span_done-Spans metadata report p count (q, err e) c le =
      ((q, err e), refl, inl (c.valid, c.handoff, (e, refl)))
  span_done-Spans metadata report p count (q, ok _) c le =
      let X = ReceivePublisher C F H × Result PublishError PublishReport in
      let full = record q { native_remainder = q.native_remainder + count } in
      let Q = λ (z : X). (x : X) × (some z ≡ some x) × Spans metadata report p count x in
      if_cases Q (full.native_remainder == native_frame_samples) _ (full, ok report)
        (λ e. (
          _,
          refl,
          inr (
              inr (
                ground (arith, e, c.remainder),
                Filled-same metadata p (record q { native_remainder = 0 }) _ c.handoff c.mode
                    (handed_off-Filled metadata (record q { native_remainder = 0 })
                      c.valid.assembler_valid c.valid.same_mode refl),
              )),
        ))
        (λ e. (
          (full, ok report),
          refl,
          inr (
              inl (
                record {
                  assembler_valid = c.valid.assembler_valid;
                  same_mode = c.valid.same_mode;
                  partial = ground (arith, e, le, c.remainder);
                },
                c.handoff,
                c.mode,
                ground (arith, e, le, c.remainder),
                omega (arith, c.remainder),
                refl,
              )),
        ))

  pub publish_span-Spans :
      (metadata : ReceiveMetadata) (report : PublishReport) (p : ReceivePublisher C F H)
      (native : List F)
      → IsPublisher p
      → (x : ReceivePublisher C F H × Result PublishError PublishReport) × (publish_span convert
            to_s16 push metadata report p native
          ≡ some x)
        × Spans metadata report p (span_length convert to_s16 push p native) x
  unfolding publish_span convert_span
  publish_span-Spans metadata report p native v =
      let count = span_length convert to_s16 push p native in
      let (y, e, c) = convert_through-Converts p p.egress (take count native) v in
      let (x, f, g) = span_done-Spans metadata report p count y c (omega (arith, v.partial)) in
      (x, ap (span_done convert to_s16 push metadata report count) e ∙ f, g)
