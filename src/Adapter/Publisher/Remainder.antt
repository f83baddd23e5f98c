-- ===== src/Adapter/Publisher/Remainder.antt =====
-- One span of `ReceivePublisher::publish` of rust/asl3/src/adapter.rs on the advanced interface: its
-- samples join the native remainder, or complete a frame.
use usbradio_plus.Prelude.{
  ℕ, ◌+◌, ◌-◌, ◌≤◌, ◌<◌, ◌≡◌, refl, sym, ap, ◌∙◌, subst, ◌⊎◌, inl, inr, Bool, true, some, List, [],
  ◌++◌, append-nil, length, map, take, replicate, ◌==◌, if_cases, length-map, length-take, Result,
  ok, arith,
}
use usbradio_plus.Pcm.{ControllerPcmFrame, FrameAssembler, take_padded, frame_samples, advanced}
use usbradio_plus.Pcm.Laws.{IsValid, append_lem, take_padded_lem, pending}
use usbradio_plus.Adapter.{ReceivePacket, ReceiveMetadata}
use usbradio_plus.Handoff.{PublishOutcome}
use usbradio_plus.Adapter.Publisher.{
  PublishError, egress_advanced, ReceivePublisher, PublishReport, Convert, native_frame_samples,
  appended, convert_through, convert_span, framed, take_frame, handed_off, completed, span_done,
  span_length, publish_span, silenced,
}

module _ {C F H : Type 0} (convert : Convert C F) (to_s16 : F → ℕ)
    (push : H → ReceivePacket → H × PublishOutcome) where
  -- A publisher of the advanced interface between two calls.
  pub record IsLive (p : ReceivePublisher C F H) : Type 0 where
    pub egress_is : p.egress ≡ egress_advanced
    pub mode_is : p.mode ≡ advanced
    pub assembler_mode : p.assembler.mode ≡ advanced
    pub assembler_valid : IsValid p.assembler
    pub in_step : p.assembler.count ≡ p.native_remainder
    pub partial : p.native_remainder < native_frame_samples

  record Joined (p : ReceivePublisher C F H) (span : List F) (b : FrameAssembler) : Type 0 where
    valid : IsValid b
    mode : b.mode ≡ advanced
    count : b.count ≡ p.native_remainder + length span
    samples : pending b ≡ pending p.assembler ++ map to_s16 span

  convert_span-Joined :
      (p : ReceivePublisher C F H) (span : List F)
      → IsLive p
      → p.native_remainder + length span ≤ native_frame_samples
      → (b : FrameAssembler) × (convert_span convert to_s16 push p span
          ≡ some (record p { assembler = b }, ok tt))
        × Joined p span b
  unfolding convert_span
  convert_span-Joined p span v fits =
      elim (append_lem p.assembler (map to_s16 span) v.assembler_valid) [
        | inl (over, _) ↦ absurd (omega (arith, over, fits, v.in_step, length-map to_s16 span))
        | inr (b, e, w, cat, m, n) ↦ (
          b,
          ap (λ g. convert_through convert to_s16 push p g span) v.egress_is
              ∙ ap (λ r. some (appended convert to_s16 push p r)) e,
          record {
            valid = w;
            mode = m ∙ v.assembler_mode;
            count = omega (arith, n, v.in_step, length-map to_s16 span);
            samples = cat;
          },
        )
      ]

  -- The packet of a full remainder holds all of its samples.
  abbrev pub Packet :
      ReceiveMetadata
      → ReceivePublisher C F H
      → List ℕ
      → ReceivePublisher C F H × Result PublishError PublishReport
      → Type 0
  Packet metadata p out x =
      (packet : ReceivePacket) × (packet.frame.samples
        ≡ silenced metadata.qualification.receiver_keyed out)
      × (packet.qualification ≡ metadata.qualification)
      × (x.0.handoff ≡ (push p.handoff packet).0)
      × (x.1 ≡ ok (record { completed_frame = true; handoff = some (push p.handoff packet).1 }))

  -- What `take_frame` does with a full remainder.
  abbrev Taken :
      Bool
      → ReceivePublisher C F H
      → ReceivePublisher C F H × Result PublishError ControllerPcmFrame
      → Type 0
  Taken keyed q x =
      (b : FrameAssembler) × (x ≡ (
        record q { assembler = b },
        ok (record { mode = q.mode; samples = silenced keyed (pending q.assembler) }),
      ))
      × IsValid b
      × (b.mode ≡ advanced)
      × (b.count ≡ 0)

  take_frame-Taken :
      (q : ReceivePublisher C F H) (keyed : Bool)
      → IsValid q.assembler
      → q.assembler.mode ≡ q.mode
      → q.assembler.mode ≡ advanced
      → q.assembler.count ≡ native_frame_samples
      → Taken keyed q (take_frame convert to_s16 push q keyed)
  unfolding take_frame
  take_frame-Taken q keyed v m am full =
      let (w, r, n, _, count, cat) = take_padded_lem q.assembler v in
      let t = take_padded q.assembler (frame_samples q.assembler.mode) in
      let size = ap frame_samples am in
      let none_left : t.0.count ≡ 0 = omega (arith, count, size, full) in
      let no_padding : frame_samples q.assembler.mode - q.assembler.count ≡ 0 =
        omega (arith, size, full) in
      let all =
        sym (append-nil t.1)
        ∙ ap (λ xs. t.1 ++ xs) (sym (ap (λ k. take k t.0.samples) none_left))
        ∙ sym cat
        ∙ ap (λ k. pending q.assembler ++ replicate k 0) no_padding
        ∙ append-nil (pending q.assembler) in
      subst
        (λ k.
          Taken keyed q
            (framed convert to_s16 push q.mode keyed q (take_padded q.assembler (frame_samples k))))
        m
        (
          t.0,
          ap (λ z. framed convert to_s16 push q.mode keyed q (t.0, z, t.2)) all
              ∙ ap (λ z. framed convert to_s16 push q.mode keyed q (t.0, pending q.assembler, z)) r,
          w,
          n ∙ am,
          none_left,
        )

  abbrev pub Handed :
      ReceiveMetadata
      → ReceivePublisher C F H
      → List ℕ
      → ReceivePublisher C F H × Result PublishError PublishReport
      → Type 0
  Handed metadata q out x =
      IsLive x.0
      × (pending x.0.assembler ≡ [])
      × (x.0.native_remainder ≡ 0)
      × Packet metadata q out x

  handed_off-Handed :
      (metadata : ReceiveMetadata) (q : ReceivePublisher C F H)
      → IsValid q.assembler
      → q.assembler.mode ≡ advanced
      → q.mode ≡ advanced
      → q.egress ≡ egress_advanced
      → q.native_remainder ≡ 0
      → q.assembler.count ≡ native_frame_samples
      → Handed metadata q (pending q.assembler) (
          handed_off convert to_s16 push metadata
            (take_frame convert to_s16 push q metadata.qualification.receiver_keyed))
  handed_off-Handed metadata q v am m eg zero_rem full =
      let keyed = metadata.qualification.receiver_keyed in
      let (b, e, w, bm, none_left) = take_frame-Taken q keyed v (am ∙ sym m) am full in
      subst
        (λ z. Handed metadata q (pending q.assembler) (handed_off convert to_s16 push metadata z))
        (sym e)
        (
          record {
            egress_is = eg;
            mode_is = m;
            assembler_mode = bm;
            assembler_valid = w;
            in_step = none_left ∙ sym zero_rem;
            partial = omega (arith, zero_rem);
          },
          ap (λ k. take k b.samples) none_left,
          zero_rem,
          (_, refl, refl, refl, refl),
        )

  -- One span: it joins the remainder, or it completes a frame of everything that waited.
  abbrev pub Joins :
      ReceiveMetadata
      → PublishReport
      → ReceivePublisher C F H
      → List F
      → ReceivePublisher C F H × Result PublishError PublishReport
      → Type 0
  Joins metadata report p span x =
      ((p.native_remainder + length span < native_frame_samples)
        × IsLive x.0
        × (x.0.handoff ≡ p.handoff)
        × (x.0.native_remainder ≡ p.native_remainder + length span)
        × (x.1 ≡ ok report)
        × (pending x.0.assembler ≡ pending p.assembler ++ map to_s16 span))
      ⊎ ((p.native_remainder + length span ≡ native_frame_samples)
          × Handed metadata p (pending p.assembler ++ map to_s16 span) x)

  completed-Joins :
      (metadata : ReceiveMetadata) (report : PublishReport) (p : ReceivePublisher C F H)
      (span : List F) (b : FrameAssembler) (count : ℕ)
      → IsLive p
      → Joined p span b
      → count ≡ length span
      → p.native_remainder + length span ≤ native_frame_samples
      → Joins metadata report p span (
          completed convert to_s16 push metadata report
            (record p { assembler = b; native_remainder = p.native_remainder + count }))
  completed-Joins metadata report p span b count v j size fits =
      let full = record p { assembler = b; native_remainder = p.native_remainder + count } in
      if_cases (Joins metadata report p span) (full.native_remainder == native_frame_samples) _
        (full, ok report)
        (λ e.
          let whole : p.native_remainder + length span ≡ native_frame_samples =
            ground (arith, e, size) in
          inr (
            whole,
            subst
                (λ out. Handed metadata p out (
                  handed_off convert to_s16 push metadata (
                    take_frame convert to_s16 push
                      (record p { assembler = b; native_remainder = 0 })
                      metadata.qualification.receiver_keyed)))
                j.samples
                (handed_off-Handed metadata (record p { assembler = b; native_remainder = 0 })
                  j.valid j.mode v.mode_is v.egress_is refl (j.count ∙ whole)),
          ))
        (λ e.
          let part : p.native_remainder + length span < native_frame_samples =
            ground (arith, e, size, fits) in
          inl (
            part,
            record {
              egress_is = v.egress_is;
              mode_is = v.mode_is;
              assembler_mode = j.mode;
              assembler_valid = j.valid;
              in_step = omega (arith, j.count, size);
              partial = omega (arith, part, size);
            },
            refl,
            omega (arith, size),
            refl,
            j.samples,
          ))

  pub publish_span-Joins :
      (metadata : ReceiveMetadata) (report : PublishReport) (p : ReceivePublisher C F H)
      (native : List F)
      → IsLive p
      → let count = span_length convert to_s16 push p native in
        (x : ReceivePublisher C F H × Result PublishError PublishReport) × (publish_span convert
            to_s16 push metadata report p native
          ≡ some x)
        × Joins metadata report p (take count native) x
  unfolding publish_span
  publish_span-Joins metadata report p native v =
      let count = span_length convert to_s16 push p native in
      let span = take count native in
      let size = length-take count native in
      let (b, e, j) = convert_span-Joined p span v (omega (arith, size, v.partial)) in
      let full = record p { assembler = b; native_remainder = p.native_remainder + count } in
      (
        completed convert to_s16 push metadata report full,
        ap (span_done convert to_s16 push metadata report count) e,
        completed-Joins metadata report p span b count v j (omega (arith, size))
            (omega (arith, size, v.partial)),
      )
