-- ===== src/Adapter/Publisher/Lossless.antt =====
-- The samples that `ReceivePublisher` of rust/asl3/src/adapter.rs publishes on the advanced interface.
use usbradio_plus.Prelude.{
  ℕ, zero, suc, ◌+◌, ◌≤◌, ◌<◌, ◌≡◌, refl, sym, ap, ◌∙◌, ◌⊎◌, inl, inr, true, ◌||◌, some, List, [],
  ◌∷◌, ◌++◌, append_assoc, append-nil, map-append, length, map, take, drop, take-append-drop,
  take-length, ltb, ◌==◌, if_cases, Bool-cases, length-take, length-drop, Result, ok, err, arith,
}
use usbradio_plus.Pcm.Laws.{pending}
use usbradio_plus.Adapter.{ReceivePacket, ReceiveMetadata}
use usbradio_plus.Handoff.{PublishOutcome}
use usbradio_plus.Adapter.Publisher.Laws.{loop-end, and_then-ok, later}
use usbradio_plus.Adapter.Publisher.{
  PublishError, invalid_native_frame, ReceivePublisher, PublishReport, default_report, Convert,
  native_frame_samples, span_length, and_then, publish_loop, publish, push_some,
}
use usbradio_plus.Adapter.Publisher.Remainder.{IsLive, Packet, publish_span-Joins}

module _ {C F H : Type 0} (convert : Convert C F) (to_s16 : F → ℕ)
    (push : H → ReceivePacket → H × PublishOutcome) where
  publish_loop-rest :
      (fuel : ℕ) (metadata : ReceiveMetadata) (report : PublishReport) (p : ReceivePublisher C F H)
      (native : List F)
      → IsLive convert to_s16 push p
      → length native ≤ fuel
      → p.native_remainder + length native < native_frame_samples
      → (x : ReceivePublisher C F H × Result PublishError PublishReport) × (publish_loop convert
            to_s16 push fuel metadata report p native
          ≡ some x)
        × IsLive convert to_s16 push x.0
        × (x.0.handoff ≡ p.handoff)
        × (x.1 ≡ ok report)
        × (pending x.0.assembler ≡ pending p.assembler ++ map to_s16 native)
  unfolding publish_loop
  publish_loop-rest fuel metadata report p [] v enough short =
      ((p, ok report), refl, v, refl, refl, sym (append-nil (pending p.assembler)))
  publish_loop-rest zero metadata report p (x ∷ xs) v enough short = absurd (omega (arith, enough))
  publish_loop-rest (suc fuel) metadata report p (x ∷ xs) v enough short =
      let native = x ∷ xs in
      let count = span_length convert to_s16 push p native in
      let size = length-take count native in
      let (y, e, joins) = publish_span-Joins convert to_s16 push metadata report p native v in
      elim joins [
        | inl (_, live, h, r, f, joined) ↦ (
          y,
          ap
                (λ z.
                  and_then convert to_s16 push z (later convert to_s16 push fuel metadata p native))
                e
              ∙ and_then-ok convert to_s16 push y report _ f
              ∙ loop-end convert to_s16 push fuel metadata report y.0 (drop count native)
                  (omega (arith, length-drop count native, short))
              ∙ ap (λ r. some (y.0, r)) (sym f),
          live,
          h,
          f,
          joined
              ∙ ap (λ xs. pending p.assembler ++ map to_s16 xs)
                  (take-length count native (omega (arith, short))),
        )
        | inr (full, _) ↦ absurd (omega (arith, full, size, short))
      ]

  rejoined :
      (waiting middle last : List ℕ) (count : ℕ) (native : List F)
      → middle ≡ []
      → last ≡ middle ++ map to_s16 (drop count native)
      → (waiting ++ map to_s16 (take count native)) ++ last ≡ waiting ++ map to_s16 native
  rejoined waiting middle last count native empty joined =
      ap (λ xs. (waiting ++ map to_s16 (take count native)) ++ xs)
        (joined ∙ ap (λ xs. xs ++ map to_s16 (drop count native)) empty)
      ∙ append_assoc waiting (map to_s16 (take count native)) (map to_s16 (drop count native))
      ∙ ap (λ xs. waiting ++ xs)
          (sym (map-append to_s16 (take count native) (drop count native))
            ∙ ap (map to_s16) (take-append-drop count native))

  publish_loop-frame :
      (fuel : ℕ) (metadata : ReceiveMetadata) (report : PublishReport) (p : ReceivePublisher C F H)
      (native : List F)
      → IsLive convert to_s16 push p
      → length native ≤ fuel
      → length native ≤ native_frame_samples
      → native_frame_samples ≤ p.native_remainder + length native
      → (x : ReceivePublisher C F H × Result PublishError PublishReport) × (publish_loop convert
            to_s16 push fuel metadata report p native
          ≡ some x)
        × IsLive convert to_s16 push x.0
        × ((out : List ℕ) × Packet convert to_s16 push metadata p out x
            × (out ++ pending x.0.assembler ≡ pending p.assembler ++ map to_s16 native))
  unfolding publish_loop
  publish_loop-frame fuel metadata report p [] v enough bound long =
      absurd (omega (arith, long, v.partial))
  publish_loop-frame zero metadata report p (x ∷ xs) v enough bound long =
      absurd (omega (arith, enough))
  publish_loop-frame (suc fuel) metadata report p (x ∷ xs) v enough bound long =
      let native = x ∷ xs in
      let count = span_length convert to_s16 push p native in
      let size = length-take count native in
      let (y, e, joins) = publish_span-Joins convert to_s16 push metadata report p native v in
      elim joins [
        | inl (short, _, _, _, _, _) ↦ absurd (omega (arith, short, size, long, v.partial))
        | inr (full, (live, empty, zero_rem, (packet, frame, q, g, r))) ↦
            let next : PublishReport = record {
              completed_frame = true;
              handoff = some (push p.handoff packet).1;
            } in
            let (z, f, u, h, done, joined) =
              publish_loop-rest fuel metadata next y.0 (drop count native) live
                (omega (arith, length-drop count native, enough, bound, long, v.partial))
                (omega (arith, length-drop count native, bound, long, zero_rem, v.partial)) in
            (
              z,
              ap
                    (λ o.
                      and_then convert to_s16 push o
                        (later convert to_s16 push fuel metadata p native))
                    e
                  ∙ and_then-ok convert to_s16 push y next _ r
                  ∙ f,
              u,
              (
                pending p.assembler ++ map to_s16 (take count native),
                (packet, frame, q, h ∙ g, done),
                rejoined (pending p.assembler) (pending y.0.assembler) (pending z.0.assembler) count
                    native empty joined,
              ),
            )
      ]

  -- Every sample waits in the assembler, or stands in the one packet of the call or behind it.
  abbrev pub KeepsAll :
      ReceiveMetadata
      → ReceivePublisher C F H
      → List F
      → ReceivePublisher C F H × Result PublishError PublishReport
      → Type 0
  KeepsAll metadata p native x =
      ((p.native_remainder + length native < native_frame_samples)
        × (x.0.handoff ≡ p.handoff)
        × (x.1 ≡ ok default_report)
        × (pending x.0.assembler ≡ pending p.assembler ++ map to_s16 native))
      ⊎ ((native_frame_samples ≤ p.native_remainder + length native)
          × ((out : List ℕ) × Packet convert to_s16 push metadata p out x
              × (out ++ pending x.0.assembler ≡ pending p.assembler ++ map to_s16 native)))

  -- On the advanced interface, a callback's frame of 1 to 960 samples is published without an
  -- error and no sample is lost, repeated or moved: fewer than 960 samples with those that
  -- waited all wait and the handoff is untouched; otherwise one packet is pushed, whose samples
  -- (silenced if the receiver is not keyed), followed by those that still wait, are the earlier
  -- ones followed by the frame; the publisher is ready for the next callback.
  pub publish_lossless :
      (p : ReceivePublisher C F H) (native : List F) (metadata : ReceiveMetadata)
      → IsLive convert to_s16 push p
      → 0 < length native
      → length native ≤ native_frame_samples
      → (x : ReceivePublisher C F H × Result PublishError PublishReport) × (publish convert to_s16
            push p native metadata
          ≡ some x)
        × IsLive convert to_s16 push x.0
        × KeepsAll metadata p native x
  unfolding publish
  publish_lossless p native metadata v some_samples bound =
      let journal = push_some metadata.statuses.1 (push_some metadata.statuses.0 p.statuses) in
      let q : ReceivePublisher C F H = record p { statuses = journal } in
      let live : IsLive convert to_s16 push q = record {
        egress_is = v.egress_is;
        mode_is = v.mode_is;
        assembler_mode = v.assembler_mode;
        assembler_valid = v.assembler_valid;
        in_step = v.in_step;
        partial = v.partial;
      } in
      if_cases
        (λ o.
          (x : ReceivePublisher C F H × Result PublishError PublishReport) × (o ≡ some x)
          × IsLive convert to_s16 push x.0
          × KeepsAll metadata p native x)
        (length native == 0 || ltb native_frame_samples (length native))
        (some (p, err invalid_native_frame))
        (publish_loop convert to_s16 push (length native) metadata default_report q native)
        (λ bad. absurd (ground (arith, bad, some_samples, bound)))
        (λ _. elim (Bool-cases (ltb (p.native_remainder + length native) native_frame_samples)) [
          | inl test ↦
              let short : p.native_remainder + length native < native_frame_samples =
                ground (arith, test) in
              let (x, e, u, h, f, joined) =
                publish_loop-rest (length native) metadata default_report q native live
                  (omega arith) short in
              (x, e, u, inl (short, h, f, joined))
          | inr test ↦
              let long : native_frame_samples ≤ p.native_remainder + length native =
                ground (arith, test) in
              let (x, e, u, rest) =
                publish_loop-frame (length native) metadata default_report q native live
                  (omega arith) bound long in
              (x, e, u, inr (long, rest))
        ])
