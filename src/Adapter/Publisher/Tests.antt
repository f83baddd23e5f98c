-- ===== src/Adapter/Publisher/Tests.antt =====
-- A receive callback of rust/asl3/src/adapter.rs with a converter that keeps every sixth sample.
use usbradio_plus.Prelude.{
  ℕ, ◌+◌, ◌/◌, ◌≡◌, refl, none, some, List, [], ◌∷◌, length, replicate, length-replicate, Result,
  arith,
}
use usbradio_plus.Pcm.{app_rpt, advanced, FrameAssembler, assembly_capacity, new_assembler}
use usbradio_plus.Pcm.Laws.{IsValid, new-IsValid}
use usbradio_plus.Adapter.{
  ReceivePacket, ReceiveMetadata, default_qualification, transmit_ctcss_ready, new_journal,
}
use usbradio_plus.Handoff.{PublishOutcome, published}
use usbradio_plus.Adapter.Publisher.{
  PublishError, PublishReport, ReceivePublisher, egress_app_rpt, egress_advanced, Convert, publish,
}
use usbradio_plus.Adapter.Publisher.Spans.{IsPublisher}
use usbradio_plus.Adapter.Publisher.Laws.{publish_lem, Publishes}
use usbradio_plus.Adapter.Publisher.Remainder.{IsLive}
use usbradio_plus.Adapter.Publisher.Lossless.{KeepsAll, publish_lossless}

abbrev every_sixth : Convert ℕ ℕ
every_sixth c input buffer = (c + 1, buffer, some (length input, length input / 6))

abbrev store : List ReceivePacket → ReceivePacket → List ReceivePacket × PublishOutcome
store queue packet = (packet ∷ queue, published)

abbrev to_s16 : ℕ → ℕ
to_s16 x = x

abbrev publisher : ReceivePublisher ℕ ℕ (List ReceivePacket)
publisher = record {
  mode = app_rpt;
  egress = egress_app_rpt 0;
  assembler = new_assembler app_rpt;
  native_remainder = 959;
  converted = replicate 960 7;
  statuses = new_journal;
  handoff = [];
}

new-app_rpt : (new_assembler app_rpt).mode ≡ app_rpt
unfolding new_assembler
new-app_rpt = refl

publisher-IsPublisher : IsPublisher every_sixth to_s16 store publisher
publisher-IsPublisher = record {
  assembler_valid = new-IsValid app_rpt;
  same_mode = new-app_rpt;
  partial = omega arith;
}

abbrev metadata : ReceiveMetadata
metadata = record {
  qualification = default_qualification;
  controller_ctcss = none;
  statuses = (some (transmit_ctcss_ready 1), none);
}

publish_lem_example :
    (x : ReceivePublisher ℕ ℕ (List ReceivePacket) × Result PublishError PublishReport) × (publish
        every_sixth to_s16 store publisher
        (1 ∷ 2 ∷ [])
        metadata
      ≡ some x)
    × IsPublisher every_sixth to_s16 store x.0
    × Publishes every_sixth to_s16 store publisher (1 ∷ 2 ∷ []) metadata x
publish_lem_example =
    publish_lem every_sixth to_s16 store publisher (1 ∷ 2 ∷ []) metadata publisher-IsPublisher

-- The same callback on the advanced interface, with 959 samples waiting.
abbrev waiting : FrameAssembler
waiting = record (new_assembler advanced) { count = 959 }

abbrev advanced_publisher : ReceivePublisher ℕ ℕ (List ReceivePacket)
advanced_publisher = record publisher {
  mode = advanced;
  egress = egress_advanced;
  assembler = waiting;
}

waiting-IsValid : IsValid waiting
unfolding new_assembler
waiting-IsValid = record {
  storage = length-replicate {A = ℕ} assembly_capacity 0;
  count_in = omega arith;
}

new-advanced : (new_assembler advanced).mode ≡ advanced
unfolding new_assembler
new-advanced = refl

advanced-IsLive : IsLive every_sixth to_s16 store advanced_publisher
advanced-IsLive = record {
  egress_is = refl;
  mode_is = refl;
  assembler_mode = new-advanced;
  assembler_valid = waiting-IsValid;
  in_step = refl;
  partial = omega arith;
}

publish_lossless_example :
    (x : ReceivePublisher ℕ ℕ (List ReceivePacket) × Result PublishError PublishReport) × (publish
        every_sixth to_s16 store advanced_publisher
        (1 ∷ 2 ∷ [])
        metadata
      ≡ some x)
    × IsLive every_sixth to_s16 store x.0
    × KeepsAll every_sixth to_s16 store metadata advanced_publisher (1 ∷ 2 ∷ []) x
publish_lossless_example =
    publish_lossless every_sixth to_s16 store advanced_publisher (1 ∷ 2 ∷ []) metadata
      advanced-IsLive (omega arith) (omega arith)
