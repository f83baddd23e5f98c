-- ===== src/Control/Tests.antt =====
-- The controller's messages of rust/asl3/src/control.rs in a short exchange.
use usbradio_plus.Prelude.{◌≡◌, refl, false, some, none, List, [], ◌∷◌}
use usbradio_plus.Control.{
  ControlMessage, transmit_key, transmit_unkey, receive_ctcss, default_snapshot, apply,
  from_tenths_hz, gpio_pin, parallel_pin,
}
use usbradio_plus.Control.Laws.{apply_all, follow_all, follow-apply_all}

abbrev exchange : List ControlMessage
exchange = transmit_key (some 1000) ∷ receive_ctcss false ∷ transmit_unkey ∷ []

limits :
    (from_tenths_hz 499 ≡ none)
    × (from_tenths_hz 3000 ≡ some 3000)
    × (gpio_pin 9 ≡ none)
    × (parallel_pin 2 ≡ some 2)
unfolding from_tenths_hz gpio_pin parallel_pin
limits = (refl, refl, refl, refl)

follow-apply_all_example :
    follow_all default_snapshot (apply_all default_snapshot exchange).1
    ≡ record default_snapshot { receive_ctcss_enabled = false }
unfolding apply
follow-apply_all_example = follow-apply_all default_snapshot exchange
