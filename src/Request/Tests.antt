-- ===== src/Request/Tests.antt =====
-- Settings of rust/driver/src/remote_request.rs entered as decimal digits.
use usbradio_plus.Prelude.{ℕ, ◌*◌, ◌^◌, ◌≡◌, refl, true, [], pos, negsuc, ok, err}
use usbradio_plus.Operation.{RemoteOperation, layout_size}
use usbradio_plus.Dcs.{from_str}
use usbradio_plus.Request.{
  decimal_digits, Setting, scalar, scaled, narrow_i64, invalid, is_allowed, in_units, signed,
  is_negative,
}
use usbradio_plus.Request.Laws.{scalar_lem}

-- A setting in tenths from -20 to 3000.
abbrev tenths : Setting
tenths = record {
  writable = true;
  value_kind = 4;
  units = 1;
  decimal_places = 1;
  minimum = negsuc 19;
  maximum = pos 3000;
  choices = [];
}

-- A DCS code, entered by its octal digits.
abbrev dcs : Setting
dcs = record tenths { value_kind = 2; units = 3; decimal_places = 0; maximum = pos 511 }

abbrev entered : ℕ → ℕ → ℕ → RemoteOperation
entered magnitude places flags = record {
  struct_size = layout_size;
  abi_version = 1;
  operation = 12;
  selector = 12;
  signed_value = pos 0;
  magnitude = magnitude;
  decimal_places = places;
  flags = flags;
}

scalars :
    (scalar tenths (entered 10070 2 0) ≡ ok (pos 1007))
    × (scalar tenths (entered 10075 2 0) ≡ err invalid)
    × (scalar tenths (entered 2 0 1) ≡ ok (negsuc 19))
    × (scalar dcs (entered 754 0 0) ≡ ok (pos 492))
    × (scalar dcs (entered 780 0 0) ≡ err invalid)
    × (scalar dcs (entered 23 0 0) ≡ ok (pos 19))
    × (scalar dcs (entered 1000 0 0) ≡ err invalid)
unfolding scalar scaled narrow_i64 decimal_digits from_str
scalars = (refl, refl, refl, refl, refl, refl, refl)

scalar_lem_example :
    (tenths.writable ≡ true)
    × (is_allowed tenths (pos 1007) ≡ true)
    × ((n : ℕ) × (n * 10 ^ 2 ≡ 10070 * 10 ^ 1)
        × (in_units 1 2 (signed (is_negative (entered 10070 2 0)) n) ≡ ok (pos 1007)))
unfolding scalar scaled narrow_i64
scalar_lem_example = scalar_lem tenths (entered 10070 2 0) (pos 1007) refl
