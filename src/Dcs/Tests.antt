-- ===== src/Dcs/Tests.antt =====
-- The texts of DCS codes of rust/core/src/station_config.rs.
use usbradio_plus.Prelude.{◌<◌, ◌≡◌, refl, ◌↔◌, [], ◌∷◌, map, ok, err}
use usbradio_plus.Dcs.{
  normal, inverted, DcsCode, dcs_code_parse_error, polarity_byte, octal_digits, display, from_str,
}
use usbradio_plus.Dcs.Laws.{capital, from_str_iff}

-- `023n`, `754I`, `781N` and `23N`
texts :
    (from_str (48 ∷ 50 ∷ 51 ∷ 110 ∷ []) ≡ ok (record { value = 19; polarity = normal }))
    × (from_str (55 ∷ 53 ∷ 52 ∷ 73 ∷ []) ≡ ok (record { value = 492; polarity = inverted }))
    × (from_str (55 ∷ 56 ∷ 49 ∷ 78 ∷ []) ≡ err dcs_code_parse_error)
    × (from_str (50 ∷ 51 ∷ 78 ∷ []) ≡ err dcs_code_parse_error)
unfolding from_str
texts = (refl, refl, refl, refl)

abbrev default_code : DcsCode
default_code = record { value = 19; polarity = normal }

printed : display default_code ≡ 48 ∷ 50 ∷ 51 ∷ 78 ∷ []
unfolding display octal_digits polarity_byte
printed = refl

from_str_iff_example :
    (from_str (48 ∷ 50 ∷ 51 ∷ 110 ∷ []) ≡ ok default_code)
    ↔ ((default_code.value < 512) × (display default_code ≡ map capital (48 ∷ 50 ∷ 51 ∷ 110 ∷ [])))
from_str_iff_example = from_str_iff (48 ∷ 50 ∷ 51 ∷ 110 ∷ []) default_code
