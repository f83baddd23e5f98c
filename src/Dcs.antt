-- ===== src/Dcs.antt =====
-- `DcsCode` of rust/core/src/station_config.rs: three octal digits and a polarity, printed and parsed.
-- A text is the list of its bytes.
pub mod Laws
mod Tests
use usbradio_plus.Prelude.{
  ℕ, zero, suc, ◌+◌, ◌-◌, ◌*◌, ◌/◌, ◌%◌, Bool, true, false, ◌&&◌, ◌||◌, Option, none, some, List,
  [], ◌∷◌, ◌++◌, length, replicate, leb, ltb, ◌==◌, if◌then◌else◌, Result, ok, err,
}

pub data DcsPolarity : Type 0 where
  normal inverted : DcsPolarity

pub record DcsCode : Type 0 where
  pub value : ℕ
  pub polarity : DcsPolarity

pub data DcsCodeParseError : Type 0 where
  dcs_code_parse_error : DcsCodeParseError

-- `b'N'` and `b'I'`
unfoldable pub polarity_byte : DcsPolarity → ℕ
polarity_byte normal = 78
polarity_byte inverted = 73

-- The octal digits of a 16-bit number, at most six.
unfoldable pub octal_digits : ℕ → ℕ → List ℕ
octal_digits zero n = []
octal_digits (suc fuel) n =
    let rest = octal_digits fuel (n / 8) in
    if ltb n 8 then (48 + n) ∷ [] else rest ++ ((48 + n % 8) ∷ [])

-- `{:03o}`
abbrev pub zero_padded : List ℕ → List ℕ
zero_padded digits = replicate (3 - length digits) 48 ++ digits

unfoldable pub display : DcsCode → List ℕ
display c = zero_padded (octal_digits 6 c.value) ++ (polarity_byte c.polarity ∷ [])

-- `matches!(byte, b'0'..=b'7')`
abbrev pub is_octal : ℕ → Bool
is_octal byte = leb 48 byte && leb byte 55

abbrev pub with_polarity : ℕ → ℕ → Result DcsCodeParseError DcsCode
with_polarity value byte =
    if byte == 78 || byte == 110
    then ok (record { value = value; polarity = normal })
    else if byte == 73 || byte == 105
    then ok (record { value = value; polarity = inverted })
    else err dcs_code_parse_error

unfoldable pub from_str : List ℕ → Result DcsCodeParseError DcsCode
from_str (a ∷ b ∷ c ∷ d ∷ []) =
    if is_octal a && is_octal b && is_octal c
    then with_polarity ((a - 48) * 64 + (b - 48) * 8 + (c - 48)) d
    else err dcs_code_parse_error
from_str _ = err dcs_code_parse_error
