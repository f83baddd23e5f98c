-- ===== src/Request.antt =====
-- `scalar` of rust/driver/src/remote_request.rs: the value of a setting from an operation's decimal
-- digits. The 128-bit arithmetic does not overflow: a magnitude has 64 bits, and a power of ten is
-- at most 10^6.
pub mod Laws
mod Tests
use usbradio_plus.Prelude.{
  ℕ, zero, suc, ◌+◌, ◌-◌, ◌*◌, ◌/◌, ◌%◌, ◌^◌, Bool, true, false, ◌&&◌, ◌||◌, not, List, [], ◌∷◌,
  ◌++◌, length, replicate, leb, ltb, ◌==◌, if◌then◌else◌, ℤ, pos, negsuc, Result, ok, err, ◌>>=◌,
  ◌>>◌, require,
}
use usbradio_plus.Operation.{RemoteOperation}
use usbradio_plus.Dcs.{DcsCode, DcsCodeParseError, zero_padded, from_str}

pub data RemoteRequestError : Type 0 where
  busy stopped stale_source : RemoteRequestError
  rejected : ℤ → RemoteRequestError

abbrev pub invalid : RemoteRequestError
invalid = rejected (negsuc 1002)

abbrev pub unsupported : RemoteRequestError
unsupported = rejected (negsuc 5)

-- The fields of a `Setting` that `scalar` reads.
pub record Setting : Type 0 where
  pub writable : Bool
  pub value_kind : ℕ
  pub units : ℕ
  pub decimal_places : ℕ
  pub minimum : ℤ
  pub maximum : ℤ
  pub choices : List ℤ

abbrev pub signed : Bool → ℕ → ℤ
signed true (suc n) = negsuc n
signed _ n = pos n

abbrev pub int_leb : ℤ → ℤ → Bool
int_leb (pos a) (pos b) = leb a b
int_leb (pos a) (negsuc b) = false
int_leb (negsuc a) (pos b) = true
int_leb (negsuc a) (negsuc b) = leb b a

abbrev pub int_eq : ℤ → ℤ → Bool
int_eq (pos a) (pos b) = a == b
int_eq (negsuc a) (negsuc b) = a == b
int_eq _ _ = false

abbrev pub contains : List ℤ → ℤ → Bool
contains [] v = false
contains (c ∷ choices) v = int_eq c v || contains choices v

abbrev pub is_empty : List ℤ → Bool
is_empty [] = true
is_empty (c ∷ choices) = false

-- `operation.flags & 1 != 0`
abbrev pub is_negative : RemoteOperation → Bool
is_negative o = o.flags % 2 == 1

-- The entered magnitude in the setting's units, if it is a whole number of them.
unfoldable pub scaled : ℕ → ℕ → ℕ → Result RemoteRequestError ℕ
scaled magnitude entered declared =
    if leb entered declared
    then ok (magnitude * 10 ^ (declared - entered))
    else if magnitude % 10 ^ (entered - declared) == 0
    then ok (magnitude / 10 ^ (entered - declared))
    else err invalid

-- `i64::try_from`
unfoldable pub narrow_i64 : Bool → ℕ → Result RemoteRequestError ℤ
narrow_i64 negative n =
    if (if negative then leb n (2 ^ 63) else ltb n (2 ^ 63))
    then ok (signed negative n)
    else err invalid

unfoldable pub decimal_digits : ℕ → ℕ → List ℕ
decimal_digits zero n = []
decimal_digits (suc fuel) n =
    let rest = decimal_digits fuel (n / 10) in
    if ltb n 10 then (48 + n) ∷ [] else rest ++ ((48 + n % 10) ∷ [])

-- `{value:03}`: the digits of a 64-bit value, at most nineteen, with zeros up to three places, of
-- which a minus sign takes one.
abbrev pub decimal_text : ℤ → List ℕ
decimal_text (pos n) = zero_padded (decimal_digits 19 n)
decimal_text (negsuc n) =
    let digits = decimal_digits 19 (suc n) in 45 ∷ (replicate (2 - length digits) 48 ++ digits)

abbrev pub value_of : Result DcsCodeParseError DcsCode → Result RemoteRequestError ℤ
value_of (ok code) = ok (pos code.value)
value_of (err e) = err invalid

abbrev pub octal_of : ℤ → Result RemoteRequestError ℤ
octal_of value = value_of (from_str (decimal_text value ++ (78 ∷ [])))

abbrev pub in_units : ℕ → ℕ → ℤ → Result RemoteRequestError ℤ
in_units units entered value =
    if units == 3 then (if entered == 0 then octal_of value else err invalid) else ok value

abbrev pub is_allowed : Setting → ℤ → Bool
is_allowed s v =
    int_leb s.minimum v && int_leb v s.maximum && (is_empty s.choices || contains s.choices v)

abbrev pub is_settable : Setting → Bool
is_settable s = s.writable && leb 1 s.value_kind && leb s.value_kind 5

-- The operation's flags and places, and no sign for a kind that has none.
abbrev pub is_entry : Setting → RemoteOperation → Bool
is_entry s o = not (
    leb 2 o.flags
    || ltb 6 o.decimal_places
    || ltb 6 s.decimal_places
    || (is_negative o && (s.value_kind == 1 || s.value_kind == 2 || s.value_kind == 5)))

abbrev pub in_range : Setting → ℤ → Result RemoteRequestError ℤ
in_range s v = if is_allowed s v then ok v else err invalid

abbrev pub of_value : Setting → RemoteOperation → ℤ → Result RemoteRequestError ℤ
of_value s o value = in_units s.units o.decimal_places value >>= in_range s

abbrev pub of_magnitude : Setting → RemoteOperation → ℕ → Result RemoteRequestError ℤ
of_magnitude s o n = narrow_i64 (is_negative o) n >>= of_value s o

abbrev pub of_entry : Setting → RemoteOperation → Result RemoteRequestError ℤ
of_entry s o = scaled o.magnitude o.decimal_places s.decimal_places >>= of_magnitude s o

unfoldable pub scalar : Setting → RemoteOperation → Result RemoteRequestError ℤ
scalar s o = require (is_settable s) unsupported >> (require (is_entry s o) invalid >> of_entry s o)
