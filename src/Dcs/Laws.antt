-- ===== src/Dcs/Laws.antt =====
-- Parsing and printing a `DcsCode` of rust/core/src/station_config.rs.
use usbradio_plus.Prelude.{
  ℕ, suc, ◌+◌, ◌-◌, ◌*◌, ◌/◌, ◌%◌, ◌≤◌, ◌<◌, ◌≡◌, refl, sym, ap, subst, ◌∙◌, ◌↔◌, inl, inr, true,
  false, ◌&&◌, ◌||◌, List, [], ◌∷◌, ◌++◌, map, ltb, ◌==◌, if◌then◌else◌, if_cases, Bool-cases,
  Result, ok, err, arith,
}
use usbradio_plus.Dcs.{
  DcsPolarity, normal, inverted, DcsCode, DcsCodeParseError, dcs_code_parse_error, polarity_byte,
  octal_digits, zero_padded, display, is_octal, with_polarity, from_str,
}

last_digit : (fuel n : ℕ) → n < 8 → octal_digits (suc fuel) n ≡ (48 + n) ∷ []
unfolding octal_digits
last_digit fuel n h =
    if_cases (λ ds. ds ≡ (48 + n) ∷ []) (ltb n 8) _ _ (λ _. refl)
      (λ e. absurd (ground (arith, e, h)))

next_digit :
    (fuel n : ℕ)
    → 8 ≤ n
    → octal_digits (suc fuel) n ≡ octal_digits fuel (n / 8) ++ ((48 + n % 8) ∷ [])
unfolding octal_digits
next_digit fuel n h =
    if_cases (λ ds. ds ≡ octal_digits fuel (n / 8) ++ ((48 + n % 8) ∷ [])) (ltb n 8) _ _
      (λ e. absurd (ground (arith, e, h))) (λ _. refl)

abbrev three : ℕ → ℕ → ℕ → List ℕ
three a b c = a ∷ b ∷ c ∷ []

same_three : {a b c x y z : ℕ} → a ≡ x → b ≡ y → c ≡ z → three a b c ≡ three x y z
same_three {b = b} {c = c} {x = x} {y = y} p q r =
    ap (λ a. three a b c) p ∙ ap (λ b. three x b c) q ∙ ap (three x y) r

-- A value of nine bits has three digits.
three_digits :
    (n : ℕ)
    → n < 512
    → zero_padded (octal_digits 6 n) ≡ three (48 + n / 64) (48 + n / 8 % 8) (48 + n % 8)
three_digits n h = elim (Bool-cases (ltb n 8)) [
  | inl e ↦
      let small : n < 8 = ground (arith, e) in
      ap zero_padded (last_digit 5 n small)
      ∙ same_three (omega (arith, small)) (omega (arith, small)) (omega (arith, small))
  | inr e ↦
      let large : 8 ≤ n = ground (arith, e) in
      elim (Bool-cases (ltb n 64)) [
        | inl f ↦
            let middle : n < 64 = ground (arith, f) in
            ap zero_padded (
              next_digit 5 n large
              ∙ ap (λ ds. ds ++ ((48 + n % 8) ∷ [])) (last_digit 4 (n / 8) (omega (arith, middle))))
            ∙ same_three (omega (arith, middle)) (omega (arith, middle)) refl
        | inr f ↦
            let more : 64 ≤ n = ground (arith, f) in
            ap zero_padded (
              next_digit 5 n large
              ∙ ap (λ ds. ds ++ ((48 + n % 8) ∷ []))
                  (next_digit 4 (n / 8) (omega (arith, more))
                    ∙ ap (λ ds. ds ++ ((48 + n / 8 % 8) ∷ []))
                        (last_digit 3 (n / 8 / 8) (omega (arith, h)))))
            ∙ same_three (omega (arith, h, more)) refl refl
      ]
]

parse_digits :
    (n byte : ℕ)
    → n < 512
    → from_str ((48 + n / 64) ∷ (48 + n / 8 % 8) ∷ (48 + n % 8) ∷ byte ∷ []) ≡ with_polarity n byte
unfolding from_str
parse_digits n byte h =
    let a = 48 + n / 64 in
    let b = 48 + n / 8 % 8 in
    let c = 48 + n % 8 in
    if_cases (λ r. r ≡ with_polarity n byte) (is_octal a && is_octal b && is_octal c) _ _
      (λ _. ap (λ m. with_polarity m byte) (omega arith)) (λ e. absurd (ground (arith, e, h)))

with_polarity-polarity_byte :
    (n : ℕ) (p : DcsPolarity)
    → with_polarity n (polarity_byte p) ≡ ok (record { value = n; polarity = p })
unfolding polarity_byte
with_polarity-polarity_byte n normal = refl
with_polarity-polarity_byte n inverted = refl

-- Every code of nine bits is read back from its printed form.
from_str-display : (c : DcsCode) → c.value < 512 → from_str (display c) ≡ ok c
unfolding display
from_str-display c h =
    ap (λ ds. from_str (ds ++ (polarity_byte c.polarity ∷ []))) (three_digits c.value h)
    ∙ parse_digits c.value (polarity_byte c.polarity) h
    ∙ with_polarity-polarity_byte c.value c.polarity

-- The accepted spelling of the polarity is printed as a capital letter.
abbrev pub capital : ℕ → ℕ
capital byte = if byte == 110 then 78 else if byte == 105 then 73 else byte

ok_code :
    {x c : DcsCode}
    → ◌≡◌ {A = Result DcsCodeParseError DcsCode} (ok x) (ok c)
    → (P : DcsCode → Type 0) → P x
    → P c
ok_code h P x = subst P (ground arith) x

abbrev Reads : ℕ → ℕ → DcsCode → Type 0
Reads value byte c = (c.value ≡ value) × (polarity_byte c.polarity ≡ capital byte)

read_polarity :
    (value byte : ℕ) (c : DcsCode) → with_polarity value byte ≡ ok c → Reads value byte c
unfolding polarity_byte
read_polarity value byte c h =
    let Q : Result DcsCodeParseError DcsCode → Type 0 = λ r. r ≡ ok c → Reads value byte c in
    if_cases Q (byte == 78 || byte == 110) _ _
      (λ e k. ok_code k (Reads value byte) (refl, ground (arith, e)))
      (λ _.
        if_cases Q (byte == 73 || byte == 105) _ (err dcs_code_parse_error)
          (λ e k. ok_code k (Reads value byte) (refl, ground (arith, e)))
          (λ _ k. absurd (ground (arith, k))))
      h

abbrev Prints : List ℕ → DcsCode → Type 0
Prints text c = (c.value < 512) × (display c ≡ map capital text)

octal_Prints :
    (a b c byte : ℕ) (code : DcsCode)
    → is_octal a && is_octal b && is_octal c ≡ true
    → Reads ((a - 48) * 64 + (b - 48) * 8 + (c - 48)) byte code
    → Prints (a ∷ b ∷ c ∷ byte ∷ []) code
unfolding display
octal_Prints a b c byte code e (v, p) =
    let bounds : ((48 ≤ a) × (a ≤ 55)) × ((48 ≤ b) × (b ≤ 55)) × ((48 ≤ c) × (c ≤ 55)) =
      ground (arith, e) in
    let small : code.value < 512 = omega (arith, v, bounds) in
    let same_a : a ≡ capital a = ground (arith, bounds.0) in
    let same_b : b ≡ capital b = ground (arith, bounds.1.0) in
    let same_c : c ≡ capital c = ground (arith, bounds.1.1) in
    (
      small,
      ap (λ ds. ds ++ (polarity_byte code.polarity ∷ []))
            (three_digits code.value small
              ∙ same_three (omega (arith, v, bounds)) (omega (arith, v, bounds))
                  (omega (arith, v, bounds))
              ∙ same_three same_a same_b same_c)
          ∙ ap (λ d. capital a ∷ capital b ∷ capital c ∷ d ∷ []) p,
    )

-- A text that is accepted is a code of nine bits, and what that code prints is the text with its
-- last letter a capital.
display-from_str :
    (text : List ℕ) (code : DcsCode)
    → from_str text ≡ ok code
    → (code.value < 512) × (display code ≡ map capital text)
unfolding from_str
display-from_str [] code h = absurd (ground (arith, h))
display-from_str (a ∷ []) code h = absurd (ground (arith, h))
display-from_str (a ∷ b ∷ []) code h = absurd (ground (arith, h))
display-from_str (a ∷ b ∷ c ∷ []) code h = absurd (ground (arith, h))
display-from_str (a ∷ b ∷ c ∷ d ∷ e ∷ rest) code h = absurd (ground (arith, h))
display-from_str (a ∷ b ∷ c ∷ d ∷ []) code h =
    let Q : Result DcsCodeParseError DcsCode → Type 0 =
      λ r. r ≡ ok code → Prints (a ∷ b ∷ c ∷ d ∷ []) code in
    if_cases Q (is_octal a && is_octal b && is_octal c) _ (err dcs_code_parse_error)
      (λ e k. octal_Prints a b c d code e (read_polarity _ d code k))
      (λ _ k. absurd (ground (arith, k))) h

is_octal-capital : (byte : ℕ) → is_octal (capital byte) ≡ is_octal byte
is_octal-capital byte = ground arith

with_polarity-capital : (n byte : ℕ) → with_polarity n (capital byte) ≡ with_polarity n byte
with_polarity-capital n byte =
    if_cases (λ x. with_polarity n x ≡ with_polarity n byte) (byte == 110) _ _
      (λ e. let same : byte ≡ 110 = ground (arith, e) in ap (with_polarity n) (sym same))
      (λ _.
        if_cases (λ x. with_polarity n x ≡ with_polarity n byte) (byte == 105) _ _
          (λ e. let same : byte ≡ 105 = ground (arith, e) in ap (with_polarity n) (sym same))
          (λ _. refl))

not_octal :
    (a b c byte : ℕ)
    → is_octal a && is_octal b && is_octal c ≡ false
    → from_str (a ∷ b ∷ c ∷ byte ∷ []) ≡ err dcs_code_parse_error
unfolding from_str
not_octal a b c byte e =
    let value = (a - 48) * 64 + (b - 48) * 8 + (c - 48) in
    ap (λ t. if t then with_polarity value byte else err dcs_code_parse_error) e

last_letter :
    (a b c byte : ℕ) → from_str (a ∷ b ∷ c ∷ capital byte ∷ []) ≡ from_str (a ∷ b ∷ c ∷ byte ∷ [])
unfolding from_str
last_letter a b c byte =
    ap (λ r. if is_octal a && is_octal b && is_octal c then r else err dcs_code_parse_error)
      (with_polarity-capital ((a - 48) * 64 + (b - 48) * 8 + (c - 48)) byte)

octal_text-capital :
    (a b c byte : ℕ)
    → from_str (map capital (a ∷ b ∷ c ∷ byte ∷ [])) ≡ from_str (a ∷ b ∷ c ∷ byte ∷ [])
octal_text-capital a b c byte = elim (Bool-cases (is_octal a && is_octal b && is_octal c)) [
  | inl e ↦
      let same_a : capital a ≡ a = ground (arith, e) in
      let same_b : capital b ≡ b = ground (arith, e) in
      let same_c : capital c ≡ c = ground (arith, e) in
      ap (λ ds. from_str (ds ++ (capital byte ∷ []))) (same_three same_a same_b same_c)
      ∙ last_letter a b c byte
  | inr e ↦
      let x = is_octal-capital a in
      let y = is_octal-capital b in
      let z = is_octal-capital c in
      not_octal (capital a) (capital b) (capital c) (capital byte) (
        ap (λ t. t && is_octal (capital b) && is_octal (capital c)) x
        ∙ ap (λ t. is_octal a && t && is_octal (capital c)) y
        ∙ ap (λ t. is_octal a && is_octal b && t) z
        ∙ e)
      ∙ sym (not_octal a b c byte e)
]

from_str-capital : (text : List ℕ) → from_str (map capital text) ≡ from_str text
unfolding from_str
from_str-capital [] = refl
from_str-capital (a ∷ []) = refl
from_str-capital (a ∷ b ∷ []) = refl
from_str-capital (a ∷ b ∷ c ∷ []) = refl
from_str-capital (a ∷ b ∷ c ∷ d ∷ e ∷ rest) = refl
from_str-capital (a ∷ b ∷ c ∷ d ∷ []) = octal_text-capital a b c d

-- A text is accepted as a DCS code exactly when the code has nine bits and prints as that text,
-- up to the case of a final n or i: parsing and printing are inverse, and nothing else is
-- accepted.
pub from_str_iff :
    (text : List ℕ) (code : DcsCode)
    → (from_str text ≡ ok code) ↔ ((code.value < 512) × (display code ≡ map capital text))
from_str_iff text code = (
  display-from_str text code,
  λ (bound, e). sym (from_str-capital text) ∙ ap from_str (sym e) ∙ from_str-display code bound,
)
