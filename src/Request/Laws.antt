-- ===== src/Request/Laws.antt =====
-- What `scalar` of rust/driver/src/remote_request.rs accepts.
use native.Mathlib.Nat.{pow-zero, pow-suc, div-add-mod, mul_assoc, mul_comm, mul_right_comm}
use usbradio_plus.Prelude.{
  ℕ, zero, suc, ◌+◌, ◌-◌, ◌*◌, ◌/◌, ◌%◌, ◌^◌, ◌≤◌, ◌≡◌, refl, sym, ap, subst, ◌∙◌, Bool, true,
  false, ◌&&◌, leb, ◌==◌, if◌then◌else◌, if_cases, bind_ok, ◌>>◌, ℤ, Result, ok, err, require,
  arith,
}
use usbradio_plus.Operation.{RemoteOperation}
use usbradio_plus.Request.{
  RemoteRequestError, invalid, unsupported, Setting, signed, is_negative, scaled, narrow_i64,
  in_units, is_allowed, is_settable, is_entry, in_range, of_value, of_magnitude, of_entry, scalar,
}

pow_add : (a b : ℕ) → 10 ^ (a + b) ≡ 10 ^ a * 10 ^ b
pow_add zero b =
    let e : 10 ^ (0 + b) ≡ 10 ^ b = ap (λ n. 10 ^ n) (omega arith) in grind (arith, e, pow-zero 10)
pow_add (suc a) b =
    let e : 10 ^ (suc a + b) ≡ 10 ^ suc (a + b) = ap (λ n. 10 ^ n) (omega arith) in
    e
    ∙ pow-suc 10 (a + b)
    ∙ ap (λ x. x * 10) (pow_add a b)
    ∙ mul_right_comm (10 ^ a) (10 ^ b) 10
    ∙ ap (λ x. x * 10 ^ b) (sym (pow-suc 10 a))

scaled_up : (m P E D : ℕ) → D ≡ E * P → (m * P) * E ≡ m * D
scaled_up m P E D h = grind (arith, h)

scaled_down : (m Q E D : ℕ) → E ≡ D * Q → m % Q ≡ 0 → (m / Q) * E ≡ m * D
scaled_down m Q E D h k =
    let q = m / Q in
    let e : Q * q ≡ m = omega (arith, div-add-mod m Q, k) in
    ap (λ x. q * x) h
    ∙ sym (mul_assoc q D Q)
    ∙ mul_comm (q * D) Q
    ∙ sym (mul_assoc Q q D)
    ∙ ap (λ x. x * D) e

power : (a b : ℕ) → a ≤ b → 10 ^ b ≡ 10 ^ a * 10 ^ (b - a)
power a b h = ap (λ n. 10 ^ n) (omega arith) ∙ pow_add a (b - a)

ok_inj :
    {a b : ℕ} → ◌≡◌ {A = Result RemoteRequestError ℕ} (ok a) (ok b) → (P : ℕ → Type 0) → P a → P b
ok_inj h P x = subst P (ground arith) x

ok_int : {a b : ℤ} → ◌≡◌ {A = Result RemoteRequestError ℤ} (ok a) (ok b) → a ≡ b
ok_int h = ground arith

-- The scaled magnitude is exactly the entered decimal: no digit is lost.
scaled-exact :
    (magnitude entered declared n : ℕ)
    → scaled magnitude entered declared ≡ ok n
    → n * 10 ^ entered ≡ magnitude * 10 ^ declared
unfolding scaled
scaled-exact m e d n h =
    let Q : Result RemoteRequestError ℕ → Type 0 = λ r. r ≡ ok n → n * 10 ^ e ≡ m * 10 ^ d in
    if_cases Q (leb e d) _ _
      (λ up k.
        ok_inj k (λ x. x * 10 ^ e ≡ m * 10 ^ d)
          (scaled_up m _ _ _ (power e d (ground (arith, up)))))
      (λ down.
        if_cases Q (m % 10 ^ (e - d) == 0) _ (err invalid)
          (λ whole k.
            ok_inj k (λ x. x * 10 ^ e ≡ m * 10 ^ d)
              (scaled_down m _ _ _ (power d e (ground (arith, down))) (ground (arith, whole))))
          (λ part k. ground (arith, k)))
      h

allowed_ok :
    (s : Setting) (u v : ℤ)
    → ◌≡◌ {A = Result RemoteRequestError ℤ} (if is_allowed s u then ok u else err invalid) (ok v)
    → (is_allowed s v ≡ true) × (u ≡ v)
allowed_ok s u v h =
    let Q : Result RemoteRequestError ℤ → Type 0 =
      λ r. r ≡ ok v → (is_allowed s v ≡ true) × (u ≡ v) in
    if_cases Q (is_allowed s u) (ok u) (err invalid)
      (λ in_range k.
        let same = ok_int k in (subst (λ x. is_allowed s x ≡ true) same in_range, same))
      (λ out k. absurd (ground (arith, k))) h

required_ok :
    (a b c : Bool) (e : RemoteRequestError) (u : Unit {0})
    → require (a && b && c) e ≡ ok u
    → a ≡ true
required_ok true b c e u h = refl
required_ok false b c e u h = ground (arith, h)

narrow_i64-signed :
    (negative : Bool) (n : ℕ) (value : ℤ)
    → narrow_i64 negative n ≡ ok value
    → signed negative n ≡ value
unfolding narrow_i64
narrow_i64-signed negative n value h = ground (arith, h)

-- A value that scalar accepts is for a writable setting and lies in its range and choices; up
-- to the units' encoding it is the entered sign with a magnitude that equals the entered
-- decimal exactly, no digit being lost to scaling.
pub scalar_lem :
    (s : Setting) (o : RemoteOperation) (v : ℤ)
    → scalar s o ≡ ok v
    → (s.writable ≡ true)
      × (is_allowed s v ≡ true)
      × ((n : ℕ) × (n * 10 ^ o.decimal_places ≡ o.magnitude * 10 ^ s.decimal_places)
          × (in_units s.units o.decimal_places (signed (is_negative o) n) ≡ ok v))
unfolding scalar narrow_i64
scalar_lem s o v h =
    let (_, writable, h1) =
      bind_ok (require (is_settable s) unsupported)
        (λ _. require (is_entry s o) invalid >> of_entry s o) v h in
    let (_, _, h2) = bind_ok (require (is_entry s o) invalid) (λ _. of_entry s o) v h1 in
    let (n, scale, h3) =
      bind_ok (scaled o.magnitude o.decimal_places s.decimal_places) (of_magnitude s o) v h2 in
    let (value, narrow, h4) = bind_ok (narrow_i64 (is_negative o) n) (of_value s o) v h3 in
    let (u, units, h5) = bind_ok (in_units s.units o.decimal_places value) (in_range s) v h4 in
    let (allowed, same) = allowed_ok s u v h5 in
    (
      required_ok s.writable (leb 1 s.value_kind) (leb s.value_kind 5) unsupported _ writable,
      allowed,
      (
        n,
        scaled-exact o.magnitude o.decimal_places s.decimal_places n scale,
        ap (in_units s.units o.decimal_places) (narrow_i64-signed (is_negative o) n value narrow)
            ∙ units
            ∙ ap ok same,
      ),
    )
