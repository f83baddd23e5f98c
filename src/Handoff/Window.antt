-- ===== src/Handoff/Window.antt =====
-- The slots of the handoff between the consumer's index and the producer's, read round the end.
use native.Mathlib.Nat.{mod-add-mod, mod-eq_of_lt, mod-eq-sub-mod, add-zero}
use native.Mathlib.Decide.{dec_lt}
use usbradio_plus.Prelude.{
  ℕ, zero, suc, ◌+◌, ◌-◌, ◌%◌, ◌<◌, ◌≡◌, ◌≢◌, sym, ap, ◌∙◌, Option, some, List, [], ◌∷◌, ◌++◌,
  length, get_elem?, set, get_elem?-set_ne, arith,
}

-- Fewer than `n` steps round the ring do not come back to the start.
pub add-mod-ne : (n i k : ℕ) → i < n → suc k < n → (i + suc k) % n ≢ i
add-mod-ne n i k hi hk = elim (dec_lt (i + suc k) n) [
  | yes p ↦ omega (arith, mod-eq_of_lt p)
  | no p ↦ omega (
    arith,
    mod-eq-sub-mod {n = i + suc k} {m = n} (omega arith),
    mod-eq_of_lt {n = i + suc k - n} {m = n} (omega arith),
  )
]

pub step-mod : (n i k : ℕ) → ((i + 1) % n + k) % n ≡ (i + suc k) % n
step-mod n i k = rw mod-add-mod (ap (λ j. j % n) (omega arith))

-- The end of a window that is neither empty nor full is not its start.
pub tail-ne : (n i k p : ℕ) → i < n → 0 < k → k < n → p ≡ (i + k) % n → p ≢ i
tail-ne n i zero p hi lo hk e = absurd (omega arith)
tail-ne n i (suc k) p hi lo hk e = λ q. add-mod-ne n i k hi hk (sym e ∙ q)

pub tail-snoc : (n i k p : ℕ) → p ≡ (i + k) % n → (p + 1) % n ≡ (i + (k + 1)) % n
tail-snoc n i k p e = rw (e, mod-add-mod) (ap (λ j. j % n) (omega arith))

-- The consumer's step past the oldest value.
pub tail-tail : (n i k p : ℕ) → p ≡ (i + suc k) % n → p ≡ ((i + 1) % n + k) % n
tail-tail n i k p e = e ∙ sym (step-mod n i k)

-- If the index after the tail is not the start, a slot more than one is free.
pub room_of_ne : (n i k p : ℕ) → i < n → k < n → p ≡ (i + k) % n → (p + 1) % n ≢ i → k + 1 < n
room_of_ne n i k p hi hk e ne = elim (dec_lt (k + 1) n) [
  | yes lt ↦ lt
  | no ge ↦ absurd (ne (tail-snoc n i k p e ∙ wrap ge))
]
  where
    wrap : ¬ (k + 1 < n) → (i + (k + 1)) % n ≡ i
    wrap ge = let full : k + 1 ≡ n = omega arith in rw full (grind arith)

-- The distance from the start of a window to its end is its length.
pub distance_lem : (n i k p : ℕ) → i < n → k < n → p ≡ (i + k) % n → (p + n - i) % n ≡ k
distance_lem n i k p hi hk e = elim (dec_lt (i + k) n) [
  | yes lt ↦ omega (
    arith,
    mod-eq_of_lt lt,
    mod-eq-sub-mod {n = p + n - i} {m = n} (omega (arith, mod-eq_of_lt lt)),
    mod-eq_of_lt {n = p + n - i - n} {m = n} (omega (arith, mod-eq_of_lt lt)),
  )
  | no ge ↦ omega (
    arith,
    mod-eq-sub-mod {n = i + k} {m = n} (omega arith),
    mod-eq_of_lt {n = i + k - n} {m = n} (omega arith),
    mod-eq_of_lt {n = p + n - i} {m = n} (
        omega (
          arith,
          mod-eq-sub-mod {n = i + k} {m = n} (omega arith),
          mod-eq_of_lt {n = i + k - n} {m = n} (omega arith),
        )),
  )
]

-- Where start and end differ the window holds something.
pub nonempty_of_ne : (n i k p : ℕ) → i < n → p ≡ (i + k) % n → i ≢ p → 0 < k
nonempty_of_ne n i zero p hi e ne = absurd (ne (sym (e ∙ rw (add-zero, mod-eq_of_lt hi))))
nonempty_of_ne n i (suc k) p hi e ne = omega arith

module _ {A : Type 0} where
  -- From index `i` on, the `n` slots hold the values of the queue.
  abbrev pub Holds : List (Option A) → ℕ → ℕ → List A → Type 0
  Holds slots n i [] = Unit {0}
  Holds slots n i (v ∷ q) = (get_elem? slots i ≡ some (some v)) × Holds slots n ((i + 1) % n) q

  -- A write past the window leaves it, and a value already past it can join.
  pub Holds-set :
      (slots : List (Option A)) (n i : ℕ) (q : List A) (j : ℕ) (v : A)
      → i < n
      → length q < n
      → j ≡ (i + length q) % n
      → Holds slots n i q
      → Holds (set slots j (some v)) n i q
  Holds-set slots n i [] j v hi hq e h = tt
  Holds-set slots n i (x ∷ q) j v hi hq e h = (
    get_elem?-set_ne slots j i (some v) (λ p. add-mod-ne n i (length q) hi hq (sym e ∙ p)) ∙ h.0,
    Holds-set slots n ((i + 1) % n) q j v (omega arith) (omega arith)
        (e ∙ sym (step-mod n i (length q))) h.1,
  )

  pub Holds-snoc :
      (slots : List (Option A)) (n i : ℕ) (q : List A) (j : ℕ) (v : A)
      → i < n
      → j ≡ (i + length q) % n
      → get_elem? slots j ≡ some (some v)
      → Holds slots n i q
      → Holds slots n i (q ++ (v ∷ []))
  Holds-snoc slots n i [] j v hi e p h = (rw (e, add-zero, mod-eq_of_lt hi) at p, tt)
  Holds-snoc slots n i (x ∷ q) j v hi e p h = (
    h.0,
    Holds-snoc slots n ((i + 1) % n) q j v (omega arith) (e ∙ sym (step-mod n i (length q))) p h.1,
  )
