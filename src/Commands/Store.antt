-- ===== src/Commands/Store.antt =====
-- The bounded queue of the crossbeam library, as far as rust/driver/src/remote_base.rs uses it, and
-- the store of tickets.
use usbradio_plus.Prelude.{
  ℕ, zero, suc, ◌<◌, ◌≤◌, ◌≡◌, refl, ◌↔◌, ◌⊎◌, Bool, true, false, Option, none, some, List, [], ◌∷◌,
  ◌++◌, length, get_elem?, ◌==◌, arith,
}

-- `push` answers with the queue, or with nothing when it is full.
pub record ArrayQueue (Q A : Type 0) : Type 0 where
  pub new : ℕ → Q
  pub push : Q → A → Option Q
  pub pop : Q → Option (A × Q)
  pub is_empty : Q → Bool

-- A queue is first in, first out, and bounded by the capacity that it was made with.
pub record IsArrayQueue {Q A : Type 0} (ops : ArrayQueue Q A) : Type 0 where
  pub items : Q → List A
  pub capacity : Q → ℕ
  pub items-new : (n : ℕ) → 0 < n → items (ops.new n) ≡ []
  pub capacity-new : (n : ℕ) → 0 < n → capacity (ops.new n) ≡ n
  pub push_cases :
      (q : Q) (a : A)
      → ((ops.push q a ≡ none) × (capacity q ≤ length (items q)))
        ⊎ ((r : Q) × (ops.push q a ≡ some r)
            × (length (items q) < capacity q)
            × (items r ≡ items q ++ (a ∷ []))
            × (capacity r ≡ capacity q))
  pub pop_cases :
      (q : Q)
      → ((ops.pop q ≡ none) × (items q ≡ []))
        ⊎ ((a : A) × (r : Q) × (ops.pop q ≡ some (a, r))
            × (items q ≡ a ∷ items r)
            × (capacity r ≡ capacity q))
  pub is_empty_iff : (q : Q) → (ops.is_empty q ≡ true) ↔ (items q ≡ [])

-- `let _ = queue.push(value)`
abbrev pub push_or_keep : {Q A : Type 0} → ArrayQueue Q A → Q → A → Q
push_or_keep ops q a = elim (ops.push q a) [ none ↦ q | some r ↦ r ]

-- A change of the ticket with this number.
abbrev pub modify : {A : Type 0} → ℕ → (A → A) → List A → List A
modify i f [] = []
modify zero f (x ∷ xs) = f x ∷ xs
modify (suc i) f (x ∷ xs) = x ∷ modify i f xs

abbrev pub map_some : {A B : Type 0} → (A → B) → Option A → Option B
map_some f none = none
map_some f (some a) = some (f a)

pub get_elem?-modify_self :
    {A : Type 0} (i : ℕ) (f : A → A) (xs : List A)
    → get_elem? (modify i f xs) i ≡ map_some f (get_elem? xs i)
get_elem?-modify_self i f [] = refl
get_elem?-modify_self zero f (x ∷ xs) = refl
get_elem?-modify_self (suc i) f (x ∷ xs) = get_elem?-modify_self i f xs

pub get_elem?-modify_ne :
    {A : Type 0} (i j : ℕ) (f : A → A) (xs : List A)
    → (j == i) ≡ false
    → get_elem? (modify i f xs) j ≡ get_elem? xs j
get_elem?-modify_ne i j f [] h = refl
get_elem?-modify_ne zero zero f (x ∷ xs) h = absurd (ground (arith, h))
get_elem?-modify_ne zero (suc j) f (x ∷ xs) h = refl
get_elem?-modify_ne (suc i) zero f (x ∷ xs) h = refl
get_elem?-modify_ne (suc i) (suc j) f (x ∷ xs) h = get_elem?-modify_ne i j f xs (ground (arith, h))
