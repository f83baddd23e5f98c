-- ===== src/Handoff/Queue.antt =====
-- What the handoff of rust/asl3/src/handoff.rs promises: a bounded queue that a push into a full
-- buffer empties, and that hands its values out in order.
use mathlib.Core.List.{Sublistᴰ}
use usbradio_plus.Prelude.{
  ℕ, ◌+◌, ◌<◌, ◌≡◌, refl, ap, some, List, [], ◌∷◌, ◌++◌, append_assoc, append-nil, length,
  length-append, arith,
}
use usbradio_plus.Handoff.{
  published, replaced_stale, dropped_during_read, Event, quiet, skipped, returned, delivered,
  found_empty,
}

module _ {A : Type 0} where
  -- How an event moves the queue `q` of at most `bound` values to `q'`.
  abbrev pub Allows : ℕ → List A → Event A → List A → Type 0
  Allows bound q quiet q' = q' ≡ q
  Allows bound q found_empty q' = q' ≡ q
  Allows bound q (skipped n) q' = (n ≡ length q) × (q' ≡ [])
  Allows bound q (returned dropped_during_read v) q' = q' ≡ q
  Allows bound q (returned published v) q' = (length q < bound) × (q' ≡ q ++ (v ∷ []))
  Allows bound q (returned replaced_stale v) q' = (q ≡ []) × (q' ≡ v ∷ [])
  Allows bound q (delivered o) q' = (v : A) × (o ≡ some v) × (q ≡ v ∷ q')

  abbrev pub Traces : ℕ → List A → List (Event A) → List A → Type 0
  Traces bound q [] q' = q' ≡ q
  Traces bound q (e ∷ es) q' = (r : List A) × Allows bound q e r × Traces bound r es q'

  -- The values that became visible, the values that `pop` returned, and how many were skipped.
  abbrev pub accepted : List (Event A) → List A
  accepted [] = []
  accepted (returned published v ∷ es) = v ∷ accepted es
  accepted (returned replaced_stale v ∷ es) = v ∷ accepted es
  accepted (_ ∷ es) = accepted es

  abbrev pub outputs : List (Event A) → List A
  outputs [] = []
  outputs (delivered (some v) ∷ es) = v ∷ outputs es
  outputs (_ ∷ es) = outputs es

  abbrev pub skips : List (Event A) → ℕ
  skips [] = 0
  skips (skipped n ∷ es) = n + skips es
  skips (_ ∷ es) = skips es

  Sublistᴰ-refl : (xs : List A) → Sublistᴰ xs xs
  Sublistᴰ-refl [] = Sublistᴰ.slnil
  Sublistᴰ-refl (x ∷ xs) = Sublistᴰ.cons-cons refl (Sublistᴰ-refl xs)

  Sublistᴰ-append : (ys : List A) {xs zs : List A} → Sublistᴰ xs zs → Sublistᴰ xs (ys ++ zs)
  Sublistᴰ-append [] h = h
  Sublistᴰ-append (y ∷ ys) h = Sublistᴰ.cons (Sublistᴰ-append ys h)

  -- What is handed out, and then what is left, is a part of what was there and what came, in order.
  pub outputs-Sublistᴰ :
      (bound : ℕ) (q : List A) (es : List (Event A)) (q' : List A)
      → Traces bound q es q'
      → Sublistᴰ (outputs es ++ q') (q ++ accepted es)
  outputs-Sublistᴰ bound q [] q' h = rw (append-nil, h) (Sublistᴰ-refl q)
  outputs-Sublistᴰ bound q (quiet ∷ es) q' (r, a, t) = rw (← a) (outputs-Sublistᴰ bound r es q' t)
  outputs-Sublistᴰ bound q (found_empty ∷ es) q' (r, a, t) =
      rw (← a) (outputs-Sublistᴰ bound r es q' t)
  outputs-Sublistᴰ bound q (skipped n ∷ es) q' (r, a, t) =
      Sublistᴰ-append q (rw a.1 at (outputs-Sublistᴰ bound r es q' t))
  outputs-Sublistᴰ bound q (returned dropped_during_read v ∷ es) q' (r, a, t) =
      rw (← a) (outputs-Sublistᴰ bound r es q' t)
  outputs-Sublistᴰ bound q (returned published v ∷ es) q' (r, a, t) =
      rw append_assoc at (rw a.1 at (outputs-Sublistᴰ bound r es q' t))
  outputs-Sublistᴰ bound q (returned replaced_stale v ∷ es) q' (r, a, t) =
      rw a.0 (rw a.1 at (outputs-Sublistᴰ bound r es q' t))
  outputs-Sublistᴰ bound q (delivered o ∷ es) q' (r, (v, e, f), t) =
      rw (e, f) (Sublistᴰ.cons-cons refl (outputs-Sublistᴰ bound r es q' t))

  -- Every value that came is handed out, skipped, or still there.
  pub accepted-count :
      (bound : ℕ) (q : List A) (es : List (Event A)) (q' : List A)
      → Traces bound q es q'
      → length q + length (accepted es) ≡ length (outputs es) + skips es + length q'
  accepted-count bound q [] q' h = rw h (omega arith)
  accepted-count bound q (quiet ∷ es) q' (r, a, t) =
      omega (arith, ap length a, accepted-count bound r es q' t)
  accepted-count bound q (found_empty ∷ es) q' (r, a, t) =
      omega (arith, ap length a, accepted-count bound r es q' t)
  accepted-count bound q (skipped n ∷ es) q' (r, a, t) =
      omega (arith, ap length a.1, accepted-count bound r es q' t)
  accepted-count bound q (returned dropped_during_read v ∷ es) q' (r, a, t) =
      omega (arith, ap length a, accepted-count bound r es q' t)
  accepted-count bound q (returned published v ∷ es) q' (r, a, t) =
      omega (arith, ap length a.1, length-append q (v ∷ []), accepted-count bound r es q' t)
  accepted-count bound q (returned replaced_stale v ∷ es) q' (r, a, t) =
      omega (arith, ap length a.0, ap length a.1, accepted-count bound r es q' t)
  accepted-count bound q (delivered o ∷ es) q' (r, (v, e, f), t) =
      rw (e, f) (omega (arith, accepted-count bound r es q' t))
