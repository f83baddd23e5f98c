-- ===== src/Handoff/Runs.antt =====
-- What holds of the handoff of rust/asl3/src/handoff.rs at every schedule of its two threads.
use mathlib.Core.List.{Sublistᴰ}
use native.Mathlib.Nat.{mod-eq_of_lt}
use usbradio_plus.Prelude.{
  ℕ, ◌+◌, ◌-◌, ◌<◌, ◌≡◌, ◌≢◌, refl, true, false, Bool, Option, none, some, List, [], ◌∷◌, ◌++◌,
  length, length-replicate, arith,
}
use usbradio_plus.Handoff.{
  index_of, Shared, PushPoint, push_idle, write_free, write_stale, PopPoint, pop_idle, copy_slot,
  Event, System, Turn, call_push, producer_runs, consumer_runs, call_pop, start_push, start_pop,
  split, observe, turn, run,
}
use usbradio_plus.Handoff.Queue.{
  Allows, Traces, accepted, outputs, skips, outputs-Sublistᴰ, accepted-count,
}
use usbradio_plus.Handoff.Window.{tail-ne, distance_lem}
use usbradio_plus.Handoff.Inv.{Inv, after}
use usbradio_plus.Handoff.Steps.{push_step-Inv, pop_step-Inv}

module _ {A : Type 0} where
  -- A system of `n` slots whose queue is `q`.
  abbrev pub IsValid : ℕ → System A → List A → Type 0
  IsValid n s q = Inv n s.shared s.push_at s.pop_at q

  -- A new handoff is valid and empty.
  pub split-IsValid : (n : ℕ) {s : System A} → split n ≡ some s → IsValid n s []
  unfolding split
  split-IsValid n {s} h =
      ground (arith, length-replicate {A = Option A} n none, mod-eq_of_lt {n = 0} {m = n})

  start_push-Inv :
      (n : ℕ) (m : Shared A) (p : PushPoint A) (c : PopPoint A) (q : List A) (x : A)
      → Inv n m p c q
      → Inv n m (start_push p x) c q
  start_push-Inv n m push_idle c q x v = ground arith
  start_push-Inv n m _ c q x v = v

  start_pop-Inv :
      (n : ℕ) (m : Shared A) (p : PushPoint A) (c : PopPoint A) (q : List A)
      → Inv n m p c q
      → Inv n m p (start_pop c) q
  start_pop-Inv n m p pop_idle q v = ground arith
  start_pop-Inv n m p _ q v = v

  -- A turn of either thread moves the queue as its event says.
  pub turn-IsValid :
      (n : ℕ) (s : System A) (q : List A) (t : Turn A)
      → IsValid n s q
      → let (s', e) = turn s t in Allows (n - 1) q e (after q e) × IsValid n s' (after q e)
  unfolding turn
  turn-IsValid n s q (call_push x) v = (refl, start_push-Inv n s.shared s.push_at s.pop_at q x v)
  turn-IsValid n s q call_pop v = (refl, start_pop-Inv n s.shared s.push_at s.pop_at q v)
  turn-IsValid n s q producer_runs v = push_step-Inv n s.shared s.push_at s.pop_at q v
  turn-IsValid n s q consumer_runs v = pop_step-Inv n s.shared s.push_at s.pop_at q v

  abbrev pub after_all : List A → List (Event A) → List A
  after_all q [] = q
  after_all q (e ∷ es) = after_all (after q e) es

  -- At every schedule of the two threads from a valid handoff, the events are those of a
  -- bounded queue with one slot fewer than the buffer, and the handoff is valid with the queue
  -- that they lead to.
  pub run_refines :
      (n : ℕ) (s : System A) (q : List A) (ts : List (Turn A))
      → IsValid n s q
      → let (s', es) = run s ts in
        Traces (n - 1) q es (after_all q es) × IsValid n s' (after_all q es)
  unfolding run
  run_refines n s q [] v = (refl, v)
  run_refines n s q (t ∷ ts) v =
      let (a, v') = turn-IsValid n s q t v in
      let (tr, w) = run_refines n (turn s t).0 (after q (turn s t).1) ts v' in
      ((after q (turn s t).1, a, tr), w)

  -- From a new handoff, at every schedule, what pop returned followed by what waits is an
  -- ordered part of the values that push made visible; each of those is popped, counted as
  -- skipped, or still waiting, and fewer wait than there are slots.
  pub delivered_in_order :
      (n : ℕ) (s : System A) (ts : List (Turn A))
      → split n ≡ some s
      → let es = (run s ts).1 in
        let left = after_all [] es in
        Sublistᴰ (outputs es ++ left) (accepted es)
        × (length (accepted es) ≡ length (outputs es) + skips es + length left)
        × (length left < n)
  delivered_in_order n s ts h =
      let (tr, v) = run_refines n s [] ts (split-IsValid n h) in
      (
        outputs-Sublistᴰ (n - 1) [] (run s ts).1 _ tr,
        omega (arith, accepted-count (n - 1) [] (run s ts).1 _ tr),
        v.fits,
      )

  abbrev pub writes : PushPoint A → Bool
  writes (write_free v) = true
  writes (write_stale v) = true
  writes _ = false

  abbrev pub copies : PopPoint A → Option ℕ
  copies (copy_slot i) = some i
  copies _ = none

  Inv-no_race :
      (n : ℕ) (m : Shared A) (p : PushPoint A) (c : PopPoint A) (q : List A) (i : ℕ)
      → Inv n m p c q
      → writes p ≡ true
      → copies c ≡ some i
      → m.producer ≢ i
  Inv-no_race n m p (copy_slot j) q i v w r = ground (
    arith,
    tail-ne n (index_of m.consumer_state) (length q) m.producer v.index_in v.pop_ok.3 v.fits v.tail,
  )
  Inv-no_race n m p _ q i v w r = ground arith

  -- From a new handoff, at every schedule, while push writes a slot and pop copies one, they
  -- are different slots.
  pub no_race :
      (n : ℕ) (s : System A) (ts : List (Turn A)) (i : ℕ)
      → split n ≡ some s
      → writes (run s ts).0.push_at ≡ true
      → copies (run s ts).0.pop_at ≡ some i
      → (run s ts).0.shared.producer ≢ i
  no_race n s ts i h =
      let s' = (run s ts).0 in
      let (tr, v) = run_refines n s [] ts (split-IsValid n h) in
      Inv-no_race n s'.shared s'.push_at s'.pop_at _ i v

  -- In a valid handoff, also inside either operation, the available number that observe reports
  -- is the length of the queue.
  pub observe-available :
      (n : ℕ) (s : System A) (q : List A) → IsValid n s q → (observe s.shared).available ≡ length q
  unfolding observe
  observe-available n s q v = rw v.slots_len (
      distance_lem n (index_of s.shared.consumer_state) (length q) s.shared.producer v.index_in
        v.fits v.tail)
