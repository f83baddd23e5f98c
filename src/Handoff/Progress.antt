-- ===== src/Handoff/Progress.antt =====
-- Progress and the discard counter of the handoff of rust/asl3/src/handoff.rs.
use usbradio_plus.Prelude.{
  ℕ, zero, suc, ◌+◌, ◌-◌, ◌%◌, ◌≤◌, ◌≡◌, refl, some, List, [], ◌∷◌, replicate, ◌==◌, if◌then◌else◌,
  arith,
}
use usbradio_plus.Handoff.{
  word, Shared, PushPoint, push_idle, load_consumer, write_free, store_free, open_generation,
  reload_consumer, exchange, count_skipped, write_stale, store_stale, close_generation,
  count_dropped, close_dropped, PopPoint, pop_idle, load_generation, load_state, load_producer,
  take_claim, recheck, restore, copy_slot, release_claim, Event, skipped, returned,
  dropped_during_read, System, Turn, call_push, producer_runs, consumer_runs, call_pop, start_push,
  turn, run, push_step, pop_step, split,
}

module _ {A : Type 0} where
  -- The most operations that `push` has still to make.
  abbrev pub push_rank : PushPoint A → ℕ
  push_rank push_idle = 0
  push_rank (load_consumer v) = 8
  push_rank (write_free v) = 2
  push_rank (store_free v) = 1
  push_rank (open_generation v) = 7
  push_rank (reload_consumer v) = 6
  push_rank (exchange v c) = 5
  push_rank (count_skipped v n) = 4
  push_rank (write_stale v) = 3
  push_rank (store_stale v) = 2
  push_rank close_generation = 1
  push_rank (count_dropped v) = 2
  push_rank (close_dropped v) = 1

  push_step-rank : (m : Shared A) (p : PushPoint A) → push_rank (push_step m p).1 ≤ push_rank p - 1
  unfolding push_step
  push_step-rank m push_idle = ground arith
  push_step-rank m _ = ground arith

  abbrev pub producer_turns : List (Turn A) → ℕ
  producer_turns [] = 0
  producer_turns (producer_runs ∷ ts) = suc (producer_turns ts)
  producer_turns (_ ∷ ts) = producer_turns ts

  abbrev pub calls_push : List (Turn A) → ℕ
  calls_push [] = 0
  calls_push (call_push v ∷ ts) = suc (calls_push ts)
  calls_push (_ ∷ ts) = calls_push ts

  run-push_rank :
      (s : System A) (ts : List (Turn A))
      → calls_push ts ≡ 0
      → push_rank (run s ts).0.push_at ≤ push_rank s.push_at - producer_turns ts
  unfolding run turn
  run-push_rank s [] h = omega arith
  run-push_rank s (call_push v ∷ ts) h = absurd (omega arith)
  run-push_rank s (call_pop ∷ ts) h = run-push_rank (turn s call_pop).0 ts h
  run-push_rank s (consumer_runs ∷ ts) h = run-push_rank (turn s consumer_runs).0 ts h
  run-push_rank s (producer_runs ∷ ts) h =
      omega (arith, push_step-rank s.shared s.push_at, run-push_rank (turn s producer_runs).0 ts h)

  idle_of_rank : (p : PushPoint A) → push_rank p ≤ 0 → p ≡ push_idle
  idle_of_rank push_idle h = refl
  idle_of_rank _ h = absurd (omega arith)

  -- Whatever the consumer does in between, a push is over after at most eight operations of the
  -- producer, if no other push is called.
  pub push_wait_free :
      (s : System A) (ts : List (Turn A))
      → calls_push ts ≡ 0
      → 8 ≤ producer_turns ts
      → (run s ts).0.push_at ≡ push_idle
  push_wait_free s ts h k = idle_of_rank _ (omega (arith, run-push_rank s ts h, bound s.push_at))
    where
      bound : (p : PushPoint A) → push_rank p ≤ 8
      bound push_idle = omega arith
      bound _ = omega arith

  -- The operations that `pop` has still to make while the producer stands still: one that read
  -- another generation gives its claim back and begins again.
  abbrev pub pop_rank : ℕ → PopPoint A → ℕ
  pop_rank g pop_idle = 0
  pop_rank g load_generation = 7
  pop_rank g (load_state k) = if k == g then 6 else 12
  pop_rank g (load_producer k i) = if k == g then 5 else 11
  pop_rank g (take_claim k) = if k == g then 4 else 10
  pop_rank g (recheck k i) = if k == g then 3 else 9
  pop_rank g (restore i) = 8
  pop_rank g (copy_slot i) = 2
  pop_rank g (release_claim i o) = 1

  pop_step-rank :
      (m : Shared A) (c : PopPoint A)
      → let (m', c', e) = pop_step m c in
        (pop_rank m.generation c' ≤ pop_rank m.generation c - 1) × (m'.generation ≡ m.generation)
  unfolding pop_step
  pop_step-rank m pop_idle = ground arith
  pop_step-rank m _ = ground arith

  run-pop_rank :
      (s : System A) (k : ℕ)
      → pop_rank s.shared.generation (run s (replicate k consumer_runs)).0.pop_at
        ≤ pop_rank s.shared.generation s.pop_at - k
  unfolding run turn
  run-pop_rank s zero = omega arith
  run-pop_rank s (suc k) =
      let s' = (turn s consumer_runs).0 in
      let (down, same) = pop_step-rank s.shared s.pop_at in
      let ih : pop_rank s.shared.generation (run s' (replicate k consumer_runs)).0.pop_at
          ≤ pop_rank s.shared.generation s'.pop_at - k =
        rw same at (run-pop_rank s' k) in
      omega arith

  pop_idle_of_rank : (g : ℕ) (c : PopPoint A) → pop_rank g c ≤ 0 → c ≡ pop_idle
  pop_idle_of_rank g pop_idle h = refl
  pop_idle_of_rank g _ h = absurd (ground arith)

  -- From every state, a pop that runs alone is over after at most twelve operations.
  pub pop_obstruction_free :
      (s : System A) → (run s (replicate 12 consumer_runs)).0.pop_at ≡ pop_idle
  pop_obstruction_free s =
      pop_idle_of_rank s.shared.generation _
        (omega (arith, run-pop_rank s 12, bound s.shared.generation s.pop_at))
    where
      bound : (g : ℕ) (c : PopPoint A) → pop_rank g c ≤ 12
      bound g pop_idle = omega arith
      bound g _ = ground arith

  -- Values lost in events, and the two points at which the counter and the events differ.
  abbrev pub loss : Event A → ℕ
  loss (skipped n) = n
  loss (returned dropped_during_read v) = 1
  loss _ = 0

  abbrev pub losses : List (Event A) → ℕ
  losses [] = 0
  losses (e ∷ es) = loss e + losses es

  abbrev pub owed : PushPoint A → ℕ
  owed (count_skipped v n) = n
  owed _ = 0

  abbrev pub early : PushPoint A → ℕ
  early (close_dropped v) = 1
  early _ = 0

  push_step-discarded :
      (m : Shared A) (p : PushPoint A)
      → let (m', p', e) = push_step m p in
        (m'.discarded + owed p' + early p) % word
        ≡ (m.discarded + owed p + loss e + early p') % word
  unfolding push_step
  push_step-discarded m push_idle = ground arith
  push_step-discarded m _ = ground arith

  start_push-owed :
      (p : PushPoint A) (v : A)
      → (owed (start_push p v) ≡ owed p) × (early (start_push p v) ≡ early p)
  start_push-owed push_idle v = omega arith
  start_push-owed _ v = omega arith

  pop_step-discarded :
      (m : Shared A) (c : PopPoint A)
      → let (m', c', e) = pop_step m c in (m'.discarded ≡ m.discarded) × (loss e ≡ 0)
  unfolding pop_step
  pop_step-discarded m pop_idle = ground arith
  pop_step-discarded m _ = ground arith

  run-discarded :
      (s : System A) (ts : List (Turn A))
      → let (s', es) = run s ts in
        (s'.shared.discarded + owed s'.push_at + early s.push_at) % word
        ≡ (s.shared.discarded + owed s.push_at + losses es + early s'.push_at) % word
  unfolding run turn
  run-discarded s [] = omega arith
  run-discarded s (producer_runs ∷ ts) =
      omega
        (arith, push_step-discarded s.shared s.push_at, run-discarded (turn s producer_runs).0 ts)
  run-discarded s (consumer_runs ∷ ts) =
      omega (arith, pop_step-discarded s.shared s.pop_at, run-discarded (turn s consumer_runs).0 ts)
  run-discarded s (call_pop ∷ ts) = omega (arith, run-discarded (turn s call_pop).0 ts)
  run-discarded s (call_push v ∷ ts) =
      omega (arith, start_push-owed s.push_at v, run-discarded (turn s (call_push v)).0 ts)

  -- From a new handoff, at every schedule after which no push is in progress, the discard
  -- counter is the number of skipped and dropped values, modulo 2^64.
  pub discarded-losses :
      (n : ℕ) (s : System A) (ts : List (Turn A))
      → split n ≡ some s
      → (run s ts).0.push_at ≡ push_idle
      → (run s ts).0.shared.discarded % word ≡ losses (run s ts).1 % word
  unfolding split
  discarded-losses n s ts h idle = ground (arith, run-discarded s ts)
