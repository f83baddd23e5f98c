-- ===== src/Handoff/Steps.antt =====
-- Every operation of `push` and `pop` in rust/asl3/src/handoff.rs keeps the handoff's invariant.
use native.Mathlib.Nat.{mod-eq_of_lt, add-zero}
use usbradio_plus.Prelude.{
  ℕ, ◌+◌, ◌-◌, ◌%◌, ◌<◌, ◌≡◌, inl, inr, refl, ap, true, false, some, List, [], ◌∷◌, length,
  get_elem?, length-set, get_elem?-set_self, length-append, Bool-cases, ==_iff, ◌==◌, arith,
}
use usbradio_plus.Handoff.{
  reading, index_of, next_index, distance, Shared, PushPoint, push_idle, load_consumer, write_free,
  store_free, open_generation, reload_consumer, exchange, count_skipped, write_stale, store_stale,
  close_generation, count_dropped, close_dropped, PopPoint, pop_idle, load_generation, load_state,
  load_producer, take_claim, recheck, restore, copy_slot, release_claim, push_step, pop_step,
}
use usbradio_plus.Handoff.Queue.{Allows}
use usbradio_plus.Handoff.Window.{
  Holds-set, Holds-snoc, tail-snoc, tail-tail, room_of_ne, distance_lem, nonempty_of_ne,
}
use usbradio_plus.Handoff.Inv.{
  Inv, after, PopOk-set, PopOk-snoc, PopOk-exchange, in_gap-resync, PushOk-tail,
}

module _ {A : Type 0} where
  -- The exchange succeeds: no claim is held, and the whole queue is skipped.
  exchange_won :
      (n : ℕ) (m : Shared A) (x : A) (k : ℕ) (c : PopPoint A) (q : List A)
      → Inv n m (exchange x k) c q
      → m.consumer_state ≡ k
      → let d = distance k m.producer (length m.slots) in
        ((d ≡ length q) × (◌≡◌ {A = List A} [] []))
        × Inv n (record m { consumer_state = m.producer }) (count_skipped x d) c []
  unfolding distance
  exchange_won n m x k c q v e =
      let start : index_of m.consumer_state ≡ k = omega arith in
      let inside : m.producer < n = omega arith in
      (
        (
          rw v.slots_len
              (distance_lem n k (length q) m.producer v.push_ok v.fits (rw start at v.tail)),
          refl,
        ),
        ground (
          arith,
          add-zero m.producer,
          mod-eq_of_lt {n = m.producer} {m = n} inside,
          mod-eq_of_lt {n = m.producer} {m = reading},
          PopOk-exchange m.slots m.consumer_state m.producer q c,
        ),
      )

  -- Each operation of `push` acts on the queue as its event says, whatever `pop` is doing.
  pub push_step-Inv :
      (n : ℕ) (m : Shared A) (p : PushPoint A) (c : PopPoint A) (q : List A)
      → Inv n m p c q
      → let (m', p', e) = push_step m p in
        Allows (n - 1) q e (after q e) × Inv n m' p' c (after q e)
  unfolding push_step
  push_step-Inv n m push_idle c q v = (refl, v)
  push_step-Inv n m (load_consumer x) c q v = ground (
    arith,
    room_of_ne n (index_of m.consumer_state) (length q) m.producer v.index_in v.fits v.tail,
  )
  push_step-Inv n m (write_free x) c q v = (
    refl,
    ground (
      arith,
      length-set m.slots m.producer (some x),
      get_elem?-set_self m.slots m.producer (some x),
      Holds-set m.slots n (index_of m.consumer_state) q m.producer x,
      PopOk-set m.slots m.consumer_state n m.producer false q c x,
    ),
  )
  push_step-Inv n m (store_free x) c q v = (
    (omega arith, refl),
    ground (
      arith,
      length-append q (x ∷ []),
      tail-snoc n (index_of m.consumer_state) (length q) m.producer,
      Holds-snoc m.slots n (index_of m.consumer_state) q m.producer x,
      PopOk-snoc m.slots m.consumer_state false q c x,
    ),
  )
  push_step-Inv n m (open_generation x) c q v = ground arith
  push_step-Inv n m (reload_consumer x) c q v = ground arith
  push_step-Inv n m (exchange x k) c q v = elim (Bool-cases (m.consumer_state == k)) [
    | inl same ↦ rw same (exchange_won n m x k c q v ((==_iff m.consumer_state k).0 same))
    | inr other ↦ rw other (refl, ground arith)
  ]
  push_step-Inv n m (count_skipped x k) c q v = ground arith
  push_step-Inv n m (write_stale x) c q v = (
    refl,
    ground (
      arith,
      length-set m.slots m.producer (some x),
      get_elem?-set_self m.slots m.producer (some x),
      Holds-set m.slots n (index_of m.consumer_state) q m.producer x,
      PopOk-set m.slots m.consumer_state n m.producer true q c x,
    ),
  )
  push_step-Inv n m (store_stale x) c q v = (
    (v.push_ok.0, rw v.push_ok.0),
    ground (
      arith,
      length-append q (x ∷ []),
      ap length v.push_ok.0,
      tail-snoc n (index_of m.consumer_state) (length q) m.producer,
      Holds-snoc m.slots n (index_of m.consumer_state) q m.producer x,
      PopOk-snoc m.slots m.consumer_state true q c x,
    ),
  )
  push_step-Inv n m close_generation c q v = ground arith
  push_step-Inv n m (count_dropped x) c q v = ground arith
  push_step-Inv n m (close_dropped x) c q v = ground arith

  -- Each operation of `pop` acts on the queue as its event says, whatever `push` is doing.
  pub pop_step-Inv :
      (n : ℕ) (m : Shared A) (p : PushPoint A) (c : PopPoint A) (q : List A)
      → Inv n m p c q
      → let (m', c', e) = pop_step m c in Allows (n - 1) q e (after q e) × Inv n m' p c' (after q e)
  unfolding pop_step next_index
  pop_step-Inv n m p pop_idle q v = (refl, v)
  pop_step-Inv n m p load_generation q v = ground arith
  pop_step-Inv n m p (load_state g) q v = ground arith
  pop_step-Inv n m p (load_producer g i) q v =
      ground (
        arith,
        nonempty_of_ne n (index_of m.consumer_state) (length q) m.producer v.index_in v.tail,
      )
  pop_step-Inv n m p (take_claim g) q v = ground arith
  pop_step-Inv n m p (recheck g i) q v = ground (arith, in_gap-resync p)
  pop_step-Inv n m p (restore i) q v = ground arith
  pop_step-Inv n m p (copy_slot i) [] v = absurd (omega arith)
  pop_step-Inv n m p (copy_slot i) (x ∷ q) v =
      let here : index_of m.consumer_state ≡ i = omega arith in
      (refl, ground (arith, rw here at v.held.0))
  pop_step-Inv n m p (release_claim i o) [] v = absurd (omega arith)
  pop_step-Inv n m p (release_claim i o) (x ∷ q) v =
      let here : index_of m.consumer_state ≡ i = omega arith in
      let held : get_elem? m.slots i ≡ some (some x) = rw here at v.held.0 in
      (
        (x, cc held, refl),
        rw (v.slots_len, ← here)
            (record {
              slots_len = v.slots_len;
              at_least = v.at_least;
              at_most = v.at_most;
              index_in = rw stays (omega arith);
              tail =
                  rw stays (tail-tail n (index_of m.consumer_state) (length q) m.producer v.tail);
              fits = omega arith;
              word_in = v.word_in;
              parity = v.parity;
              held = rw stays v.held.1;
              push_ok = PushOk-tail m.slots m.producer n x q p v.pop_ok.2 v.push_ok;
              pop_ok = omega arith;
            }),
      )
    where
      stays : ((index_of m.consumer_state + 1) % n) % reading ≡ (index_of m.consumer_state + 1) % n
      stays = omega (arith, v.at_least, v.at_most)
