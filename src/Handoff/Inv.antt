-- ===== src/Handoff/Inv.antt =====
-- The invariant of the handoff of rust/asl3/src/handoff.rs at every point of `push` and of `pop`.
use usbradio_plus.Prelude.{
  ℕ, ◌+◌, ◌%◌, ◌≤◌, ◌<◌, ◌≡◌, ◌≢◌, ◌⊎◌, inr, refl, ◌∙◌, Bool, true, false, Option, none, some, List,
  [], ◌∷◌, ◌++◌, length, get_elem?, set, get_elem?-set_ne, length-append, arith,
}
use usbradio_plus.Handoff.{
  reading, word, index_of, Shared, PushPoint, push_idle, load_consumer, write_free, store_free,
  open_generation, reload_consumer, exchange, count_skipped, write_stale, store_stale,
  close_generation, count_dropped, close_dropped, PopPoint, pop_idle, load_generation, load_state,
  load_producer, take_claim, recheck, restore, copy_slot, release_claim, Event, skipped, returned,
  published, replaced_stale, delivered,
}
use usbradio_plus.Handoff.Window.{Holds, tail-ne}

module _ {A : Type 0} where
  -- The queue is cleared and its replacement is not visible yet.
  abbrev pub in_gap : PushPoint A → Bool
  in_gap (count_skipped v n) = true
  in_gap (write_stale v) = true
  in_gap (store_stale v) = true
  in_gap _ = false

  -- 1 while the producer holds the generation odd.
  abbrev pub resync : PushPoint A → ℕ
  resync push_idle = 0
  resync (load_consumer v) = 0
  resync (write_free v) = 0
  resync (store_free v) = 0
  resync (open_generation v) = 0
  resync _ = 1

  -- What the producer relies on at each point: room, and a written slot before its store.
  abbrev pub PushOk : List (Option A) → ℕ → ℕ → List A → PushPoint A → Type 0
  PushOk slots p n q (write_free v) = length q + 1 < n
  PushOk slots p n q (store_free v) = (length q + 1 < n) × (get_elem? slots p ≡ some (some v))
  PushOk slots p n q (exchange v c) = c < n
  PushOk slots p n q (count_skipped v k) = q ≡ []
  PushOk slots p n q (write_stale v) = q ≡ []
  PushOk slots p n q (store_stale v) = (q ≡ []) × (get_elem? slots p ≡ some (some v))
  PushOk slots p n q _ = Unit {0}

  -- What the consumer relies on. The claim bit is set from `recheck` on; outside the gap a consumer
  -- that passed its empty check has a value to take.
  abbrev pub PopOk : List (Option A) → ℕ → Bool → List A → PopPoint A → Type 0
  PopOk slots s gap q pop_idle = s < reading
  PopOk slots s gap q load_generation = s < reading
  PopOk slots s gap q (load_state g) = (s < reading) × (g % 2 ≡ 0)
  PopOk slots s gap q (load_producer g c) =
      (s < reading) × (g % 2 ≡ 0) × (gap ≡ false → (c ≡ index_of s) ⊎ (0 < length q))
  PopOk slots s gap q (take_claim g) = (s < reading) × (g % 2 ≡ 0) × (gap ≡ false → 0 < length q)
  PopOk slots s gap q (recheck g i) =
      (s ≡ i + reading) × (i < reading) × (g % 2 ≡ 0) × (gap ≡ false → 0 < length q)
  PopOk slots s gap q (restore i) = (s ≡ i + reading) × (i < reading)
  PopOk slots s gap q (copy_slot i) =
      (s ≡ i + reading) × (i < reading) × (gap ≡ false) × (0 < length q)
  PopOk slots s gap q (release_claim i o) =
      (s ≡ i + reading)
      × (i < reading)
      × (gap ≡ false)
      × (0 < length q)
      × (get_elem? slots i ≡ some o)
      × (o ≢ none)

  -- `n` slots hold the queue `q`.
  pub record Inv (n : ℕ) (m : Shared A) (p : PushPoint A) (c : PopPoint A) (q : List A)
      : Type 0 where
    pub slots_len : length m.slots ≡ n
    pub at_least : 2 ≤ n
    pub at_most : n < reading
    pub index_in : index_of m.consumer_state < n
    pub tail : m.producer ≡ (index_of m.consumer_state + length q) % n
    pub fits : length q < n
    pub word_in : m.generation < word
    pub parity : m.generation % 2 ≡ resync p
    pub held : Holds m.slots n (index_of m.consumer_state) q
    pub push_ok : PushOk m.slots m.producer n q p
    pub pop_ok : PopOk m.slots m.consumer_state (in_gap p) q c

  -- The queue after an event.
  abbrev pub after : List A → Event A → List A
  after q (skipped n) = []
  after q (returned published v) = q ++ (v ∷ [])
  after q (returned replaced_stale v) = q ++ (v ∷ [])
  after [] (delivered o) = []
  after (x ∷ q) (delivered o) = q
  after q _ = q

  -- How the consumer's part fares under the producer's writes, stores and exchange.
  pub PopOk-set :
      (slots : List (Option A)) (s n p : ℕ) (g : Bool) (q : List A) (c : PopPoint A) (x : A)
      → index_of s < n
      → n < reading
      → p ≡ (index_of s + length q) % n
      → length q < n
      → PopOk slots s g q c
      → PopOk (set slots p (some x)) s g q c
  PopOk-set slots s n p g q (release_claim i o) x hi hn e hq h =
      (h.0, h.1, h.2, h.3, get_elem?-set_ne slots p i (some x) apart ∙ h.4, h.5)
    where
      apart : p ≢ i
      apart r = tail-ne n (index_of s) (length q) p hi h.3 hq e (omega arith)
  PopOk-set slots s n p g q pop_idle x hi hn e hq h = h
  PopOk-set slots s n p g q load_generation x hi hn e hq h = h
  PopOk-set slots s n p g q (load_state k) x hi hn e hq h = h
  PopOk-set slots s n p g q (load_producer k i) x hi hn e hq h = h
  PopOk-set slots s n p g q (take_claim k) x hi hn e hq h = h
  PopOk-set slots s n p g q (recheck k i) x hi hn e hq h = h
  PopOk-set slots s n p g q (restore i) x hi hn e hq h = h
  PopOk-set slots s n p g q (copy_slot i) x hi hn e hq h = h

  pub PopOk-snoc :
      (slots : List (Option A)) (s : ℕ) (g : Bool) (q : List A) (c : PopPoint A) (x : A)
      → PopOk slots s g q c
      → PopOk slots s false (q ++ (x ∷ [])) c
  PopOk-snoc slots s g q pop_idle x h = h
  PopOk-snoc slots s g q load_generation x h = h
  PopOk-snoc slots s g q (load_state k) x h = h
  PopOk-snoc slots s g q (load_producer k i) x h =
      (h.0, h.1, λ _. inr (omega (arith, length-append q (x ∷ []))))
  PopOk-snoc slots s g q (take_claim k) x h =
      (h.0, h.1, λ _. omega (arith, length-append q (x ∷ [])))
  PopOk-snoc slots s g q (recheck k i) x h =
      (h.0, h.1, h.2, λ _. omega (arith, length-append q (x ∷ [])))
  PopOk-snoc slots s g q (restore i) x h = h
  PopOk-snoc slots s g q (copy_slot i) x h =
      (h.0, h.1, refl, omega (arith, length-append q (x ∷ [])))
  PopOk-snoc slots s g q (release_claim i o) x h =
      (h.0, h.1, refl, omega (arith, length-append q (x ∷ [])), h.4, h.5)

  pub PopOk-exchange :
      (slots : List (Option A)) (s p : ℕ) (q : List A) (c : PopPoint A)
      → s < reading
      → p < reading
      → PopOk slots s false q c
      → PopOk slots p true [] c
  PopOk-exchange slots s p q pop_idle k l h = l
  PopOk-exchange slots s p q load_generation k l h = l
  PopOk-exchange slots s p q (load_state g) k l h = (l, h.1)
  PopOk-exchange slots s p q (load_producer g i) k l h = (l, h.1, λ e. cc)
  PopOk-exchange slots s p q (take_claim g) k l h = (l, h.1, λ e. cc)
  PopOk-exchange slots s p q (recheck g i) k l h = absurd (omega arith)
  PopOk-exchange slots s p q (restore i) k l h = absurd (omega arith)
  PopOk-exchange slots s p q (copy_slot i) k l h = absurd (omega arith)
  PopOk-exchange slots s p q (release_claim i o) k l h = absurd (omega arith)

  pub in_gap-resync : (p : PushPoint A) → resync p ≡ 0 → in_gap p ≡ false
  in_gap-resync (count_skipped v n) h = absurd (omega arith)
  in_gap-resync (write_stale v) h = absurd (omega arith)
  in_gap-resync (store_stale v) h = absurd (omega arith)
  in_gap-resync _ h = refl

  -- Taking the oldest value costs the producer nothing outside the gap.
  pub PushOk-tail :
      (slots : List (Option A)) (i n : ℕ) (x : A) (q : List A) (p : PushPoint A)
      → in_gap p ≡ false
      → PushOk slots i n (x ∷ q) p
      → PushOk slots i n q p
  PushOk-tail slots i n x q (write_free v) g h = omega arith
  PushOk-tail slots i n x q (store_free v) g h = (omega arith, h.1)
  PushOk-tail slots i n x q (count_skipped v k) g h = cc
  PushOk-tail slots i n x q (write_stale v) g h = cc
  PushOk-tail slots i n x q (store_stale v) g h = cc
  PushOk-tail slots i n x q push_idle g h = h
  PushOk-tail slots i n x q (load_consumer v) g h = h
  PushOk-tail slots i n x q (open_generation v) g h = h
  PushOk-tail slots i n x q (reload_consumer v) g h = h
  PushOk-tail slots i n x q (exchange v c) g h = h
  PushOk-tail slots i n x q close_generation g h = h
  PushOk-tail slots i n x q (count_dropped v) g h = h
  PushOk-tail slots i n x q (close_dropped v) g h = h
