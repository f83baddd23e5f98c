-- ===== src/Handoff.antt =====
-- rust/asl3/src/handoff.rs: the bounded newest-audio handoff, one atomic operation to a step.
-- Atomic operations are taken in one total order (sequential consistency); a word is 64 bits.
pub mod Queue
pub mod Window
pub mod Inv
pub mod Steps
pub mod Runs
pub mod Progress
mod Tests
use usbradio_plus.Prelude.{
  ℕ, ◌+◌, ◌-◌, ◌%◌, ◌^◌, ◌&&◌, Option, none, some, List, [], ◌∷◌, ltb, leb, ◌==◌, if◌then◌else◌,
  length, get_elem?, set, replicate,
}

-- `READING`, the top bit of a `usize`; the bits below it are `INDEX_MASK`.
abbrev pub reading : ℕ
reading = 2 ^ 63

abbrev pub word : ℕ
word = 2 ^ 64

-- `state & INDEX_MASK`
abbrev pub index_of : ℕ → ℕ
index_of state = state % reading

-- `state | READING`
abbrev pub claim : ℕ → ℕ
claim state = if ltb state reading then state + reading else state

unfoldable pub next_index : ℕ → ℕ → ℕ
next_index index count = (index + 1) % count

unfoldable pub distance : ℕ → ℕ → ℕ → ℕ
distance first second count = (second + count - first) % count

pub data PublishOutcome : Type 0 where
  published replaced_stale dropped_during_read : PublishOutcome

-- `struct Shared`. A slot that was never written is `none`.
pub record Shared (A : Type 0) : Type 0 where
  pub slots : List (Option A)
  pub producer : ℕ
  pub consumer_state : ℕ
  pub generation : ℕ
  pub discarded : ℕ

pub record HandoffObservation : Type 0 where
  pub available : ℕ
  pub discarded : ℕ
  pub resynchronization_generation : ℕ

-- Where the producer stands inside `push`: the operation it performs next.
pub data PushPoint (A : Type 0) : Type 0 where
  push_idle : PushPoint A
  load_consumer : A → PushPoint A
  write_free store_free : A → PushPoint A
  open_generation reload_consumer : A → PushPoint A
  exchange : A → ℕ → PushPoint A
  count_skipped : A → ℕ → PushPoint A
  write_stale store_stale : A → PushPoint A
  close_generation : PushPoint A
  count_dropped close_dropped : A → PushPoint A

-- Where the consumer stands inside `pop`.
pub data PopPoint (A : Type 0) : Type 0 where
  pop_idle : PopPoint A
  load_generation : PopPoint A
  load_state : ℕ → PopPoint A
  load_producer : ℕ → ℕ → PopPoint A
  take_claim : ℕ → PopPoint A
  recheck : ℕ → ℕ → PopPoint A
  restore : ℕ → PopPoint A
  copy_slot : ℕ → PopPoint A
  release_claim : ℕ → Option A → PopPoint A

-- What a step shows outside. The outcome that `push` returns stands with the store or the drop that
-- decides it; `found_empty` and `delivered` are the two results of `pop`.
pub data Event (A : Type 0) : Type 0 where
  quiet : Event A
  skipped : ℕ → Event A
  returned : PublishOutcome → A → Event A
  delivered : Option A → Event A
  found_empty : Event A

pub record System (A : Type 0) : Type 0 where
  pub shared : Shared A
  pub push_at : PushPoint A
  pub pop_at : PopPoint A

module _ {A : Type 0} where
  -- `LatestHandoff::split`; `none` is `HandoffError::InvalidSlotCount`.
  unfoldable pub split : ℕ → Option (System A)
  split slot_count = if leb 2 slot_count && ltb slot_count reading then some fresh else none
    where
      fresh : System A
      fresh = record {
        shared = record {
          slots = replicate slot_count none;
          producer = 0;
          consumer_state = 0;
          generation = 0;
          discarded = 0;
        };
        push_at = push_idle;
        pop_at = pop_idle;
      }

  unfoldable pub observe : Shared A → HandoffObservation
  unfolding distance
  observe m = record {
    available = distance (index_of m.consumer_state) m.producer (length m.slots);
    discarded = m.discarded;
    resynchronization_generation = m.generation;
  }

  -- what a read of a slot finds
  abbrev pub slot_value : Option (Option A) → Option A
  slot_value none = none
  slot_value (some v) = v

  abbrev bump : Shared A → Shared A
  bump m = record m { generation = (m.generation + 1) % word }

  -- the write and the release store of `Producer::publish`
  abbrev write_slot : Shared A → A → Shared A
  write_slot m v = record m { slots = set m.slots m.producer (some v) }

  abbrev store_next : Shared A → Shared A
  store_next m = record m { producer = (m.producer + 1) % length m.slots }

  -- One operation of `Producer::push`.
  unfoldable pub push_step : Shared A → PushPoint A → Shared A × PushPoint A × Event A
  unfolding next_index distance
  push_step m push_idle = (m, push_idle, quiet)
  push_step m (load_consumer v) = (
    m,
    if next_index m.producer (length m.slots) == index_of m.consumer_state
        then open_generation v
        else write_free v,
    quiet,
  )
  push_step m (write_free v) = (write_slot m v, store_free v, quiet)
  push_step m (store_free v) = (store_next m, push_idle, returned published v)
  push_step m (open_generation v) = (bump m, reload_consumer v, quiet)
  push_step m (reload_consumer v) = (m, exchange v (index_of m.consumer_state), quiet)
  push_step m (exchange v consumer) =
      if m.consumer_state == consumer
      then (
        record m { consumer_state = m.producer },
        count_skipped v (distance consumer m.producer (length m.slots)),
        skipped (distance consumer m.producer (length m.slots)),
      )
      else (m, count_dropped v, quiet)
  push_step m (count_skipped v n) =
      (record m { discarded = (m.discarded + n) % word }, write_stale v, quiet)
  push_step m (write_stale v) = (write_slot m v, store_stale v, quiet)
  push_step m (store_stale v) = (store_next m, close_generation, returned replaced_stale v)
  push_step m close_generation = (bump m, push_idle, quiet)
  push_step m (count_dropped v) =
      (record m { discarded = (m.discarded + 1) % word }, close_dropped v, quiet)
  push_step m (close_dropped v) = (bump m, push_idle, returned dropped_during_read v)

  -- One operation of `Consumer::pop`.
  unfoldable pub pop_step : Shared A → PopPoint A → Shared A × PopPoint A × Event A
  unfolding next_index
  pop_step m pop_idle = (m, pop_idle, quiet)
  pop_step m load_generation =
      if m.generation % 2 == 0
      then (m, load_state m.generation, quiet)
      else (m, pop_idle, found_empty)
  pop_step m (load_state g) = (m, load_producer g (index_of m.consumer_state), quiet)
  pop_step m (load_producer g consumer) =
      if consumer == m.producer then (m, pop_idle, found_empty) else (m, take_claim g, quiet)
  pop_step m (take_claim g) = (
    record m { consumer_state = claim m.consumer_state },
    recheck g (index_of m.consumer_state),
    quiet,
  )
  pop_step m (recheck g claimed) =
      if m.generation == g then (m, copy_slot claimed, quiet) else (m, restore claimed, quiet)
  pop_step m (restore claimed) = (record m { consumer_state = claimed }, load_generation, quiet)
  pop_step m (copy_slot claimed) =
      (m, release_claim claimed (slot_value (get_elem? m.slots claimed)), quiet)
  pop_step m (release_claim claimed v) =
      (record m { consumer_state = next_index claimed (length m.slots) }, pop_idle, delivered v)

-- The two threads and their callers take turns in any order.
pub data Turn (A : Type 0) : Type 0 where
  call_push : A → Turn A
  producer_runs consumer_runs call_pop : Turn A

module _ {A : Type 0} where
  -- A call starts an operation if the thread is not inside one.
  abbrev start_push : PushPoint A → A → PushPoint A
  start_push push_idle v = load_consumer v
  start_push p _ = p

  abbrev start_pop : PopPoint A → PopPoint A
  start_pop pop_idle = load_generation
  start_pop p = p

  unfoldable pub turn : System A → Turn A → System A × Event A
  turn s (call_push v) = (record s { push_at = start_push s.push_at v }, quiet)
  turn s call_pop = (record s { pop_at = start_pop s.pop_at }, quiet)
  turn s producer_runs =
      let (m, p, e) = push_step s.shared s.push_at in (record s { shared = m; push_at = p }, e)
  turn s consumer_runs =
      let (m, p, e) = pop_step s.shared s.pop_at in (record s { shared = m; pop_at = p }, e)

  unfoldable pub run : System A → List (Turn A) → System A × List (Event A)
  run s [] = (s, [])
  run s (t ∷ ts) = let (s', e) = turn s t in let (s'', es) = run s' ts in (s'', e ∷ es)
