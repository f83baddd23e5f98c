-- ===== src/Handoff/Tests.antt =====
-- Runs of the handoff of rust/asl3/src/handoff.rs at concrete schedules.
use mathlib.Core.List.{Sublistᴰ}
use usbradio_plus.Prelude.{
  ℕ, ◌+◌, ◌%◌, ◌<◌, ◌≡◌, ◌≢◌, refl, some, none, List, [], ◌∷◌, ◌++◌, length, replicate, arith,
}
use usbradio_plus.Handoff.{
  word, System, Turn, call_push, producer_runs, consumer_runs, call_pop, push_idle, pop_idle, split,
  run, turn, push_step, pop_step, next_index, distance,
}
use usbradio_plus.Handoff.Queue.{Traces, accepted, outputs, skips}
use usbradio_plus.Handoff.Runs.{
  IsValid, after_all, split-IsValid, run_refines, delivered_in_order, no_race,
}
use usbradio_plus.Handoff.Progress.{push_wait_free, pop_obstruction_free, discarded-losses, losses}

-- A handoff of three slots, as `split 3` makes it.
abbrev fresh : System ℕ
fresh = record {
  shared = record {
    slots = none ∷ none ∷ none ∷ [];
    producer = 0;
    consumer_state = 0;
    generation = 0;
    discarded = 0;
  };
  push_at = push_idle;
  pop_at = pop_idle;
}

fresh-split : split 3 ≡ some fresh
unfolding split
fresh-split = refl

-- A whole push while no one reads, and a push and a pop that take turns.
abbrev pushed : ℕ → List (Turn ℕ)
pushed v = call_push v ∷ producer_runs ∷ producer_runs ∷ producer_runs ∷ []

abbrev popped : List (Turn ℕ)
popped = call_pop ∷ replicate 7 consumer_runs

-- The third push finds the buffer full and discards what waits.
abbrev flood : List (Turn ℕ)
flood = pushed 7 ++ (pushed 8 ++ (call_push 9 ∷ replicate 8 producer_runs))

flood-popped : outputs (run fresh (flood ++ popped)).1 ≡ 9 ∷ []
unfolding run turn push_step pop_step next_index distance
flood-popped = refl

pushed-popped : outputs (run fresh (pushed 7 ++ (pushed 8 ++ (popped ++ popped)))).1 ≡ 7 ∷ 8 ∷ []
unfolding run turn push_step pop_step next_index distance
pushed-popped = refl

fresh-IsValid : IsValid 3 fresh []
fresh-IsValid = split-IsValid 3 fresh-split

run_refines_example :
    Traces 2 [] (run fresh flood).1 (after_all [] (run fresh flood).1)
    × IsValid 3 (run fresh flood).0 (after_all [] (run fresh flood).1)
run_refines_example = run_refines 3 fresh [] flood fresh-IsValid

delivered_in_order_example :
    let es = (run fresh (flood ++ popped)).1 in
    Sublistᴰ (outputs es ++ after_all [] es) (accepted es)
    × (length (accepted es) ≡ length (outputs es) + skips es + length (after_all [] es))
    × (length (after_all [] es) < 3)
delivered_in_order_example = delivered_in_order 3 fresh (flood ++ popped) fresh-split

-- The consumer is about to copy slot 0, and the producer to write another.
abbrev meeting : List (Turn ℕ)
meeting = pushed 7 ++ (call_pop ∷ (replicate 5 consumer_runs ++ (call_push 8 ∷ producer_runs ∷ [])))

no_race_example : (run fresh meeting).0.shared.producer ≢ 0
unfolding run turn push_step pop_step next_index distance
no_race_example = no_race 3 fresh meeting 0 fresh-split refl refl

push_wait_free_example :
    (run (run fresh (call_push 9 ∷ [])).0 (replicate 8 producer_runs)).0.push_at ≡ push_idle
push_wait_free_example =
    push_wait_free (run fresh (call_push 9 ∷ [])).0 (replicate 8 producer_runs) refl (omega arith)

pop_obstruction_free_example :
    (run (run fresh (pushed 7 ++ (call_pop ∷ []))).0 (replicate 12 consumer_runs)).0.pop_at
    ≡ pop_idle
pop_obstruction_free_example = pop_obstruction_free (run fresh (pushed 7 ++ (call_pop ∷ []))).0

discarded-losses_example :
    (run fresh flood).0.shared.discarded % word ≡ losses (run fresh flood).1 % word
unfolding run turn push_step next_index distance
discarded-losses_example = discarded-losses 3 fresh flood fresh-split refl
