-- ===== src/Commands/Tests.antt =====
-- The command port of rust/driver/src/remote_base.rs over a queue of two places.
use usbradio_plus.Prelude.{
  ℕ, ◌+◌, ◌≤◌, ◌≡◌, refl, ◌↔◌, ◌⊎◌, inl, inr, Bool, true, false, Option, none, some, List, [], ◌∷◌,
  ◌++◌, length, get_elem?, ltb, if◌then◌else◌, Bool-cases, Result, ok, negsuc, arith,
}
use usbradio_plus.Operation.{new_operation, from_selector, kind_of, urgent, stop_scan, recall}
use usbradio_plus.Control.{parallel_channel}
use usbradio_plus.Request.{RemoteRequestError}
use usbradio_plus.Commands.{
  ArrayQueue, IsArrayQueue, TicketState, RemoteWork, RemoteQueue, parallel_input, command, enqueue,
  next, complete_work, take_completion, flag, new_ticket, verdict, submit, next_ordinary, drop_work,
  complete_at, complete, new_queue, source_of, retire, claim_at, record_at, publish_at,
}
use usbradio_plus.Commands.Runs.{
  Call, submits, takes_next, completes, retires, decides, claims_reply, begins_take, records,
  publishes, pops, Service, start, run, step,
}
use usbradio_plus.Commands.Inv.{taken_of, gone, owned, Inv}
use usbradio_plus.Commands.Steps.{start-Inv, run-Inv}
use usbradio_plus.Commands.Laws.{one_completion, take_completion-retired}
use usbradio_plus.Commands.Revoked.{run_settles}
use usbradio_plus.Commands.Settled.{IsOverAt, successes}
use usbradio_plus.Commands.Errors.{parallel_error-run}
use usbradio_plus.Commands.Calls.{complete_work_lem, Delivered}
use usbradio_plus.Commands.Enqueue.{next_lem, enqueue_lem, waiting, Outcome}

record Bounded (A : Type 0) : Type 0 where
  places : ℕ
  stored : List A

module _ {A : Type 0} where
  abbrev bounded_push : Bounded A → A → Option (Bounded A)
  bounded_push q a =
      if ltb (length q.stored) q.places
      then some (record q { stored = q.stored ++ (a ∷ []) })
      else none

  abbrev bounded_pop : ℕ → List A → Option (A × Bounded A)
  bounded_pop places [] = none
  bounded_pop places (a ∷ rest) = some (a, record { places = places; stored = rest })

  abbrev no_items : List A → Bool
  no_items [] = true
  no_items (a ∷ rest) = false

abbrev bounded : {A : Type 0} → ArrayQueue (Bounded A) A
bounded = record {
  new = λ n. record { places = n; stored = [] };
  push = bounded_push;
  pop = λ q. bounded_pop q.places q.stored;
  is_empty = λ q. no_items q.stored;
}

bounded_pop-cases :
    {A : Type 0} (places : ℕ) (stored : List A)
    → ((bounded_pop places stored ≡ none) × (stored ≡ []))
      ⊎ ((a : A) × (r : Bounded A) × (bounded_pop places stored ≡ some (a, r))
          × (stored ≡ a ∷ r.stored)
          × (r.places ≡ places))
bounded_pop-cases places [] = inl (refl, refl)
bounded_pop-cases places (a ∷ rest) =
    inr (a, record { places = places; stored = rest }, refl, refl, refl)

no_items_iff : {A : Type 0} (xs : List A) → (no_items xs ≡ true) ↔ (xs ≡ [])
no_items_iff [] = (λ _. refl, λ _. refl)
no_items_iff (x ∷ xs) = (λ e. absurd (ground (arith, e)), λ e. absurd (ground (arith, e)))

unfoldable bounded-IsArrayQueue : {A : Type 0} → IsArrayQueue (bounded {A = A})
bounded-IsArrayQueue = record {
  items = λ q. q.stored;
  capacity = λ q. q.places;
  items-new = λ n h. refl;
  capacity-new = λ n h. refl;
  push_cases = λ q a. elim (Bool-cases (ltb (length q.stored) q.places)) [
    | inl e ↦
        inr (record q { stored = q.stored ++ (a ∷ []) }, rw e refl, ground (arith, e), refl, refl)
    | inr e ↦ inl (rw e refl, ground (arith, e))
  ];
  pop_cases = λ q. bounded_pop-cases q.places q.stored;
  is_empty_iff = λ q. no_items_iff q.stored;
}

abbrev Slot : Type 0
Slot = Bounded (Result RemoteRequestError ℕ)

abbrev Works : Type 0
Works = Bounded RemoteWork

abbrev slots : ArrayQueue Slot (Result RemoteRequestError ℕ)
slots = bounded

abbrev works : ArrayQueue Works RemoteWork
works = bounded

abbrev ls : IsArrayQueue slots
ls = bounded-IsArrayQueue

abbrev lw : IsArrayQueue works
lw = bounded-IsArrayQueue

abbrev calls : List (Call ℕ)
calls =
    submits (new_operation recall) false true
    ∷ submits (new_operation stop_scan) true false
    ∷ takes_next
    ∷ completes 0 (ok 7)
    ∷ []

abbrev served : Service ℕ Slot Works
served = run slots works (start works 2) calls

abbrev first_ticket : TicketState Slot
first_ticket = record {
  detached = false;
  local = false;
  source = 3;
  completed = false;
  result = record { places = 1; stored = [] };
}

abbrev retired : Service ℕ Slot Works
retired = run slots works (start works 2) (calls ++ (retires ∷ []))

served_first : get_elem? served.queue.tickets 0 ≡ some first_ticket
unfolding run step submit enqueue kind_of from_selector new_operation urgent next next_ordinary
    complete_work drop_work complete_at complete new_queue source_of
served_first = refl

retired_first : get_elem? retired.queue.tickets 0 ≡ some first_ticket
unfolding run step submit enqueue kind_of from_selector new_operation urgent next next_ordinary
    complete_work drop_work complete_at complete new_queue source_of retire
retired_first = refl

retired_off : retired.queue.accepting ≡ false
unfolding run step submit enqueue kind_of from_selector new_operation urgent next next_ordinary
    complete_work drop_work complete_at complete new_queue source_of retire
retired_off = refl

retired_none : taken_of 0 retired.taken ≡ 0
unfolding run step submit enqueue kind_of from_selector new_operation urgent next next_ordinary
    complete_work drop_work complete_at complete new_queue source_of retire
retired_none = refl

-- Between the owner's claim and its push a retired ticket has nothing to hand out, and afterwards it
-- has the owner's reply.
abbrev claimed_calls : List (Call ℕ)
claimed_calls =
    submits (new_operation recall) false true
    ∷ takes_next
    ∷ decides 0 (ok 7)
    ∷ claims_reply 0
    ∷ retires
    ∷ []

overlapped :
    ((take_completion slots works 0 (run slots works (start works 2) claimed_calls).queue).1 ≡ none)
    × ((run slots works
          (start works 2)
          (claimed_calls ++ (begins_take 0 ∷ records 0 ∷ publishes 0 ∷ pops 0 ∷ []))).taken
        ≡ (0, ok 7) ∷ [])
unfolding run step submit enqueue kind_of from_selector new_operation urgent next next_ordinary
    complete_work drop_work complete_at complete new_queue source_of retire take_completion claim_at
    record_at publish_at
overlapped = (refl, refl)

one_completion_example :
    (length (ls.items first_ticket.result) + gone ls lw 0 served ≡ flag first_ticket.completed)
    × (owned ls lw 0 served ≤ 1)
    × ((first_ticket.completed ≡ true) ⊎ (owned ls lw 0 served ≡ 1))
one_completion_example = one_completion ls lw 2 calls 0 first_ticket (omega arith) served_first

take_completion-retired_example :
    ((r : Result RemoteRequestError ℕ) × ((take_completion slots works 0 retired.queue).1 ≡ some r))
    ⊎ (taken_of 0 retired.claims + taken_of 0 retired.writes ≡ 1)
take_completion-retired_example =
    take_completion-retired ls lw 2 (calls ++ (retires ∷ [])) 0 first_ticket (omega arith)
      retired_off retired_first retired_none

retired-Inv : Inv ls lw retired
retired-Inv =
    run-Inv ls lw (start works 2) (calls ++ (retires ∷ [])) (start-Inv ls lw 2 (omega arith))

run_settles_example :
    IsOverAt ls lw 0 (run slots works retired (completes 0 (ok 9) ∷ []))
    × (successes ls lw 0 (run slots works retired (completes 0 (ok 9) ∷ []))
        ≡ successes ls lw 0 retired)
run_settles_example =
    run_settles ls lw 0 retired (completes 0 (ok 9) ∷ []) retired-Inv (inl retired_off)

abbrev failed_once : Service ℕ Slot Works
failed_once =
    let s = start works 2 in record s { queue = record s.queue { parallel_error = negsuc 122 } }

parallel_error-run_example : (run slots works failed_once calls).queue.parallel_error ≡ negsuc 122
parallel_error-run_example =
    parallel_error-run slots works (negsuc 122) (λ e. absurd (ground (arith, e))) failed_once calls
      refl

abbrev pending : RemoteQueue Slot Works
pending = served.queue

next_lem_example :
    ((waiting ls lw pending ≡ []) × (next works pending ≡ (pending, none)))
    ⊎ ((w : RemoteWork) × ((next works pending).1 ≡ some w)
        × (waiting ls lw pending ≡ w ∷ waiting ls lw (next works pending).0)
        × ((next works pending).0.tickets ≡ pending.tickets))
next_lem_example = next_lem ls lw pending

enqueue_lem_example :
    Outcome ls lw
      (parallel_input (parallel_channel 7))
      (new_ticket slots (parallel_input (parallel_channel 7)) true false)
      pending
      (enqueue slots works (parallel_input (parallel_channel 7)) true false pending)
enqueue_lem_example = enqueue_lem ls lw (parallel_input (parallel_channel 7)) true false pending

abbrev first_work : RemoteWork
first_work = record { input = command (new_operation recall); state = 0 }

complete_work_lem_example :
    Delivered ls lw 0
      (verdict pending.accepting (some first_ticket) (ok 7))
      first_ticket
      pending.parallel_error
      (complete_work slots works first_work (ok 7) pending)
unfolding bounded-IsArrayQueue
complete_work_lem_example =
    complete_work_lem ls lw first_work (ok 7) pending first_ticket served_first refl refl
      (omega arith)
