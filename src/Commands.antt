-- ===== src/Commands.antt =====
-- rust/driver/src/remote_base.rs: the bounded command port between the control producers and the
-- physical owner of a remote radio. The tickets of one generation form a store, a ticket's number
-- standing for the shared pointers to it; the generation's flag and the first error of the parallel
-- requests are shared by all of them. The functions are the bodies of the calls; `complete_at` and
-- `take_completion` also stand here by their atomic operations (`claim_at`, `record_at`,
-- `publish_at`, `pop_result`), which Runs interleaves with other calls. `ArrayQueue` of the
-- crossbeam library is a parameter.
mod Store
mod Ticket
pub mod Admission
pub mod Calls
pub mod Enqueue
pub mod Errors
pub mod Inv
pub mod Laws
pub mod Moves
pub mod Overlap
pub mod Parts
pub mod Revoked
pub mod Runs
pub mod Settled
pub mod Steps
mod Tests
pub use Store.*
unfoldable pub use Ticket.*
use usbradio_plus.Prelude.{
  ℕ, zero, ◌+◌, ◌-◌, ◌*◌, ◌/◌, ◌%◌, Bool, true, false, ◌&&◌, ◌||◌, not, Option, none, some, List,
  [], ◌∷◌, ◌++◌, length, get_elem?, ◌==◌, if◌then◌else◌, Result, ok, err, ℤ, pos, negsuc,
}
use usbradio_plus.Operation.{RemoteOperation, kind_of, urgent}
use usbradio_plus.Control.{ParallelRadioRequest}
use usbradio_plus.Request.{RemoteRequestError, busy, stopped, stale_source, rejected}

pub record RemoteQueue (S Q : Type 0) : Type 0 where
  pub is_ready : Bool
  pub parallel_error : ℤ
  pub accepting : Bool
  pub ordinary : Q
  pub urgent_slot : Q
  pub tickets : List (TicketState S)

module _ {S Q : Type 0} where
  abbrev pub with_ticket : RemoteQueue S Q → TicketState S → RemoteQueue S Q
  with_ticket q t = record q { tickets = q.tickets ++ (t ∷ []) }

  abbrev pub with_urgent : RemoteQueue S Q → Option Q → Option (RemoteQueue S Q)
  with_urgent q none = none
  with_urgent q (some slot) = some (record q { urgent_slot = slot })

  abbrev pub with_ordinary : RemoteQueue S Q → Option Q → Option (RemoteQueue S Q)
  with_ordinary q none = none
  with_ordinary q (some rest) = some (record q { ordinary = rest })

  unfoldable pub mark_ready : RemoteQueue S Q → RemoteQueue S Q
  mark_ready q = record q { is_ready = true }

  unfoldable pub ready : RemoteQueue S Q → Bool
  ready q = q.accepting && q.is_ready

  unfoldable pub retire : RemoteQueue S Q → RemoteQueue S Q
  retire q = record q { accepting = false }

module _ {S Q : Type 0} (works : ArrayQueue Q RemoteWork) where
  abbrev pub push_work : RemoteQueue S Q → RemoteWork → Option (RemoteQueue S Q)
  push_work q w =
      if is_urgent w.input
      then with_urgent q (works.push q.urgent_slot w)
      else with_ordinary q (works.push q.ordinary w)

  abbrev pub after_urgent :
      RemoteQueue S Q → Option (RemoteWork × Q) → RemoteQueue S Q × Option RemoteWork
  after_urgent q none = (q, none)
  after_urgent q (some (w, rest)) = (record q { urgent_slot = rest }, some w)

  abbrev pub after_ordinary :
      RemoteQueue S Q → Option (RemoteWork × Q) → RemoteQueue S Q × Option RemoteWork
  after_ordinary q none = (q, none)
  after_ordinary q (some (w, rest)) = (record q { ordinary = rest }, some w)

  unfoldable pub new_queue : ℕ → RemoteQueue S Q
  new_queue capacity = record {
    is_ready = false;
    parallel_error = pos 0;
    accepting = true;
    ordinary = works.new capacity;
    urgent_slot = works.new 1;
    tickets = [];
  }

  unfoldable pub next_urgent : RemoteQueue S Q → RemoteQueue S Q × Option RemoteWork
  next_urgent q = after_urgent q (works.pop q.urgent_slot)

  unfoldable pub next_ordinary : RemoteQueue S Q → RemoteQueue S Q × Option RemoteWork
  next_ordinary q = after_ordinary q (works.pop q.ordinary)

  abbrev pub after_next :
      RemoteQueue S Q → Option (RemoteWork × Q) → RemoteQueue S Q × Option RemoteWork
  after_next q none = next_ordinary q
  after_next q (some p) = after_urgent q (some p)

  unfoldable pub next : RemoteQueue S Q → RemoteQueue S Q × Option RemoteWork
  next q = after_next q (works.pop q.urgent_slot)

  unfoldable pub has_urgent : RemoteQueue S Q → Bool
  has_urgent q = not (works.is_empty q.urgent_slot)

module _ {Reply S Q : Type 0} (slots : ArrayQueue S (Result RemoteRequestError Reply))
    (works : ArrayQueue Q RemoteWork) where
  abbrev pub error_after : Option (TicketState S) → ℤ → Result RemoteRequestError Reply → ℤ
  error_after none error r = error
  error_after (some t) error r = (complete slots t error r).1

  unfoldable pub complete_at :
      ℕ → Result RemoteRequestError Reply → RemoteQueue S Q → RemoteQueue S Q
  complete_at i r q = record q {
    tickets = modify i (λ t. (complete slots t q.parallel_error r).0) q.tickets;
    parallel_error = error_after (get_elem? q.tickets i) q.parallel_error r;
  }

  -- The atomic operations of `complete_at`, for calls that overlap: whether a claim succeeds, the
  -- claim, the error cell, and the push.
  abbrev pub is_open : Option (TicketState S) → Bool
  is_open none = false
  is_open (some t) = not t.completed

  unfoldable pub claim_at : ℕ → RemoteQueue S Q → RemoteQueue S Q
  claim_at i q = record q { tickets = modify i (claim slots) q.tickets }

  abbrev pub noted : Option (TicketState S) → Result RemoteRequestError Reply → ℤ → ℤ
  noted none r error = error
  noted (some t) r error = detached_error t.detached r error

  unfoldable pub record_at : ℕ → Result RemoteRequestError Reply → RemoteQueue S Q → RemoteQueue S Q
  record_at i r q = record q { parallel_error = noted (get_elem? q.tickets i) r q.parallel_error }

  unfoldable pub publish_at :
      ℕ → Result RemoteRequestError Reply → RemoteQueue S Q → RemoteQueue S Q
  publish_at i r q = record q { tickets = modify i (publish slots r) q.tickets }

  -- `RemoteWork`'s destructor.
  unfoldable pub drop_work : RemoteWork → RemoteQueue S Q → RemoteQueue S Q
  drop_work w = complete_at w.state (err stopped)

  -- `RemoteWork::complete`, which drops the work at its end.
  unfoldable pub complete_work :
      RemoteWork → Result RemoteRequestError Reply → RemoteQueue S Q → RemoteQueue S Q
  complete_work w r q =
      drop_work w (complete_at w.state (verdict q.accepting (get_elem? q.tickets w.state) r) q)

  abbrev pub popped :
      ℕ
      → RemoteQueue S Q
      → Option (Result RemoteRequestError Reply × S)
      → RemoteQueue S Q × Option (Result RemoteRequestError Reply)
  popped i q none = (q, none)
  popped i q (some (r, rest)) =
      (record q { tickets = modify i (λ t. record t { result = rest }) q.tickets }, some r)

  abbrev pub pop_result :
      ℕ
      → RemoteQueue S Q
      → Option (TicketState S)
      → RemoteQueue S Q × Option (Result RemoteRequestError Reply)
  pop_result i q none = (q, none)
  pop_result i q (some t) = popped i q (slots.pop t.result)

  abbrev pub stop_if_retired : ℕ → RemoteQueue S Q → RemoteQueue S Q
  stop_if_retired i q = if q.accepting then q else complete_at i (err stopped) q

  unfoldable pub take_completion :
      ℕ → RemoteQueue S Q → RemoteQueue S Q × Option (Result RemoteRequestError Reply)
  take_completion i q = let r = stop_if_retired i q in pop_result i r (get_elem? r.tickets i)

  -- Work that its queue does not take is dropped on the way out.
  abbrev pub admitted :
      RemoteQueue S Q
      → RemoteWork
      → Option (RemoteQueue S Q)
      → RemoteQueue S Q × Result RemoteRequestError ℕ
  admitted q w (some after) = (after, ok w.state)
  admitted q w none = (drop_work w q, err busy)

  unfoldable pub enqueue :
      RemoteInput → Bool → Bool → RemoteQueue S Q → RemoteQueue S Q × Result RemoteRequestError ℕ
  enqueue input is_local active q =
      if not q.accepting
      then (q, err stopped)
      else if is_incomplete input
      then (q, err (rejected (negsuc 1002)))
      else let w = new_work input q.tickets in
        let r = with_ticket q (new_ticket slots input is_local active) in
        admitted r w (push_work works r w)

  unfoldable pub submit :
      RemoteOperation
      → Bool
      → Bool
      → RemoteQueue S Q
      → RemoteQueue S Q × Result RemoteRequestError ℕ
  submit r is_local active = enqueue (command r) is_local active

  unfoldable pub submit_parallel :
      ParallelRadioRequest → RemoteQueue S Q → RemoteQueue S Q × Result RemoteRequestError ℕ
  submit_parallel r = enqueue (parallel_input r) true false
