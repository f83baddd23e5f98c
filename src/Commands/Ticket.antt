-- ===== src/Commands/Ticket.antt =====
-- The tickets and the work of rust/driver/src/remote_base.rs: one command's source, its claim to be
-- completed, and the slot of its result.
use usbradio_plus.Prelude.{
  ℕ, zero, ◌+◌, ◌-◌, ◌*◌, ◌/◌, ◌%◌, Bool, true, false, ◌&&◌, not, Option, none, some, List, length,
  ◌==◌, if◌then◌else◌, Result, ok, err, ℤ, pos, negsuc,
}
use usbradio_plus.Operation.{RemoteOperation, kind_of, urgent}
use usbradio_plus.Control.{ParallelRadioRequest}
use usbradio_plus.Request.{RemoteRequestError, busy, stopped, stale_source, rejected}
use usbradio_plus.Commands.Store.{ArrayQueue, push_or_keep}

pub record RemoteSource : Type 0 where
  pub local : Bool
  pub valid : Bool
  pub active : Bool

-- `detached` says that the ticket holds the generation's error cell.
pub record TicketState (S : Type 0) : Type 0 where
  pub detached : Bool
  pub local : Bool
  pub source : ℕ
  pub completed : Bool
  pub result : S

pub data RemoteInput : Type 0 where
  command : RemoteOperation → RemoteInput
  parallel_input : ParallelRadioRequest → RemoteInput

-- `state` is the number of the ticket that the work shares.
pub record RemoteWork : Type 0 where
  pub input : RemoteInput
  pub state : ℕ

abbrev pub flag : Bool → ℕ
flag true = 1
flag false = 0

unfoldable pub source_of : {S : Type 0} → Bool → TicketState S → RemoteSource
source_of accepting t = record {
  local = t.local;
  valid = t.source % 2 == 1 && accepting;
  active = (t.source / 2) % 2 == 1;
}

abbrev pub error_code : RemoteRequestError → ℤ
error_code (rejected code) = code
error_code busy = negsuc 8
error_code stopped = negsuc 9
error_code stale_source = negsuc 9

-- `compare_exchange(0, code)` on the error cell.
abbrev pub first_error : ℤ → ℤ → ℤ
first_error (pos zero) code = code
first_error current code = current

abbrev pub detached_error : {Reply : Type 0} → Bool → Result RemoteRequestError Reply → ℤ → ℤ
detached_error true (err e) current = first_error current (error_code e)
detached_error _ r current = current

abbrev pub is_ok : {Reply : Type 0} → Result RemoteRequestError Reply → Bool
is_ok (ok r) = true
is_ok (err e) = false

-- `fetch_update` and `fetch_and(!1)` on the source bits: 1 is valid, 2 is active.
unfoldable pub source_state : {S : Type 0} → Bool → Bool → TicketState S → TicketState S
source_state active valid t = record t {
  source = flag (valid && t.source % 2 == 1) + 2 * flag active;
}

unfoldable pub drop_ticket : {S : Type 0} → TicketState S → TicketState S
drop_ticket t = record t { source = t.source - t.source % 2 }

abbrev pub operation : RemoteInput → Option RemoteOperation
operation (command r) = some r
operation (parallel_input r) = none

abbrev pub parallel_request : RemoteInput → Option ParallelRadioRequest
parallel_request (command r) = none
parallel_request (parallel_input r) = some r

abbrev pub is_parallel : RemoteInput → Bool
is_parallel (command r) = false
is_parallel (parallel_input r) = true

abbrev pub is_none : {A : Type 0} → Option A → Bool
is_none none = true
is_none (some a) = false

abbrev pub is_incomplete : RemoteInput → Bool
is_incomplete (command r) = is_none (kind_of r)
is_incomplete (parallel_input r) = false

abbrev pub is_urgent : RemoteInput → Bool
is_urgent (command r) = urgent r
is_urgent (parallel_input r) = false

abbrev pub new_work : {S : Type 0} → RemoteInput → List (TicketState S) → RemoteWork
new_work input tickets = record { input = input; state = length tickets }

abbrev pub verdict :
    {Reply S : Type 0}
    → Bool
    → Option (TicketState S)
    → Result RemoteRequestError Reply
    → Result RemoteRequestError Reply
verdict accepting none r = err stopped
verdict accepting (some t) r =
    if not accepting
    then err stopped
    else if is_ok r && not (source_of accepting t).valid
    then err stale_source
    else r

module _ {Reply S : Type 0} (slots : ArrayQueue S (Result RemoteRequestError Reply)) where
  abbrev pub new_ticket : RemoteInput → Bool → Bool → TicketState S
  new_ticket input is_local active = record {
    detached = is_parallel input;
    local = is_local;
    source = 1 + 2 * flag active;
    completed = false;
    result = slots.new 1;
  }

  -- The claim of a completion: the `compare_exchange` on `completed`.
  abbrev pub claim : TicketState S → TicketState S
  claim t = record t { completed = true }

  -- The claimant's `self.result.push(result)`.
  abbrev pub publish : Result RemoteRequestError Reply → TicketState S → TicketState S
  publish r t = record t { result = push_or_keep slots t.result r }

  -- `TicketState::complete` from its claim to its push, with the generation's error cell.
  unfoldable pub complete : TicketState S → ℤ → Result RemoteRequestError Reply → TicketState S × ℤ
  complete t error r =
      if t.completed then (t, error) else (publish r (claim t), detached_error t.detached r error)
