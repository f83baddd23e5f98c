-- ===== src/Commands/Runs.antt =====
-- Series of calls on the command port of rust/driver/src/remote_base.rs: the producers' and the
-- owner's calls in any order, with the work that the owner holds and the completions handed out. A
-- completion also runs in parts, between which other calls run. The owner's `decides` on its
-- verdict and `claims_reply` for it; `begins_drop` (of the owner's work) and `begins_take` (in
-- `take_completion`) end with the claim too. `records` is a claimant's write of the error cell and
-- `publishes` its push, and `pops` is the end of `take_completion`.
use usbradio_plus.Prelude.{
  ℕ, zero, suc, Bool, Option, none, some, List, [], ◌∷◌, get_elem?, Result, err, if◌then◌else◌,
}
use usbradio_plus.Operation.{RemoteOperation}
use usbradio_plus.Control.{ParallelRadioRequest}
use usbradio_plus.Request.{RemoteRequestError, stopped}
use usbradio_plus.Commands.{
  ArrayQueue, RemoteWork, RemoteQueue, modify, source_state, drop_ticket, drop_work, complete_work,
  take_completion, mark_ready, retire, new_queue, submit, submit_parallel, next, next_urgent,
  next_ordinary, is_open, claim_at, record_at, publish_at, verdict, pop_result,
}

pub data Call (Reply : Type 0) : Type 0 where
  submits : RemoteOperation → Bool → Bool → Call Reply
  submits_parallel : ParallelRadioRequest → Call Reply
  sets_source : ℕ → Bool → Bool → Call Reply
  takes : ℕ → Call Reply
  drops_ticket : ℕ → Call Reply
  takes_next takes_urgent takes_ordinary : Call Reply
  completes : ℕ → Result RemoteRequestError Reply → Call Reply
  abandons : ℕ → Call Reply
  marks_ready retires : Call Reply
  decides : ℕ → Result RemoteRequestError Reply → Call Reply
  claims_reply begins_drop begins_take : ℕ → Call Reply
  records publishes pops : ℕ → Call Reply

-- `held` is the work that the owner has taken and not finished, `taken` the completions that tickets
-- handed out, the latest first. `claims` are the completions that were claimed, but the error cell
-- was not written yet, and `writes` those with only the push left. `decided` are the verdicts of the
-- owner that it did not claim for yet, and `refused` those that came to a completed ticket.
pub record Service (Reply S Q : Type 0) : Type 0 where
  pub queue : RemoteQueue S Q
  pub held : List RemoteWork
  pub taken : List (ℕ × Result RemoteRequestError Reply)
  pub claims : List (ℕ × Result RemoteRequestError Reply)
  pub writes : List (ℕ × Result RemoteRequestError Reply)
  pub decided : List (ℕ × Result RemoteRequestError Reply)
  pub refused : List (ℕ × Result RemoteRequestError Reply)

abbrev pub remove_at : {A : Type 0} → ℕ → List A → List A
remove_at i [] = []
remove_at zero (x ∷ xs) = xs
remove_at (suc i) (x ∷ xs) = x ∷ remove_at i xs

module _ {Reply S Q : Type 0} where
  abbrev pub with_queue : Service Reply S Q → RemoteQueue S Q → Service Reply S Q
  with_queue s q = record s { queue = q }

  abbrev pub handed :
      ℕ
      → Service Reply S Q
      → RemoteQueue S Q × Option (Result RemoteRequestError Reply)
      → Service Reply S Q
  handed i s (q, none) = with_queue s q
  handed i s (q, some r) = record s { queue = q; taken = (i, r) ∷ s.taken }

  abbrev pub received : Service Reply S Q → RemoteQueue S Q × Option RemoteWork → Service Reply S Q
  received s (q, none) = with_queue s q
  received s (q, some w) = record s { queue = q; held = w ∷ s.held }

module _ {Reply S Q : Type 0} (works : ArrayQueue Q RemoteWork) where
  abbrev pub start : ℕ → Service Reply S Q
  start capacity = record {
    queue = new_queue works capacity;
    held = [];
    taken = [];
    claims = [];
    writes = [];
    decided = [];
    refused = [];
  }

module _ {Reply S Q : Type 0} (slots : ArrayQueue S (Result RemoteRequestError Reply))
    (works : ArrayQueue Q RemoteWork) where
  abbrev pub finished :
      ℕ
      → Option (Result RemoteRequestError Reply)
      → Service Reply S Q
      → Option RemoteWork
      → Service Reply S Q
  finished k r s none = s
  finished k none s (some w) = record s {
    queue = drop_work slots works w s.queue;
    held = remove_at k s.held;
  }
  finished k (some r) s (some w) = record s {
    queue = complete_work slots works w r s.queue;
    held = remove_at k s.held;
  }

  -- A claim, if it succeeds.
  abbrev pub claimed : ℕ → Result RemoteRequestError Reply → Service Reply S Q → Service Reply S Q
  claimed i r s =
      if is_open slots works (get_elem? s.queue.tickets i)
      then record s { queue = claim_at slots works i s.queue; claims = (i, r) ∷ s.claims }
      else s

  abbrev pub dropping : ℕ → Service Reply S Q → Option RemoteWork → Service Reply S Q
  dropping k s none = s
  dropping k s (some w) = claimed w.state (err stopped) (record s { held = remove_at k s.held })

  abbrev pub deciding :
      ℕ
      → Result RemoteRequestError Reply
      → Service Reply S Q
      → Option RemoteWork
      → Service Reply S Q
  deciding k r s none = s
  deciding k r s (some w) = record s {
    held = remove_at k s.held;
    decided =
        (w.state, verdict s.queue.accepting (get_elem? s.queue.tickets w.state) r) ∷ s.decided;
  }

  abbrev pub claiming :
      ℕ → Service Reply S Q → Option (ℕ × Result RemoteRequestError Reply) → Service Reply S Q
  claiming n s none = s
  claiming n s (some (i, r)) =
      if is_open slots works (get_elem? s.queue.tickets i)
      then record s {
        queue = claim_at slots works i s.queue;
        decided = remove_at n s.decided;
        claims = (i, r) ∷ s.claims;
      }
      else record s { decided = remove_at n s.decided; refused = (i, r) ∷ s.refused }

  abbrev pub recorded :
      ℕ → Service Reply S Q → Option (ℕ × Result RemoteRequestError Reply) → Service Reply S Q
  recorded n s none = s
  recorded n s (some (i, r)) = record s {
    queue = record_at slots works i r s.queue;
    claims = remove_at n s.claims;
    writes = (i, r) ∷ s.writes;
  }

  abbrev pub published :
      ℕ → Service Reply S Q → Option (ℕ × Result RemoteRequestError Reply) → Service Reply S Q
  published n s none = s
  published n s (some (i, r)) = record s {
    queue = publish_at slots works i r s.queue;
    writes = remove_at n s.writes;
  }

  unfoldable pub step : Service Reply S Q → Call Reply → Service Reply S Q
  step s (submits r is_local active) = with_queue s (submit slots works r is_local active s.queue).0
  step s (submits_parallel r) = with_queue s (submit_parallel slots works r s.queue).0
  step s (sets_source i active valid) =
      with_queue s
        (record s.queue { tickets = modify i (source_state active valid) s.queue.tickets })
  step s (takes i) = handed i s (take_completion slots works i s.queue)
  step s (drops_ticket i) =
      with_queue s (record s.queue { tickets = modify i drop_ticket s.queue.tickets })
  step s takes_next = received s (next works s.queue)
  step s takes_urgent = received s (next_urgent works s.queue)
  step s takes_ordinary = received s (next_ordinary works s.queue)
  step s (completes k r) = finished k (some r) s (get_elem? s.held k)
  step s (abandons k) = finished k none s (get_elem? s.held k)
  step s marks_ready = with_queue s (mark_ready s.queue)
  step s retires = with_queue s (retire s.queue)
  step s (decides k r) = deciding k r s (get_elem? s.held k)
  step s (claims_reply n) = claiming n s (get_elem? s.decided n)
  step s (begins_drop k) = dropping k s (get_elem? s.held k)
  step s (begins_take i) = if s.queue.accepting then s else claimed i (err stopped) s
  step s (records n) = recorded n s (get_elem? s.claims n)
  step s (publishes n) = published n s (get_elem? s.writes n)
  step s (pops i) = handed i s (pop_result slots works i s.queue (get_elem? s.queue.tickets i))

  unfoldable pub run : Service Reply S Q → List (Call Reply) → Service Reply S Q
  run s [] = s
  run s (c ∷ cs) = run (step s c) cs
