-- ===== src/Adapter/Controller/Owed.antt =====
-- What a packet of rust/asl3/src/adapter.rs owes the controller: its actions in order.
use usbradio_plus.Prelude.{
  ℕ, suc, zero, ◌+◌, ◌-◌, ◌%◌, ◌≤◌, ◌<◌, ◌≡◌, refl, Bool, Option, none, some, List, [], ◌∷◌, ◌++◌,
  length, if◌then◌else◌, get_elem?, arith,
}
use usbradio_plus.Adapter.{
  ReceiveStatus, StatusJournal, status_capacity, oldest_sequence, get_status, ReceivePacket,
}
use usbradio_plus.Adapter.Controller.{
  DeliveryPhase, receiver_state, status, voice, PendingDelivery, DeliveryAction, deliver_voice,
  StatusObservation, ControllerState, Exit, again, empty, fault, returned, same_bool, status_action,
  key_action, catch_up,
}

-- The actions for the `n` statuses of a journal from number `k` on.
abbrev pub status_actions : StatusJournal → ℕ → ℕ → List DeliveryAction
status_actions j k zero = []
status_actions j k (suc n) = elim (get_status j k) [
  | none ↦ []
  | some x ↦ status_action x ∷ status_actions j (k + 1) n
]

abbrev pub key_change : Bool → ReceivePacket → List DeliveryAction
key_change keyed p =
    if same_bool keyed p.qualification.receiver_keyed then [] else key_action p ∷ []

abbrev pub new_statuses : StatusObservation → StatusJournal → List DeliveryAction
new_statuses o j =
    let from = (catch_up o j).next_sequence in status_actions j from (j.produced - from)

-- What is still to be delivered of a packet in a phase.
abbrev pub owed_in : Bool → StatusObservation → DeliveryPhase → ReceivePacket → List DeliveryAction
owed_in keyed o receiver_state p =
    key_change keyed p ++ (new_statuses o p.statuses ++ (deliver_voice p.frame ∷ []))
owed_in keyed o status p = new_statuses o p.statuses ++ (deliver_voice p.frame ∷ [])
owed_in keyed o voice p = deliver_voice p.frame ∷ []

abbrev pub owed_by : Bool → StatusObservation → Option PendingDelivery → List DeliveryAction
owed_by keyed o none = []
owed_by keyed o (some d) = owed_in keyed o d.phase d.packet

-- The journal's array has its sixteen places.
abbrev pub HasPlaces : StatusJournal → Type 0
HasPlaces j = length j.events ≡ status_capacity

pub catch_up-ge :
    (o : StatusObservation) (j : StatusJournal) → oldest_sequence j ≤ (catch_up o j).next_sequence
catch_up-ge o j = ground arith

pub catch_up_of_ge :
    (o : StatusObservation) (j : StatusJournal)
    → oldest_sequence j ≤ o.next_sequence
    → catch_up o j ≡ o
catch_up_of_ge o j h = ground arith

pub get_elem?-IsSome :
    {A : Type 0} (xs : List A) (i : ℕ) → i < length xs → (x : A) × (get_elem? xs i ≡ some x)
get_elem?-IsSome [] i h = absurd (omega arith)
get_elem?-IsSome (x ∷ xs) zero h = (x, refl)
get_elem?-IsSome (x ∷ xs) (suc i) h = get_elem?-IsSome xs i (omega arith)

pub get_status-IsSome :
    (j : StatusJournal) (k : ℕ) → HasPlaces j → (x : ReceiveStatus) × (get_status j k ≡ some x)
unfolding get_status
get_status-IsSome j k h = get_elem?-IsSome j.events (k % status_capacity) (omega arith)

pub status_actions-cons :
    (j : StatusJournal) (k : ℕ) (x : ReceiveStatus)
    → k < j.produced
    → get_status j k ≡ some x
    → status_actions j k (j.produced - k)
      ≡ status_action x ∷ status_actions j (k + 1) (j.produced - (k + 1))
status_actions-cons j k x h e =
    let more : j.produced - k ≡ suc (j.produced - (k + 1)) = omega arith in
    rw (more, status_actions, e)

pub status_actions-nil :
    (j : StatusJournal) (k : ℕ) → j.produced ≤ k → status_actions j k (j.produced - k) ≡ []
status_actions-nil j k h = let none_left : j.produced - k ≡ 0 = omega arith in rw none_left

module _ {H P : Type 0} where
  abbrev pub owed : ControllerState H P → List DeliveryAction
  owed s = owed_by s.delivered_keyed s.status s.pending

  -- A state and an exit agree with what was to be delivered: an action is the next of it, and
  -- `again` leaves all of it to the phase `d`.
  abbrev pub Follows :
      Option PendingDelivery → List DeliveryAction → ControllerState H P × Exit → Type 0
  Follows d l (s, again) = (s.pending ≡ d) × (owed s ≡ l)
  Follows d l (s, returned a) = l ≡ a ∷ owed s
  Follows d l (s, empty) = ⊥
  Follows d l (s, fault) = ⊥

  -- The call returned the next action and leaves the others.
  abbrev pub Delivers : List DeliveryAction → ControllerState H P × Exit → Type 0
  Delivers l (s, returned a) = l ≡ a ∷ owed s
  Delivers l (s, again) = ⊥
  Delivers l (s, empty) = ⊥
  Delivers l (s, fault) = ⊥
