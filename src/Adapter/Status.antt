-- ===== src/Adapter/Status.antt =====
-- The status journal of rust/asl3/src/adapter.rs keeps the last sixteen statuses by their numbers.
use native.Mathlib.Decide.{ℕ_discrete}
use usbradio_plus.Prelude.{
  ℕ, ◌+◌, ◌%◌, ◌^◌, ◌≤◌, ◌<◌, ◌≡◌, refl, sym, ◌∙◌, List, [], ◌∷◌, ◌++◌, append-nil, append_assoc,
  length, length-append, length-set, get_elem?, get_elem?-set_self, get_elem?-set_ne,
  get_elem?-append, get_elem?-snoc, arith,
}
use usbradio_plus.Adapter.{
  ReceiveStatus, StatusJournal, status_capacity, new_journal, push_status, oldest_sequence,
  get_status,
}

-- The journal after the statuses `h`, oldest first: every status from the oldest number on is read
-- back under its own number.
pub record Records (j : StatusJournal) (h : List ReceiveStatus) : Type 0 where
  pub storage : length j.events ≡ status_capacity
  pub produced : j.produced ≡ length h
  pub kept : (n : ℕ) → oldest_sequence j ≤ n → n < length h → get_status j n ≡ get_elem? h n

pub new_journal-Records : Records new_journal []
unfolding new_journal
new_journal-Records = record {
  storage = refl;
  produced = refl;
  kept = λ n lo hi. absurd (omega arith);
}

-- A push keeps the journal in step with the statuses so far, up to 2^64 of them.
pub push_status-Records :
    (j : StatusJournal) (h : List ReceiveStatus) (x : ReceiveStatus)
    → length h + 1 < 2 ^ 64
    → Records j h
    → Records (push_status j x) (h ++ (x ∷ []))
unfolding push_status oldest_sequence get_status
push_status-Records j h x small r = record {
  storage = length-set j.events (j.produced % status_capacity) x ∙ r.storage;
  produced = omega (arith, r.produced, length-append h (x ∷ []));
  kept = λ n lo hi. elim (ℕ_discrete n (length h)) [
    | yes last ↦
        rw (last, ← r.produced)
          (get_elem?-set_self j.events (j.produced % status_capacity) x (omega (arith, r.storage))
            ∙ sym (rw r.produced (get_elem?-snoc h x)))
    | no older ↦
        get_elem?-set_ne j.events (j.produced % status_capacity) (n % status_capacity) x
          (omega (arith, r.produced, length-append h (x ∷ [])))
        ∙ r.kept n (omega (arith, r.produced)) (omega (arith, length-append h (x ∷ [])))
        ∙ sym (get_elem?-append h (x ∷ []) n (omega (arith, length-append h (x ∷ []))))
  ];
}

abbrev pub push_all : StatusJournal → List ReceiveStatus → StatusJournal
push_all j [] = j
push_all j (x ∷ xs) = push_all (push_status j x) xs

push_all-Records :
    (j : StatusJournal) (h xs : List ReceiveStatus)
    → length h + length xs < 2 ^ 64
    → Records j h
    → Records (push_all j xs) (h ++ xs)
push_all-Records j h [] small r = rw (append-nil h) r
push_all-Records j h (x ∷ xs) small r = rw (← append_assoc h (x ∷ []) xs) (
    push_all-Records (push_status j x) (h ++ (x ∷ [])) xs (omega (arith, length-append h (x ∷ [])))
      (push_status-Records j h x (omega arith) r))

-- After any series of fewer than 2^64 statuses, each of the last sixteen is read back under its
-- number, which is the number of statuses before it.
pub get_status-push_all :
    (xs : List ReceiveStatus) (n : ℕ)
    → length xs < 2 ^ 64
    → length xs ≤ n + status_capacity
    → n < length xs
    → get_status (push_all new_journal xs) n ≡ get_elem? xs n
unfolding oldest_sequence
get_status-push_all xs n small recent before =
    let r = push_all-Records new_journal [] xs (omega (arith, small)) new_journal-Records in
    r.kept n (omega (arith, r.produced)) before
