-- ===== src/Update/Tests.antt =====
-- Updates of rust/station/src/update.rs at concrete orders of calls and polls.
use usbradio_plus.Prelude.{
  ℕ, ◌≡◌, refl, inl, inr, Bool, true, false, none, some, List, [], ◌∷◌, ok, err,
}
use usbradio_plus.Update.{
  UpdateOwner, StationUpdate, Station, Radio, Call, begin, finish, receive_polls, transmit_polls,
  step, run, new_mailbox, applied, receive, transmit, publish, result, finish_update, begin_update,
  apply_stopped_update, commit, pending,
}
use usbradio_plus.Update.Sides.{IsValid}
use usbradio_plus.Update.Retain.{Refers, run_retains}
use usbradio_plus.Update.Outcome.{finish_update-ok}
use usbradio_plus.Update.Stopped.{finish_update-stopped}

-- A radio whose state is the number of the update that it took last. It takes every update.
abbrev willing : Radio ℕ ℕ
willing = record { apply_update = λ s r. (r, true); validate_update = λ r. true }

abbrev owner : ℕ → UpdateOwner ℕ ℕ
owner n = record { radio = n; processing = n; controller_ctcss = []; voter_reporting = false }

abbrev update : StationUpdate ℕ ℕ ℕ
update = record {
  plan = 1;
  previous = 0;
  forward = owner 1;
  reverse = owner 2;
  source = 5;
  revision = 0;
}

abbrev station : Bool → Station ℕ ℕ ℕ ℕ
station running = record {
  updates = new_mailbox;
  address = 5;
  host_address = 5;
  plan = 0;
  running = running;
  receive_context = record { station = 0; controller_ctcss = []; voter_reporting = false };
  transmit_context = 0;
}

abbrev half : List (Call ℕ ℕ ℕ)
half = begin update ∷ receive_polls ∷ finish true ∷ []

-- The commit waits for both callbacks.
abbrev whole : List (Call ℕ ℕ ℕ)
whole = begin update ∷ receive_polls ∷ transmit_polls ∷ []

half-pending :
    (finish_update willing (run willing (station true) (begin update ∷ receive_polls ∷ [])) true).1
    ≡ err pending
unfolding run step begin_update finish_update receive publish result commit apply_stopped_update
half-pending = refl

run_retains_example :
    Refers
      (run willing (station true) half).updates
      (run willing (station true) half).updates.receive
    × Refers
        (run willing (station true) half).updates
        (run willing (station true) half).updates.transmit
run_retains_example = run_retains willing (station true) half refl

-- Both callbacks have taken the forward owner.
abbrev taken : Station ℕ ℕ ℕ ℕ
taken = record (station true) {
  updates = record {
    storage = record {
      current = none;
      transaction = some (record { candidate = update; reversing = false });
      revision = 0;
    };
    receive = record { slot = none; processing = some 1; result = applied };
    transmit = record { slot = none; processing = some 1; result = applied };
  };
  receive_context = record { station = 1; controller_ctcss = []; voter_reporting = false };
  transmit_context = 1;
}

run-whole : run willing (station true) whole ≡ taken
unfolding run step begin_update receive transmit publish apply_stopped_update
run-whole = refl

taken-IsValid : IsValid taken.updates
taken-IsValid = (inr (refl, inl (refl, refl)), inr (refl, inl (refl, refl)))

finish_update-ok_example :
    let s' = (finish_update willing taken true).0 in
    (s'.updates.storage.transaction ≡ none)
    × (s'.plan ≡ 1)
    × ((s'.updates.receive.slot ≡ none) × (s'.updates.receive.processing ≡ some 1))
    × ((s'.updates.transmit.slot ≡ none) × (s'.updates.transmit.processing ≡ some 1))
unfolding finish_update commit result apply_stopped_update
finish_update-ok_example =
    finish_update-ok willing taken true (record { candidate = update; reversing = false })
      taken-IsValid refl refl

-- The same with the audio stopped before the rollback.
abbrev stopped : Station ℕ ℕ ℕ ℕ
stopped = record taken { running = false }

finish_update-stopped_example : (finish_update willing stopped false).1 ≡ ok tt
finish_update-stopped_example =
    finish_update-stopped willing stopped (record { candidate = update; reversing = false })
      taken-IsValid refl refl refl refl (λ x r. refl)
