-- ===== src/Update/Safety.antt =====
-- What a station's update mailbox of rust/station/src/update.rs keeps true at every order of control
-- calls and callbacks.
use usbradio_plus.Prelude.{
  ◌≡◌, refl, sym, ap, subst, ◌∙◌, inl, inr, Bool, true, false, ◌&&◌, not, Option, none, some, List,
  [], ◌∷◌, ◌==◌, Result, ok, err, Bool-cases, if_cases, result_cases,
}
use usbradio_plus.Update.{
  UpdateOwner, StationUpdate, Transaction, Station, Radio, pending, is_pending, begun, incompatible,
  radio_error, busy, Answer, publish, result, settle, install, receive_with, receive, transmit_with,
  transmit, apply_stopped_update, begin_update, accept_with, accept_update, commit, end_reverse,
  start_reverse, roll_back, finish_with, finish_update, Call, begin, accept, finish, receive_polls,
  transmit_polls, set_running, step, run, is_none, StationUpdateError,
}
use usbradio_plus.Update.Sides.{
  IsValid, answered-Agrees, begun-IsValid, reversed-IsValid, reversing_eta, offer-forward,
  settle-IsValid, is_none-none,
}

module _ {R G P S : Type 0} (radio : Radio R S) where
  receive_with-IsValid :
      (s : Station R G P S) (slot : Option (UpdateOwner R G))
      → s.updates.receive.slot ≡ slot
      → IsValid s.updates
      → IsValid (receive_with radio s slot).updates
  receive_with-IsValid s none e v = v
  receive_with-IsValid s (some owner) e (v, w) = (
    answered-Agrees s.updates.storage s.updates.storage.transaction s.updates.receive owner _ e v,
    w,
  )

  receive-IsValid : (s : Station R G P S) → IsValid s.updates → IsValid (receive radio s).updates
  unfolding receive
  receive-IsValid s v = receive_with-IsValid s s.updates.receive.slot refl v

  transmit_with-IsValid :
      (s : Station R G P S) (slot : Option (UpdateOwner R G))
      → s.updates.transmit.slot ≡ slot
      → IsValid s.updates
      → IsValid (transmit_with radio s slot).updates
  transmit_with-IsValid s none e v = v
  transmit_with-IsValid s (some owner) e (v, w) = (
    v,
    answered-Agrees s.updates.storage s.updates.storage.transaction s.updates.transmit owner _ e w,
  )

  transmit-IsValid : (s : Station R G P S) → IsValid s.updates → IsValid (transmit radio s).updates
  unfolding transmit
  transmit-IsValid s v = transmit_with-IsValid s s.updates.transmit.slot refl v

  pub apply_stopped_update-IsValid :
      (s : Station R G P S) → IsValid s.updates → IsValid (apply_stopped_update radio s).updates
  unfolding apply_stopped_update
  apply_stopped_update-IsValid s v =
      if_cases (λ u. IsValid u.updates) s.running s (transmit radio (receive radio s)) (λ on. v)
        (λ off. transmit-IsValid (receive radio s) (receive-IsValid s v))

  begin_update-IsValid :
      (s : Station R G P S) (update : StationUpdate R G P)
      → IsValid s.updates
      → IsValid (begin_update radio s update).0.updates
  unfolding begin_update publish
  begin_update-IsValid s update v =
      let Q : Answer R G P S → Type 0 = λ a. IsValid a.0.updates in
      if_cases Q (update.source == s.address && s.address == s.host_address) _ (s, err incompatible)
        (λ e.
          if_cases Q (radio.validate_update update.forward.radio) _ (s, err radio_error)
            (λ e.
              if_cases Q (radio.validate_update update.reverse.radio) _ (s, err radio_error)
                (λ e.
                  if_cases Q
                    (is_none s.updates.storage.transaction
                      && s.updates.storage.revision == update.revision)
                    (begun radio s update) (s, err busy)
                    (λ free.
                      apply_stopped_update-IsValid _
                        (begun-IsValid s.updates update (is_none-none _ _ free) v))
                    (λ e. v))
                (λ e. v))
            (λ e. v))
        (λ e. v)

  commit-IsValid :
      (s : Station R G P S) (t : Transaction R G P)
      → s.updates.storage.transaction ≡ some t
      → IsValid s.updates
      → IsValid (commit radio s t).0.updates
  unfolding commit
  commit-IsValid s t e v =
      let Q : Answer R G P S → Type 0 = λ a. IsValid a.0.updates in
      result_cases Q (result s.updates) _ _ (λ x r. v)
        (λ r.
          if_cases Q t.reversing _ _ (λ b. v)
            (λ b.
              subst (λ o. IsValid (settle s.updates o)) (offer-forward t b)
                (settle-IsValid s.updates t e r v)))

  end_reverse-IsValid :
      (s : Station R G P S) (c : StationUpdate R G P) (r : Result StationUpdateError (Unit {0}))
      → s.updates.storage.transaction ≡ some (record { candidate = c; reversing = true })
      → result s.updates ≡ r
      → IsValid s.updates
      → IsValid (end_reverse radio s c r).0.updates
  end_reverse-IsValid s c (err x) e r v = v
  end_reverse-IsValid s c (ok tt) e r v =
      settle-IsValid s.updates (record { candidate = c; reversing = true }) e r v

  -- The transaction is changed by control calls alone.
  receive_with-storage :
      (s : Station R G P S) (slot : Option (UpdateOwner R G))
      → (receive_with radio s slot).updates.storage ≡ s.updates.storage
  receive_with-storage s none = refl
  receive_with-storage s (some owner) = refl

  receive-storage : (s : Station R G P S) → (receive radio s).updates.storage ≡ s.updates.storage
  unfolding receive
  receive-storage s = receive_with-storage s s.updates.receive.slot

  transmit_with-storage :
      (s : Station R G P S) (slot : Option (UpdateOwner R G))
      → (transmit_with radio s slot).updates.storage ≡ s.updates.storage
  transmit_with-storage s none = refl
  transmit_with-storage s (some owner) = refl

  transmit-storage : (s : Station R G P S) → (transmit radio s).updates.storage ≡ s.updates.storage
  unfolding transmit
  transmit-storage s = transmit_with-storage s s.updates.transmit.slot

  pub apply_stopped_update-storage :
      (s : Station R G P S) → (apply_stopped_update radio s).updates.storage ≡ s.updates.storage
  unfolding apply_stopped_update
  apply_stopped_update-storage s =
      if_cases (λ u. u.updates.storage ≡ s.updates.storage) s.running s
        (transmit radio (receive radio s)) (λ on. refl)
        (λ off. transmit-storage (receive radio s) ∙ receive-storage s)

  start_reverse-IsValid :
      (s : Station R G P S) (t : Transaction R G P)
      → s.updates.storage.transaction ≡ some t
      → t.reversing ≡ false
      → IsValid s.updates
      → IsValid (start_reverse radio s t).0.updates
  unfolding start_reverse publish
  start_reverse-IsValid s t e f v =
      let s' = record s {
        updates =
            publish (install s.updates (some (record t { reversing = true }))) t.candidate.reverse;
      } in
      end_reverse-IsValid (apply_stopped_update radio s') t.candidate _
        (ap (λ o. o.transaction) (apply_stopped_update-storage s')) refl
        (apply_stopped_update-IsValid s' (reversed-IsValid s.updates t e f v))

  roll_back-IsValid :
      (s : Station R G P S) (t : Transaction R G P)
      → s.updates.storage.transaction ≡ some t
      → IsValid s.updates
      → IsValid (roll_back radio s t).0.updates
  unfolding roll_back
  roll_back-IsValid s t e v =
      let Q : Answer R G P S → Type 0 = λ a. IsValid a.0.updates in
      if_cases Q (is_pending (result s.updates)) (s, err pending) _ (λ p. v)
        (λ p.
          if_cases Q t.reversing (end_reverse radio s t.candidate (result s.updates))
            (start_reverse radio s t)
            (λ b. end_reverse-IsValid s t.candidate _ (e ∙ ap some (reversing_eta t b)) refl v)
            (λ b. start_reverse-IsValid s t e b v))

  finish_with-IsValid :
      (s : Station R G P S) (on : Bool) (t : Option (Transaction R G P))
      → s.updates.storage.transaction ≡ t
      → IsValid s.updates
      → IsValid (finish_with radio s on t).0.updates
  finish_with-IsValid s on none e v = v
  finish_with-IsValid s true (some t) e v = commit-IsValid s t e v
  finish_with-IsValid s false (some t) e v = roll_back-IsValid s t e v

  pub finish_update-IsValid :
      (s : Station R G P S) (on : Bool)
      → IsValid s.updates
      → IsValid (finish_update radio s on).0.updates
  unfolding finish_update
  finish_update-IsValid s on v =
      let Q : Answer R G P S → Type 0 = λ a. IsValid a.0.updates in
      let s' = apply_stopped_update radio s in
      if_cases Q (not (s.address == s.host_address)) (s, err incompatible)
        (finish_with radio s' on s'.updates.storage.transaction) (λ e. v)
        (λ e. finish_with-IsValid s' on _ refl (apply_stopped_update-IsValid s v))

  accept_with-updates :
      (s : Station R G P S) (t : Option (Transaction R G P))
      → (accept_with radio s t).0.updates ≡ s.updates
  accept_with-updates s none = refl
  accept_with-updates s (some t) = elim (Bool-cases t.reversing) [
    | inl b ↦ rw b refl
    | inr b ↦ rw b refl
  ]

  accept_update-IsValid :
      (s : Station R G P S) → IsValid s.updates → IsValid (accept_update radio s).0.updates
  unfolding accept_update
  accept_update-IsValid s v =
      let Q : Answer R G P S → Type 0 = λ a. IsValid a.0.updates in
      if_cases Q (not (s.address == s.host_address)) (s, err incompatible) _ (λ e. v)
        (λ e.
          result_cases Q (result s.updates) _ _ (λ x r. v)
            (λ r. subst IsValid (sym (accept_with-updates s _)) v))

  -- Every call of the control owner and every poll of a callback keeps the mailbox valid.
  pub step-IsValid :
      (s : Station R G P S) (call : Call R G P)
      → IsValid s.updates
      → IsValid (step radio s call).updates
  unfolding step
  step-IsValid s (begin update) v = begin_update-IsValid s update v
  step-IsValid s accept v = accept_update-IsValid s v
  step-IsValid s (finish on) v = finish_update-IsValid s on v
  step-IsValid s receive_polls v = receive-IsValid s v
  step-IsValid s transmit_polls v = transmit-IsValid s v
  step-IsValid s (set_running on) v = v

  pub run-IsValid :
      (s : Station R G P S) (calls : List (Call R G P))
      → IsValid s.updates
      → IsValid (run radio s calls).updates
  unfolding run
  run-IsValid s [] v = v
  run-IsValid s (call ∷ calls) v = run-IsValid (step radio s call) calls (step-IsValid s call v)
