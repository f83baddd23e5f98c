-- ===== src/Update/Outcome.antt =====
-- What the end of an update of rust/station/src/update.rs leaves: the new settings, the old ones, or
-- an open transaction.
use usbradio_plus.Prelude.{
  ◌≡◌, refl, sym, ap, subst, ◌∙◌, Bool, true, false, not, none, some, ◌==◌, Result, ok, err,
  if◌then◌else◌, if_cases, result_cases, arith,
}
use usbradio_plus.Update.{
  UpdateOwner, StationUpdate, Transaction, Station, StationUpdateError, Radio, Answer, result,
  apply_stopped_update, commit, end_reverse, start_reverse, roll_back, is_pending, pending,
  incompatible, finish_with, finish_update,
}
use usbradio_plus.Update.Sides.{generation, Agrees, IsValid}
use usbradio_plus.Update.Safety.{finish_update-IsValid, apply_stopped_update-storage}

module _ {R G P S : Type 0} (radio : Radio R S) where
  -- A transaction ended with an owner and a plan.
  abbrev Ended : P → UpdateOwner R G → Answer R G P S → Type 0
  Ended plan owner a =
      a.1 ≡ ok tt
      → (a.0.plan ≡ plan)
        × (a.0.updates.storage.current ≡ some owner)
        × (a.0.updates.storage.transaction ≡ none)

  err-Ended :
      {plan : P} {owner : UpdateOwner R G} (s : Station R G P S) (e : StationUpdateError)
      → Ended plan owner (s, err e)
  err-Ended s e h = ground arith

  commit-Ended :
      (s : Station R G P S) (t : Transaction R G P)
      → Ended t.candidate.plan t.candidate.forward (commit radio s t)
  unfolding commit
  commit-Ended s t =
      let Q : Answer R G P S → Type 0 = Ended t.candidate.plan t.candidate.forward in
      result_cases Q (result s.updates) _ _ (λ e r. err-Ended s e)
        (λ r. if_cases Q t.reversing _ _ (λ b. err-Ended s _) (λ b h. (refl, refl, refl)))

  end_reverse-Ended :
      (s : Station R G P S) (c : StationUpdate R G P) (r : Result StationUpdateError (Unit {0}))
      → Ended c.previous c.reverse (end_reverse radio s c r)
  end_reverse-Ended s c (err e) = err-Ended s e
  end_reverse-Ended s c (ok tt) = λ h. (refl, refl, refl)

  roll_back-Ended :
      (s : Station R G P S) (t : Transaction R G P)
      → Ended t.candidate.previous t.candidate.reverse (roll_back radio s t)
  unfolding roll_back start_reverse
  roll_back-Ended s t =
      let Q : Answer R G P S → Type 0 = Ended t.candidate.previous t.candidate.reverse in
      if_cases Q (is_pending (result s.updates)) (s, err pending) _ (λ p. err-Ended s _)
        (λ p.
          if_cases Q t.reversing (end_reverse radio s t.candidate (result s.updates)) _
            (λ b. end_reverse-Ended s t.candidate _) (λ b. end_reverse-Ended _ t.candidate _))

  abbrev wanted_plan : Bool → Transaction R G P → P
  wanted_plan on t = if on then t.candidate.plan else t.candidate.previous

  abbrev wanted : Bool → Transaction R G P → UpdateOwner R G
  wanted on t = if on then t.candidate.forward else t.candidate.reverse

  finish_some-Ended :
      (s : Station R G P S) (on : Bool) (t : Transaction R G P)
      → Ended (wanted_plan on t) (wanted on t) (finish_with radio s on (some t))
  finish_some-Ended s true t = commit-Ended s t
  finish_some-Ended s false t = roll_back-Ended s t

  finish_update-Ended :
      (s : Station R G P S) (on : Bool) (t : Transaction R G P)
      → s.updates.storage.transaction ≡ some t
      → Ended (wanted_plan on t) (wanted on t) (finish_update radio s on)
  unfolding finish_update
  finish_update-Ended s on t e =
      let s' = apply_stopped_update radio s in
      let Q : Answer R G P S → Type 0 = Ended (wanted_plan on t) (wanted on t) in
      let e' : s'.updates.storage.transaction ≡ some t =
        ap (λ x. x.transaction) (apply_stopped_update-storage radio s) ∙ e in
      if_cases Q (not (s.address == s.host_address)) (s, err incompatible) _ (λ p. err-Ended s _)
        (λ p. subst (λ o. Q (finish_with radio s' on o)) (sym e') (finish_some-Ended s' on t))

  -- When finish_update of an open transaction of a valid mailbox succeeds, the transaction is
  -- over, the plan is the candidate's for a commit and the previous one for a rollback, and
  -- both callbacks run the matching generation with nothing left in their slots.
  pub finish_update-ok :
      (s : Station R G P S) (on : Bool) (t : Transaction R G P)
      → IsValid s.updates
      → s.updates.storage.transaction ≡ some t
      → (finish_update radio s on).1 ≡ ok tt
      → let s' = (finish_update radio s on).0 in
        let owner = if on then t.candidate.forward else t.candidate.reverse in
        (s'.updates.storage.transaction ≡ none)
        × (s'.plan ≡ (if on then t.candidate.plan else t.candidate.previous))
        × ((s'.updates.receive.slot ≡ none)
            × (s'.updates.receive.processing ≡ some owner.processing))
        × ((s'.updates.transmit.slot ≡ none)
            × (s'.updates.transmit.processing ≡ some owner.processing))
  finish_update-ok s on t v e h =
      let m = (finish_update radio s on).0.updates in
      let (plan, current, over) = finish_update-Ended s on t e h in
      let (rx, tx) = finish_update-IsValid radio s on v in
      let (rx_slot, rx_runs) = subst (λ o. Agrees m.storage o m.receive) over rx in
      let (tx_slot, tx_runs) = subst (λ o. Agrees m.storage o m.transmit) over tx in
      (
        over,
        plan,
        (rx_slot, rx_runs ∙ ap generation current),
        (tx_slot, tx_runs ∙ ap generation current),
      )
