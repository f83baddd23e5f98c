-- ===== src/Update/Stopped.antt =====
-- A rollback of rust/station/src/update.rs on a station whose callbacks are stopped.
use usbradio_plus.Prelude.{
  ◌≡◌, refl, sym, ap, subst, ◌∙◌, Bool, true, false, not, Option, none, some, ◌==◌, ok, err,
  if_cases, arith,
}
use mathlib.Core.Bool.{true≢false}
use usbradio_plus.Update.{
  answered, UpdateOwner, Transaction, Side, UpdateMailbox, Station, Radio, Answer, result,
  apply_stopped_update, end_reverse, start_reverse, roll_back, is_pending, pending, incompatible,
  finish_with, finish_update, publish, install, published, receive, transmit, receive_with,
  transmit_with,
}
use usbradio_plus.Update.Sides.{Agrees, IsValid}
use usbradio_plus.Update.Safety.{apply_stopped_update-storage, apply_stopped_update-IsValid}

answered-slot :
    {R G : Type 0} (side : Side R G) (owner : UpdateOwner R G) (taken : Bool)
    → (answered side owner taken).slot ≡ none
answered-slot side owner true = refl
answered-slot side owner false = refl

module _ {R G P S : Type 0} (radio : Radio R S) where
  published-ok :
      (s : Station R G P S) (owner : UpdateOwner R G)
      → s.running ≡ false
      → ((x : S) (r : R) → (radio.apply_update x r).1 ≡ true)
      → result (published radio s owner).updates ≡ ok tt
  unfolding publish apply_stopped_update receive transmit result
  published-ok s owner off takes =
      rw (off, takes s.receive_context.station owner.radio, takes s.transmit_context owner.radio)
        refl

  -- A poll empties the callback's slot, and leaves the other side and `running` alone.
  receive_with-slot :
      (s : Station R G P S) (slot : Option (UpdateOwner R G))
      → s.updates.receive.slot ≡ slot
      → ((receive_with radio s slot).updates.receive.slot ≡ none)
        × ((receive_with radio s slot).running ≡ s.running)
  receive_with-slot s none e = (e, refl)
  receive_with-slot s (some owner) e = (answered-slot s.updates.receive owner _, refl)

  transmit_with-slot :
      (s : Station R G P S) (slot : Option (UpdateOwner R G))
      → s.updates.transmit.slot ≡ slot
      → ((transmit_with radio s slot).updates.transmit.slot ≡ none)
        × ((transmit_with radio s slot).updates.receive ≡ s.updates.receive)
        × ((transmit_with radio s slot).running ≡ s.running)
  transmit_with-slot s none e = (e, refl, refl)
  transmit_with-slot s (some owner) e = (answered-slot s.updates.transmit owner _, refl, refl)

  stopped-slots :
      (s : Station R G P S)
      → s.running ≡ false
      → ((apply_stopped_update radio s).updates.receive.slot ≡ none)
        × ((apply_stopped_update radio s).updates.transmit.slot ≡ none)
        × ((apply_stopped_update radio s).running ≡ false)
  unfolding apply_stopped_update receive transmit
  stopped-slots s off =
      let Q : Station R G P S → Type 0 = λ u.
        (u.updates.receive.slot ≡ none) × (u.updates.transmit.slot ≡ none) × (u.running ≡ false) in
      if_cases Q s.running s (transmit radio (receive radio s))
        (λ on. absurd (true≢false (sym on ∙ off)))
        (λ _.
          let r = receive radio s in
          let (rx, rr) = receive_with-slot s s.updates.receive.slot refl in
          let (tx, same, tr) = transmit_with-slot r r.updates.transmit.slot refl in
          (ap (λ x. x.slot) same ∙ rx, tx, tr ∙ rr ∙ off))

  settled-result :
      (m : UpdateMailbox R G P) (t : Transaction R G P)
      → m.receive.slot ≡ none
      → m.transmit.slot ≡ none
      → Agrees m.storage (some t) m.receive
      → Agrees m.storage (some t) m.transmit
      → is_pending (result m) ≡ false
  unfolding result
  settled-result m t rx tx v w = ground arith

  roll_back-ok :
      (s : Station R G P S) (t : Transaction R G P)
      → is_pending (result s.updates) ≡ false
      → t.reversing ≡ false
      → s.running ≡ false
      → ((x : S) (r : R) → (radio.apply_update x r).1 ≡ true)
      → (roll_back radio s t).1 ≡ ok tt
  unfolding roll_back start_reverse
  roll_back-ok s t p b off takes =
      let Q : Answer R G P S → Type 0 = λ a. a.1 ≡ ok tt in
      let s' = record s { updates = install s.updates (some (record t { reversing = true })) } in
      let u = published radio s' t.candidate.reverse in
      if_cases Q (is_pending (result s.updates)) (s, err pending) _
        (λ h. absurd (true≢false (sym h ∙ p)))
        (λ _.
          if_cases Q t.reversing (end_reverse radio s t.candidate (result s.updates)) _
            (λ h. absurd (true≢false (sym h ∙ b)))
            (λ _.
              subst (λ r. Q (end_reverse radio u t.candidate r))
                (sym (published-ok s' t.candidate.reverse off takes)) refl))

  -- On a stopped station with a valid mailbox that is the host's, and a radio that takes every
  -- update, the rollback of an open transaction that is not reversing yet succeeds, and is
  -- never left pending.
  pub finish_update-stopped :
      (s : Station R G P S) (t : Transaction R G P)
      → IsValid s.updates
      → s.running ≡ false
      → s.address ≡ s.host_address
      → s.updates.storage.transaction ≡ some t
      → t.reversing ≡ false
      → ((x : S) (r : R) → (radio.apply_update x r).1 ≡ true)
      → (finish_update radio s false).1 ≡ ok tt
  unfolding finish_update
  finish_update-stopped s t v off same e b takes =
      let s' = apply_stopped_update radio s in
      let Q : Answer R G P S → Type 0 = λ a. a.1 ≡ ok tt in
      let e' : s'.updates.storage.transaction ≡ some t =
        ap (λ x. x.transaction) (apply_stopped_update-storage radio s) ∙ e in
      let (vr, vt) = apply_stopped_update-IsValid radio s v in
      let (rx, tx, off') = stopped-slots s off in
      let p : is_pending (result s'.updates) ≡ false =
        settled-result s'.updates t rx tx
          (subst (λ o. Agrees s'.updates.storage o s'.updates.receive) e' vr)
          (subst (λ o. Agrees s'.updates.storage o s'.updates.transmit) e' vt) in
      if_cases Q (not (s.address == s.host_address)) (s, err incompatible) _
        (λ other. absurd (ground (arith, other, same)))
        (λ _.
          subst (λ o. Q (finish_with radio s' false o)) (sym e') (roll_back-ok s' t p b off' takes))
