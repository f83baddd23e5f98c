-- ===== src/Adapter/Controller/Delivery.antt =====
-- `next_action` of rust/asl3/src/adapter.rs delivers every packet once, in order: the change of the
-- receiver's key, the statuses that are new, and the voice frame.
use usbradio_plus.Prelude.{
  ℕ, suc, ◌+◌, ◌≡◌, refl, sym, ap, Option, none, some, List, [], ◌∷◌, ◌++◌, ltb, Bool-cases, inl,
  inr, arith,
}
use usbradio_plus.Adapter.{ReceivePacket}
use usbradio_plus.Adapter.Controller.{
  DeliveryPhase, receiver_state, status, voice, PendingDelivery, DeliveryAction, deliver_voice,
  Receiver, ControllerState, Exit, again, empty, fault, returned, same_bool, catch_up,
  deliver_phase, round, rounds, next_action,
}
use usbradio_plus.Adapter.Controller.Owed.{
  new_statuses, owed_in, HasPlaces, catch_up-ge, catch_up_of_ge, get_status-IsSome,
  status_actions-cons, status_actions-nil, owed, Follows, Delivers,
}

module _ {H P : Type 0} where
  deliver_status :
      (s : ControllerState H P) (p : ReceivePacket)
      → s.pending ≡ some (record { packet = p; phase = status })
      → HasPlaces p.statuses
      → Follows
          (some (record { packet = p; phase = voice }))
          (new_statuses s.status p.statuses ++ (deliver_voice p.frame ∷ []))
          (deliver_phase s status p)
  unfolding deliver_phase
  deliver_status s p e h =
      let o = catch_up s.status p.statuses in
      let (x, found) = get_status-IsSome p.statuses o.next_sequence h in
      elim (Bool-cases (ltb o.next_sequence p.statuses.produced)) [
        | inl more ↦
            rw (more, found, e)
              (rw
                (catch_up_of_ge (record o { next_sequence = o.next_sequence + 1 }) p.statuses
                  (omega (arith, catch_up-ge s.status p.statuses)))
                (ap (λ l. l ++ (deliver_voice p.frame ∷ []))
                  (status_actions-cons p.statuses o.next_sequence x (ground arith) found)))
        | inr over ↦ rw over (
          refl,
          sym (
              ap (λ l. l ++ (deliver_voice p.frame ∷ []))
                (status_actions-nil p.statuses o.next_sequence (ground arith))),
        )
      ]

  deliver_receiver_state :
      (s : ControllerState H P) (p : ReceivePacket)
      → Follows
          (some (record { packet = p; phase = status }))
          (owed_in s.delivered_keyed s.status receiver_state p)
          (deliver_phase s receiver_state p)
  unfolding deliver_phase
  deliver_receiver_state s p =
      elim (Bool-cases (same_bool s.delivered_keyed p.qualification.receiver_keyed)) [
        | inl same ↦ rw same (refl, refl)
        | inr differs ↦ rw differs refl
      ]

  deliver_voice_lem :
      (s : ControllerState H P) (p : ReceivePacket)
      → Delivers (deliver_voice p.frame ∷ []) (deliver_phase s voice p)
  unfolding deliver_phase
  deliver_voice_lem s p = refl

  module _ (rx : Receiver H) where
    after_round :
        (k : ℕ) (l : List DeliveryAction) (d : Option PendingDelivery) (s : ControllerState H P)
        (exit : Exit)
        → Follows d l (s, exit)
        → (s.pending ≡ d → owed s ≡ l → Delivers l (rounds rx k s))
        → Delivers {H = H} {P = P} l (elim exit [ again ↦ rounds rx k s | other ↦ (s, other) ])
    after_round k l d s again f next = next f.0 f.1
    after_round k l d s (returned a) f next = f
    after_round k l d s empty f next = f
    after_round k l d s fault f next = f

    rounds-voice :
        (k : ℕ) (s : ControllerState H P) (p : ReceivePacket)
        → s.pending ≡ some (record { packet = p; phase = voice })
        → Delivers (owed s) (rounds rx (suc k) s)
    unfolding rounds round deliver_phase
    rounds-voice k s p e = rw e refl

    rounds-status :
        (k : ℕ) (s : ControllerState H P) (p : ReceivePacket)
        → HasPlaces p.statuses
        → s.pending ≡ some (record { packet = p; phase = status })
        → Delivers (owed s) (rounds rx (suc (suc k)) s)
    unfolding rounds round
    rounds-status k s p h e =
        let t = record s { pending = some (record { packet = p; phase = status }) } in
        let out = deliver_phase t status p in
        rw e (
          after_round (suc k) _ (some (record { packet = p; phase = voice })) out.0 out.1
            (deliver_status t p refl h) (λ f g. rw (← g) (rounds-voice k out.0 p f)))

    rounds-receiver_state :
        (k : ℕ) (s : ControllerState H P) (p : ReceivePacket)
        → HasPlaces p.statuses
        → s.pending ≡ some (record { packet = p; phase = receiver_state })
        → Delivers (owed s) (rounds rx (suc (suc (suc k))) s)
    unfolding rounds round
    rounds-receiver_state k s p h e =
        let t = record s { pending = some (record { packet = p; phase = receiver_state }) } in
        let out = deliver_phase t receiver_state p in
        rw e (
          after_round (suc (suc k)) _ (some (record { packet = p; phase = status })) out.0 out.1
            (deliver_receiver_state t p) (λ f g. rw (← g) (rounds-status k out.0 p h f)))

    rounds-pending :
        (s : ControllerState H P) (phase : DeliveryPhase) (p : ReceivePacket)
        → HasPlaces p.statuses
        → s.pending ≡ some (record { packet = p; phase = phase })
        → Delivers (owed s) (rounds rx 3 s)
    rounds-pending s receiver_state p h e = rounds-receiver_state 0 s p h e
    rounds-pending s status p h e = rounds-status 1 s p h e
    rounds-pending s voice p h e = rounds-voice 2 s p e

    -- With a delivery pending whose journal has its sixteen places, next_action returns an
    -- action, the next of those that the packet is owed (the key's change, the new statuses in
    -- order, the voice frame), and leaves the others pending.
    pub next_action-pending :
        (s : ControllerState H P) (d : PendingDelivery)
        → HasPlaces d.packet.statuses
        → s.pending ≡ some d
        → Delivers (owed s) (next_action rx s)
    unfolding next_action
    next_action-pending s d h e = rounds-pending s d.phase d.packet h e

    -- Rounds are decided by the first.
    rounds-round :
        (s : ControllerState H P) (r : ControllerState H P × Exit)
        → round rx s ≡ r
        → rounds rx 3 s ≡ elim r.1 [ again ↦ rounds rx 2 r.0 | other ↦ (r.0, other) ]
    unfolding rounds
    rounds-round s r e = ap (λ r. elim r.1 [ again ↦ rounds rx 2 r.0 | other ↦ (r.0, other) ]) e

    rounds-same :
        (s t : ControllerState H P) → round rx s ≡ round rx t → rounds rx 3 s ≡ rounds rx 3 t
    unfolding rounds
    rounds-same s t e = ap (λ r. elim r.1 [ again ↦ rounds rx 2 r.0 | other ↦ (r.0, other) ]) e

    abbrev taken : ControllerState H P → ReceivePacket → ControllerState H P
    taken s p = record s {
      pending = some (record { packet = p; phase = receiver_state });
      receive = (rx.pop s.receive).1;
    }

    round-empty :
        (s : ControllerState H P)
        → s.pending ≡ none
        → (rx.pop s.receive).0 ≡ none
        → round rx s ≡ (record s { pending = none; receive = (rx.pop s.receive).1 }, empty)
    unfolding round
    round-empty s e no_packet = rw (e, no_packet) refl

    round-packet :
        (s : ControllerState H P) (p : ReceivePacket)
        → s.pending ≡ none
        → (rx.pop s.receive).0 ≡ some p
        → round rx s ≡ round rx (taken s p)
    unfolding round
    round-packet s p e packet = rw (e, packet) refl

    -- With nothing pending and no packet waiting, next_action reports that there is nothing and
    -- leaves all but the consumer as it was.
    pub next_action-empty :
        (s : ControllerState H P)
        → s.pending ≡ none
        → (rx.pop s.receive).0 ≡ none
        → next_action rx s ≡ (record s { pending = none; receive = (rx.pop s.receive).1 }, empty)
    unfolding next_action
    next_action-empty s e no_packet = rounds-round s _ (round-empty s e no_packet)

    -- With nothing pending and a next packet whose journal has its sixteen places, next_action
    -- takes the packet and returns the first of the actions that it is owed, the others staying
    -- pending.
    pub next_action-packet :
        (s : ControllerState H P) (p : ReceivePacket)
        → s.pending ≡ none
        → (rx.pop s.receive).0 ≡ some p
        → HasPlaces p.statuses
        → Delivers (owed_in s.delivered_keyed s.status receiver_state p) (next_action rx s)
    unfolding next_action
    next_action-packet s p e packet h =
        rw (rounds-same s (taken s p) (round-packet s p e packet))
          (rounds-pending (taken s p) receiver_state p h refl)
