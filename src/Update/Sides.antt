-- ===== src/Update/Sides.antt =====
-- What is true of the mailbox of rust/station/src/update.rs between the operations, and what its two
-- sides become.
use usbradio_plus.Prelude.{
  ◌≡◌, refl, subst, ◌⊎◌, inl, inr, Bool, true, false, ◌&&◌, Option, none, some, if◌then◌else◌, ok,
  arith,
}
use mathlib.Core.Bool.{false≢true}
use usbradio_plus.Update.{
  UpdateOwner, StationUpdate, Transaction, UpdateStorage, Side, UpdateMailbox, Acknowledgement,
  waiting, applied, rejected, offered, answered, publish, result, both, settle, install, is_none,
}

abbrev pub generation : {R G : Type 0} → Option (UpdateOwner R G) → Option G
generation none = none
generation (some owner) = some owner.processing

both-applied : (rx tx : Acknowledgement) → both rx tx ≡ ok tt → (rx ≡ applied) × (tx ≡ applied)
both-applied waiting waiting h = ground arith
both-applied waiting applied h = ground arith
both-applied waiting rejected h = ground arith
both-applied applied waiting h = ground arith
both-applied applied applied h = (refl, refl)
both-applied applied rejected h = ground arith
both-applied rejected waiting h = ground arith
both-applied rejected applied h = ground arith
both-applied rejected rejected h = ground arith

pub is_none-none : {A : Type 0} (o : Option A) (b : Bool) → (is_none o && b) ≡ true → o ≡ none
is_none-none none b h = refl
is_none-none (some a) b h = absurd (false≢true h)

module _ {R G P : Type 0} where
  -- The owner that a transaction has offered to the callbacks.
  abbrev pub offer : Transaction R G P → UpdateOwner R G
  offer t = if t.reversing then t.candidate.reverse else t.candidate.forward

  -- The generations that a callback can still run before it takes the offer.
  abbrev pub Earlier : UpdateStorage R G P → Transaction R G P → Option G → Type 0
  Earlier s t g =
      (g ≡ generation s.current)
      ⊎ ((t.reversing ≡ true) × (g ≡ some t.candidate.forward.processing))

  -- A callback of an open transaction has the offer before it, has taken it, or has refused it.
  abbrev pub Open : UpdateStorage R G P → Transaction R G P → Side R G → Type 0
  Open s t side =
      ((side.slot ≡ some (offer t)) × (side.result ≡ waiting) × Earlier s t side.processing)
      ⊎ ((side.slot ≡ none)
          × (((side.result ≡ applied) × (side.processing ≡ some (offer t).processing))
              ⊎ ((side.result ≡ rejected) × Earlier s t side.processing)))

  -- With no transaction a callback has nothing before it and runs the current generation.
  abbrev pub Closed : UpdateStorage R G P → Side R G → Type 0
  Closed s side = (side.slot ≡ none) × (side.processing ≡ generation s.current)

  abbrev pub Agrees : UpdateStorage R G P → Option (Transaction R G P) → Side R G → Type 0
  Agrees s none side = Closed s side
  Agrees s (some t) side = Open s t side

  abbrev pub IsValid : UpdateMailbox R G P → Type 0
  IsValid m =
      Agrees m.storage m.storage.transaction m.receive
      × Agrees m.storage m.storage.transaction m.transmit

  pub answered-Agrees :
      (s : UpdateStorage R G P) (t : Option (Transaction R G P)) (side : Side R G)
      (owner : UpdateOwner R G) (taken : Bool)
      → side.slot ≡ some owner
      → Agrees s t side
      → Agrees s t (answered side owner taken)
  answered-Agrees s none side owner taken e v = ground arith
  answered-Agrees s (some t) side owner true e (inl (o, w, p)) =
      inr (refl, inl (refl, ground (arith, e, o)))
  answered-Agrees s (some t) side owner false e (inl (o, w, p)) = inr (refl, inr (refl, p))
  answered-Agrees s (some t) side owner taken e (inr (o, p)) = ground arith

  pub offered-Closed :
      (s : UpdateStorage R G P) (c : StationUpdate R G P) (side : Side R G)
      → Closed s side
      → Open s (record { candidate = c; reversing = false }) (offered side c.forward)
  offered-Closed s c side v = ground arith

  pub applied-Open :
      (s : UpdateStorage R G P) (t : Transaction R G P) (side : Side R G)
      → side.result ≡ applied
      → Open s t side
      → (side.slot ≡ none) × (side.processing ≡ some (offer t).processing)
  applied-Open s t side e v = ground arith

  -- Both callbacks have the offer's generation once both have answered that they took it.
  pub both-ok :
      (m : UpdateMailbox R G P) (t : Transaction R G P)
      → m.storage.transaction ≡ some t
      → result m ≡ ok tt
      → IsValid m
      → ((m.receive.slot ≡ none) × (m.receive.processing ≡ some (offer t).processing))
        × ((m.transmit.slot ≡ none) × (m.transmit.processing ≡ some (offer t).processing))
  unfolding result
  both-ok m t e r (v, w) =
      let (rx, tx) = both-applied m.receive.result m.transmit.result r in
      (
        applied-Open m.storage t m.receive rx (subst (λ o. Agrees m.storage o m.receive) e v),
        applied-Open m.storage t m.transmit tx (subst (λ o. Agrees m.storage o m.transmit) e w),
      )

  pub begun-IsValid :
      (m : UpdateMailbox R G P) (update : StationUpdate R G P)
      → m.storage.transaction ≡ none
      → IsValid m
      → IsValid (
          publish
            (install m (some (record { candidate = update; reversing = false })))
            update.forward)
  unfolding publish
  begun-IsValid m update e (v, w) = (
    offered-Closed m.storage update m.receive (subst (λ o. Agrees m.storage o m.receive) e v),
    offered-Closed m.storage update m.transmit (subst (λ o. Agrees m.storage o m.transmit) e w),
  )

  pub reversed :
      (s : UpdateStorage R G P) (t : Transaction R G P) (side : Side R G)
      → t.reversing ≡ false
      → Open s t side
      → Open s (record t { reversing = true }) (offered side t.candidate.reverse)
  reversed s t side f v = ground arith

  pub reversing_eta :
      (t : Transaction R G P)
      → t.reversing ≡ true
      → t ≡ record { candidate = t.candidate; reversing = true }
  reversing_eta t b = ground arith

  pub offer-forward : (t : Transaction R G P) → t.reversing ≡ false → offer t ≡ t.candidate.forward
  offer-forward t h = ground arith

  pub settle-IsValid :
      (m : UpdateMailbox R G P) (t : Transaction R G P)
      → m.storage.transaction ≡ some t
      → result m ≡ ok tt
      → IsValid m
      → IsValid (settle m (offer t))
  settle-IsValid m t e r v = both-ok m t e r v

  pub reversed-IsValid :
      (m : UpdateMailbox R G P) (t : Transaction R G P)
      → m.storage.transaction ≡ some t
      → t.reversing ≡ false
      → IsValid m
      → IsValid (publish (install m (some (record t { reversing = true }))) t.candidate.reverse)
  unfolding publish
  reversed-IsValid m t e f (v, w) = (
    reversed m.storage t m.receive f (subst (λ o. Agrees m.storage o m.receive) e v),
    reversed m.storage t m.transmit f (subst (λ o. Agrees m.storage o m.transmit) e w),
  )
