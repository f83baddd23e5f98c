-- ===== src/Update/Retain.antt =====
-- What the pointers of rust/station/src/update.rs refer to: owners that the storage still holds.
use usbradio_plus.Prelude.{
  ◌≡◌, refl, sym, subst, ◌⊎◌, inl, inr, Bool, true, false, Option, none, some, List, if◌then◌else◌,
}
use usbradio_plus.Update.{
  UpdateOwner, Transaction, Side, UpdateMailbox, Station, Radio, Call, run, new_mailbox,
}
use usbradio_plus.Update.Sides.{generation, Earlier, Agrees, IsValid, offer}
use usbradio_plus.Update.Safety.{run-IsValid}

module _ {R G P : Type 0} where
  -- An owner is retained if it is the current one or one of the open transaction's.
  abbrev pub Retained : UpdateMailbox R G P → UpdateOwner R G → Type 0
  Retained m owner =
      (m.storage.current ≡ some owner)
      ⊎ ((t : Transaction R G P) × (m.storage.transaction ≡ some t)
          × ((owner ≡ t.candidate.forward) ⊎ (owner ≡ t.candidate.reverse)))

  -- A side refers to nothing but retained owners: by its slot, and by the generation that it runs.
  abbrev pub Refers : UpdateMailbox R G P → Side R G → Type 0
  Refers m side =
      ((side.slot ≡ none)
        ⊎ ((owner : UpdateOwner R G) × (side.slot ≡ some owner) × Retained m owner))
      × ((side.processing ≡ none)
          ⊎ ((owner : UpdateOwner R G) × (side.processing ≡ some owner.processing)
              × Retained m owner))

  abbrev Runs : UpdateMailbox R G P → Option G → Type 0
  Runs m g =
      (g ≡ none) ⊎ ((owner : UpdateOwner R G) × (g ≡ some owner.processing) × Retained m owner)

  current-Runs :
      (m : UpdateMailbox R G P) (c : Option (UpdateOwner R G)) (g : Option G)
      → m.storage.current ≡ c
      → g ≡ generation c
      → Runs m g
  current-Runs m none g e h = inl h
  current-Runs m (some owner) g e h = inr (owner, h, inl e)

  Earlier-Runs :
      (m : UpdateMailbox R G P) (t : Transaction R G P) (g : Option G)
      → m.storage.transaction ≡ some t
      → Earlier m.storage t g
      → Runs m g
  Earlier-Runs m t g e (inl h) = current-Runs m _ g refl h
  Earlier-Runs m t g e (inr (b, h)) = inr (t.candidate.forward, h, inr (t, e, inl refl))

  offer-Retained :
      (m : UpdateMailbox R G P) (t : Transaction R G P)
      → m.storage.transaction ≡ some t
      → Retained m (offer t)
  offer-Retained m t e = inr (t, e, one_of t.reversing)
    where
      one_of :
          (b : Bool)
          → ((if b then t.candidate.reverse else t.candidate.forward) ≡ t.candidate.forward)
            ⊎ ((if b then t.candidate.reverse else t.candidate.forward) ≡ t.candidate.reverse)
      one_of true = inr refl
      one_of false = inl refl

  side-Refers :
      (m : UpdateMailbox R G P) (t : Option (Transaction R G P)) (side : Side R G)
      → m.storage.transaction ≡ t
      → Agrees m.storage t side
      → Refers m side
  side-Refers m none side e (empty, h) = (inl empty, current-Runs m _ side.processing refl h)
  side-Refers m (some t) side e (inl (o, w, h)) =
      (inr (offer t, o, offer-Retained m t e), Earlier-Runs m t side.processing e h)
  side-Refers m (some t) side e (inr (o, inl (a, h))) =
      (inl o, inr (offer t, h, offer-Retained m t e))
  side-Refers m (some t) side e (inr (o, inr (a, h))) =
      (inl o, Earlier-Runs m t side.processing e h)

module _ {R G P S : Type 0} (radio : Radio R S) where
  -- At every order of control calls and callback polls on a new mailbox, each callback's slot
  -- and the generation that it runs belong to an owner that the storage still holds: the
  -- current one, or one of the open transaction's.
  pub run_retains :
      (s : Station R G P S) (calls : List (Call R G P))
      → s.updates ≡ new_mailbox
      → Refers (run radio s calls).updates (run radio s calls).updates.receive
        × Refers (run radio s calls).updates (run radio s calls).updates.transmit
  run_retains s calls e =
      let s' = run radio s calls in
      let (v, w) = run-IsValid radio s calls (subst IsValid (sym e) ((refl, refl), (refl, refl))) in
      (
        side-Refers s'.updates _ s'.updates.receive refl v,
        side-Refers s'.updates _ s'.updates.transmit refl w,
      )
