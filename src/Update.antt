-- ===== src/Update.antt =====
-- rust/station/src/update.rs: live replacement of a station's settings. The control owner publishes a
-- prepared owner in two atomic slots, each audio callback swaps its slot out and acknowledges, and
-- the transaction is then committed or reversed. A pointer is the owner that it points to. The
-- mailbox's address is a number, and each operation is one step of its thread.
pub mod Sides
pub mod Safety
pub mod Retain
pub mod Outcome
pub mod Stopped
mod Tests
use usbradio_plus.Prelude.{
  ℕ, ◌+◌, ◌%◌, Bool, true, false, ◌&&◌, not, Option, none, some, List, [], ◌∷◌, ◌==◌, if◌then◌else◌,
  Result, ok, err,
}
use usbradio_plus.Handoff.{word}

pub data StationUpdateError : Type 0 where
  incompatible busy pending preparation radio_error : StationUpdateError

-- The value of a result slot: 0, 1 or -1.
pub data Acknowledgement : Type 0 where
  waiting applied rejected : Acknowledgement

-- `StationRadio::apply_update` of either direction, which says whether the update was taken, and
-- `validate_update`.
pub record Radio (R S : Type 0) : Type 0 where
  pub apply_update : S → R → S × Bool
  pub validate_update : R → Bool

pub record UpdateOwner (R G : Type 0) : Type 0 where
  pub radio : R
  pub processing : G
  pub controller_ctcss : List (Option ℕ)
  pub voter_reporting : Bool

pub record StationUpdate (R G P : Type 0) : Type 0 where
  pub plan : P
  pub previous : P
  pub forward : UpdateOwner R G
  pub reverse : UpdateOwner R G
  pub source : ℕ
  pub revision : ℕ

pub record Transaction (R G P : Type 0) : Type 0 where
  pub candidate : StationUpdate R G P
  pub reversing : Bool

pub record UpdateStorage (R G P : Type 0) : Type 0 where
  pub current : Option (UpdateOwner R G)
  pub transaction : Option (Transaction R G P)
  pub revision : ℕ

-- The slots of one audio callback: the published owner, the generation it runs, and its answer.
pub record Side (R G : Type 0) : Type 0 where
  pub slot : Option (UpdateOwner R G)
  pub processing : Option G
  pub result : Acknowledgement

pub record UpdateMailbox (R G P : Type 0) : Type 0 where
  pub storage : UpdateStorage R G P
  pub receive : Side R G
  pub transmit : Side R G

-- What the receive callback owns.
pub record ReceiveContext (S : Type 0) : Type 0 where
  pub station : S
  pub controller_ctcss : List (Option ℕ)
  pub voter_reporting : Bool

-- `StationRuntime` and `StationControlHost`: the addresses of the mailboxes that they hold, and the
-- host's effective plan.
pub record Station (R G P S : Type 0) : Type 0 where
  pub updates : UpdateMailbox R G P
  pub address : ℕ
  pub host_address : ℕ
  pub plan : P
  pub running : Bool
  pub receive_context : ReceiveContext S
  pub transmit_context : S

abbrev pub both : Acknowledgement → Acknowledgement → Result StationUpdateError (Unit {0})
both waiting tx = err pending
both rx waiting = err pending
both applied applied = ok tt
both rx tx = err radio_error

abbrev is_none : {A : Type 0} → Option A → Bool
is_none none = true
is_none (some a) = false

abbrev is_pending : Result StationUpdateError (Unit {0}) → Bool
is_pending (err pending) = true
is_pending _ = false

module _ {R G : Type 0} where
  abbrev pub offered : Side R G → UpdateOwner R G → Side R G
  offered side owner = record side { slot = some owner; result = waiting }

  -- The slots after the callback's swap and the radio's answer.
  abbrev pub answered : Side R G → UpdateOwner R G → Bool → Side R G
  answered side owner true = record side {
    slot = none;
    processing = some owner.processing;
    result = applied;
  }
  answered side owner false = record side { slot = none; result = rejected }

-- What the threads of a station do: the control owner's calls, a callback's poll, and the start or
-- stop of the audio.
pub data Call (R G P : Type 0) : Type 0 where
  begin : StationUpdate R G P → Call R G P
  accept : Call R G P
  finish : Bool → Call R G P
  receive_polls transmit_polls : Call R G P
  set_running : Bool → Call R G P

abbrev pub Answer : Type 0 → Type 0 → Type 0 → Type 0 → Type 0
Answer R G P S = Station R G P S × Result StationUpdateError (Unit {0})

module _ {R G P : Type 0} where
  unfoldable pub publish : UpdateMailbox R G P → UpdateOwner R G → UpdateMailbox R G P
  publish m owner = record m {
    receive = offered m.receive owner;
    transmit = offered m.transmit owner;
  }

  unfoldable pub result : UpdateMailbox R G P → Result StationUpdateError (Unit {0})
  result m = both m.receive.result m.transmit.result

  -- `storage.current = ...`, with the transaction taken.
  abbrev pub settle : UpdateMailbox R G P → UpdateOwner R G → UpdateMailbox R G P
  settle m owner = record m {
    storage = record {
      current = some owner;
      transaction = none;
      revision = (m.storage.revision + 1) % word;
    };
  }

  abbrev pub install : UpdateMailbox R G P → Option (Transaction R G P) → UpdateMailbox R G P
  install m t = record m { storage = record m.storage { transaction = t } }

module _ {R G P S : Type 0} (radio : Radio R S) where
  abbrev pub receive_with : Station R G P S → Option (UpdateOwner R G) → Station R G P S
  receive_with s none = s
  receive_with s (some owner) =
      let (station, taken) = radio.apply_update s.receive_context.station owner.radio in
      record s {
        updates = record s.updates { receive = answered s.updates.receive owner taken };
        receive_context =
            if taken
            then record {
              station = station;
              controller_ctcss = owner.controller_ctcss;
              voter_reporting = owner.voter_reporting;
            }
            else record s.receive_context { station = station };
      }

  -- The receive callback's poll of the mailbox.
  unfoldable pub receive : Station R G P S → Station R G P S
  receive s = receive_with s s.updates.receive.slot

  abbrev pub transmit_with : Station R G P S → Option (UpdateOwner R G) → Station R G P S
  transmit_with s none = s
  transmit_with s (some owner) =
      let (station, taken) = radio.apply_update s.transmit_context owner.radio in
      record s {
        updates = record s.updates { transmit = answered s.updates.transmit owner taken };
        transmit_context = station;
      }

  unfoldable pub transmit : Station R G P S → Station R G P S
  transmit s = transmit_with s s.updates.transmit.slot

  unfoldable pub apply_stopped_update : Station R G P S → Station R G P S
  apply_stopped_update s = if s.running then s else transmit (receive s)

  abbrev published : Station R G P S → UpdateOwner R G → Station R G P S
  published s owner = apply_stopped_update (record s { updates = publish s.updates owner })

  abbrev pub begun : Station R G P S → StationUpdate R G P → Answer R G P S
  begun s update = (
    published
        (record s {
          updates = install s.updates (some (record { candidate = update; reversing = false }));
        })
        update.forward,
    ok tt,
  )

  unfoldable pub begin_update : Station R G P S → StationUpdate R G P → Answer R G P S
  begin_update s update =
      if update.source == s.address && s.address == s.host_address
      then if radio.validate_update update.forward.radio
        then if radio.validate_update update.reverse.radio
          then if is_none s.updates.storage.transaction
              && s.updates.storage.revision == update.revision
            then begun s update
            else (s, err busy)
          else (s, err radio_error)
        else (s, err radio_error)
      else (s, err incompatible)

  abbrev pub accept_with : Station R G P S → Option (Transaction R G P) → Answer R G P S
  accept_with s none = (s, err busy)
  accept_with s (some t) =
      if t.reversing then (s, err busy) else (record s { plan = t.candidate.plan }, ok tt)

  unfoldable pub accept_update : Station R G P S → Answer R G P S
  accept_update s =
      if not (s.address == s.host_address) then (s, err incompatible) else elim (result s.updates) [
        | err e ↦ (s, err e)
        | ok u ↦ accept_with s s.updates.storage.transaction
      ]

  -- The end of a transaction whose owner both callbacks have adopted.
  abbrev pub settled : Station R G P S → P → UpdateOwner R G → Answer R G P S
  settled s plan owner = (record s { plan = plan; updates = settle s.updates owner }, ok tt)

  unfoldable pub commit : Station R G P S → Transaction R G P → Answer R G P S
  commit s t = elim (result s.updates) [
    | err e ↦ (s, err e)
    | ok u ↦ if t.reversing then (s, err busy) else settled s t.candidate.plan t.candidate.forward
  ]

  abbrev pub end_reverse :
      Station R G P S → StationUpdate R G P → Result StationUpdateError (Unit {0}) → Answer R G P S
  end_reverse s c (err e) = (s, err e)
  end_reverse s c (ok u) = settled s c.previous c.reverse

  -- The reverse owner is published to both callbacks.
  unfoldable pub start_reverse : Station R G P S → Transaction R G P → Answer R G P S
  start_reverse s t =
      let s' =
        published (record s { updates = install s.updates (some (record t { reversing = true })) })
          t.candidate.reverse in
      end_reverse s' t.candidate (result s'.updates)

  unfoldable pub roll_back : Station R G P S → Transaction R G P → Answer R G P S
  roll_back s t =
      if is_pending (result s.updates)
      then (s, err pending)
      else if t.reversing
      then end_reverse s t.candidate (result s.updates)
      else start_reverse s t

  abbrev pub finish_with : Station R G P S → Bool → Option (Transaction R G P) → Answer R G P S
  finish_with s on none = (s, ok tt)
  finish_with s on (some t) = if on then commit s t else roll_back s t

  unfoldable pub finish_update : Station R G P S → Bool → Answer R G P S
  finish_update s on =
      if not (s.address == s.host_address)
      then (s, err incompatible)
      else let s' = apply_stopped_update s in finish_with s' on s'.updates.storage.transaction

  unfoldable pub step : Station R G P S → Call R G P → Station R G P S
  step s (begin update) = (begin_update s update).0
  step s accept = (accept_update s).0
  step s (finish on) = (finish_update s on).0
  step s receive_polls = receive s
  step s transmit_polls = transmit s
  step s (set_running on) = record s { running = on }

  unfoldable pub run : Station R G P S → List (Call R G P) → Station R G P S
  run s [] = s
  run s (call ∷ calls) = run (step s call) calls

-- `UpdateMailbox::default`.
abbrev pub new_mailbox : {R G P : Type 0} → UpdateMailbox R G P
new_mailbox = record {
  storage = record { current = none; transaction = none; revision = 0 };
  receive = record { slot = none; processing = none; result = waiting };
  transmit = record { slot = none; processing = none; result = waiting };
}
