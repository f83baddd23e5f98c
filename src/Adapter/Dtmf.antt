-- ===== src/Adapter/Dtmf.antt =====
-- The DTMF translation of rust/asl3/src/adapter.rs.
use usbradio_plus.Prelude.{
  ℕ, ◌-◌, ◌≡◌, refl, Bool, true, false, ◌||◌, not, Option, none, some, List, [], ◌∷◌, ◌==◌,
  if◌then◌else◌, Bool-cases, inl, inr,
}

pub data DtmfEventKind : Type 0 where
  begin end : DtmfEventKind

pub record DtmfEvent : Type 0 where
  pub kind : DtmfEventKind
  pub digit : ℕ

pub data DtmfAction : Type 0 where
  pass_voice mute_pseudo_digit suppress_repeated_begin : DtmfAction
  forward_begin : ℕ → DtmfAction
  forward_end : ℕ → ℕ → DtmfAction

pub record DtmfState : Type 0 where
  pub enabled : Bool
  pub active_since_ms : Option ℕ

abbrev pub dtmf_off : DtmfState
dtmf_off = record { enabled = false; active_since_ms = none }

abbrev pub dtmf_on : DtmfState
dtmf_on = record { enabled = true; active_since_ms = none }

abbrev held_for : Option ℕ → ℕ → ℕ
held_for none now = 0
held_for (some started) now = now - started

abbrev begin_digit : DtmfState → Option ℕ → ℕ → ℕ → DtmfState × DtmfAction
begin_digit s (some started) digit now = (s, suppress_repeated_begin)
begin_digit s none digit now = (record s { active_since_ms = some now }, forward_begin digit)

abbrev by_kind : DtmfState → DtmfEventKind → ℕ → ℕ → DtmfState × DtmfAction
by_kind s begin digit now = begin_digit s s.active_since_ms digit now
by_kind s end digit now =
    (record s { active_since_ms = none }, forward_end digit (held_for s.active_since_ms now))

unfoldable pub handle : DtmfState → DtmfEvent → ℕ → DtmfState × DtmfAction
handle s event now =
    if not s.enabled
    then (s, pass_voice)
    else if event.digit == b'm' || event.digit == b'u'
    then (s, mute_pseudo_digit)
    else by_kind s event.kind event.digit now

-- `ControllerState::set_dtmf_detection` in app_rpt mode.
unfoldable pub set_detection : DtmfState → Bool → DtmfState
set_detection s on = record {
  enabled = on;
  active_since_ms = if on then s.active_since_ms else none;
}

-- Events with the times at which they are handled, and the actions with the same times.
unfoldable pub handle_all : DtmfState → List (DtmfEvent × ℕ) → List (ℕ × DtmfAction)
handle_all s [] = []
handle_all s ((event, now) ∷ rest) =
    let (s', a) = handle s event now in (now, a) ∷ handle_all s' rest

-- What a listener of the forwarded actions may hear, `h` being the time at which the digit that is
-- down was begun: a begin only while none is down, and an end with the time since its begin, or with
-- 0 if there was none.
abbrev pub Hears : Option ℕ → List (ℕ × DtmfAction) → Type 0
Hears h [] = Unit {0}
Hears none ((now, forward_begin d) ∷ rest) = Hears (some now) rest
Hears (some t) ((now, forward_begin d) ∷ rest) = ⊥
Hears none ((now, forward_end d n) ∷ rest) = (n ≡ 0) × Hears none rest
Hears (some t) ((now, forward_end d n) ∷ rest) = (n ≡ now - t) × Hears none rest
Hears h ((now, pass_voice) ∷ rest) = Hears h rest
Hears h ((now, mute_pseudo_digit) ∷ rest) = Hears h rest
Hears h ((now, suppress_repeated_begin) ∷ rest) = Hears h rest

by_kind-Hears :
    (enabled : Bool) (h : Option ℕ) (k : DtmfEventKind) (d now : ℕ) (rest : List (ℕ × DtmfAction))
    → let s : DtmfState = record { enabled = enabled; active_since_ms = h } in
      let (s', a) = by_kind s k d now in Hears s'.active_since_ms rest → Hears h ((now, a) ∷ rest)
by_kind-Hears b none begin d now rest h = h
by_kind-Hears b (some t) begin d now rest h = h
by_kind-Hears b none end d now rest h = (refl, h)
by_kind-Hears b (some t) end d now rest h = (refl, h)

handle-Hears :
    (s : DtmfState) (event : DtmfEvent) (now : ℕ) (rest : List (ℕ × DtmfAction))
    → let (s', a) = handle s event now in
      Hears s'.active_since_ms rest → Hears s.active_since_ms ((now, a) ∷ rest)
unfolding handle
handle-Hears s event now rest = elim (Bool-cases s.enabled) [
  | inr off ↦ rw off (quiet s.active_since_ms)
  | inl on ↦ elim (Bool-cases (event.digit == b'm' || event.digit == b'u')) [
    | inl pseudo ↦ rw (on, pseudo) (quiet s.active_since_ms)
    | inr digit ↦
        rw (on, digit) (by_kind-Hears true s.active_since_ms event.kind event.digit now rest)
  ]
]
  where
    quiet : (h : Option ℕ) → Hears h rest → Hears h rest
    quiet h r = r

-- For every series of detector events, a second begin is never forwarded before an end, and a
-- forwarded end carries the time since the forwarded begin, or 0 if there was none.
pub handle_all-Hears :
    (s : DtmfState) (es : List (DtmfEvent × ℕ)) → Hears s.active_since_ms (handle_all s es)
unfolding handle_all
handle_all-Hears s [] = tt
handle_all-Hears s ((event, now) ∷ rest) =
    handle-Hears s event now (handle_all (handle s event now).0 rest)
      (handle_all-Hears (handle s event now).0 rest)
