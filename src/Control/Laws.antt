-- ===== src/Control/Laws.antt =====
-- The snapshot of rust/asl3/src/control.rs and the actions that it answers with.
use usbradio_plus.Prelude.{◌≡◌, refl, ◌∙◌, ap, ◌⊎◌, inl, inr, true, none, List, [], ◌∷◌}
use usbradio_plus.Control.{
  ControlMessage, transmit_key, transmit_unkey, select_channel, receive_ctcss, transmit_ctcss, gpio,
  parallel, remote_radio, ControlAction, set_transmit, set_receive_ctcss, set_transmit_ctcss,
  ControlSnapshot, apply,
}

-- All messages in order: the last snapshot and the actions.
abbrev pub apply_all : ControlSnapshot → List ControlMessage → ControlSnapshot × List ControlAction
apply_all s [] = (s, [])
apply_all s (m ∷ ms) =
    let (s', action) = apply s m in let (t, actions) = apply_all s' ms in (t, action ∷ actions)

-- The state of a product that follows the actions and has seen no message.
abbrev pub follow : ControlSnapshot → ControlAction → ControlSnapshot
follow s (set_transmit keyed forced) = record s { transmit_keyed = keyed; forced_ctcss = forced }
follow s (set_receive_ctcss on) = record s { receive_ctcss_enabled = on }
follow s (set_transmit_ctcss on) = record s { transmit_ctcss_enabled = on }
follow s _ = s

abbrev pub follow_all : ControlSnapshot → List ControlAction → ControlSnapshot
follow_all s [] = s
follow_all s (a ∷ actions) = follow_all (follow s a) actions

follow-apply : (s : ControlSnapshot) (m : ControlMessage) → follow s (apply s m).1 ≡ (apply s m).0
unfolding apply
follow-apply s (transmit_key forced) = refl
follow-apply s transmit_unkey = refl
follow-apply s (select_channel c) = refl
follow-apply s (receive_ctcss on) = refl
follow-apply s (transmit_ctcss on) = refl
follow-apply s (gpio pin r) = refl
follow-apply s (parallel pin r) = refl
follow-apply s (remote_radio r) = refl

-- A product that follows the returned actions alone, from any snapshot and for every sequence
-- of messages, keeps the state that the snapshot records.
pub follow-apply_all :
    (s : ControlSnapshot) (ms : List ControlMessage)
    → follow_all s (apply_all s ms).1 ≡ (apply_all s ms).0
follow-apply_all s [] = refl
follow-apply_all s (m ∷ ms) =
    ap (λ t. follow_all t (apply_all (apply s m).0 ms).1) (follow-apply s m)
    ∙ follow-apply_all (apply s m).0 ms

-- A forced tone is kept only while the transmitter is keyed.
abbrev pub IsConsistent : ControlSnapshot → Type 0
IsConsistent s = (s.transmit_keyed ≡ true) ⊎ (s.forced_ctcss ≡ none)

apply-IsConsistent :
    (s : ControlSnapshot) (m : ControlMessage) → IsConsistent s → IsConsistent (apply s m).0
unfolding apply
apply-IsConsistent s (transmit_key forced) h = inl refl
apply-IsConsistent s transmit_unkey h = inr refl
apply-IsConsistent s (select_channel c) h = h
apply-IsConsistent s (receive_ctcss on) h = h
apply-IsConsistent s (transmit_ctcss on) h = h
apply-IsConsistent s (gpio pin r) h = h
apply-IsConsistent s (parallel pin r) h = h
apply-IsConsistent s (remote_radio r) h = h

-- From a snapshot with no forced tone while unkeyed, every sequence of messages leads to such a
-- snapshot.
pub apply_all-IsConsistent :
    (s : ControlSnapshot) (ms : List ControlMessage)
    → IsConsistent s
    → IsConsistent (apply_all s ms).0
apply_all-IsConsistent s [] h = h
apply_all-IsConsistent s (m ∷ ms) h =
    apply_all-IsConsistent (apply s m).0 ms (apply-IsConsistent s m h)
