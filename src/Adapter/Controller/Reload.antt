-- ===== src/Adapter/Controller/Reload.antt =====
-- What rust/asl3/src/adapter.rs carries from a controller state to its replacement.
use usbradio_plus.Prelude.{◌≡◌, ◌≢◌, none, some, arith}
use usbradio_plus.Adapter.Controller.{
  Receiver, ControllerState, ControllerReloadState, reload_state, restore_reload_state,
}

module _ {H P : Type 0} (rx : Receiver H) where
  -- A controller state is handed over only when no delivery is in progress and no packet waits.
  pub reload_state-idle :
      (s : ControllerState H P) (r : ControllerReloadState)
      → reload_state rx s ≡ some r
      → (s.pending ≡ none) × (rx.available s.receive ≡ 0)
  unfolding reload_state
  reload_state-idle s r h = ground arith

  -- A replacement in the same mode that restores the state taken from a controller has all of
  -- that controller's state, and keeps its own handoff, pending delivery, program ring, and
  -- status position.
  pub restore-reload :
      (s t : ControllerState H P) (r : ControllerReloadState)
      → reload_state rx s ≡ some r
      → t.mode ≡ s.mode
      → restore_reload_state t r ≡ record s {
        receive = t.receive;
        pending = t.pending;
        status = t.status;
        program = t.program;
      }
  unfolding reload_state restore_reload_state
  restore-reload s t r h e = ground arith

  -- A replacement in another mode keeps its own state.
  pub restore-other :
      (t : ControllerState H P) (r : ControllerReloadState)
      → t.mode ≢ r.mode
      → restore_reload_state t r ≡ t
  unfolding restore_reload_state
  restore-other t r h = ground arith
