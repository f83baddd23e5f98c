-- ===== src/Operation/Tests.antt =====
-- Remote operations of rust/core/src/remote_operation.rs as records.
use usbradio_plus.Prelude.{◌≡◌, refl, ◌↔◌, some}
use usbradio_plus.Operation.{
  RemoteOperation, inhibit, selector_of, layout_size, new_operation, kind_of, from_selector,
}
use usbradio_plus.Operation.Laws.{kind_of_iff}

abbrev inhibiting : RemoteOperation
unfolding new_operation
inhibiting = record (new_operation inhibit) { flags = 1 }

kind-inhibiting : kind_of inhibiting ≡ some inhibit
unfolding kind_of from_selector inhibiting
kind-inhibiting = refl

kind_of_iff_example : (kind_of inhibiting ≡ some inhibit) ↔ (
    (inhibiting.struct_size ≡ layout_size)
    × (inhibiting.abi_version ≡ 1)
    × (inhibiting.operation ≡ selector_of inhibit))
kind_of_iff_example = kind_of_iff inhibiting inhibit
