-- ===== src/Operation/Laws.antt =====
-- The wire numbers of rust/core/src/remote_operation.rs.
use usbradio_plus.Prelude.{
  ℕ, ◌≡◌, refl, sym, ◌↔◌, true, Option, none, some, ◌==◌, ◌⊎◌, inl, inr, if_cases, ◌&&◌, arith,
}
use usbradio_plus.Operation.{
  RemoteOperationKind, recall, frequency, tone, tone_enabled, power_preset, status, mode, step,
  scan_preset, tune, get_setting, set_setting, start_scan, pause_scan, resume_scan, stop_scan,
  scan_direction, skip, memory, catalog, scan_status, inhibit, dwell, resume_delay, priority,
  current_status, invoke, selector_of, from_selector, RemoteOperation, new_operation, kind_of,
  is_urgent_kind, urgent, layout_size,
}

from_selector-selector_of : (k : RemoteOperationKind) → from_selector (selector_of k) ≡ some k
unfolding from_selector selector_of
from_selector-selector_of recall = refl
from_selector-selector_of frequency = refl
from_selector-selector_of tone = refl
from_selector-selector_of tone_enabled = refl
from_selector-selector_of power_preset = refl
from_selector-selector_of status = refl
from_selector-selector_of mode = refl
from_selector-selector_of step = refl
from_selector-selector_of scan_preset = refl
from_selector-selector_of tune = refl
from_selector-selector_of get_setting = refl
from_selector-selector_of set_setting = refl
from_selector-selector_of start_scan = refl
from_selector-selector_of pause_scan = refl
from_selector-selector_of resume_scan = refl
from_selector-selector_of stop_scan = refl
from_selector-selector_of scan_direction = refl
from_selector-selector_of skip = refl
from_selector-selector_of memory = refl
from_selector-selector_of catalog = refl
from_selector-selector_of scan_status = refl
from_selector-selector_of inhibit = refl
from_selector-selector_of dwell = refl
from_selector-selector_of resume_delay = refl
from_selector-selector_of priority = refl
from_selector-selector_of current_status = refl
from_selector-selector_of invoke = refl

selector_of-from_selector :
    (n : ℕ) (k : RemoteOperationKind) → from_selector n ≡ some k → selector_of k ≡ n
unfolding from_selector selector_of
selector_of-from_selector n k h = ground arith

kind_of-new : (k : RemoteOperationKind) → kind_of (new_operation k) ≡ some k
unfolding kind_of new_operation
kind_of-new k = from_selector-selector_of k

both_eq : (a b c d : ℕ) → (a == b && c == d) ≡ true → (a ≡ b) × (c ≡ d)
both_eq a b c d h = ground arith

-- A record is admitted as an operation of a kind exactly when it has the current size and
-- version and that kind's number.
pub kind_of_iff :
    (r : RemoteOperation) (k : RemoteOperationKind)
    → (kind_of r ≡ some k)
      ↔ ((r.struct_size ≡ layout_size) × (r.abi_version ≡ 1) × (r.operation ≡ selector_of k))
unfolding kind_of
kind_of_iff r k = (
  λ h.
      if_cases
        (λ (o : Option RemoteOperationKind).
          o ≡ some k
          → (r.struct_size ≡ layout_size) × (r.abi_version ≡ 1) × (r.operation ≡ selector_of k))
        (r.struct_size == layout_size && r.abi_version == 1) (from_selector r.operation) none
        (λ same e.
          let (size, version) = both_eq r.struct_size layout_size r.abi_version 1 same in
          (size, version, sym (selector_of-from_selector r.operation k e)))
        (λ other e. absurd (ground (arith, e))) h,
  λ (a, b, c). rw (a, b, c) (from_selector-selector_of k),
)

is_urgent-kinds :
    (flags : ℕ) (o : Option RemoteOperationKind)
    → is_urgent_kind flags o ≡ true
    → (o ≡ some stop_scan) ⊎ ((o ≡ some inhibit) × (flags ≡ 1))
is_urgent-kinds flags o h = ground arith

kinds-is_urgent :
    (flags : ℕ) (o : Option RemoteOperationKind)
    → (o ≡ some stop_scan) ⊎ ((o ≡ some inhibit) × (flags ≡ 1))
    → is_urgent_kind flags o ≡ true
kinds-is_urgent flags o (inl e) = rw e refl
kinds-is_urgent flags o (inr (e, f)) = rw (e, f) refl

-- A record is urgent exactly when it is admitted as a stop of the scan, or as an inhibit with
-- the flags equal to 1.
pub urgent_iff :
    (r : RemoteOperation)
    → (urgent r ≡ true)
      ↔ ((kind_of r ≡ some stop_scan) ⊎ ((kind_of r ≡ some inhibit) × (r.flags ≡ 1)))
unfolding urgent
urgent_iff r = (is_urgent-kinds r.flags (kind_of r), kinds-is_urgent r.flags (kind_of r))
