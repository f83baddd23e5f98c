-- ===== src/Operation.antt =====
-- rust/core/src/remote_operation.rs: the operations that hosts send to a remote radio as records of
-- numbers.
pub mod Laws
mod Tests
use usbradio_plus.Prelude.{
  ℕ, zero, suc, Bool, true, false, ◌&&◌, ◌||◌, Option, none, some, ◌==◌, if◌then◌else◌, ℤ, pos,
}

pub data RemoteOperationKind : Type 0 where
  recall frequency tone tone_enabled power_preset status mode step scan_preset : RemoteOperationKind
  tune get_setting set_setting start_scan pause_scan resume_scan stop_scan : RemoteOperationKind
  scan_direction skip memory catalog scan_status inhibit dwell resume_delay : RemoteOperationKind
  priority current_status invoke : RemoteOperationKind

-- The declared discriminants: `kind as u32`.
unfoldable pub selector_of : RemoteOperationKind → ℕ
selector_of recall = 1
selector_of frequency = 2
selector_of tone = 3
selector_of tone_enabled = 4
selector_of power_preset = 5
selector_of status = 6
selector_of mode = 7
selector_of step = 8
selector_of scan_preset = 9
selector_of tune = 10
selector_of get_setting = 11
selector_of set_setting = 12
selector_of start_scan = 13
selector_of pause_scan = 14
selector_of resume_scan = 15
selector_of stop_scan = 16
selector_of scan_direction = 17
selector_of skip = 18
selector_of memory = 19
selector_of catalog = 20
selector_of scan_status = 21
selector_of inhibit = 22
selector_of dwell = 23
selector_of resume_delay = 24
selector_of priority = 25
selector_of current_status = 26
selector_of invoke = 27

unfoldable pub from_selector : ℕ → Option RemoteOperationKind
from_selector value =
    if value == 1
    then some recall
    else if value == 2
    then some frequency
    else if value == 3
    then some tone
    else if value == 4
    then some tone_enabled
    else if value == 5
    then some power_preset
    else if value == 6
    then some status
    else if value == 7
    then some mode
    else if value == 8
    then some step
    else if value == 9
    then some scan_preset
    else if value == 10
    then some tune
    else if value == 11
    then some get_setting
    else if value == 12
    then some set_setting
    else if value == 13
    then some start_scan
    else if value == 14
    then some pause_scan
    else if value == 15
    then some resume_scan
    else if value == 16
    then some stop_scan
    else if value == 17
    then some scan_direction
    else if value == 18
    then some skip
    else if value == 19
    then some memory
    else if value == 20
    then some catalog
    else if value == 21
    then some scan_status
    else if value == 22
    then some inhibit
    else if value == 23
    then some dwell
    else if value == 24
    then some resume_delay
    else if value == 25
    then some priority
    else if value == 26
    then some current_status
    else if value == 27
    then some invoke
    else none

-- The C layout of the record: four words, two double words, two words.
abbrev pub layout_size : ℕ
layout_size = 40

pub record RemoteOperation : Type 0 where
  pub struct_size : ℕ
  pub abi_version : ℕ
  pub operation : ℕ
  pub selector : ℕ
  pub signed_value : ℤ
  pub magnitude : ℕ
  pub decimal_places : ℕ
  pub flags : ℕ

unfoldable pub new_operation : RemoteOperationKind → RemoteOperation
unfolding selector_of
new_operation kind = record {
  struct_size = layout_size;
  abi_version = 1;
  operation = selector_of kind;
  selector = 0;
  signed_value = pos 0;
  magnitude = 0;
  decimal_places = 0;
  flags = 0;
}

unfoldable pub kind_of : RemoteOperation → Option RemoteOperationKind
kind_of r =
    if r.struct_size == layout_size && r.abi_version == 1 then from_selector r.operation else none

abbrev pub is_urgent_kind : ℕ → Option RemoteOperationKind → Bool
is_urgent_kind flags (some stop_scan) = true
is_urgent_kind flags (some inhibit) = flags == 1
is_urgent_kind flags _ = false

unfoldable pub urgent : RemoteOperation → Bool
urgent r = is_urgent_kind r.flags (kind_of r)
