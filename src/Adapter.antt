-- ===== src/Adapter.antt =====
-- rust/asl3/src/adapter.rs: the media and compatibility state of one channel. The data that its
-- parts share stand here; each part is a child module.
pub mod Status
pub mod Echo
pub mod Dtmf
pub mod Controller
pub mod Publisher
mod Tests
use usbradio_plus.Prelude.{
  ℕ, ◌+◌, ◌-◌, ◌%◌, ◌^◌, Bool, false, Option, none, some, List, [], ◌∷◌, ltb, if◌then◌else◌,
  get_elem?, set, replicate,
}
use usbradio_plus.Pcm.{ControllerPcmFrame}

-- `CtcssToneIndex::new`; an index is its number.
unfoldable pub ctcss_tone_index : ℕ → Option ℕ
ctcss_tone_index index = if ltb index 38 then some index else none

pub record ReceiveQualification : Type 0 where
  pub carrier_active : Bool
  pub subaudible_active : Bool
  pub receiver_keyed : Bool
  pub ctcss_decoded : Option ℕ
  pub dcs_valid : Bool

abbrev pub default_qualification : ReceiveQualification
default_qualification = record {
  carrier_active = false;
  subaudible_active = false;
  receiver_keyed = false;
  ctcss_decoded = none;
  dcs_valid = false;
}

pub data ReceiveStatus : Type 0 where
  transmit_ctcss_ready voter_rssi : ℕ → ReceiveStatus

-- `[Option<ReceiveStatus>; 2]` is a pair.
pub record ReceiveMetadata : Type 0 where
  pub qualification : ReceiveQualification
  pub controller_ctcss : Option ℕ
  pub statuses : Option ReceiveStatus × Option ReceiveStatus

abbrev pub status_capacity : ℕ
status_capacity = 16

-- The last 16 statuses by their sequence numbers, which are 64-bit.
pub record StatusJournal : Type 0 where
  pub events : List ReceiveStatus
  pub produced : ℕ

unfoldable pub new_journal : StatusJournal
new_journal = record { events = replicate status_capacity (voter_rssi 0); produced = 0 }

unfoldable pub push_status : StatusJournal → ReceiveStatus → StatusJournal
push_status j status = record {
  events = set j.events (j.produced % status_capacity) status;
  produced = (j.produced + 1) % 2 ^ 64;
}

unfoldable pub oldest_sequence : StatusJournal → ℕ
oldest_sequence j = j.produced - status_capacity

-- `none` is an index outside the array.
unfoldable pub get_status : StatusJournal → ℕ → Option ReceiveStatus
get_status j sequence = get_elem? j.events (sequence % status_capacity)

pub record ReceivePacket : Type 0 where
  pub frame : ControllerPcmFrame
  pub qualification : ReceiveQualification
  pub controller_ctcss : Option ℕ
  pub statuses : StatusJournal
