-- ===== src/Control.antt =====
-- rust/core/src/radio_control.rs and rust/asl3/src/control.rs: the controller's typed messages and
-- the snapshot that they change.
pub mod Laws
mod Tests
use usbradio_plus.Prelude.{ℕ, ◌≤◌, Bool, true, false, ◌&&◌, Option, none, some, leb, if◌then◌else◌}

-- `CtcssTone::from_tenths_hz`, `GpioPin::new` and `ParallelPin::new`. A value of one of these types
-- is its number.
unfoldable pub from_tenths_hz : ℕ → Option ℕ
from_tenths_hz tenths = if leb 500 tenths && leb tenths 3000 then some tenths else none

unfoldable pub gpio_pin : ℕ → Option ℕ
gpio_pin pin = if leb 1 pin && leb pin 8 then some pin else none

unfoldable pub parallel_pin : ℕ → Option ℕ
parallel_pin pin = if leb 2 pin && leb pin 9 then some pin else none

pub data OutputRequest : Type 0 where
  inactive active : OutputRequest
  pulse : ℕ → OutputRequest

pub record RemoteRadio : Type 0 where
  pub receive_hz : ℕ
  pub transmit_hz : ℕ
  pub receive_ctcss : Option ℕ
  pub transmit_ctcss : Option ℕ
  pub high_power : Bool

pub data ParallelRadioRequest : Type 0 where
  parallel_channel : ℕ → ParallelRadioRequest
  parallel_configure : RemoteRadio → ParallelRadioRequest

pub data ControlMessage : Type 0 where
  transmit_key : Option ℕ → ControlMessage
  transmit_unkey : ControlMessage
  select_channel : ℕ → ControlMessage
  receive_ctcss transmit_ctcss : Bool → ControlMessage
  gpio parallel : ℕ → OutputRequest → ControlMessage
  remote_radio : RemoteRadio → ControlMessage

pub data ControlAction : Type 0 where
  set_transmit : Bool → Option ℕ → ControlAction
  action_select_channel : ℕ → ControlAction
  set_receive_ctcss set_transmit_ctcss : Bool → ControlAction
  set_gpio set_parallel : ℕ → OutputRequest → ControlAction
  configure_remote_radio : RemoteRadio → ControlAction

pub record ControlSnapshot : Type 0 where
  pub transmit_keyed : Bool
  pub forced_ctcss : Option ℕ
  pub receive_ctcss_enabled : Bool
  pub transmit_ctcss_enabled : Bool

abbrev pub default_snapshot : ControlSnapshot
default_snapshot = record {
  transmit_keyed = false;
  forced_ctcss = none;
  receive_ctcss_enabled = true;
  transmit_ctcss_enabled = true;
}

unfoldable pub apply : ControlSnapshot → ControlMessage → ControlSnapshot × ControlAction
apply s (transmit_key tone) =
    (record s { transmit_keyed = true; forced_ctcss = tone }, set_transmit true tone)
apply s transmit_unkey =
    (record s { transmit_keyed = false; forced_ctcss = none }, set_transmit false none)
apply s (select_channel channel) = (s, action_select_channel channel)
apply s (receive_ctcss enabled) =
    (record s { receive_ctcss_enabled = enabled }, set_receive_ctcss enabled)
apply s (transmit_ctcss enabled) =
    (record s { transmit_ctcss_enabled = enabled }, set_transmit_ctcss enabled)
apply s (gpio pin request) = (s, set_gpio pin request)
apply s (parallel pin request) = (s, set_parallel pin request)
apply s (remote_radio settings) = (s, configure_remote_radio settings)
