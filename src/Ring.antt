-- ===== src/Ring.antt =====
-- rust/ring/src/lib.rs: the safe endpoints around the external PCM ring. The ring's C functions are
-- the fields of `Functions`; a call's out-parameters are part of its answer.
pub mod Laws
use usbradio_plus.Prelude.{
  ℕ, zero, suc, ◌*◌, ◌≤◌, ◌<◌, Bool, true, false, ◌&&◌, ◌||◌, Option, none, some, List, [], length,
  ltb, leb, ◌==◌, if◌then◌else◌, Result, ok, err, ℤ, pos, negsuc,
}

abbrev pub abi_version : ℕ
abi_version = 3

abbrev pub minimum_capacity_samples : ℕ
minimum_capacity_samples = 512

pub data PlcMode : Type 0 where
  plc_disabled g711_appendix_i : PlcMode

pub record RingSettings : Type 0 where
  pub capacity_samples : ℕ
  pub input_rate_hz : ℕ
  pub output_rate_hz : ℕ
  pub reserve_samples : ℕ
  pub target_samples : ℕ
  pub max_producer_samples : ℕ
  pub max_output_samples : ℕ
  pub plc_mode : PlcMode

pub record Config : Type 0 where
  pub struct_size : ℕ
  pub version : ℕ
  pub settings : RingSettings

pub data RingError : Type 0 where
  incompatible_adapter invalid_argument no_memory adapter_failure : RingError

pub record RingObservation : Type 0 where
  pub capacity_samples : ℕ
  pub available_samples : ℕ
  pub reserve_samples : ℕ
  pub filtered_occupancy_samples : ℕ
  pub target_samples : ℕ
  pub ratio_correction_ppm : ℤ
  pub discarded_samples : ℕ
  pub missing_samples : ℕ
  pub consecutive_shortfall_samples : ℕ
  pub shortfall_average_milli : ℕ
  pub adapter_error_count : ℕ

abbrev pub default_observation : RingObservation
default_observation = record {
  capacity_samples = 0;
  available_samples = 0;
  reserve_samples = 0;
  filtered_occupancy_samples = 0;
  target_samples = 0;
  ratio_correction_ppm = pos 0;
  discarded_samples = 0;
  missing_samples = 0;
  consecutive_shortfall_samples = 0;
  shortfall_average_milli = 0;
  adapter_error_count = 0;
}

-- The functions of the ring's descriptor over its handles `H` and samples `F`. `create` answers with
-- a code and the handle that it wrote, `push` with the number accepted, `render` with the samples
-- that it wrote and how many of them are real, `observe` with the version that it wrote.
pub record Functions (H F : Type 0) : Type 0 where
  pub create : Config → ℤ × Option H
  pub push : H → List F → H × ℤ × ℕ
  pub render : H → ℕ → H × List F × ℤ × ℕ
  pub observe : H → ℤ × ℕ × RingObservation

pub record Ring (H : Type 0) : Type 0 where
  pub handle : H
  pub settings : RingSettings

unfoldable pub error_from_result : ℤ → RingError
error_from_result (negsuc zero) = invalid_argument
error_from_result (negsuc (suc zero)) = no_memory
error_from_result _ = adapter_failure

unfoldable pub map_result : ℤ → Result RingError (Unit {0})
map_result (pos zero) = ok tt
map_result (pos (suc n)) = err adapter_failure
map_result (negsuc n) = err (error_from_result (negsuc n))

-- The ratio of the rates lies between 1/256 and 256. The bounds are exact in 64-bit floating point
-- for 32-bit rates, so they are written as products.
unfoldable pub is_supported : RingSettings → Bool
is_supported s =
    if ltb s.capacity_samples minimum_capacity_samples
      || s.input_rate_hz == 0
      || s.output_rate_hz == 0
    then false
    else leb s.input_rate_hz (256 * s.output_rate_hz)
      && leb s.output_rate_hz (256 * s.input_rate_hz)

abbrev pub config_of : RingSettings → Config
config_of s = record { struct_size = 64; version = abi_version; settings = s }

module _ {H F : Type 0} (functions : Functions H F) where
  -- A prepared ring or an error, and the handle that was destroyed.
  abbrev pub created :
      RingSettings → Option H → Result RingError (Unit {0}) → Result RingError (Ring H) × Option H
  created s handle (err e) = (err e, handle)
  created s none (ok tt) = (err adapter_failure, none)
  created s (some h) (ok tt) = (ok (record { handle = h; settings = s }), none)

  unfoldable pub prepare : RingSettings → Result RingError (Ring H) × Option H
  prepare s =
      if is_supported s
      then (let (code, handle) = functions.create (config_of s) in
          created s handle (map_result code))
      else (err invalid_argument, none)

  abbrev pub counted : ℕ → ℕ → Result RingError (Unit {0}) → Result RingError ℕ
  counted asked answered (err e) = err e
  counted asked answered (ok tt) = if ltb asked answered then err adapter_failure else ok answered

  unfoldable pub push : Ring H → List F → Ring H × Result RingError ℕ
  push r input =
      if ltb r.settings.max_producer_samples (length input)
      then (r, err invalid_argument)
      else let (h, code, accepted) = functions.push r.handle input in
        (record r { handle = h }, counted (length input) accepted (map_result code))

  -- The result's second part is what the output buffer holds if the ring was called.
  unfoldable pub render : Ring H → ℕ → Ring H × Option (List F) × Result RingError ℕ
  render r count =
      if ltb r.settings.max_output_samples count
      then (r, none, err invalid_argument)
      else let (h, output, code, real) = functions.render r.handle count in
        (record r { handle = h }, some output, counted count real (map_result code))

  abbrev pub observed :
      ℕ → RingObservation → Result RingError (Unit {0}) → Result RingError RingObservation
  observed version raw (err e) = err e
  observed version raw (ok tt) = if version == abi_version then ok raw else err incompatible_adapter

  unfoldable pub observe : Ring H → Result RingError RingObservation
  observe r =
      let (code, version, raw) = functions.observe r.handle in
      observed version raw (map_result code)
