-- ===== src/Ble/Advert.antt =====
-- The parser of Apple manufacturer data. It reads a buffer by offsets; `none` is a read past the
-- end of the buffer, or fuel that has run out. A byte is a number below 256.
use Prim.Native.Nat.{bit_and}
use earport_handoff.Base.{
  ℕ, zero, suc, ◌+◌, ◌-◌, ◌*◌, ◌/◌, ◌%◌, ◌^◌, Bool, not, ◌&&◌, ◌||◌, Option, none, some, length,
  byte, ◌>>=◌, ltb, leb, ◌==◌, if◌then◌else◌,
}
use earport_handoff.Base.Text.{Bytes}
use earport_handoff.State.{model_value, model_4, model_4_anc, model_max_2}

pub record BleAirPodsAdvertisement : Type 0 where
  pub model : ℕ
  pub status : ℕ
  pub worn : Bool

abbrev pub apple_proximity_type : ℕ
apple_proximity_type = 0x07

abbrev pub apple_proximity_length : ℕ
apple_proximity_length = 25

abbrev pub apple_proximity_prefix : ℕ
apple_proximity_prefix = 0x01

unfoldable pub ble_airpods_model_supports_wear_autoconnect : ℕ → Bool
ble_airpods_model_supports_wear_autoconnect model =
    model == model_value model_4
    || model == model_value model_4_anc
    || model == model_value model_max_2

-- bits 1 and 3
abbrev pub wear_mask : ℕ
wear_mask = 2 ^ 1 + 2 ^ 3

unfoldable pub model_status_is_worn : ℕ → ℕ → Bool
model_status_is_worn model status =
    if model == model_value model_max_2
    then bit_and status wear_mask == wear_mask
    else not (bit_and status wear_mask == 0)

-- `(hi << 8) | lo`, where `lo` is a byte
abbrev pub big_endian : ℕ → ℕ → ℕ
big_endian hi lo = hi * 2 ^ 8 + lo

-- the tests of a proximity payload's first four bytes; `none` is the result false
unfoldable pub accept_proximity : ℕ → ℕ → ℕ → Option BleAirPodsAdvertisement
accept_proximity prefix model status =
    if not (prefix == apple_proximity_prefix)
    then none
    else if not (ble_airpods_model_supports_wear_autoconnect model)
    then none
    else some (record { model = model; status = status; worn = model_status_is_worn model status })

-- The payload has 25 bytes here, so the reads do not depend on the tests between them.
unfoldable pub parse_proximity : Bytes → ℕ → Option (Option BleAirPodsAdvertisement)
parse_proximity buffer payload = do
  prefix ← byte buffer payload
  hi ← byte buffer (payload + 1)
  lo ← byte buffer (payload + 2)
  status ← byte buffer (payload + 3)
  some (accept_proximity prefix (big_endian hi lo) status)

-- what one round of the loop does with a message; `rest` is the next rounds
unfoldable pub dispatch_message :
    Bytes
    → ℕ
    → ℕ
    → ℕ
    → Option (Option BleAirPodsAdvertisement)
    → Option (Option BleAirPodsAdvertisement)
dispatch_message buffer payload_offset message_type message_len rest =
    if ltb (length buffer - payload_offset) message_len
    then some none
    else if message_type == apple_proximity_type && message_len == apple_proximity_length
    then parse_proximity buffer payload_offset
    else rest

-- the `while` loop
unfoldable pub parse_messages : ℕ → Bytes → ℕ → Option (Option BleAirPodsAdvertisement)
parse_messages zero buffer offset = none
parse_messages (suc fuel) buffer offset =
    let message : Option (Option BleAirPodsAdvertisement) = byte buffer offset >>= λ message_type.
    byte buffer (offset + 1) >>= λ message_len.
    dispatch_message buffer (offset + 2) message_type message_len
      (parse_messages fuel buffer (offset + 2 + message_len)) in
    if leb (offset + 2) (length buffer) then message else some none

unfoldable pub ble_airpods_parse_manufacturer_data :
    Option Bytes → Option (Option BleAirPodsAdvertisement)
ble_airpods_parse_manufacturer_data none = some none
ble_airpods_parse_manufacturer_data (some buffer) = parse_messages (length buffer + 1) buffer 0

-- `(uint16_t)((ble_model << 8) | (ble_model >> 8))`: the two parts have no bit in common
unfoldable pub ble_airpods_bluez_product_id : ℕ → ℕ
ble_airpods_bluez_product_id ble_model = (ble_model * 2 ^ 8 + ble_model / 2 ^ 8) % 2 ^ 16
