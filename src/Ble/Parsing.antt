-- ===== src/Ble/Parsing.antt =====
-- Where the parser of manufacturer data reads, and whether its loop ends.
use earport_handoff.Base.{
  ℕ, zero, suc, ◌+◌, ◌-◌, ◌≤◌, ◌<◌, refl, inl, inr, ◌&&◌, Option, none, some, length, Returns,
  get_elem?-some, arith, ltb, leb, ◌==◌, Bool-cases,
}
use earport_handoff.Base.Text.{Bytes}
use earport_handoff.Ble.{
  BleAirPodsAdvertisement, big_endian, accept_proximity, parse_proximity, dispatch_message,
  parse_messages, ble_airpods_parse_manufacturer_data,
}

parse_proximity-Returns :
    (buffer : Bytes) (o : ℕ) → o + 3 < length buffer → Returns (parse_proximity buffer o)
unfolding parse_proximity
parse_proximity-Returns buffer o h =
    let (a, ea) = get_elem?-some buffer o (omega arith) in
    let (b, eb) = get_elem?-some buffer (o + 1) (omega arith) in
    let (c, ec) = get_elem?-some buffer (o + 2) (omega arith) in
    let (d, ed) = get_elem?-some buffer (o + 3) (omega arith) in
    (accept_proximity a (big_endian b c) d, rw (ea, eb, ec, ed))

dispatch-Returns :
    (buffer : Bytes) (o kind len : ℕ) (rest : Option (Option BleAirPodsAdvertisement))
    → o ≤ length buffer
    → (len ≤ length buffer - o → Returns rest)
    → Returns (dispatch_message buffer o kind len rest)
unfolding dispatch_message
dispatch-Returns buffer o kind len rest h more = elim (Bool-cases (ltb (length buffer - o) len)) [
  | inl short ↦ (none, rw short)
  | inr fits ↦ elim (Bool-cases (kind == 7 && len == 25)) [
    | inl found ↦ rw (fits, found) (parse_proximity-Returns buffer o (ground arith))
    | inr other ↦ rw (fits, other) (more (ground arith))
  ]
]

parse_messages-Returns :
    (fuel : ℕ) (buffer : Bytes) (offset : ℕ)
    → offset ≤ length buffer
    → length buffer < offset + fuel
    → Returns (parse_messages fuel buffer offset)
unfolding parse_messages
parse_messages-Returns zero buffer offset h k = absurd (omega arith)
parse_messages-Returns (suc fuel) buffer offset h k =
    elim (Bool-cases (leb (offset + 2) (length buffer))) [
      | inl room ↦
          let (kind, ek) = get_elem?-some buffer offset (ground arith) in
          let (len, el) = get_elem?-some buffer (offset + 1) (ground arith) in
          rw (room, ek, el)
            (dispatch-Returns buffer (offset + 2) kind len _ (ground arith) (λ fits.
              parse_messages-Returns fuel buffer (offset + 2 + len) (ground arith) (ground arith)))
      | inr done ↦ (none, rw done)
    ]

-- On every buffer, of any length and any bytes, and on NULL, the parser returns, and no read is
-- past the end of the buffer.
pub parse-Returns : (input : Option Bytes) → Returns (ble_airpods_parse_manufacturer_data input)
unfolding ble_airpods_parse_manufacturer_data
parse-Returns none = (none, refl)
parse-Returns (some buffer) =
    parse_messages-Returns (length buffer + 1) buffer 0 (omega arith) (omega arith)
