-- ===== src/Ble/First.antt =====
-- Which message the parser of manufacturer data takes, behind other messages.
use native.Mathlib.Nat.{zero-add}
use mathlib.Core.List.{append-nil, append_assoc}
use earport_handoff.Base.{
  ℕ, suc, ◌+◌, ◌-◌, ◌≤◌, ◌≡◌, refl, sym, ap, ◌∙◌, true, false, ◌&&◌, Option, some, List, [], ◌∷◌,
  ◌++◌, length, length-append, All, byte, byte-append, byte_at, arith, ltb, leb, ◌==◌,
}
use earport_handoff.Base.Text.{Bytes}
use earport_handoff.Ble.{
  BleAirPodsAdvertisement, apple_proximity_type, apple_proximity_length, big_endian,
  accept_proximity, parse_proximity, dispatch_message, parse_messages,
  ble_airpods_parse_manufacturer_data,
}

-- One round of the loop at a message's two first bytes.
parse-round :
    (fuel : ℕ) (before : Bytes) (kind len : ℕ) (after buffer : Bytes)
    → buffer ≡ before ++ (kind ∷ len ∷ after)
    → parse_messages (suc fuel) buffer (length before)
      ≡ dispatch_message buffer
          (length before + 2)
          kind
          len
          (parse_messages fuel buffer (length before + 2 + len))
unfolding parse_messages
parse-round fuel before kind len after buffer e =
    let k : byte buffer (length before) ≡ some kind =
      ap (byte buffer) (let z : length before ≡ length before + 0 = omega arith in z)
      ∙ ap (λ b. byte b (length before + 0)) e
      ∙ byte-append before (kind ∷ len ∷ after) 0 in
    let l : byte buffer (length before + 1) ≡ some len =
      ap (λ b. byte b (length before + 1)) e ∙ byte-append before (kind ∷ len ∷ after) 1 in
    let m : length buffer ≡ length before + length (kind ∷ len ∷ after) =
      ap length e ∙ length-append before (kind ∷ len ∷ after) in
    let room : leb (length before + 2) (length buffer) ≡ true = ground arith in rw (room, k, l)

-- a message of type and payload, as it stands in the data
abbrev pub encode : ℕ × Bytes → Bytes
encode (kind, payload) = kind ∷ length payload ∷ payload

abbrev pub encode_all : List (ℕ × Bytes) → Bytes
encode_all [] = []
encode_all (m ∷ ms) = encode m ++ encode_all ms

abbrev pub IsOther : ℕ × Bytes → Type 0
IsOther (kind, payload) =
    (kind == apple_proximity_type && length payload == apple_proximity_length) ≡ false

dispatch_other :
    (buffer : Bytes) (o kind len : ℕ) (rest : Option (Option BleAirPodsAdvertisement))
    → len ≤ length buffer - o
    → (kind == apple_proximity_type && len == apple_proximity_length) ≡ false
    → dispatch_message buffer o kind len rest ≡ rest
unfolding dispatch_message
dispatch_other buffer o kind len rest fits other =
    let long_enough : ltb (length buffer - o) len ≡ false = ground arith in rw (long_enough, other)

-- the lengths of a buffer that is cut at a message
length_at_message :
    (before : Bytes) (kind : ℕ) (payload rest buffer : Bytes)
    → buffer ≡ before ++ (kind ∷ length payload ∷ (payload ++ rest))
    → (length payload ≤ length buffer - (length before + 2))
      × (length before + 2 + length payload ≡ length (before ++ encode (kind, payload)))
length_at_message before kind payload rest buffer e =
    let total : length buffer ≡ length before + length (kind ∷ length payload ∷ (payload ++ rest)) =
      ap length e ∙ length-append before _ in
    omega (arith, total, length-append payload rest, length-append before (encode (kind, payload)))

length-encode_all : (ms : List (ℕ × Bytes)) → length ms ≤ length (encode_all ms)
length-encode_all [] = omega arith
length-encode_all (m ∷ ms) =
    omega (arith, length-encode_all ms, length-append (encode m) (encode_all ms))

parse-skip :
    (ms : List (ℕ × Bytes)) (fuel : ℕ) (before after buffer : Bytes)
    → All IsOther ms
    → buffer ≡ before ++ (encode_all ms ++ after)
    → parse_messages (length ms + fuel) buffer (length before)
      ≡ parse_messages fuel buffer (length (before ++ encode_all ms))
parse-skip [] fuel before after buffer others e = rw (append-nil, zero-add)
parse-skip ((kind, payload) ∷ ms) fuel before after buffer (other, others) e =
    let later = encode_all ms ++ after in
    let cut : buffer ≡ before ++ (kind ∷ length payload ∷ (payload ++ later)) =
      e
      ∙ ap (λ l. before ++ (kind ∷ length payload ∷ l))
          (append_assoc payload (encode_all ms) after) in
    let (fits, next) = length_at_message before kind payload later buffer cut in
    let steps : suc (length ms) + fuel ≡ suc (length ms + fuel) = omega arith in
    ap (λ f. parse_messages f buffer (length before)) steps
    ∙ parse-round (length ms + fuel) before kind (length payload) (payload ++ later) buffer cut
    ∙ dispatch_other buffer (length before + 2) kind (length payload) _ fits other
    ∙ ap (parse_messages (length ms + fuel) buffer) next
    ∙ parse-skip ms fuel (before ++ encode (kind, payload)) after buffer others
        (cut ∙ sym (append_assoc before (encode (kind, payload)) later))
    ∙ ap (λ l. parse_messages fuel buffer (length l))
        (append_assoc before (encode (kind, payload)) (encode_all ms))

parse-proximity :
    (fuel : ℕ) (before : Bytes) (prefix hi lo status : ℕ) (more after buffer : Bytes)
    → length more ≡ 21
    → buffer ≡ before ++ (encode (apple_proximity_type, prefix ∷ hi ∷ lo ∷ status ∷ more) ++ after)
    → parse_messages (suc fuel) buffer (length before)
      ≡ some (accept_proximity prefix (big_endian hi lo) status)
unfolding dispatch_message parse_proximity
parse-proximity fuel before prefix hi lo status more after buffer n e =
    let payload = prefix ∷ hi ∷ lo ∷ status ∷ more in
    let o = length before + 2 in
    let (fits, next) = length_at_message before apple_proximity_type payload after buffer e in
    let long_enough : ltb (length buffer - o) (length payload) ≡ false = ground arith in
    let is_proximity : (apple_proximity_type == apple_proximity_type
          && length payload == apple_proximity_length)
        ≡ true =
      ground arith in
    parse-round fuel before apple_proximity_type _ _ buffer e
    ∙ rw (
      long_enough,
      is_proximity,
      byte_at before _ buffer 2 o e (omega arith),
      byte_at before _ buffer 3 (o + 1) e (omega arith),
      byte_at before _ buffer 4 (o + 2) e (omega arith),
      byte_at before _ buffer 5 (o + 3) e (omega arith),
    )

-- Behind any messages of another type or length, the first proximity message decides: the result
-- is its advertisement if its prefix and model are accepted, and false if not, whatever follows.
pub parse_first_proximity :
    (ms : List (ℕ × Bytes)) (prefix hi lo status : ℕ) (more after : Bytes)
    → All IsOther ms
    → length more ≡ 21
    → ble_airpods_parse_manufacturer_data (
        some (
          encode_all ms
          ++ (encode (apple_proximity_type, prefix ∷ hi ∷ lo ∷ status ∷ more) ++ after)))
      ≡ some (accept_proximity prefix (big_endian hi lo) status)
unfolding ble_airpods_parse_manufacturer_data
parse_first_proximity ms prefix hi lo status more after others n =
    let last = encode (apple_proximity_type, prefix ∷ hi ∷ lo ∷ status ∷ more) ++ after in
    let buffer = encode_all ms ++ last in
    let enough : length ms ≤ length (encode_all ms) = length-encode_all ms in
    let left : length buffer + 1 ≡ length ms + suc (length buffer - length ms) =
      omega (arith, enough, length-append (encode_all ms) last) in
    ap (λ f. parse_messages f buffer 0) left
    ∙ parse-skip ms (suc (length buffer - length ms)) [] last buffer others refl
    ∙ parse-proximity (length buffer - length ms) (encode_all ms) prefix hi lo status more after
        buffer n refl
