-- ===== src/Aap/Ranges.antt =====
-- The ranges of what the parsers of packets write.
use earport_handoff.Base.{
  ℕ, zero, suc, ◌+◌, ◌-◌, ◌*◌, ◌<◌, ◌≡◌, inl, inr, Bool, some, [], ◌∷◌, arith, byte, length,
  length-append, ltb, ◌==◌, Bool-cases, Option-cases,
}
use earport_handoff.Base.Int.{ℤ, pos, negsuc, ◌≤ℤ◌}
use earport_handoff.Base.Text.{Bytes}
use earport_handoff.State.{BatteryStatus}
use earport_handoff.Aap.{
  AapParseResult, AapBatteryData, AapMetadata, put, scan_string, aap_parse_metadata_string,
  parse_manufacturer, parse_model_number, aap_parse_metadata, no_metadata, no_battery_data,
  battery_level, store_battery, battery_components, read_battery, aap_parse_battery,
}

-- -1 or a percentage
abbrev pub InRange : ℤ → Type 0
InRange level = (negsuc 0 ≤ℤ level) × (level ≤ℤ pos 100)

pub record AllInRange (d : AapBatteryData) : Type 0 where
  pub left : InRange d.left_level
  pub right : InRange d.right_level
  pub in_case : InRange d.case_level

level-InRange : (n : ℕ) → InRange (battery_level n)
unfolding battery_level
level-InRange n = ground arith

store-AllInRange :
    (d : AapBatteryData) (component : ℕ) (level : ℤ) (status : BatteryStatus)
    → AllInRange d
    → InRange level
    → AllInRange (store_battery d component level status)
unfolding store_battery
store-AllInRange d component level status v l = ground arith

components-AllInRange :
    (rounds : ℕ) (b : Bytes) (i : ℕ) (d : AapBatteryData) {r : AapBatteryData}
    → AllInRange d
    → battery_components rounds b i d ≡ some r
    → AllInRange r
unfolding battery_components
components-AllInRange zero b i d v h = ground arith
components-AllInRange (suc rounds) b i d v h = elim (Option-cases (byte b (7 + i * 5))) [
  | inl e ↦ absurd (ground arith)
  | inr (c, ec) ↦ elim (Option-cases (byte b (7 + i * 5 + 2))) [
    | inl e ↦ absurd (ground arith)
    | inr (l, el) ↦ elim (Option-cases (byte b (7 + i * 5 + 3))) [
      | inl e ↦ absurd (ground arith)
      | inr (s, es) ↦
          components-AllInRange rounds b (i + 1) _
            (store-AllInRange d c (battery_level l) _ v (level-InRange l)) (rw (ec, el, es) at h)
    ]
  ]
]

read-AllInRange :
    (n : ℕ) (b : Bytes) (code : AapParseResult) (d : AapBatteryData)
    → read_battery n b ≡ some (code, some d)
    → AllInRange d
unfolding read_battery
read-AllInRange n b code d h = elim (Option-cases (battery_components n b 0 no_battery_data)) [
  | inl e ↦ absurd (ground arith)
  | inr (r, e) ↦
      let ranged = components-AllInRange n b 0 no_battery_data (omega arith) e in
      let same : r ≡ d = ground arith in rw same at ranged
]

-- Every battery level that the parser stores, from any bytes at all, is -1 or from 0 to 100.
pub parse_battery-AllInRange :
    (b : Bytes) (code : AapParseResult) (d : AapBatteryData)
    → aap_parse_battery b ≡ some (code, some d)
    → AllInRange d
unfolding aap_parse_battery
parse_battery-AllInRange b code d h = elim (Option-cases (byte b 6)) [
  | inl e ↦ absurd (ground arith)
  | inr (n, e) ↦ read-AllInRange n b code d (ground arith)
]

put_fits : (size : ℕ) (out : Bytes) (c : ℕ) → length out < size → length (put size out c) < size
put_fits size out c h = ground (arith, length-append out (c ∷ []))

scan_fits :
    (fuel : ℕ) (b : Bytes) (position size : ℕ) (out : Bytes) {r : ℕ × Bytes}
    → length out < size
    → scan_string fuel b position size out ≡ some r
    → length r.1 < size
unfolding scan_string
scan_fits zero b position size out v h = cc
scan_fits (suc fuel) b position size out v h = elim (Bool-cases (ltb position (length b))) [
  | inl more ↦ elim (Option-cases (byte b position)) [
    | inl e ↦ absurd (ground arith)
    | inr (c, e) ↦ elim (Bool-cases (c == 0)) [
      | inl end ↦ ground arith
      | inr on ↦
          scan_fits fuel b (position + 1) size (put size out c) (put_fits size out c v)
            (rw (more, e, on) at h)
    ]
  ]
  | inr done ↦ ground arith
]

string_fits :
    (b : Bytes) (position size : ℕ) (r : Bool × ℕ × Bytes)
    → 0 < size
    → aap_parse_metadata_string b position size ≡ some r
    → length r.2 < size
unfolding aap_parse_metadata_string
string_fits b position size r v h =
    elim (Option-cases (scan_string (length b - position + 1) b position size [])) [
      | inl e ↦ absurd (ground arith)
      | inr (s, e) ↦
          let fits = scan_fits (length b - position + 1) b position size [] v e in ground arith
    ]

pub record Fits (m : AapMetadata) : Type 0 where
  pub name_fits : length m.device_name < 64
  pub model_fits : length m.model_number < 16
  pub maker_fits : length m.manufacturer < 32

manufacturer-Fits :
    (b : Bytes) (p : ℕ) (m : AapMetadata) (code : AapParseResult) (r : AapMetadata)
    → Fits m
    → parse_manufacturer b p m ≡ some (code, some r)
    → Fits r
unfolding parse_manufacturer
manufacturer-Fits b p m code r v h = elim (Option-cases (aap_parse_metadata_string b p 32)) [
  | inl e ↦ absurd (ground arith)
  | inr (s, e) ↦ let fits = string_fits b p 32 s (omega arith) e in ground arith
]

model_number-Fits :
    (b : Bytes) (p : ℕ) (m : AapMetadata) (code : AapParseResult) (r : AapMetadata)
    → Fits m
    → parse_model_number b p m ≡ some (code, some r)
    → Fits r
unfolding parse_model_number
model_number-Fits b p m code r v h = elim (Option-cases (aap_parse_metadata_string b p 16)) [
  | inl e ↦ absurd (ground arith)
  | inr (s, e) ↦
      let fits = string_fits b p 16 s (omega arith) e in
      ground (arith, manufacturer-Fits b s.1 (record m { model_number = s.2 }) code r)
]

-- Every string that the metadata parser stores, from any bytes at all and also on failure, fits its
-- destination of 64, 16 or 32 bytes with its NUL.
pub parse_metadata-Fits :
    (b : Bytes) (code : AapParseResult) (m : AapMetadata)
    → aap_parse_metadata b ≡ some (code, some m)
    → Fits m
unfolding aap_parse_metadata
parse_metadata-Fits b code m h = elim (Option-cases (aap_parse_metadata_string b 12 64)) [
  | inl e ↦ absurd (ground arith)
  | inr (s, e) ↦
      let fits = string_fits b 12 64 s (omega arith) e in
      ground (arith, model_number-Fits b s.1 (record no_metadata { device_name = s.2 }) code m)
]
