-- ===== src/Aap/Release.antt =====
-- The search for the marker by which another host asks for the AirPods.
use earport_handoff.Base.{
  bytes_equal_refl, bytes_equal-eq, ℕ, zero, suc, ◌+◌, ◌-◌, ◌≤◌, ◌<◌, ◌≡◌, ◌≢◌, refl, sym, ap, ◌∙◌,
  ◌↔◌, inl, inr, Bool, true, false, some, [], ◌∷◌, ◌++◌, arith, length, take, drop, length-append,
  bytes_equal, leb, if◌then◌else◌, Bool-cases, Option-cases,
}
use earport_handoff.Base.Text.{Bytes}
use earport_handoff.Aap.InBounds.{bounded_ne_none}
use earport_handoff.Aap.{
  ok, AapPacketType, AapParsedPacket, contains_from, bounded_bytes_contain, release_marker,
  parse_smart_routing_response, set_type, aap_parse_packet,
}

-- the needle stands in the buffer
pub record Occurs (buffer needle : Bytes) : Type 0 where
  pub before : Bytes
  pub after : Bytes
  pub splits : buffer ≡ before ++ (needle ++ after)

take-append-drop : (n : ℕ) (xs : Bytes) → take n xs ++ drop n xs ≡ xs
take-append-drop zero xs = refl
take-append-drop (suc n) [] = refl
take-append-drop (suc n) (x ∷ xs) = rw (take-append-drop n xs)

drop-append : (before after : Bytes) → drop (length before) (before ++ after) ≡ after
drop-append [] after = refl
drop-append (x ∷ before) after = drop-append before after

take-append : (xs ys : Bytes) → take (length xs) (xs ++ ys) ≡ xs
take-append [] ys = refl
take-append (x ∷ xs) ys = rw (take-append xs ys)

-- A window that equals the needle shows the needle.
window-Occurs :
    (buffer needle : Bytes) (offset : ℕ)
    → take (length needle) (drop offset buffer) ≡ needle
    → Occurs buffer needle
window-Occurs buffer needle offset e = record {
  before = take offset buffer;
  after = drop (length needle) (drop offset buffer);
  splits =
      sym (take-append-drop offset buffer)
      ∙ ap (λ l. take offset buffer ++ l)
          (sym (take-append-drop (length needle) (drop offset buffer))
            ∙ ap (λ l. l ++ drop (length needle) (drop offset buffer)) e);
}

length_ne_zero : (needle : Bytes) → needle ≢ [] → 0 < length needle
length_ne_zero [] h = absurd (h refl)
length_ne_zero (x ∷ needle) h = omega arith

contains_from-Occurs :
    (rounds : ℕ) (buffer needle : Bytes) (offset : ℕ)
    → contains_from rounds buffer needle offset ≡ some true
    → Occurs buffer needle
unfolding contains_from
contains_from-Occurs zero buffer needle offset h = cc
contains_from-Occurs (suc rounds) buffer needle offset h =
    elim (Bool-cases (leb (offset + length needle) (length buffer))) [
      | inr outside ↦ absurd (ground arith)
      | inl inside ↦
          elim (Bool-cases (bytes_equal (take (length needle) (drop offset buffer)) needle)) [
            | inl here ↦ window-Occurs buffer needle offset (bytes_equal-eq _ _ here)
            | inr other ↦
                contains_from-Occurs rounds buffer needle (offset + 1) (rw (inside, other) at h)
          ]
    ]

-- The loop finds a needle that stands at an offset it reaches.
contains_reaches :
    (rounds : ℕ) (buffer needle : Bytes) (offset k : ℕ)
    → offset + rounds + length needle ≤ length buffer + 1
    → k < rounds
    → take (length needle) (drop (offset + k) buffer) ≡ needle
    → contains_from rounds buffer needle offset ≡ some true
unfolding contains_from
contains_reaches zero buffer needle offset k h l e = elim l [ ]
contains_reaches (suc rounds) buffer needle offset zero h l e =
    let inside : leb (offset + length needle) (length buffer) ≡ true = ground arith in
    let plus : offset ≡ offset + 0 = omega arith in
    let here : bytes_equal (take (length needle) (drop offset buffer)) needle ≡ true =
      ap (λ n. bytes_equal (take (length needle) (drop n buffer)) needle) plus
      ∙ ap (λ l. bytes_equal l needle) e
      ∙ bytes_equal_refl needle in
    rw (inside, here)
contains_reaches (suc rounds) buffer needle offset (suc k) h l e =
    let inside : leb (offset + length needle) (length buffer) ≡ true = ground arith in
    let shift : offset + 1 + k ≡ offset + suc k = omega arith in
    let rest : contains_from rounds buffer needle (offset + 1) ≡ some true =
      contains_reaches rounds buffer needle (offset + 1) k (omega arith) (omega arith)
        (ap (λ n. take (length needle) (drop n buffer)) shift ∙ e) in
    rw (inside, rest) (ground arith)

Occurs-contains :
    (buffer needle : Bytes)
    → needle ≢ []
    → Occurs buffer needle
    → bounded_bytes_contain buffer needle ≡ some true
unfolding bounded_bytes_contain
Occurs-contains buffer needle nonempty c =
    let total : length buffer ≡ length c.before + (length needle + length c.after) =
      ap length c.splits
      ∙ length-append c.before (needle ++ c.after)
      ∙ ap (λ n. length c.before + n) (length-append needle c.after) in
    let window : take (length needle) (drop (0 + length c.before) buffer) ≡ needle =
      ap (λ n. take (length needle) (drop n buffer))
        (let z : 0 + length c.before ≡ length c.before = omega arith in z)
      ∙ ap (λ b. take (length needle) (drop (length c.before) b)) c.splits
      ∙ ap (take (length needle)) (drop-append c.before (needle ++ c.after))
      ∙ take-append needle c.after in
    let found =
      contains_reaches (length buffer - length needle + 1) buffer needle 0 (length c.before)
        (omega arith) (omega arith) window in
    ground (arith, length_ne_zero needle nonempty)

-- The search finds a needle that is not empty exactly if it stands somewhere in the buffer.
pub contains_iff :
    (buffer needle : Bytes)
    → needle ≢ []
    → (bounded_bytes_contain buffer needle ≡ some true) ↔ Occurs buffer needle
unfolding bounded_bytes_contain
contains_iff buffer needle nonempty = (
  λ h. contains_from-Occurs (length buffer - length needle + 1) buffer needle 0 (ground arith),
  Occurs-contains buffer needle nonempty,
)

parse_routing :
    (second : ℕ) (tail : Bytes) (r : AapParsedPacket)
    → aap_parse_packet (some (0x04 ∷ 0x00 ∷ 0x04 ∷ 0x00 ∷ 0x11 ∷ second ∷ tail)) r
      ≡ parse_smart_routing_response
          (0x04 ∷ 0x00 ∷ 0x04 ∷ 0x00 ∷ 0x11 ∷ second ∷ tail)
          (set_type AapPacketType.unknown r)
unfolding aap_parse_packet
parse_routing second tail r = ground arith

routing-found :
    (second : ℕ) (tail : Bytes) (r : AapParsedPacket) (found : Bool)
    → bounded_bytes_contain tail release_marker ≡ some found
    → parse_smart_routing_response (0x04 ∷ 0x00 ∷ 0x04 ∷ 0x00 ∷ 0x11 ∷ second ∷ tail) r
      ≡ some (ok, if found then set_type AapPacketType.ownership_release_request r else r)
unfolding parse_smart_routing_response
routing-found second tail r found e = ground arith

-- A smart routing packet is taken for a request to give up the AirPods exactly if the marker
-- stands somewhere behind its first six bytes, whatever surrounds it.
pub release_request_iff :
    (second : ℕ) (tail : Bytes) (r : AapParsedPacket)
    → (aap_parse_packet (some (0x04 ∷ 0x00 ∷ 0x04 ∷ 0x00 ∷ 0x11 ∷ second ∷ tail)) r
        ≡ some (ok, set_type AapPacketType.ownership_release_request r))
      ↔ Occurs tail release_marker
release_request_iff second tail r = (
  λ h. (contains_iff tail release_marker (λ e. cc)).0 (forward h),
  λ c.
      parse_routing second tail r
      ∙ routing-found second tail _ true ((contains_iff tail release_marker (λ e. cc)).1 c),
)
  where
    forward :
        aap_parse_packet (some (0x04 ∷ 0x00 ∷ 0x04 ∷ 0x00 ∷ 0x11 ∷ second ∷ tail)) r
          ≡ some (ok, set_type AapPacketType.ownership_release_request r)
        → bounded_bytes_contain tail release_marker ≡ some true
    forward h = elim (Option-cases (bounded_bytes_contain tail release_marker)) [
      | inl e ↦ absurd (bounded_ne_none tail release_marker e)
      | inr (true, e) ↦ e
      | inr (false, e) ↦ cc (
          sym h
          ∙ parse_routing second tail r
          ∙ routing-found second tail (set_type AapPacketType.unknown r) false e)
    ]
