-- ===== src/Aap/Strings.antt =====
-- The three strings of a metadata packet.
use earport_handoff.Base.{
  ℕ, zero, suc, ◌+◌, ◌-◌, ◌<◌, ◌≡◌, refl, sym, ap, ◌∙◌, inl, inr, true, false, some, [], ◌∷◌, ◌++◌,
  arith, byte_at, length, take, length-append, All, leb, ltb, ◌==◌, Bool-cases,
}
use mathlib.Core.List.{append-nil, append_assoc}
use earport_handoff.Base.Text.{Bytes}
use earport_handoff.Aap.{
  ok, put, scan_string, aap_parse_metadata_string, parse_manufacturer, parse_model_number,
  aap_parse_metadata,
}

-- the destination after the loop has put these bytes
fill : ℕ → Bytes → Bytes → Bytes
fill size out [] = out
fill size out (c ∷ cs) = fill size (put size out c) cs

take_zero : (xs : Bytes) (n : ℕ) → n ≡ 0 → take n xs ≡ []
take_zero xs zero h = refl
take_zero xs (suc n) h = absurd (omega arith)

take-nil : (n : ℕ) → take {A = ℕ} n [] ≡ []
take-nil zero = refl
take-nil (suc n) = refl

take-cons : (n : ℕ) (x : ℕ) (xs : Bytes) → 0 < n → take n (x ∷ xs) ≡ x ∷ take (n - 1) xs
take-cons zero x xs h = elim h [ ]
take-cons (suc n) x xs h = ap (λ k. x ∷ take k xs) (omega arith)

fill-take : (size : ℕ) (cs out : Bytes) → fill size out cs ≡ out ++ take (size - 1 - length out) cs
unfolding fill
fill-take size [] out =
    sym (append-nil out) ∙ ap (λ l. out ++ l) (sym (take-nil (size - 1 - length out)))
fill-take size (c ∷ cs) out = elim (Bool-cases (ltb (length out + 1) size)) [
  | inl room ↦
      let shorter : size - 1 - length (out ++ (c ∷ [])) ≡ size - 1 - length out - 1 =
        omega (arith, length-append out (c ∷ [])) in
      rw room (
        fill-take size cs (out ++ (c ∷ []))
        ∙ append_assoc out (c ∷ []) _
        ∙ ap (λ n. out ++ (c ∷ take n cs)) shorter
        ∙ ap (λ l. out ++ l) (sym (take-cons (size - 1 - length out) c cs (ground arith))))
  | inr full ↦
      let none_left : size - 1 - length out ≡ 0 = ground arith in
      rw full (
        fill-take size cs out
        ∙ ap (λ l. out ++ l) (take_zero cs _ none_left ∙ sym (take_zero (c ∷ cs) _ none_left)))
]

abbrev pub IsText : Bytes → Type 0
IsText = All (λ c. (c == 0) ≡ false)

scan-text :
    (fuel : ℕ) (before cs after buffer : Bytes) (position size : ℕ) (out : Bytes)
    → IsText cs
    → buffer ≡ before ++ (cs ++ (0 ∷ after))
    → position ≡ length before
    → length cs < fuel
    → scan_string fuel buffer position size out ≡ some (position + length cs, fill size out cs)
unfolding scan_string fill
scan-text zero before cs after buffer position size out t e p h = elim h [ ]
scan-text (suc fuel) before [] after buffer position size out t e p h =
    let total = ap length e ∙ length-append before (0 ∷ after) in
    let more : ltb position (length buffer) ≡ true = ground arith in
    let here = byte_at before (0 ∷ after) buffer 0 position e (omega arith) in
    let stay : position ≡ position + 0 = omega arith in
    rw (more, here) (ap (λ n. some (n, out)) stay)
scan-text (suc fuel) before (c ∷ cs) after buffer position size out (nonzero, t) e p h =
    let total = ap length e ∙ length-append before (c ∷ (cs ++ (0 ∷ after))) in
    let more : ltb position (length buffer) ≡ true = ground arith in
    let here = byte_at before (c ∷ (cs ++ (0 ∷ after))) buffer 0 position e (omega arith) in
    let on : position + 1 + length cs ≡ position + suc (length cs) = omega arith in
    rw (more, here, nonzero)
      (scan-text fuel (before ++ (c ∷ [])) cs after buffer (position + 1) size (put size out c) t
          (e ∙ sym (append_assoc before (c ∷ []) (cs ++ (0 ∷ after))))
          (omega (arith, length-append before (c ∷ []))) (omega arith)
        ∙ ap (λ n. some (n, fill size (put size out c) cs)) on)

-- One string: it is found to its end, and cut to what its destination holds.
string-text :
    (before cs after buffer : Bytes) (position size : ℕ)
    → IsText cs
    → buffer ≡ before ++ (cs ++ (0 ∷ after))
    → position ≡ length before
    → aap_parse_metadata_string buffer position size
      ≡ some (true, position + length cs + 1, take (size - 1) cs)
unfolding aap_parse_metadata_string
string-text before cs after buffer position size t e p =
    let total = ap length e ∙ length-append before (cs ++ (0 ∷ after)) in
    let inner = length-append cs (0 ∷ after) in
    let found =
      scan-text (length buffer - position + 1) before cs after buffer position size [] t e p
        (omega arith) in
    let more : leb (length buffer) (position + length cs) ≡ false = ground arith in
    let whole : fill size [] cs ≡ take (size - 1) cs =
      fill-take size cs []
      ∙ ap (λ n. take n cs) (let z : size - 1 - 0 ≡ size - 1 = omega arith in z) in
    rw (found, more, whole)

-- A metadata packet with a front of twelve bytes and three strings of nonzero bytes, each ended by
-- a NUL, is read in full, whatever follows: each string comes back, cut to 63, 15 and 31 bytes, and
-- a string that is cut does not disturb the next.
pub parse_metadata_strings :
    (front name model maker after : Bytes)
    → length front ≡ 12
    → IsText name
    → IsText model
    → IsText maker
    → aap_parse_metadata (front ++ (name ++ (0 ∷ (model ++ (0 ∷ (maker ++ (0 ∷ after)))))))
      ≡ some (
        ok,
        some (record {
          device_name = take 63 name;
          model_number = take 15 model;
          manufacturer = take 31 maker;
        }),
      )
unfolding aap_parse_metadata parse_model_number parse_manufacturer
parse_metadata_strings front name model maker after n t u v =
    let third = maker ++ (0 ∷ after) in
    let second = model ++ (0 ∷ third) in
    let buffer = front ++ (name ++ (0 ∷ second)) in
    let before2 = front ++ (name ++ (0 ∷ [])) in
    let before3 = before2 ++ (model ++ (0 ∷ [])) in
    let e2 : buffer ≡ before2 ++ second = sym (
      append_assoc front (name ++ (0 ∷ [])) second
      ∙ ap (λ l. front ++ l) (append_assoc name (0 ∷ []) second)) in
    let e3 : buffer ≡ before3 ++ third =
      e2
      ∙ sym (
          append_assoc before2 (model ++ (0 ∷ [])) third
          ∙ ap (λ l. before2 ++ l) (append_assoc model (0 ∷ []) third)) in
    let l2 = length-append front (name ++ (0 ∷ [])) in
    let l2' = length-append name (0 ∷ []) in
    let l3 = length-append before2 (model ++ (0 ∷ [])) in
    let l3' = length-append model (0 ∷ []) in
    let long : ltb (length buffer) 12 ≡ false =
      ground (arith, length-append front (name ++ (0 ∷ second))) in
    rw (
      long,
      string-text front name second buffer 12 64 t refl (omega arith),
      string-text before2 model third buffer (12 + length name + 1) 16 u e2 (omega arith),
      string-text before3 maker after buffer (12 + length name + 1 + length model + 1) 32 v e3
          (omega arith),
    )
