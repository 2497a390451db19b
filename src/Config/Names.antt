-- ===== src/Config/Names.antt =====
-- The names of devices: cut to the field, and still valid UTF-8.
use earport_handoff.Base.{
  ℕ, ◌≤◌, ◌<◌, ◌≡◌, min, refl, ap, ◌∙◌, inl, inr, subst, false, none, some, List, [], ◌∷◌, arith,
  length, take, length-take-le, ltb, ◌==◌, Bool-cases, suc, zero,
}
use earport_handoff.Base.Text.{Bytes, CString}
use earport_handoff.Config.KeyFile.{Utf8, Utf8Laws, IsUtf8}
use earport_handoff.Config.{copy_valid, config_copy_display_name}

take-length : {A : Type 0} (n : ℕ) (l : List A) → length l ≤ n → take n l ≡ l
take-length zero [] h = refl
take-length (suc n) [] h = refl
take-length zero (a ∷ l) h = absurd (omega arith)
take-length (suc n) (a ∷ l) h = ap (λ t. a ∷ t) (take-length n l (omega arith))

length-take : {A : Type 0} (n : ℕ) (l : List A) → length (take n l) ≡ min n (length l)
length-take zero l = omega arith
length-take (suc n) [] = omega arith
length-take (suc n) (a ∷ l) = omega (arith, length-take n l)

take-take : {A : Type 0} (m n : ℕ) (l : List A) → m ≤ n → take m (take n l) ≡ take m l
take-take zero n l h = refl
take-take (suc m) zero l h = absurd (omega arith)
take-take (suc m) (suc n) [] h = refl
take-take (suc m) (suc n) (a ∷ l) h = ap (λ t. a ∷ t) (take-take m n l (omega arith))

module _ (U : Utf8) (laws : Utf8Laws U) where
  -- a cut that does not end within a character
  kept-IsUtf8 :
      (valid : Bytes) (n : ℕ)
      → U.valid_length (take n valid) ≡ n
      → n ≤ length valid
      → IsUtf8 U (take n valid)
  kept-IsUtf8 valid n e h = e ∙ omega (arith, length-take n valid)

  -- one that does
  shortened-IsUtf8 : (valid : Bytes) (n : ℕ) → IsUtf8 U (take (U.valid_length (take n valid)) valid)
  shortened-IsUtf8 valid n =
      let cut = take n valid in
      subst (IsUtf8 U)
        (take-take (U.valid_length cut) n valid
          (omega (arith, laws.valid_length-le cut, length-take-le n valid)))
        (laws.take-IsUtf8 cut)

  copy_valid-IsUtf8 : (valid : Bytes) → IsUtf8 U valid → IsUtf8 U (copy_valid U valid)
  unfolding copy_valid
  copy_valid-IsUtf8 valid v =
      let n = min (length valid) 63 in
      elim (Bool-cases (ltb n (length valid))) [
        | inl long ↦ elim (Bool-cases (U.valid_length (take n valid) == n)) [
          | inl whole ↦ rw (long, whole) (kept-IsUtf8 valid n (ground arith) (omega arith))
          | inr broken ↦ rw (long, broken) (shortened-IsUtf8 valid n)
        ]
        | inr short ↦ rw (short, take-length n valid (ground arith)) v
      ]

  copy_valid-lt : (valid : Bytes) → length (copy_valid U valid) < 64
  unfolding copy_valid
  copy_valid-lt valid =
      let n = min (length valid) 63 in
      let cut = take n valid in
      ground (
        arith,
        length-take-le n valid,
        length-take-le (U.valid_length cut) valid,
        laws.valid_length-le cut,
      )

  copy_valid-short : (valid : Bytes) → length valid < 64 → copy_valid U valid ≡ valid
  unfolding copy_valid
  copy_valid-short valid h =
      let n = min (length valid) 63 in
      let short : ltb n (length valid) ≡ false = ground arith in
      rw short (take-length n valid (omega arith))

  pub copy-IsUtf8 : (source : CString) → IsUtf8 U (config_copy_display_name U source)
  unfolding config_copy_display_name
  copy-IsUtf8 none = omega (arith, laws.valid_length-le [])
  copy-IsUtf8 (some []) = omega (arith, laws.valid_length-le [])
  copy-IsUtf8 (some (c ∷ cs)) =
      copy_valid-IsUtf8 (U.make_valid (c ∷ cs)) (laws.make_valid-IsUtf8 (c ∷ cs))

  pub copy-lt : (source : CString) → length (config_copy_display_name U source) < 64
  unfolding config_copy_display_name
  copy-lt none = omega arith
  copy-lt (some []) = omega arith
  copy-lt (some (c ∷ cs)) = copy_valid-lt (U.make_valid (c ∷ cs))

  pub copy-id : (s : Bytes) → IsUtf8 U s → length s < 64 → config_copy_display_name U (some s) ≡ s
  unfolding config_copy_display_name
  copy-id [] v h = refl
  copy-id (c ∷ cs) v h =
      ap (copy_valid U) (laws.make_valid-id (c ∷ cs) v) ∙ copy_valid-short (c ∷ cs) h

  -- Whatever text a display name is copied from, NULL included, the copy is valid UTF-8 and fits the
  -- field of 64 bytes with its NUL, and a second copy of it is the same.
  pub display_name_fits :
      (source : CString)
      → let copy = config_copy_display_name U source in
        IsUtf8 U copy × (length copy < 64) × (config_copy_display_name U (some copy) ≡ copy)
  display_name_fits source =
      let v = copy-IsUtf8 source in
      let h = copy-lt source in (v, h, copy-id (config_copy_display_name U source) v h)
