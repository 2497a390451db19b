-- ===== src/Connection/Address.antt =====
-- The comparison of two device addresses, up to the case of their letters.
use earport_handoff.Base.{
  ◌≡◌, refl, sym, ap, ◌∙◌, ◌↔◌, true, [], ◌∷◌, map, Option, none, some, arith,
}
use earport_handoff.Base.Text.{Bytes, CString, lower, equal_fold}
use earport_handoff.Connection.{airpods_address_equal, address_is_valid}

equal_fold-eq : (a b : Bytes) → equal_fold a b ≡ true → map lower a ≡ map lower b
equal_fold-eq [] [] h = refl
equal_fold-eq [] (y ∷ b) h = cc
equal_fold-eq (x ∷ a) [] h = cc
equal_fold-eq (x ∷ a) (y ∷ b) h = ground (arith, equal_fold-eq a b)

equal_fold_of_eq : (a b : Bytes) → map lower a ≡ map lower b → equal_fold a b ≡ true
equal_fold_of_eq [] [] h = refl
equal_fold_of_eq [] (y ∷ b) h = cc
equal_fold_of_eq (x ∷ a) [] h = cc
equal_fold_of_eq (x ∷ a) (y ∷ b) h = ground (arith, equal_fold_of_eq a b)

-- The address in one case; none where the address is not valid.
unfoldable pub canonical : CString → Option Bytes
canonical none = none
canonical (some []) = none
canonical (some (c ∷ cs)) = some (map lower (c ∷ cs))

-- Two addresses are equal exactly if both are valid and they agree in one case.
pub address_equal_iff :
    (a b : CString)
    → (airpods_address_equal a b ≡ true)
      ↔ ((address_is_valid a ≡ true) × (canonical a ≡ canonical b))
unfolding airpods_address_equal canonical
address_equal_iff none b = (λ h. cc, λ h. cc h.0)
address_equal_iff (some []) b = (λ h. cc, λ h. cc h.0)
address_equal_iff (some (x ∷ a)) none = (λ h. cc, λ h. cc h.1)
address_equal_iff (some (x ∷ a)) (some []) = (λ h. cc, λ h. cc h.1)
address_equal_iff (some (x ∷ a)) (some (y ∷ b)) = (
  λ h. (refl, ap some (equal_fold-eq (x ∷ a) (y ∷ b) h)),
  λ h. equal_fold_of_eq (x ∷ a) (y ∷ b) (cc h.1),
)

-- A valid address has a canonical form.
valid_of_canonical :
    (a b : CString)
    → address_is_valid a ≡ true
    → canonical a ≡ canonical b
    → address_is_valid b ≡ true
unfolding canonical
valid_of_canonical none b h e = cc
valid_of_canonical (some []) b h e = cc
valid_of_canonical (some (x ∷ a)) none h e = cc
valid_of_canonical (some (x ∷ a)) (some []) h e = cc
valid_of_canonical (some (x ∷ a)) (some (y ∷ b)) h e = refl

pub address_equal_symm :
    (a b : CString) → airpods_address_equal a b ≡ true → airpods_address_equal b a ≡ true
address_equal_symm a b h =
    let (v, e) = (address_equal_iff a b).0 h in
    (address_equal_iff b a).1 (valid_of_canonical a b v e, sym e)

pub address_equal_trans :
    (a b c : CString)
    → airpods_address_equal a b ≡ true
    → airpods_address_equal b c ≡ true
    → airpods_address_equal a c ≡ true
address_equal_trans a b c h k =
    let (v, e) = (address_equal_iff a b).0 h in
    let (w, f) = (address_equal_iff b c).0 k in (address_equal_iff a c).1 (v, e ∙ f)
