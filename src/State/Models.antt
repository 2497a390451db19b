-- ===== src/State/Models.antt =====
-- The tables of models and modes.
use earport_handoff.Base.{
  bytes_equal_refl, bytes_equal-eq, ◌≡◌, ◌≢◌, refl, sym, ◌∙◌, not, ◌&&◌, ◌⊎◌, inl, inr, ◌↔◌, Bool,
  true, false, ◌||◌, some, List, [], ◌∷◌, arith, bytes_equal, Bool-cases,
}
use earport_handoff.Base.Text.{Bytes, equal_fold}
use earport_handoff.State.{
  AirPodsModel, model_unknown, NoiseControlMode, model_map, find_model, airpods_model_from_number,
  noise_control_mode_to_string, noise_control_mode_from_string,
}

fold_congr : (s t u : Bytes) → equal_fold s t ≡ true → equal_fold s u ≡ equal_fold t u
fold_congr [] [] u h = refl
fold_congr [] (y ∷ t) u h = cc
fold_congr (x ∷ s) [] u h = cc
fold_congr (x ∷ s) (y ∷ t) [] h = refl
fold_congr (x ∷ s) (y ∷ t) (z ∷ u) h = ground (arith, fold_congr s t u)

from_string_congr :
    (s t : Bytes)
    → equal_fold s t ≡ true
    → noise_control_mode_from_string (some s) ≡ noise_control_mode_from_string (some t)
unfolding noise_control_mode_from_string
from_string_congr s t h = simp (fold_congr s t _ h)

-- Reading the name of a mode, in any mix of cases, gives the mode.
pub from_string-to_string :
    (m : NoiseControlMode) (s : Bytes)
    → equal_fold s (noise_control_mode_to_string m) ≡ true
    → noise_control_mode_from_string (some s) ≡ m
unfolding noise_control_mode_to_string
from_string-to_string NoiseControlMode.off s h =
    from_string_congr s _ h ∙ (unfold noise_control_mode_from_string in refl)
from_string-to_string m s h =
    from_string_congr s _ h ∙ (unfold noise_control_mode_from_string in refl)

-- The table has a row with this number and this model.
abbrev pub Listed : Bytes → AirPodsModel → List (Bytes × AirPodsModel) → Type 0
Listed n m [] = ⊥
Listed n m ((k, v) ∷ t) = ((n ≡ k) × (m ≡ v)) ⊎ Listed n m t

has_number : Bytes → List (Bytes × AirPodsModel) → Bool
has_number n [] = false
has_number n ((k, v) ∷ t) = bytes_equal n k || has_number n t

distinct : List (Bytes × AirPodsModel) → Bool
distinct [] = true
distinct ((k, v) ∷ t) = not (has_number k t) && distinct t

Listed-has_number :
    (n : Bytes) (m : AirPodsModel) (t : List (Bytes × AirPodsModel))
    → Listed n m t
    → has_number n t ≡ true
unfolding has_number
Listed-has_number n m [] h = absurd h
Listed-has_number n m ((k, v) ∷ t) (inl (e, _)) = ground (arith, bytes_equal_refl n)
Listed-has_number n m ((k, v) ∷ t) (inr h) = ground (arith, Listed-has_number n m t h)

find-Listed :
    (n : Bytes) (m : AirPodsModel) (t : List (Bytes × AirPodsModel))
    → find_model n t ≡ m
    → m ≢ model_unknown
    → Listed n m t
unfolding find_model
find-Listed n m [] h ne = ne (sym h)
find-Listed n m ((k, v) ∷ t) h ne = elim (Bool-cases (bytes_equal n k)) [
  | inl same ↦ inl (bytes_equal-eq n k same, ground arith)
  | inr other ↦ inr (find-Listed n m t (ground arith) ne)
]

Listed-find :
    (n : Bytes) (m : AirPodsModel) (t : List (Bytes × AirPodsModel))
    → distinct t ≡ true
    → Listed n m t
    → find_model n t ≡ m
unfolding find_model distinct
Listed-find n m [] d h = absurd h
Listed-find n m ((k, v) ∷ t) d (inl (e, f)) = ground (arith, bytes_equal_refl n)
Listed-find n m ((k, v) ∷ t) d (inr h) =
    ground (arith, Listed-find n m t, bytes_equal-eq n k, Listed-has_number n m t h)

model_map-distinct : distinct model_map ≡ true
unfolding distinct has_number
model_map-distinct = refl

no_empty_number : (m : AirPodsModel) → ¬ Listed [] m model_map
unfolding has_number
no_empty_number m h = cc (Listed-has_number [] m model_map h)

-- A model number gives a known model exactly if the table pairs the two: every row counts, and no
-- row hides another.
pub model_from_number_iff :
    (n : Bytes) (m : AirPodsModel)
    → m ≢ model_unknown
    → (airpods_model_from_number (some n) ≡ m) ↔ Listed n m model_map
unfolding airpods_model_from_number
model_from_number_iff [] m ne = (λ h. absurd (ne (sym h)), λ h. absurd (no_empty_number m h))
model_from_number_iff (c ∷ cs) m ne = (
  λ h. find-Listed (c ∷ cs) m model_map h ne,
  Listed-find (c ∷ cs) m model_map model_map-distinct,
)
