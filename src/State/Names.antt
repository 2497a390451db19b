-- ===== src/State/Names.antt =====
-- The names of models and modes, what a model supports, and the display name.
use earport_handoff.Base.{
  Bool, true, false, ◌&&◌, ◌||◌, none, some, List, [], ◌∷◌, bytes_equal, if◌then◌else◌,
}
use earport_handoff.Base.Text.{Bytes, CString, codes, is_nonempty, equal_fold}
use earport_handoff.State.Types.{
  AirPodsModel, model_unknown, model_1, model_2, model_3, model_4, model_4_anc, model_pro,
  model_pro_2, model_pro_2_usbc, model_pro_3, model_max, model_max_usbc, model_max_2,
  NoiseControlMode, off, anc, transparency, adaptive, AirPodsState,
}

unfoldable pub airpods_model_to_string : AirPodsModel → Bytes
airpods_model_to_string model_1 = codes "AirPods 1st Gen"
airpods_model_to_string model_2 = codes "AirPods 2nd Gen"
airpods_model_to_string model_3 = codes "AirPods 3rd Gen"
airpods_model_to_string model_4 = codes "AirPods 4th Gen"
airpods_model_to_string model_4_anc = codes "AirPods 4th Gen (ANC)"
airpods_model_to_string model_pro = codes "AirPods Pro"
airpods_model_to_string model_pro_2 = codes "AirPods Pro 2"
airpods_model_to_string model_pro_2_usbc = codes "AirPods Pro 2 (USB-C)"
airpods_model_to_string model_pro_3 = codes "AirPods Pro 3"
airpods_model_to_string model_max = codes "AirPods Max"
airpods_model_to_string model_max_usbc = codes "AirPods Max (USB-C)"
airpods_model_to_string model_max_2 = codes "AirPods Max 2"
airpods_model_to_string model_unknown = codes "Unknown AirPods"

abbrev pub is_model_unknown : AirPodsModel → Bool
is_model_unknown model_unknown = true
is_model_unknown _ = false

-- the string that a pointer known not to be NULL points to
abbrev pub text_of : CString → Bytes
text_of none = []
text_of (some s) = s

unfoldable pub airpods_state_get_display_name : AirPodsState → Bytes
unfolding airpods_model_to_string
airpods_state_get_display_name state =
    if is_nonempty state.display_name
    then text_of state.display_name
    else if is_model_unknown state.model && is_nonempty state.device_name
    then text_of state.device_name
    else airpods_model_to_string state.model

unfoldable pub noise_control_mode_to_string : NoiseControlMode → Bytes
noise_control_mode_to_string off = codes "off"
noise_control_mode_to_string anc = codes "anc"
noise_control_mode_to_string transparency = codes "transparency"
noise_control_mode_to_string adaptive = codes "adaptive"

unfoldable pub noise_control_mode_from_string : CString → NoiseControlMode
noise_control_mode_from_string none = off
noise_control_mode_from_string (some str) =
    if equal_fold str (codes "anc")
      || equal_fold str (codes "noise_cancellation")
      || equal_fold str (codes "cancellation")
    then anc
    else if equal_fold str (codes "transparency") || equal_fold str (codes "transparent")
    then transparency
    else if equal_fold str (codes "adaptive")
    then adaptive
    else off

unfoldable pub airpods_model_supports_anc : AirPodsModel → Bool
airpods_model_supports_anc model_pro = true
airpods_model_supports_anc model_pro_2 = true
airpods_model_supports_anc model_pro_2_usbc = true
airpods_model_supports_anc model_pro_3 = true
airpods_model_supports_anc model_max = true
airpods_model_supports_anc model_max_usbc = true
airpods_model_supports_anc model_max_2 = true
airpods_model_supports_anc model_4_anc = true
airpods_model_supports_anc _ = false

unfoldable pub airpods_model_supports_adaptive : AirPodsModel → Bool
airpods_model_supports_adaptive model_pro_2 = true
airpods_model_supports_adaptive model_pro_2_usbc = true
airpods_model_supports_adaptive model_pro_3 = true
airpods_model_supports_adaptive model_max_2 = true
airpods_model_supports_adaptive model_4_anc = true
airpods_model_supports_adaptive _ = false

unfoldable pub airpods_model_is_headphones : AirPodsModel → Bool
airpods_model_is_headphones model_max = true
airpods_model_is_headphones model_max_usbc = true
airpods_model_is_headphones model_max_2 = true
airpods_model_is_headphones _ = false

unfoldable pub airpods_model_uses_single_aap_wear_sensor : AirPodsModel → Bool
airpods_model_uses_single_aap_wear_sensor model_max = true
airpods_model_uses_single_aap_wear_sensor model_max_usbc = true
airpods_model_uses_single_aap_wear_sensor _ = false

-- `model_map`, without the NULL entry that ends it
abbrev pub model_map : List (Bytes × AirPodsModel)
model_map =
    (codes "A1523", model_1)
    ∷ (codes "A1722", model_1)
    ∷ (codes "A2032", model_2)
    ∷ (codes "A2031", model_2)
    ∷ (codes "A2565", model_3)
    ∷ (codes "A2564", model_3)
    ∷ (codes "A3053", model_4)
    ∷ (codes "A3050", model_4)
    ∷ (codes "A3054", model_4)
    ∷ (codes "A3056", model_4_anc)
    ∷ (codes "A3055", model_4_anc)
    ∷ (codes "A3057", model_4_anc)
    ∷ (codes "A2084", model_pro)
    ∷ (codes "A2083", model_pro)
    ∷ (codes "A2931", model_pro_2)
    ∷ (codes "A2699", model_pro_2)
    ∷ (codes "A2698", model_pro_2)
    ∷ (codes "A3047", model_pro_2_usbc)
    ∷ (codes "A3048", model_pro_2_usbc)
    ∷ (codes "A3049", model_pro_2_usbc)
    ∷ (codes "A3064", model_pro_3)
    ∷ (codes "A3065", model_pro_3)
    ∷ (codes "A3063", model_pro_3)
    ∷ (codes "A2096", model_max)
    ∷ (codes "A3184", model_max_usbc)
    ∷ (codes "A3454", model_max_2)
    ∷ []

-- the loop over `model_map`
unfoldable pub find_model : Bytes → List (Bytes × AirPodsModel) → AirPodsModel
find_model number [] = model_unknown
find_model number ((n, m) ∷ rest) = if bytes_equal number n then m else find_model number rest

unfoldable pub airpods_model_from_number : CString → AirPodsModel
unfolding find_model
airpods_model_from_number none = model_unknown
airpods_model_from_number (some []) = model_unknown
airpods_model_from_number (some (c ∷ cs)) = find_model (c ∷ cs) model_map
