-- ===== src/Ble/Worn.antt =====
-- The wear bits of an accepted advertisement.
use Prim.Native.Nat.{bit_and}
use earport_handoff.Base.{
  ℕ, zero, suc, ◌/◌, ◌%◌, ◌<◌, ◌≡◌, refl, ◌↔◌, inl, inr, Bool, true, not, ◌&&◌, ◌||◌, some, arith,
  ◌==◌, if◌then◌else◌, Bool-cases,
}
use earport_handoff.State.{model_value, model_max_2}
use earport_handoff.Ble.{
  BleAirPodsAdvertisement, apple_proximity_prefix, ble_airpods_model_supports_wear_autoconnect,
  model_status_is_worn, accept_proximity, wear_mask,
}

-- Two tests give the same answer on every status below a bound.
agree_below : (ℕ → Bool) → (ℕ → Bool) → ℕ → Bool
agree_below test other zero = true
agree_below test other (suc bound) =
    let lower = agree_below test other bound in
    lower && (if test bound then other bound else not (other bound))

agree_below-eq :
    (test other : ℕ → Bool) (bound status : ℕ)
    → status < bound
    → agree_below test other bound ≡ true
    → test status ≡ other status
unfolding agree_below
agree_below-eq test other zero status below agree = absurd (omega arith)
agree_below-eq test other (suc bound) status below agree =
    ground (arith, agree_below-eq test other bound status)

-- bit 1 and bit 3 of the status
abbrev pub first_side : ℕ → Bool
first_side status = status / 2 % 2 == 1

abbrev pub second_side : ℕ → Bool
second_side status = status / 8 % 2 == 1

both_sides_table :
    agree_below (λ s. bit_and s wear_mask == wear_mask) (λ s. first_side s && second_side s) 256
    ≡ true
unfolding agree_below
both_sides_table = refl

a_side_table :
    agree_below (λ s. not (bit_and s wear_mask == 0)) (λ s. first_side s || second_side s) 256
    ≡ true
unfolding agree_below
a_side_table = refl

-- both sides for AirPods Max 2, either side for the others
abbrev pub worn_sides : ℕ → ℕ → Bool
worn_sides model status =
    if model == model_value model_max_2
    then first_side status && second_side status
    else first_side status || second_side status

is_worn-sides :
    (model status : ℕ) → status < 256 → model_status_is_worn model status ≡ worn_sides model status
unfolding model_status_is_worn
is_worn-sides model status h = elim (Bool-cases (model == model_value model_max_2)) [
  | inl max ↦ rw max (agree_below-eq _ _ 256 status h both_sides_table)
  | inr other ↦ rw other (agree_below-eq _ _ 256 status h a_side_table)
]

-- A proximity payload with a byte for its status is accepted exactly if its prefix is 1 and its
-- model one of the three supported ones; the advertisement then has that model and status, and is
-- worn exactly if both wear bits are set for AirPods Max 2, or either one for the others.
pub accept_proximity_iff :
    (prefix model status : ℕ) (a : BleAirPodsAdvertisement)
    → status < 256
    → (accept_proximity prefix model status ≡ some a) ↔ (
        (prefix ≡ apple_proximity_prefix)
        × (ble_airpods_model_supports_wear_autoconnect model ≡ true)
        × (a.model ≡ model)
        × (a.status ≡ status)
        × (a.worn ≡ worn_sides model status))
unfolding accept_proximity
accept_proximity_iff prefix model status a h =
    rw (is_worn-sides model status h) (λ e. ground arith, λ c. ground arith)
