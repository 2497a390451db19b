-- ===== src/Tests/Ble.antt =====
-- The advertisements and the edge detector at concrete inputs.
use earport_handoff.Base.{
  map, ℕ, ◌≤◌, ◌≡◌, refl, ◌⊎◌, Bool, true, false, not, ◌&&◌, some, List, [], ◌∷◌, ◌++◌, Returns,
  arith,
}
use earport_handoff.Base.Int.{ℤ, pos, ◌-ℤ◌, ◌≤ℤ◌}
use earport_handoff.Base.Text.{Bytes}
use earport_handoff.Base.Trace.{Since}
use earport_handoff.Ble.{
  BleAirPodsAdvertisement, BleHandoffSuppressionState, apple_proximity_type,
  ble_airpods_parse_manufacturer_data, accept_proximity, big_endian,
  ble_airpods_model_supports_wear_autoconnect, ble_autoconnect_observe, parse_messages,
  dispatch_message, parse_proximity, model_status_is_worn,
}
use earport_handoff.Ble.Parsing.{parse-Returns}
use earport_handoff.Ble.First.{encode, encode_all, parse_first_proximity}
use earport_handoff.Base.Trace.{run}
use earport_handoff.Ble.Firing.{Observation, fresh, fires, edges, fires-le-edges}
use earport_handoff.Ble.Confirming.{same_time, fire_confirmed}
use earport_handoff.Ble.Suppressing.{WearSample, suppress, unworn_at, suppression_ends}

abbrev padding : Bytes
padding = 0 ∷ 0 ∷ 0 ∷ 0 ∷ 0 ∷ 0 ∷ 0 ∷ 0 ∷ 0 ∷ 0 ∷ 0 ∷ 0 ∷ 0 ∷ 0 ∷ 0 ∷ 0 ∷ 0 ∷ 0 ∷ 0 ∷ 0 ∷ 0 ∷ []

-- a message of another type, before the proximity message of worn AirPods 4
abbrev nearby : List (ℕ × Bytes)
nearby = (0x10, 1 ∷ 2 ∷ []) ∷ []

abbrev advertisement : Bytes
advertisement =
    encode_all nearby ++ encode (apple_proximity_type, 0x01 ∷ 0x19 ∷ 0x20 ∷ 0x02 ∷ padding)

abbrev worn_pods : BleAirPodsAdvertisement
worn_pods = record { model = 0x1920; status = 0x02; worn = true }

parse-advertisement :
    ble_airpods_parse_manufacturer_data (some advertisement) ≡ some (some worn_pods)
unfolding ble_airpods_parse_manufacturer_data parse_messages dispatch_message parse_proximity
    accept_proximity ble_airpods_model_supports_wear_autoconnect model_status_is_worn
parse-advertisement = refl

-- cut short within the proximity message
parse-Returns_example :
    Returns (ble_airpods_parse_manufacturer_data (some (0x10 ∷ 0 ∷ 0x07 ∷ 25 ∷ 1 ∷ [])))
parse-Returns_example = parse-Returns (some (0x10 ∷ 0 ∷ 0x07 ∷ 25 ∷ 1 ∷ []))

parse_first_proximity_example :
    ble_airpods_parse_manufacturer_data (
      some (
        encode_all nearby
        ++ (encode (apple_proximity_type, 0x01 ∷ 0x19 ∷ 0x20 ∷ 0x02 ∷ padding) ++ (9 ∷ []))))
    ≡ some (accept_proximity 0x01 (big_endian 0x19 0x20) 0x02)
parse_first_proximity_example =
    parse_first_proximity nearby 0x01 0x19 0x20 0x02 padding (9 ∷ []) (refl, tt) refl

abbrev seen : Bool → ℕ → Observation
seen worn t = record { worn = worn; confirm_first_worn = false; now_usec = pos t }

-- taken out, and put in and reported three times
abbrev put_on : List Observation
put_on = seen false 1 ∷ seen true 5 ∷ seen true 6 ∷ seen true 7 ∷ []

fires-put_on : fires (pos 10) (pos 100) fresh put_on ≡ 1
unfolding ble_autoconnect_observe ◌-ℤ◌
fires-put_on = refl

fires-le-edges_example : fires (pos 10) (pos 100) fresh put_on ≤ edges true put_on
fires-le-edges_example = fires-le-edges (pos 10) (pos 100) put_on

fire_confirmed_example :
    (true ≡ true)
    × Since (λ p. not p.worn) (λ p. true) (seen false 1 ∷ seen true 5 ∷ [])
    × ((false ≡ true)
        ⊎ ((t : ℤ) × Since
              (λ p. p.worn && same_time p.now_usec t)
              (λ p. p.worn)
              (seen false 1 ∷ seen true 5 ∷ [])
            × (t ≤ℤ pos 6)
            × (pos 6 -ℤ t ≤ℤ pos 10)))
unfolding ble_autoconnect_observe ◌-ℤ◌
fire_confirmed_example =
    fire_confirmed (pos 10) (pos 100) (seen false 1 ∷ seen true 5 ∷ []) (seen true 6) refl

abbrev inactive : BleHandoffSuppressionState
inactive = record { active = false; first_unworn_observation_usec = pos 0 }

abbrev sample : Bool → ℕ → WearSample
sample worn t = record { worn = worn; now_usec = pos t }

abbrev active : BleHandoffSuppressionState
active = record { active = true; first_unworn_observation_usec = pos 0 }

-- two samples between, that are each closer to the one before than the rearming time
abbrev frequent : List ℤ
frequent = pos 9 ∷ pos 14 ∷ []

suppression_ends_example :
    let middle =
      run
        (suppress (pos 10))
        (suppress (pos 10) active (unworn_at (pos 5)))
        (map unworn_at frequent) in
    (suppress (pos 10) middle (unworn_at (pos 20))).active ≡ false
unfolding ◌-ℤ◌
suppression_ends_example =
    suppression_ends (pos 10) active (pos 5) (pos 20) frequent refl refl refl refl
      (omega arith, (omega arith, tt)) (omega arith) (omega arith)
