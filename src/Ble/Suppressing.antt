-- ===== src/Ble/Suppressing.antt =====
-- When the suppression after a handoff ends.
use earport_handoff.Base.{
  ◌≡◌, ◌∙◌, sym, ap, subst, map, if-holds, if◌then◌else◌, ◌⊎◌, inl, inr, All, refl, Bool, true,
  false, not, ◌&&◌, ◌||◌, List, [], ◌∷◌, arith, Bool-cases,
}
use earport_handoff.Base.Int.{ℤ, pos, ltb_ℤ, ◌-ℤ◌, ◌≤ℤ◌}
use earport_handoff.Base.Trace.{run}
use earport_handoff.Ble.{BleHandoffSuppressionState, ble_handoff_suppression_observe, is_zero}
use earport_handoff.Ble.Confirming.{same_time}

pub record WearSample : Type 0 where
  pub worn : Bool
  pub now_usec : ℤ

abbrev pub unworn_at : ℤ → WearSample
unworn_at t = record { worn = false; now_usec = t }

module _ (rearm : ℤ) where
  abbrev pub suppress : BleHandoffSuppressionState → WearSample → BleHandoffSuppressionState
  suppress s o = (ble_handoff_suppression_observe s o.worn o.now_usec rearm).0

  unworn_since : ℤ → BleHandoffSuppressionState → Bool
  unworn_since t s =
      not (is_zero s.first_unworn_observation_usec) && same_time s.first_unworn_observation_usec t

  -- active, with an unworn interval since `t`
  abbrev begun : ℤ → BleHandoffSuppressionState
  begun t = record { active = true; first_unworn_observation_usec = t }

  abbrev IsEnding : ℤ → BleHandoffSuppressionState → Type 0
  IsEnding t s = (s.active ≡ false) ⊎ (s ≡ begun t)

  inactive-suppress :
      (s : BleHandoffSuppressionState) (o : WearSample)
      → s.active ≡ false
      → (suppress s o).active ≡ false
  unfolding ble_handoff_suppression_observe
  inactive-suppress s o h = ground arith

  begins :
      (s : BleHandoffSuppressionState) (t : ℤ)
      → s.active ≡ true
      → is_zero s.first_unworn_observation_usec ≡ true
      → ltb_ℤ rearm (pos 0) ≡ false
      → IsEnding t (suppress s (unworn_at t))
  unfolding ble_handoff_suppression_observe
  begins s t active unbegun valid =
      let starts : suppress s (unworn_at t) ≡ record s { first_unworn_observation_usec = t } =
        let good = λ (r : BleHandoffSuppressionState × Bool).
          r.0 ≡ record s { first_unworn_observation_usec = t } in
        if-holds good (not s.active || ltb_ℤ rearm (pos 0)) _ _ (λ e. absurd (ground arith))
          (λ e.
            if-holds good
              (is_zero s.first_unworn_observation_usec || ltb_ℤ t s.first_unworn_observation_usec) _
              _ (λ e'. refl) (λ e'. absurd (ground arith))) in
      inr (starts ∙ ap (λ a. record { active = a; first_unworn_observation_usec = t }) active)

  -- a later unworn sample lets the interval run on, or ends the suppression
  goes_on :
      (t u : ℤ)
      → ltb_ℤ rearm (pos 0) ≡ false
      → is_zero t ≡ false
      → t ≤ℤ u
      → (suppress (begun t) (unworn_at u)) ≡ (
          if ltb_ℤ (u -ℤ t) rearm
          then begun t
          else record { active = false; first_unworn_observation_usec = pos 0 })
  unfolding ble_handoff_suppression_observe
  goes_on t u valid nonzero later =
      let good = λ (r : BleHandoffSuppressionState × Bool). r.0 ≡ (
        if ltb_ℤ (u -ℤ t) rearm
        then begun t
        else record { active = false; first_unworn_observation_usec = pos 0 }) in
      if-holds good (not true || ltb_ℤ rearm (pos 0)) _ _ (λ e. absurd (ground arith))
        (λ e.
          if-holds good (is_zero t || ltb_ℤ u t) _ _ (λ e'. absurd (ground arith))
            (λ e'. elim (Bool-cases (ltb_ℤ (u -ℤ t) rearm)) [
              | inl short ↦ rw short refl
              | inr long ↦ rw long refl
            ]))

  step-IsEnding :
      (t u : ℤ) (s : BleHandoffSuppressionState)
      → ltb_ℤ rearm (pos 0) ≡ false
      → is_zero t ≡ false
      → t ≤ℤ u
      → IsEnding t s
      → IsEnding t (suppress s (unworn_at u))
  step-IsEnding t u s valid nonzero later (inl over) = inl (inactive-suppress s (unworn_at u) over)
  step-IsEnding t u s valid nonzero later (inr e) =
      let next = ap (λ s. suppress s (unworn_at u)) e ∙ goes_on t u valid nonzero later in
      subst (IsEnding t) (sym next)
        (if-holds (IsEnding t) (ltb_ℤ (u -ℤ t) rearm) _ _ (λ short. inr refl) (λ long. inl refl))

  run-IsEnding :
      (t : ℤ) (times : List ℤ) (s : BleHandoffSuppressionState)
      → ltb_ℤ rearm (pos 0) ≡ false
      → is_zero t ≡ false
      → All (λ u. t ≤ℤ u) times
      → IsEnding t s
      → IsEnding t (run suppress s (map unworn_at times))
  run-IsEnding t [] s valid nonzero later v = v
  run-IsEnding t (u ∷ times) s valid nonzero (now, later) v =
      run-IsEnding t times (suppress s (unworn_at u)) valid nonzero later
        (step-IsEnding t u s valid nonzero now v)

  ends :
      (t u : ℤ) (s : BleHandoffSuppressionState)
      → ltb_ℤ rearm (pos 0) ≡ false
      → is_zero t ≡ false
      → t ≤ℤ u
      → rearm ≤ℤ u -ℤ t
      → IsEnding t s
      → (suppress s (unworn_at u)).active ≡ false
  ends t u s valid nonzero later long (inl over) = inactive-suppress s (unworn_at u) over
  ends t u s valid nonzero later long (inr e) =
      let over : ltb_ℤ (u -ℤ t) rearm ≡ false = ground arith in
      ap (λ s. (suppress s (unworn_at u)).active) e
      ∙ ap (λ (s : BleHandoffSuppressionState). s.active) (goes_on t u valid nonzero later)
      ∙ rw over refl

  -- An active suppression with no unworn interval begun has ended after a first unworn sample, any
  -- unworn samples after it, however many and how close together, and one that is unworn at least
  -- the rearming time after the first. No sample has a time before the first's, which is not zero,
  -- and the rearming time is not negative.
  pub suppression_ends :
      (s : BleHandoffSuppressionState) (first last : ℤ) (between : List ℤ)
      → s.active ≡ true
      → is_zero s.first_unworn_observation_usec ≡ true
      → ltb_ℤ rearm (pos 0) ≡ false
      → is_zero first ≡ false
      → All (λ u. first ≤ℤ u) between
      → first ≤ℤ last
      → rearm ≤ℤ last -ℤ first
      → let middle = run suppress (suppress s (unworn_at first)) (map unworn_at between) in
        (suppress middle (unworn_at last)).active ≡ false
  suppression_ends s first last between active unbegun valid nonzero later ordered long =
      ends first last (run suppress (suppress s (unworn_at first)) (map unworn_at between)) valid
        nonzero ordered long
        (run-IsEnding first between (suppress s (unworn_at first)) valid nonzero later
          (begins s first active unbegun valid))
