-- ===== src/Route/Restored.antt =====
-- Which sink is restored.
use earport_handoff.Base.{
  ℕ, ◌≡◌, ap, ◌∙◌, inl, inr, subst, Bool, true, false, not, ◌&&◌, ◌||◌, Option, none, some, List,
  [], ◌∷◌, arith, bytes_equal, bytes_equal-eq, if-holds, Bool-cases, has_prefix,
}
use earport_handoff.Base.Text.{Bytes, CString, codes}
use earport_handoff.Route.{
  strsplit, sink_name_is_bluetooth, same_name, or_first_name, is_set, alsa_or_other, restore_from,
  parse_lines, audio_route_find_restore_sink,
}

-- whether a line lists the name
abbrev pub lists : Bytes → List (Option (Bytes × Bytes)) → Bool
lists name [] = false
lists name (none ∷ lines) = lists name lines
lists name (some (index, other) ∷ lines) = bytes_equal other name || lists name lines

abbrev IsOther : CString → Type 0
IsOther sink = (name : Bytes) → sink ≡ some name → sink_name_is_bluetooth name ≡ false

none-IsOther : IsOther none
none-IsOther name h = absurd (cc h)

some-IsOther : (name : Bytes) → sink_name_is_bluetooth name ≡ false → IsOther (some name)
some-IsOther name v name' h =
    let same : name ≡ name' = cc h in subst (λ n. sink_name_is_bluetooth n ≡ false) same v

alsa_or_other-IsOther :
    (alsa other : CString) → IsOther alsa → IsOther other → IsOther (alsa_or_other alsa other)
alsa_or_other-IsOther none other v w = w
alsa_or_other-IsOther (some name) other v w = v

or_first-IsOther :
    (first : CString) (name : Bytes)
    → IsOther first
    → sink_name_is_bluetooth name ≡ false
    → IsOther (or_first_name first name)
or_first-IsOther none name v h = some-IsOther name h
or_first-IsOther (some first) name v h = v

module _ (is_space : ℕ → Bool) where
  restore_from-IsOther :
      (lines : List (Option (Bytes × Bytes))) (preferred alsa other : CString)
      → IsOther alsa
      → IsOther other
      → IsOther (restore_from is_space preferred alsa other lines)
  unfolding restore_from
  restore_from-IsOther [] preferred alsa other v w = alsa_or_other-IsOther alsa other v w
  restore_from-IsOther (none ∷ lines) preferred alsa other v w =
      restore_from-IsOther lines preferred alsa other v w
  restore_from-IsOther (some (index, name) ∷ lines) preferred alsa other v w =
      if-holds IsOther (sink_name_is_bluetooth name) _ _
        (λ e. restore_from-IsOther lines preferred alsa other v w)
        (λ wired.
          if-holds IsOther (same_name name preferred) _ _ (λ e. some-IsOther name wired)
            (λ e.
              if-holds IsOther (has_prefix name (codes "alsa_output.") && not (is_set alsa)) _ _
                (λ e.
                  restore_from-IsOther lines preferred (some name) other (some-IsOther name wired)
                    w)
                (λ e.
                  restore_from-IsOther lines preferred alsa (or_first_name other name) v
                    (or_first-IsOther other name w wired))))

  -- Whatever pactl prints and whichever sink is preferred, a sink that is chosen to restore is no
  -- Bluetooth sink.
  pub restore_sink_only :
      (pactl_output preferred_sink : CString) (name : Bytes)
      → audio_route_find_restore_sink is_space pactl_output preferred_sink ≡ some name
      → sink_name_is_bluetooth name ≡ false
  unfolding audio_route_find_restore_sink
  restore_sink_only none preferred_sink = none-IsOther
  restore_sink_only (some pactl_output) preferred_sink =
      restore_from-IsOther (parse_lines is_space (strsplit b'\n' pactl_output)) preferred_sink none
        none none-IsOther none-IsOther

  restore_from-preferred :
      (lines : List (Option (Bytes × Bytes))) (preferred : Bytes) (alsa other : CString)
      → sink_name_is_bluetooth preferred ≡ false
      → lists preferred lines ≡ true
      → restore_from is_space (some preferred) alsa other lines ≡ some preferred
  unfolding restore_from
  restore_from-preferred [] preferred alsa other wired h = absurd (ground arith)
  restore_from-preferred (none ∷ lines) preferred alsa other wired h =
      restore_from-preferred lines preferred alsa other wired h
  restore_from-preferred (some (index, name) ∷ lines) preferred alsa other wired h =
      let is_preferred = λ (r : CString). r ≡ some preferred in
      elim (Bool-cases (bytes_equal name preferred)) [
        | inl same ↦
            let e : name ≡ preferred = bytes_equal-eq name preferred same in
            let wired' : sink_name_is_bluetooth name ≡ false =
              ap sink_name_is_bluetooth e ∙ wired in
            rw (wired', same) (ap some e)
        | inr away ↦
            let later : lists preferred lines ≡ true = ground arith in
            if-holds is_preferred (sink_name_is_bluetooth name) _ _
              (λ e. restore_from-preferred lines preferred alsa other wired later)
              (λ e.
                if-holds is_preferred (bytes_equal name preferred) _ _
                  (λ same. absurd (ground arith))
                  (λ e.
                    if-holds is_preferred
                      (has_prefix name (codes "alsa_output.") && not (is_set alsa)) _ _
                      (λ e. restore_from-preferred lines preferred (some name) other wired later)
                      (λ e.
                        restore_from-preferred lines preferred alsa (or_first_name other name) wired
                          later)))
      ]

  -- A preferred sink that is no Bluetooth sink is the one to restore, wherever pactl lists it.
  pub restore_preferred :
      (pactl_output preferred : Bytes)
      → sink_name_is_bluetooth preferred ≡ false
      → lists preferred (parse_lines is_space (strsplit b'\n' pactl_output)) ≡ true
      → audio_route_find_restore_sink is_space (some pactl_output) (some preferred) ≡ some preferred
  unfolding audio_route_find_restore_sink
  restore_preferred pactl_output preferred wired h =
      restore_from-preferred (parse_lines is_space (strsplit b'\n' pactl_output)) preferred none
        none wired h
