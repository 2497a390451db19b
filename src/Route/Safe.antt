-- ===== src/Route/Safe.antt =====
-- Which sinks are chosen.
use earport_handoff.Base.{
  ℕ, ◌<◌, ◌≡◌, refl, sym, ap, ◌∙◌, ◌⊎◌, inl, inr, subst, Bool, true, false, not, ◌||◌, none, some,
  List, [], ◌∷◌, ◌==◌, arith, All, if◌then◌else◌, if-holds, Bool-cases, Option-cases,
}
use earport_handoff.Base.Text.{Bytes, CString}
use earport_handoff.Route.{
  valid_device_address, sink_name_matches_device, sink_name_priority, consider_verbose_sink,
  between_tabs, take_short, is_short_candidate, first_short, audio_route_find_bluez_sink, strsplit,
}
use earport_handoff.Route.Blocks.{
  blocks, last_name, any_says, says_a2dp, says_call, pick, first_pick, has_blocks, verbose-picks,
}

-- some element of the list has it
abbrev pub AnyOf : {A : Type 0} → (A → Type 0) → List A → Type 0
AnyOf P [] = ⊥
AnyOf P (x ∷ xs) = P x ⊎ AnyOf P xs

-- a sink of the device whose name says neither headset nor hands-free
abbrev pub IsMediaSink : CString → Bytes → Type 0
IsMediaSink device_address name =
    (sink_name_matches_device name device_address ≡ true) × (0 < sink_name_priority name)

-- The block names the sink, none of its lines says that a call profile is active, and its name or
-- some line says A2DP.
abbrev pub IsMediaBlock : (ℕ → Bool) → Bytes → List Bytes → Type 0
IsMediaBlock is_space name block =
    (last_name is_space none block ≡ some name)
    × All (λ line. says_call is_space line ≡ false) block
    × ((any_says is_space (says_a2dp is_space) false block || (sink_name_priority name == 2))
        ≡ true)

module _ (is_space : ℕ → Bool) (device_address : CString) where
  or_both : (a b : Bool) → (a || b) ≡ false → (a ≡ false) × (b ≡ false)
  or_both false b h = (refl, h)
  or_both true b h = absurd (ground arith)

  none-silent :
      (block : List Bytes) (said : Bool)
      → any_says is_space (says_call is_space) said block ≡ false
      → (said ≡ false) × All (λ line. says_call is_space line ≡ false) block
  none-silent [] said h = (h, tt)
  none-silent (line ∷ block) said h =
      let (before, rest) = none-silent block (said || says_call is_space line) h in
      let (unsaid, silent) = or_both said (says_call is_space line) before in
      (unsaid, (silent, rest))

  -- what is tested of the name and the two flags of a block
  abbrev IsTaken : Bool → Bool → Bytes → Type 0
  IsTaken a2dp call name =
      IsMediaSink device_address name
      × (call ≡ false)
      × ((a2dp || (sink_name_priority name == 2)) ≡ true)

  consider-IsTaken :
      (named : Bytes) (a2dp call : Bool) (name : Bytes)
      → consider_verbose_sink none (some named) a2dp call device_address ≡ some name
      → (named ≡ name) × IsTaken a2dp call named
  unfolding consider_verbose_sink
  consider-IsTaken named a2dp call name =
      let good = λ (r : CString). r ≡ some name → (named ≡ name) × IsTaken a2dp call named in
      if-holds good (not (sink_name_matches_device named device_address)) _ _
        (λ away h. absurd (cc h))
        (λ matches.
          if-holds good (call || (sink_name_priority named == 0)) _ _ (λ no h. absurd (cc h))
            (λ media.
              let (silent, above) = or_both call (sink_name_priority named == 0) media in
              if-holds good (a2dp || (sink_name_priority named == 2)) _ _
                (λ a h. (cc h, ((ground arith, ground arith), silent, a))) (λ no h. absurd (cc h))))

  consider-needs :
      (named : CString) (a2dp call : Bool) (name : Bytes)
      → consider_verbose_sink none named a2dp call device_address ≡ some name
      → (named ≡ some name) × IsTaken a2dp call name
  unfolding consider_verbose_sink
  consider-needs none a2dp call name h = absurd (cc h)
  consider-needs (some named) a2dp call name h =
      let (same, taken) = consider-IsTaken named a2dp call name h in
      (ap (λ n. some n) same, subst (IsTaken a2dp call) same taken)

  pick-IsMediaBlock :
      (block : List Bytes) (name : Bytes)
      → pick is_space device_address block ≡ some name
      → IsMediaBlock is_space name block × IsMediaSink device_address name
  pick-IsMediaBlock block name h =
      let (named, (media, silent, a2dp)) =
        consider-needs (last_name is_space none block)
          (any_says is_space (says_a2dp is_space) false block)
          (any_says is_space (says_call is_space) false block) name h in
      ((named, (none-silent block false silent).1, a2dp), media)

  first_pick-found :
      (found : List (List Bytes)) (name : Bytes)
      → first_pick is_space device_address found ≡ some name
      → AnyOf (IsMediaBlock is_space name) found × IsMediaSink device_address name
  first_pick-found [] name h = absurd (cc h)
  first_pick-found (block ∷ rest) name h =
      elim (Option-cases (pick is_space device_address block)) [
        | inl nothing ↦
            let (later, media) = first_pick-found rest name (rw nothing at h) in (inr later, media)
        | inr (taken, e) ↦
            let (here, media) = pick-IsMediaBlock block name (e ∙ (rw e at h)) in (inl here, media)
      ]

  -- from a short list: the name says A2DP
  IsShort : CString → Type 0
  IsShort selected =
      (name : Bytes)
      → selected ≡ some name
      → (sink_name_matches_device name device_address ≡ true)
        × ((sink_name_priority name == 2) ≡ true)

  take_short-IsShort :
      (candidate later : CString)
      → IsShort later
      → IsShort (take_short device_address candidate later)
  unfolding IsShort
  take_short-IsShort none later v = v
  take_short-IsShort (some candidate) later v =
      if-holds (λ r. IsShort r) (is_short_candidate device_address candidate) _ _
        (λ e name h.
          let same : candidate ≡ name = cc h in
          subst
            (λ n.
              (sink_name_matches_device n device_address ≡ true)
              × ((sink_name_priority n == 2) ≡ true))
            same (ground arith, ground arith))
        (λ e. v)

  first_short-IsShort : (lines : List Bytes) → IsShort (first_short device_address lines)
  unfolding IsShort
  first_short-IsShort [] = λ name h. absurd (cc h)
  first_short-IsShort (line ∷ lines) =
      take_short-IsShort (between_tabs (strsplit b'\t' line)) (first_short device_address lines)
        (first_short-IsShort lines)

  -- Whatever pactl prints: a sink that is found for an address is found for a well-formed address
  -- only, its name contains "bluez" and the address, and nothing in it says headset or hands-free.
  -- If the output has blocks, some block names the sink, no line of the block says that a call
  -- profile is active, and its name or some line says A2DP; if it has none, the name says A2DP.
  pub find_bluez_sink_only :
      (pactl_output name : Bytes)
      → audio_route_find_bluez_sink is_space (some pactl_output) device_address ≡ some name
      → let found = (blocks is_space (strsplit b'\n' pactl_output)).1 in
        (valid_device_address device_address ≡ true)
        × (sink_name_matches_device name device_address ≡ true)
        × (0 < sink_name_priority name)
        × (AnyOf (IsMediaBlock is_space name) found
            ⊎ ((has_blocks found ≡ false) × (sink_name_priority name ≡ 2)))
  unfolding audio_route_find_bluez_sink IsShort
  find_bluez_sink_only pactl_output name h =
      let lines = strsplit b'\n' pactl_output in
      let found = (blocks is_space lines).1 in
      let chosen =
        if has_blocks found
        then first_pick is_space device_address found
        else first_short device_address lines in
      elim (Bool-cases (valid_device_address device_address)) [
        | inl valid ↦
            let e : chosen ≡ some name =
              ap
                (λ (verbose : CString × Bool).
                  if verbose.1 then verbose.0 else first_short device_address lines)
                (sym (verbose-picks is_space device_address pactl_output))
              ∙ (rw valid at h) in
            elim (Bool-cases (has_blocks found)) [
              | inl some_block ↦
                  let (block, media) = first_pick-found found name (rw some_block at e) in
                  (valid, media.0, media.1, inl block)
              | inr no_block ↦
                  let (matches, two) = first_short-IsShort lines name (rw no_block at e) in
                  (valid, matches, ground arith, inr (no_block, ground arith))
            ]
        | inr invalid ↦ absurd (cc (rw invalid at h))
      ]
