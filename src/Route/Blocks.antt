-- ===== src/Route/Blocks.antt =====
-- The verbose list of sinks as blocks of lines, and the choice of a sink block by block.
use earport_handoff.Base.{
  ◌≡◌, refl, subst, sym, ap, ◌∙◌, inl, inr, Bool, true, false, not, ◌&&◌, ◌||◌, none, some, List,
  [], ◌∷◌, drop, has_prefix, Bool-cases, if◌then◌else◌, ℕ,
}
use earport_handoff.Base.Text.{Bytes, CString, codes}
use earport_handoff.Route.{
  consider_verbose_sink, VerboseScan, close_sink, scan_line, scan_lines,
  find_sink_in_verbose_output, or_first, strsplit, strstrip, strip_left, strdown,
  line_describes_active_profile, text_has_a2dp_profile, text_has_call_profile,
}

abbrev pub has_blocks : List (List Bytes) → Bool
has_blocks [] = false
has_blocks (block ∷ rest) = true

module _ (is_space : ℕ → Bool) where
  abbrev pub is_header : Bytes → Bool
  is_header line = has_prefix (strstrip is_space line) (codes "Sink #")

  abbrev pub is_name : Bytes → Bool
  is_name line = has_prefix (strstrip is_space line) (codes "Name:")

  -- a property that says which profile is active
  abbrev pub is_profile : Bytes → Bool
  is_profile line =
      not (is_name line) && line_describes_active_profile (strdown (strstrip is_space line))

  abbrev pub says_a2dp : Bytes → Bool
  says_a2dp line = is_profile line && text_has_a2dp_profile (strdown (strstrip is_space line))

  abbrev pub says_call : Bytes → Bool
  says_call line = is_profile line && text_has_call_profile (strdown (strstrip is_space line))

  -- the lines before the first header, and the lines behind each header
  abbrev pub blocks : List Bytes → List Bytes × List (List Bytes)
  blocks [] = ([], [])
  blocks (line ∷ lines) =
      let (leading, rest) = blocks lines in
      if is_header line then ([], leading ∷ rest) else (line ∷ leading, rest)

  -- the last name of a block, and whether any line says A2DP or a call profile, after those before
  abbrev pub last_name : CString → List Bytes → CString
  last_name name [] = name
  last_name name (line ∷ lines) =
      last_name
        (if is_name line
          then some (strip_left is_space (drop 5 (strstrip is_space line)))
          else name)
        lines

  abbrev pub any_says : (Bytes → Bool) → Bool → List Bytes → Bool
  any_says says said [] = said
  any_says says said (line ∷ lines) = any_says says (said || says line) lines

  module _ (device_address : CString) where
    -- the sink of a block, after what is known of it already
    abbrev pub pick_after : CString → Bool → Bool → List Bytes → CString
    pick_after name a2dp call block =
        consider_verbose_sink none (last_name name block) (any_says says_a2dp a2dp block)
          (any_says says_call call block) device_address

    abbrev pub pick : List Bytes → CString
    pick block = pick_after none false false block

    abbrev pub first_pick : List (List Bytes) → CString
    first_pick [] = none
    first_pick (block ∷ rest) = or_first (pick block) (first_pick rest)

    or_first-none : (a : CString) → or_first a none ≡ a
    or_first-none none = refl
    or_first-none (some a) = refl

    or_first_assoc : (a b c : CString) → or_first (or_first a b) c ≡ or_first a (or_first b c)
    or_first_assoc none b c = refl
    or_first_assoc (some a) b c = refl

    consider-or :
        (selected name : CString) (a2dp call : Bool)
        → consider_verbose_sink selected name a2dp call device_address
          ≡ or_first selected (consider_verbose_sink none name a2dp call device_address)
    unfolding consider_verbose_sink
    consider-or none name a2dp call = refl
    consider-or (some selected) name a2dp call = refl

    abbrev in_block : CString → CString → Bool → Bool → VerboseScan
    in_block selected name a2dp call = record {
      selected = selected;
      current_name = name;
      current_a2dp = a2dp;
      current_call = call;
      in_sink = true;
    }

    abbrev result : VerboseScan → CString
    result scan = close_sink scan device_address

    or_false : (b : Bool) → (b || false) ≡ b
    or_false true = refl
    or_false false = refl

    -- the tests of one line, apart from the text of it
    line-cases :
        (named profile says_a2dp says_call : Bool) (selected name new : CString) (a2dp call : Bool)
        → (if named
            then in_block selected new a2dp call
            else if profile
            then in_block selected name (a2dp || says_a2dp) (call || says_call)
            else in_block selected name a2dp call)
          ≡ in_block selected
              (if named then new else name)
              (a2dp || ((not named && profile) && says_a2dp))
              (call || ((not named && profile) && says_call))
    line-cases true profile a c selected name new a2dp call = rw (or_false a2dp, or_false call) refl
    line-cases false true a c selected name new a2dp call = refl
    line-cases false false a c selected name new a2dp call = rw (or_false a2dp, or_false call) refl

    scan-header :
        (selected name : CString) (a2dp call : Bool) (line : Bytes)
        → is_header line ≡ true
        → scan_line is_space device_address (in_block selected name a2dp call) line
          ≡ in_block
              (or_first selected (consider_verbose_sink none name a2dp call device_address))
              none
              false
              false
    unfolding scan_line
    scan-header selected name a2dp call line header =
        rw header (ap (λ s. in_block s none false false) (consider-or selected name a2dp call))

    scan-other :
        (selected name : CString) (a2dp call : Bool) (line : Bytes)
        → is_header line ≡ false
        → scan_line is_space device_address (in_block selected name a2dp call) line
          ≡ in_block selected
              (if is_name line
                then some (strip_left is_space (drop 5 (strstrip is_space line)))
                else name)
              (a2dp || says_a2dp line)
              (call || says_call line)
    unfolding scan_line
    scan-other selected name a2dp call line other =
        let text = strdown (strstrip is_space line) in
        rw other (
          line-cases (is_name line) (line_describes_active_profile text)
            (text_has_a2dp_profile text) (text_has_call_profile text) selected name
            (some (strip_left is_space (drop 5 (strstrip is_space line)))) a2dp call)

    abbrev pub picks_after : CString → Bool → Bool → List Bytes × List (List Bytes) → CString
    picks_after name a2dp call (current, rest) =
        or_first (pick_after name a2dp call current) (first_pick rest)

    abbrev IsPicked : VerboseScan → CString → Type 0
    IsPicked scan picked = (result scan ≡ picked) × (scan.in_sink ≡ true)

    -- the rest of the lines, from within a block
    scan-picks :
        (lines : List Bytes) (selected name : CString) (a2dp call : Bool)
        → IsPicked
            (scan_lines is_space device_address (in_block selected name a2dp call) lines)
            (or_first selected (picks_after name a2dp call (blocks lines)))
    scan-picks [] selected name a2dp call =
        (consider-or selected name a2dp call ∙ ap (or_first selected) (sym (or_first-none _)), refl)
    scan-picks (line ∷ lines) selected name a2dp call =
        let new =
          if is_name line
          then some (strip_left is_space (drop 5 (strstrip is_space line)))
          else name in
        let good = λ (scan : VerboseScan).
          IsPicked (scan_lines is_space device_address scan lines)
            (or_first selected (picks_after name a2dp call (blocks (line ∷ lines)))) in
        elim (Bool-cases (is_header line)) [
          | inl header ↦
              let picked = consider_verbose_sink none name a2dp call device_address in
              let (e, inside) = scan-picks lines (or_first selected picked) none false false in
              subst good (sym (scan-header selected name a2dp call line header))
                (rw header (e ∙ or_first_assoc selected picked _, inside))
          | inr other ↦ subst good (sym (scan-other selected name a2dp call line other)) (
              rw other
                (scan-picks lines selected new (a2dp || says_a2dp line) (call || says_call line)))
        ]

    abbrev outside : VerboseScan
    outside = record {
      selected = none;
      current_name = none;
      current_a2dp = false;
      current_call = false;
      in_sink = false;
    }

    scan_outside :
        (line : Bytes)
        → scan_line is_space device_address outside line
          ≡ (if is_header line then in_block none none false false else outside)
    unfolding scan_line
    scan_outside line = elim (Bool-cases (is_header line)) [
      | inl header ↦ rw header refl
      | inr other ↦ rw other refl
    ]

    abbrev IsScanned : VerboseScan → List (List Bytes) → Type 0
    IsScanned scan found = (result scan ≡ first_pick found) × (scan.in_sink ≡ has_blocks found)

    scan-IsScanned :
        (lines : List Bytes)
        → IsScanned (scan_lines is_space device_address outside lines) (blocks lines).1
    scan-IsScanned [] = (refl, refl)
    scan-IsScanned (line ∷ lines) =
        let good = λ (scan : VerboseScan).
          IsScanned (scan_lines is_space device_address scan lines) (blocks (line ∷ lines)).1 in
        subst good (sym (scan_outside line)) (elim (Bool-cases (is_header line)) [
          | inl header ↦ rw header (scan-picks lines none none false false)
          | inr other ↦ rw other (scan-IsScanned lines)
        ])

    -- The scan of the verbose list in one pass finds the first sink that may be picked, block by block,
    -- and recognizes the list exactly if it has a block.
    pub verbose-picks :
        (pactl_output : Bytes)
        → let found = (blocks (strsplit b'\n' pactl_output)).1 in
          find_sink_in_verbose_output is_space pactl_output device_address
          ≡ (first_pick found, has_blocks found)
    unfolding find_sink_in_verbose_output
    verbose-picks pactl_output =
        let found = (blocks (strsplit b'\n' pactl_output)).1 in
        let (e, e') = scan-IsScanned (strsplit b'\n' pactl_output) in rw (e, e') refl
