-- ===== src/Route/Listed.antt =====
-- Which inputs are moved to a sink, and which sink is taken for the configured one.
use earport_handoff.Base.{
  ℕ, ◌≡◌, refl, ◌∙◌, ap, subst, inl, inr, Bool, true, false, ◌&&◌, none, some, List, [], ◌∷◌, ◌++◌,
  ◌==◌, All, arith, bytes_equal, Bool-cases, if-holds, if◌then◌else◌,
}
use earport_handoff.Base.Text.{Bytes, CString, codes, is_nonempty}
use earport_handoff.Route.{
  pieces_of, strsplit, strip_left, strstrip, only_digits, in_name, until_quote, nonempty_name,
  or_first, quoted_name, and_behind, behind, name_behind, configured_name, first_configured,
  add_byte, audio_route_parse_configured_sink, input_of, ids_of,
  audio_route_parse_sink_input_ids_for_sink,
}

-- one line of `pactl list short sink-inputs`
pub record SinkInput : Type 0 where
  pub id : Bytes
  pub sink : Bytes
  pub details : Bytes

abbrev pub print_input : SinkInput → Bytes
print_input input = input.id ++ (b'\t' ∷ (input.sink ++ (b'\t' ∷ input.details)))

abbrev pub print_inputs : List SinkInput → Bytes
print_inputs [] = []
print_inputs (input ∷ inputs) = print_input input ++ (b'\n' ∷ print_inputs inputs)

abbrev pub Lacks : ℕ → Bytes → Type 0
Lacks separator text = All (λ c. (c == separator) ≡ false) text

-- the ids of the inputs of a sink
abbrev pub inputs_on : Bytes → List SinkInput → List Bytes
inputs_on sink_index [] = []
inputs_on sink_index (input ∷ inputs) =
    let rest = inputs_on sink_index inputs in
    if bytes_equal input.sink sink_index then input.id ∷ rest else rest

pieces-cons :
    (separator : ℕ) (text rest : Bytes)
    → Lacks separator text
    → (separator == separator) ≡ true
    → pieces_of separator (text ++ (separator ∷ rest)) ≡ text ∷ pieces_of separator rest
pieces-cons separator [] rest lacks same = rw same refl
pieces-cons separator (c ∷ cs) rest (other, lacks) same =
    rw (other, pieces-cons separator cs rest lacks same) refl

strsplit-pieces :
    (separator d : ℕ) (text rest : Bytes)
    → strsplit separator (text ++ (d ∷ rest)) ≡ pieces_of separator (text ++ (d ∷ rest))
strsplit-pieces separator d [] rest = refl
strsplit-pieces separator d (c ∷ cs) rest = refl

module _ (is_space : ℕ → Bool) where
  -- The fields stand between tabs in one line, the id is a number, and neither has space around it.
  pub record IsPrintable (input : SinkInput) : Type 0 where
    pub id_plain : Lacks b'\t' input.id
    pub sink_plain : Lacks b'\t' input.sink
    pub one_line : Lacks b'\n' (print_input input)
    pub number : (is_nonempty (some input.id) && only_digits input.id) ≡ true
    pub id_trimmed : strstrip is_space input.id ≡ input.id
    pub sink_trimmed : strstrip is_space input.sink ≡ input.sink

  input_of-fields :
      (sink_index : Bytes) (input : SinkInput) (rest : List Bytes)
      → IsPrintable input
      → input_of is_space sink_index (input.id ∷ input.sink ∷ rest)
        ≡ (if bytes_equal input.sink sink_index then some input.id else none)
  unfolding input_of
  input_of-fields sink_index input rest v = rw (v.id_trimmed, v.sink_trimmed) (ground arith)

  input_of-print :
      (sink_index : Bytes) (input : SinkInput)
      → IsPrintable input
      → input_of is_space sink_index (strsplit b'\t' (print_input input))
        ≡ (if bytes_equal input.sink sink_index then some input.id else none)
  input_of-print sink_index input v =
      let fields : strsplit b'\t' (print_input input)
          ≡ input.id ∷ input.sink ∷ pieces_of b'\t' input.details =
        strsplit-pieces b'\t' b'\t' input.id _
        ∙ pieces-cons b'\t' input.id _ v.id_plain refl
        ∙ ap (λ fs. input.id ∷ fs) (pieces-cons b'\t' input.sink _ v.sink_plain refl) in
      ap (input_of is_space sink_index) fields ∙ input_of-fields sink_index input _ v

  ids_of-pieces :
      (sink_index : Bytes) (inputs : List SinkInput)
      → All IsPrintable inputs
      → ids_of is_space sink_index (pieces_of b'\n' (print_inputs inputs))
        ≡ inputs_on sink_index inputs
  unfolding input_of
  ids_of-pieces sink_index [] v = refl
  ids_of-pieces sink_index (input ∷ inputs) (v, vs) =
      rw (pieces-cons b'\n' (print_input input) (print_inputs inputs) v.one_line refl) (
        rw (input_of-print sink_index input v, ids_of-pieces sink_index inputs vs)
          (elim (Bool-cases (bytes_equal input.sink sink_index)) [
            | inl same ↦ rw same refl
            | inr other ↦ rw other refl
          ]))

  -- From a list of inputs as pactl prints it, the ids of those on the given sink are read, each
  -- once and in order, and no others.
  pub input_ids-print :
      (inputs : List SinkInput) (sink_index : Bytes)
      → All IsPrintable inputs
      → audio_route_parse_sink_input_ids_for_sink is_space
          (some (print_inputs inputs))
          (some sink_index)
        ≡ inputs_on sink_index inputs
  unfolding audio_route_parse_sink_input_ids_for_sink
  input_ids-print [] sink_index v = refl
  input_ids-print (input ∷ inputs) sink_index v =
      ap (ids_of is_space sink_index)
        (strsplit-pieces b'\n' b'\n' (print_input input) (print_inputs inputs))
      ∙ ids_of-pieces sink_index (input ∷ inputs) v

module _ (is_space is_cntrl : ℕ → Bool) where
  -- A name as the configured sink may have it: with no quote, control character or space, and not
  -- empty.
  abbrev pub IsSinkName : Bytes → Type 0
  IsSinkName name =
      (is_nonempty (some name) ≡ true) × All (λ c. in_name is_space is_cntrl c ≡ true) name

  abbrev IsPlain : CString → Type 0
  IsPlain none = Unit
  IsPlain (some name) = All (λ c. in_name is_space is_cntrl c ≡ true) name

  abbrev IsNamed : CString → Type 0
  IsNamed none = Unit
  IsNamed (some name) = IsSinkName name

  add_byte-IsPlain :
      (c : ℕ) (name : CString)
      → in_name is_space is_cntrl c ≡ true
      → IsPlain name
      → IsPlain (add_byte c name)
  add_byte-IsPlain c none h v = tt
  add_byte-IsPlain c (some name) h v = (h, v)

  until_quote-IsPlain : (text : Bytes) → IsPlain (until_quote is_space is_cntrl text)
  until_quote-IsPlain [] = tt
  until_quote-IsPlain (c ∷ cs) =
      if-holds IsPlain (in_name is_space is_cntrl c) _ _
        (λ inside. add_byte-IsPlain c _ inside (until_quote-IsPlain cs))
        (λ outside. if-holds IsPlain (c == b'"') (some []) none (λ quote. tt) (λ other. tt))

  nonempty_name-IsNamed : (name : CString) → IsPlain name → IsNamed (nonempty_name name)
  nonempty_name-IsNamed none v = tt
  nonempty_name-IsNamed (some []) v = tt
  nonempty_name-IsNamed (some (c ∷ cs)) v = (refl, v)

  quoted_name-IsNamed : (text : Bytes) → IsNamed (quoted_name is_space is_cntrl text)
  quoted_name-IsNamed [] = tt
  quoted_name-IsNamed (c ∷ cs) =
      if-holds IsNamed (c == b'"') _ none
        (λ quote. nonempty_name-IsNamed _ (until_quote-IsPlain cs)) (λ other. tt)

  name_behind-IsNamed : (text : CString) → IsNamed (name_behind is_space is_cntrl text)
  name_behind-IsNamed none = tt
  name_behind-IsNamed (some text) = quoted_name-IsNamed (strip_left is_space text)

  configured_name-IsNamed : (line : Bytes) → IsNamed (configured_name is_space is_cntrl line)
  unfolding configured_name
  configured_name-IsNamed line =
      if-holds IsNamed _ _ none
        (λ key. name_behind-IsNamed (and_behind (behind line (codes "\"name\"")) (codes ":")))
        (λ other. tt)

  or_first-IsNamed :
      (first later : CString) → IsNamed first → IsNamed later → IsNamed (or_first first later)
  or_first-IsNamed none later v w = w
  or_first-IsNamed (some first) later v w = v

  first_configured-IsNamed :
      (lines : List Bytes) → IsNamed (first_configured is_space is_cntrl lines)
  first_configured-IsNamed [] = tt
  first_configured-IsNamed (line ∷ lines) =
      or_first-IsNamed _ _ (configured_name-IsNamed line) (first_configured-IsNamed lines)

  parsed-IsNamed :
      (output : CString) → IsNamed (audio_route_parse_configured_sink is_space is_cntrl output)
  unfolding audio_route_parse_configured_sink
  parsed-IsNamed none = tt
  parsed-IsNamed (some output) = first_configured-IsNamed (strsplit b'\n' output)

  -- Whatever the tool prints, a name that is taken for the configured sink is not empty and has no
  -- quote, no control character and no space.
  pub configured_plain :
      (output : CString) (name : Bytes)
      → audio_route_parse_configured_sink is_space is_cntrl output ≡ some name
      → IsSinkName name
  configured_plain output name h = subst IsNamed h (parsed-IsNamed output)
