-- ===== src/Base/Trace.antt =====
-- A machine over a list of events, and the flags that its events set and keep.
use earport_handoff.Base.{
  ◌≡◌, refl, ap, ◌∙◌, ◌↔◌, ◌⊎◌, inl, inr, Bool, true, false, ◌&&◌, ◌||◌, List, [], ◌∷◌, ◌++◌, arith,
  All,
}

module _ {ℓ κ} {S : Type ℓ} {E : Type κ} where
  abbrev pub run : (S → E → S) → S → List E → S
  run step s [] = s
  run step s (e ∷ es) = run step (step s e) es

-- Some event of the list sets the flag, and all later ones keep it.
pub record Since {κ} {E : Type κ} (sets keeps : E → Bool) (es : List E) : Type κ where
  pub before : List E
  pub event : E
  pub after : List E
  pub splits : es ≡ before ++ (event ∷ after)
  pub is_set : sets event ≡ true
  pub is_kept : All (λ e. keeps e ≡ true) after

-- `step` sets the flag at `sets`, keeps it at `keeps`, and clears it at any other event.
abbrev pub Governs {ℓ κ} :
    {S : Type ℓ} {E : Type κ} → (S → E → S) → (S → Bool) → (E → Bool) → (E → Bool) → Type (ℓ ⊔ κ)
Governs {S} {E} step flag sets keeps =
    (s : S) (e : E) → flag (step s e) ≡ (sets e || (keeps e && flag s))

-- Where the flag is set after a step, the event set it or kept it.
abbrev pub Explains {ℓ κ} :
    {S : Type ℓ} {E : Type κ} → (S → E → S) → (S → Bool) → (E → Bool) → (E → Bool) → Type (ℓ ⊔ κ)
Explains {S} {E} step flag sets keeps =
    (s : S) (e : E)
    → flag (step s e) ≡ true
    → (sets e ≡ true) ⊎ ((keeps e ≡ true) × (flag s ≡ true))

pub Governs-Explains {ℓ κ} :
    {S : Type ℓ} {E : Type κ} (step : S → E → S) (flag : S → Bool) (sets keeps : E → Bool)
    → Governs step flag sets keeps
    → Explains step flag sets keeps
Governs-Explains step flag sets keeps governs s e h = ground (arith, governs s e)

module _ {ℓ κ} {S : Type ℓ} {E : Type κ} (step : S → E → S) (flag : S → Bool)
    (sets keeps : E → Bool) (explains : Explains step flag sets keeps) where
  flag-run :
      (s : S) (es : List E)
      → flag (run step s es) ≡ true
      → Since sets keeps es ⊎ ((flag s ≡ true) × All (λ e. keeps e ≡ true) es)
  flag-run s [] h = inr (h, tt)
  flag-run s (e ∷ es) h = elim (flag-run (step s e) es h) [
    | inl q ↦ inl (record {
      before = e ∷ q.before;
      event = q.event;
      after = q.after;
      splits = ap (λ l. e ∷ l) q.splits;
      is_set = q.is_set;
      is_kept = q.is_kept;
    })
    | inr (f, k) ↦ elim (explains s e f) [
      | inl a ↦
          inl
            (record { before = []; event = e; after = es; splits = refl; is_set = a; is_kept = k })
      | inr (b, c) ↦ inr (c, (b, k))
    ]
  ]

  -- From a state with the flag clear, it is set only since some event.
  pub flag-Since :
      (s : S) (es : List E) → flag s ≡ false → flag (run step s es) ≡ true → Since sets keeps es
  flag-Since s es clear h = elim (flag-run s es h) [
    | inl q ↦ q
    | inr (f, k) ↦ absurd (ground arith)
  ]

module _ {ℓ κ} {S : Type ℓ} {E : Type κ} (step : S → E → S) (flag : S → Bool)
    (sets keeps : E → Bool) (governs : Governs step flag sets keeps) where
  run_keeps :
      (s : S) (es : List E)
      → flag s ≡ true
      → All (λ e. keeps e ≡ true) es
      → flag (run step s es) ≡ true
  run_keeps s [] h k = h
  run_keeps s (e ∷ es) h (k, ks) = run_keeps (step s e) es (ground (arith, governs s e)) ks

  run_sets :
      (before : List E) (s : S) (e : E) (after : List E)
      → sets e ≡ true
      → All (λ e. keeps e ≡ true) after
      → flag (run step s (before ++ (e ∷ after))) ≡ true
  run_sets [] s e after a k = run_keeps (step s e) after (ground (arith, governs s e)) k
  run_sets (x ∷ before) s e after a k = run_sets before (step s x) e after a k

  -- From a state with the flag clear, it is set exactly since some event.
  pub flag-run_iff :
      (s : S) (es : List E) → flag s ≡ false → (flag (run step s es) ≡ true) ↔ Since sets keeps es
  flag-run_iff s es clear = (flag-Since step flag sets keeps explained s es clear, backward)
    where
      explained : Explains step flag sets keeps
      explained = Governs-Explains step flag sets keeps governs

      backward : Since sets keeps es → flag (run step s es) ≡ true
      backward q =
          ap (λ l. flag (run step s l)) q.splits
          ∙ run_sets q.before s q.event q.after q.is_set q.is_kept
