-- ===== src/Connection/Lifecycle.antt =====
-- `RemovalLifecycle` and its operations against the abstract removal cycle.
use earport_handoff.Base.{
  ◌≡◌, refl, ap, ◌∙◌, Bool, true, false, ◌||◌, Option, none, some, List, [], ◌∷◌, map, arith,
  bytes_equal, inl, inr, Bool-cases,
}
use earport_handoff.Base.Text.{Bytes, CString, lower, equal_fold}
use earport_handoff.Connection.{
  RemovalLifecycle, address_is_valid, airpods_address_equal, removal_lifecycle_clear,
  removal_lifecycle_mark, removal_lifecycle_note_connected, removal_lifecycle_note_disconnected,
  removal_lifecycle_note_wear,
}
use earport_handoff.Connection.Address.{canonical, address_equal_iff}
use earport_handoff.Connection.Phases
use earport_handoff.Connection.Phases.{Phase, idle, removing, reworn, gone}

-- the phase that the two flags stand for
abbrev flags_phase : Bool → Bool → Bytes → Phase
flags_phase true true a = reworn a
flags_phase true false a = removing a
flags_phase false worn a = gone a

abbrev address_phase : Option Bytes → Bool → Bool → Phase
address_phase none pending worn = idle
address_phase (some a) pending worn = flags_phase pending worn a

pub phase : RemovalLifecycle → Phase
phase l = address_phase (canonical l.address) l.disconnect_pending l.reworn_while_disconnect_pending

bytes_equal_fold : (a b : Bytes) → bytes_equal (map lower a) (map lower b) ≡ equal_fold a b
bytes_equal_fold [] [] = refl
bytes_equal_fold [] (y ∷ b) = refl
bytes_equal_fold (x ∷ a) [] = refl
bytes_equal_fold (x ∷ a) (y ∷ b) = rw (bytes_equal_fold a b)

is_subject_flags :
    (p w : Bool) (a b : Bytes) → Phases.is_subject (flags_phase p w a) (some b) ≡ bytes_equal a b
is_subject_flags true true a b = refl
is_subject_flags true false a b = refl
is_subject_flags false w a b = refl

is_subject_address :
    (mine : CString) (p w : Bool) (a : CString)
    → Phases.is_subject (address_phase (canonical mine) p w) (canonical a)
      ≡ airpods_address_equal mine a
unfolding airpods_address_equal canonical
is_subject_address none p w none = refl
is_subject_address none p w (some []) = refl
is_subject_address none p w (some (y ∷ b)) = refl
is_subject_address (some []) p w none = refl
is_subject_address (some []) p w (some []) = refl
is_subject_address (some []) p w (some (y ∷ b)) = refl
is_subject_address (some (x ∷ a)) p w none = refl
is_subject_address (some (x ∷ a)) p w (some []) = refl
is_subject_address (some (x ∷ a)) p w (some (y ∷ b)) =
    is_subject_flags p w _ _ ∙ bytes_equal_fold (x ∷ a) (y ∷ b)

is_subject_lem :
    (l : RemovalLifecycle) (a : CString)
    → Phases.is_subject (phase l) (canonical a) ≡ airpods_address_equal l.address a
unfolding phase
is_subject_lem l a =
    is_subject_address l.address l.disconnect_pending l.reworn_while_disconnect_pending a

phase-clear : (l : RemovalLifecycle) → phase (removal_lifecycle_clear l) ≡ idle
unfolding phase removal_lifecycle_clear canonical
phase-clear l = refl

canonical-invalid : (a : CString) → address_is_valid a ≡ false → canonical a ≡ none
unfolding canonical
canonical-invalid none h = refl
canonical-invalid (some []) h = refl
canonical-invalid (some (x ∷ a)) h = cc

canonical-valid : (a : CString) → address_is_valid a ≡ true → (b : Bytes) × (canonical a ≡ some b)
unfolding canonical
canonical-valid none h = cc
canonical-valid (some []) h = cc
canonical-valid (some (x ∷ a)) h = (map lower (x ∷ a), refl)

phase-mark :
    (l : RemovalLifecycle) (a : CString)
    → phase (removal_lifecycle_mark l a) ≡ Phases.mark (canonical a)
unfolding removal_lifecycle_mark phase
phase-mark l a = elim (Bool-cases (address_is_valid a)) [
  | inl v ↦
      let (b, e) = canonical-valid a v in
      elim (Bool-cases (airpods_address_equal l.address a)) [
        | inl same ↦ rw (v, same, e) (rw (((address_equal_iff l.address a).0 same).1 ∙ e))
        | inr other ↦ rw (v, other, e)
      ]
  | inr i ↦ rw (i, canonical-invalid a i) (unfold canonical in refl)
]

phase-note_connected :
    (l : RemovalLifecycle) (a : CString)
    → let (l', kept) = removal_lifecycle_note_connected l a in
      (phase l', kept) ≡ Phases.connected (phase l) (canonical a)
unfolding removal_lifecycle_note_connected phase
phase-note_connected l a = ground (arith, is_subject_lem l a, phase-clear l)

phase-note_disconnected :
    (l : RemovalLifecycle) (a : CString)
    → let (l', reconnect) = removal_lifecycle_note_disconnected l a in
      (phase l', reconnect) ≡ Phases.disconnected (phase l) (canonical a)
unfolding removal_lifecycle_note_disconnected phase
phase-note_disconnected l a = elim (Bool-cases (airpods_address_equal l.address a)) [
  | inl same ↦
      let (b, e) = canonical-valid l.address ((address_equal_iff l.address a).0 same).0 in
      ground (arith, is_subject_lem l a)
  | inr other ↦ ground (arith, is_subject_lem l a)
]

phase-note_wear :
    (l : RemovalLifecycle) (a : CString) (left right : Bool)
    → let (l', done) = removal_lifecycle_note_wear l a left right in
      (phase l', done) ≡ Phases.wear (phase l) (canonical a) (left || right)
unfolding removal_lifecycle_note_wear phase
phase-note_wear l a left right = elim (Bool-cases (airpods_address_equal l.address a)) [
  | inl same ↦
      let (b, e) = canonical-valid l.address ((address_equal_iff l.address a).0 same).0 in
      ground (arith, is_subject_lem l a, phase-clear l)
  | inr other ↦ elim (Bool-cases (address_is_valid a)) [
    | inl v ↦ let (b, e) = canonical-valid a v in ground (arith, is_subject_lem l a, phase-clear l)
    | inr i ↦ ground (arith, is_subject_lem l a, canonical-invalid a i)
  ]
]

-- A call of one of the operations. `mark` and `clear` answer nothing, here false.
pub data LifecycleCall : Type 0 where
  mark note_connected note_disconnected : CString → LifecycleCall
  clear : LifecycleCall
  note_wear : CString → Bool → Bool → LifecycleCall

unfoldable pub lifecycle_call : RemovalLifecycle → LifecycleCall → RemovalLifecycle × Bool
lifecycle_call l (mark a) = (removal_lifecycle_mark l a, false)
lifecycle_call l clear = (removal_lifecycle_clear l, false)
lifecycle_call l (note_connected a) = removal_lifecycle_note_connected l a
lifecycle_call l (note_disconnected a) = removal_lifecycle_note_disconnected l a
lifecycle_call l (note_wear a left right) = removal_lifecycle_note_wear l a left right

unfoldable pub phase_call : Phase → LifecycleCall → Phase × Bool
phase_call p (mark a) = (Phases.mark (canonical a), false)
phase_call p clear = (idle, false)
phase_call p (note_connected a) = Phases.connected p (canonical a)
phase_call p (note_disconnected a) = Phases.disconnected p (canonical a)
phase_call p (note_wear a left right) = Phases.wear p (canonical a) (left || right)

pub call_refines :
    (l : RemovalLifecycle) (c : LifecycleCall)
    → (phase (lifecycle_call l c).0, (lifecycle_call l c).1) ≡ phase_call (phase l) c
unfolding lifecycle_call phase_call
call_refines l (mark a) = ap (λ p. (p, false)) (phase-mark l a)
call_refines l clear = ap (λ p. (p, false)) (phase-clear l)
call_refines l (note_connected a) = phase-note_connected l a
call_refines l (note_disconnected a) = phase-note_disconnected l a
call_refines l (note_wear a left right) = phase-note_wear l a left right

-- The answers of a machine to a list of calls.
abbrev pub answers {ℓ} :
    {S : Type ℓ} → (S → LifecycleCall → S × Bool) → S → List LifecycleCall → List Bool
answers call s [] = []
answers call s (c ∷ cs) = (call s c).1 ∷ answers call (call s c).0 cs

-- The code answers every sequence of calls, in any spelling of the addresses, exactly as the
-- abstract removal cycle that the lifecycle stands for.
pub answers_refine :
    (cs : List LifecycleCall) (l : RemovalLifecycle)
    → answers lifecycle_call l cs ≡ answers phase_call (phase l) cs
answers_refine [] l = refl
answers_refine (c ∷ cs) l =
    rw (← call_refines l c)
      (ap (λ t. (lifecycle_call l c).1 ∷ t) (answers_refine cs (lifecycle_call l c).0))
