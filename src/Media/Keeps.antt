-- ===== src/Media/Keeps.antt =====
-- What a handler of media_control.c leaves as it was: the generation, and whether the AirPods are
-- linked and carry the audio. What a Pause needs of them.
pub mod Calls
pub mod Handlers
pub mod View
use earport_handoff.Base.{
  ℕ, ◌≡◌, refl, sym, ap, ◌∙◌, Bool, true, false, not, ◌&&◌, ◌||◌, List, [], ◌∷◌, ◌++◌, arith,
  if◌then◌else◌,
}
use earport_handoff.HashTable.{StringTable}
use earport_handoff.Tracker.{Player}
use earport_handoff.Media.{
  MprisAction, pause_for_ear, pause_for_handoff, play, MprisOperation, MediaControl, Effect, call,
  Step, and_then,
}

-- A Pause for a removal needs the AirPods linked and carrying the audio, and one for a handoff needs
-- them linked.
abbrev pub action_allowed : (linked audio : Bool) → MprisAction → Bool
action_allowed linked audio pause_for_ear = linked && audio
action_allowed linked audio pause_for_handoff = linked
action_allowed linked audio play = true

abbrev pub effect_allowed : (linked audio : Bool) → Effect → Bool
effect_allowed linked audio (call operation) = action_allowed linked audio operation.action
effect_allowed linked audio _ = true

abbrev pub all_allowed : (linked audio : Bool) → List Effect → Bool
all_allowed linked audio [] = true
all_allowed linked audio (e ∷ es) = effect_allowed linked audio e && all_allowed linked audio es

pub all_allowed-append :
    (linked audio : Bool) (es es' : List Effect)
    → all_allowed linked audio (es ++ es')
      ≡ (all_allowed linked audio es && all_allowed linked audio es')
all_allowed-append linked audio [] es' = refl
all_allowed-append linked audio (e ∷ es) es' =
    ground (arith, all_allowed-append linked audio es es')

module _ (G : StringTable Player) (P : StringTable ℕ) where
  pub record Keeps (mc : MediaControl G P) (s : Step G P) : Type 0 where
    pub same_generation : s.0.mpris_generation ≡ mc.mpris_generation
    pub same_link : s.0.airpods_link_active ≡ mc.airpods_link_active
    pub same_audio : s.0.airpods_audio_active ≡ mc.airpods_audio_active
    pub allowed : all_allowed mc.airpods_link_active mc.airpods_audio_active s.1 ≡ true

  -- a branch of a handler
  pub if-Keeps :
      (mc : MediaControl G P) (b : Bool) (s t : Step G P)
      → (b ≡ true → Keeps mc s)
      → (b ≡ false → Keeps mc t)
      → Keeps mc (if b then s else t)
  if-Keeps mc true s t v w = v refl
  if-Keeps mc false s t v w = w refl

  -- a handler that asks for no Pause that is not allowed
  pub asks-Keeps :
      (mc mc' : MediaControl G P) (es : List Effect)
      → Keeps mc (mc', [])
      → all_allowed mc.airpods_link_active mc.airpods_audio_active es ≡ true
      → Keeps mc (mc', es)
  asks-Keeps mc mc' es v h = record {
    same_generation = v.same_generation;
    same_link = v.same_link;
    same_audio = v.same_audio;
    allowed = h;
  }

  -- a handler that writes none of the fields
  pub same-Keeps :
      (mc mc' : MediaControl G P)
      → mc'.mpris_generation ≡ mc.mpris_generation
      → mc'.airpods_link_active ≡ mc.airpods_link_active
      → mc'.airpods_audio_active ≡ mc.airpods_audio_active
      → Keeps mc (mc', [])
  same-Keeps mc mc' g l a = record {
    same_generation = g;
    same_link = l;
    same_audio = a;
    allowed = refl;
  }

  pub done-Keeps : (mc : MediaControl G P) → Keeps mc (mc, [])
  done-Keeps mc = same-Keeps mc mc refl refl refl

  -- a handler after a change of the rest of the state
  pub after-Keeps :
      (mc mc' : MediaControl G P) (s : Step G P) → Keeps mc (mc', []) → Keeps mc' s → Keeps mc s
  after-Keeps mc mc' s v w = record {
    same_generation = w.same_generation ∙ v.same_generation;
    same_link = w.same_link ∙ v.same_link;
    same_audio = w.same_audio ∙ v.same_audio;
    allowed = rw⁻¹ (v.same_link, v.same_audio) w.allowed;
  }

  -- two handlers, one after the other
  pub both-Keeps :
      (mc : MediaControl G P) (s : Step G P) (f : MediaControl G P → Step G P)
      → Keeps mc s
      → Keeps s.0 (f s.0)
      → Keeps mc (and_then G P s f)
  both-Keeps mc s f v w = record {
    same_generation = w.same_generation ∙ v.same_generation;
    same_link = w.same_link ∙ v.same_link;
    same_audio = w.same_audio ∙ v.same_audio;
    allowed =
        all_allowed-append mc.airpods_link_active mc.airpods_audio_active s.1 (f s.0).1
        ∙ rw (v.allowed, sym v.same_link, sym v.same_audio) w.allowed;
  }
