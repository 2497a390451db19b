-- ===== src/Media/State.antt =====
-- The state of media_control.c, its operations in flight, and what it asks of others.
use earport_handoff.Base.{
  ℕ, ◌+◌, ◌%◌, ◌^◌, Bool, true, false, ◌||◌, Option, none, some, List, [], ◌∷◌, ◌++◌, ◌==◌,
  bytes_equal, if◌then◌else◌,
}
use earport_handoff.Base.Text.{Bytes, CString}
use earport_handoff.HashTable.{StringTable}
use earport_handoff.Tracker.{Player, MediaPlaybackTracker}
use earport_handoff.Wear.{EarPauseMode}

pub data MprisAction : Type 0 where
  pause_for_ear pause_for_handoff play : MprisAction

-- `action != MPRIS_ACTION_PLAY`
abbrev pub is_pause : MprisAction → Bool
is_pause play = false
is_pause _ = true

pub record MprisOperation : Type 0 where
  pub generation : ℕ
  pub pending_serial : ℕ
  pub action : MprisAction
  pub player_name : Bytes

pub record MprisStatusOperation : Type 0 where
  pub serial : ℕ
  pub suppress_transition : Bool
  pub player_name : Bytes

pub data Effect : Type 0 where
  call : MprisOperation → Effect
  get_status : MprisStatusOperation → Effect
  playback_started playback_stopped : Effect
  restore_route cancel_route : Effect
  start_route : CString → Effect

-- `player_list_contains`
abbrev pub player_list_contains : List Bytes → Bytes → Bool
player_list_contains [] player_name = false
player_list_contains (p ∷ players) player_name =
    bytes_equal p player_name || player_list_contains players player_name

abbrev pub player_list_add_unique : List Bytes → Bytes → List Bytes
player_list_add_unique players player_name =
    if player_list_contains players player_name then players else players ++ (player_name ∷ [])

-- only the first entry
abbrev pub player_list_remove : List Bytes → Bytes → List Bytes
player_list_remove [] player_name = []
player_list_remove (p ∷ players) player_name =
    let rest = player_list_remove players player_name in
    if bytes_equal p player_name then players else p ∷ rest

-- `next_operation_serial` skips 0
abbrev pub next_serial : ℕ → ℕ
next_serial n = let next = (n + 1) % 2 ^ 32 in if next == 0 then (next + 1) % 2 ^ 32 else next

abbrev pub is_some : {A : Type 0} → Option A → Bool
is_some none = false
is_some (some a) = true

-- `GPOINTER_TO_UINT` of a lookup, 0 for a missing key
abbrev pub serial_of : Option ℕ → ℕ
serial_of none = 0
serial_of (some n) = n

abbrev pub is_empty : {A : Type 0} → List A → Bool
is_empty [] = true
is_empty (a ∷ as') = false

module _ (G : StringTable Player) (P : StringTable ℕ) where
  -- the players that are paused for a reason, and those whose Pause is not answered
  pub record Pauses : Type 0 where
    pub paused_players : List Bytes
    pub pending_pauses : P.Table

  -- `ear` has `ear_paused_players` and `ear_pending_pauses`, and `handoff` those of a handoff.
  pub record MediaControl : Type 0 where
    pub disposed : Bool
    pub ear_pause_mode : EarPauseMode
    pub playback_tracker : MediaPlaybackTracker G
    pub airpods_link_active : Bool
    pub airpods_audio_active : Bool
    pub ear : Pauses
    pub handoff : Pauses
    pub pending_status_queries : P.Table
    pub mpris_generation : ℕ
    pub next_operation_serial : ℕ
    pub prev_left_in_ear : Bool
    pub prev_right_in_ear : Bool
    pub prev_state_valid : Bool

  -- a state, and what was asked on the way to it
  abbrev pub Step : Type 0
  Step = MediaControl × List Effect

  abbrev pub and_then : Step → (MediaControl → Step) → Step
  and_then s f = let after = f s.0 in (after.0, s.1 ++ after.1)

  -- `paused_players_for_action` and `pending_pauses_for_action`: NULL for Play
  abbrev pub pauses_for_action : MediaControl → MprisAction → Option Pauses
  pauses_for_action mc pause_for_ear = some mc.ear
  pauses_for_action mc pause_for_handoff = some mc.handoff
  pauses_for_action mc play = none

  -- a write through those pointers
  abbrev pub set_pauses : MediaControl → MprisAction → Pauses → MediaControl
  set_pauses mc pause_for_ear pauses = record mc { ear = pauses }
  set_pauses mc pause_for_handoff pauses = record mc { handoff = pauses }
  set_pauses mc play pauses = mc

  -- the list freed, and the table emptied
  abbrev pub no_pauses : Pauses
  no_pauses = record { paused_players = []; pending_pauses = P.new }

  -- a player that is owned or pending no more
  abbrev pub forget : Pauses → Bytes → Pauses
  forget pauses player_name = record {
    paused_players = player_list_remove pauses.paused_players player_name;
    pending_pauses = P.remove pauses.pending_pauses player_name;
  }

  -- `pause_reason_contains`
  abbrev pub pause_reason_contains : Pauses → Bytes → Bool
  pause_reason_contains pauses player_name =
      player_list_contains pauses.paused_players player_name
      || is_some (P.lookup pauses.pending_pauses player_name)
