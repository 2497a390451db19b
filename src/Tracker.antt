-- ===== src/Tracker.antt =====
-- daemon/src/media_playback_tracker.c and media_playback_tracker.h: which media players are playing,
-- and when the first starts and the last stops. A tracker is passed by value: its owner never
-- passes NULL. GLib's hash table is a parameter.
pub mod Counting
pub mod Transitions
pub mod Playing
use earport_handoff.Base.{
  ℕ, ◌+◌, ◌-◌, ◌%◌, ◌^◌, Bool, true, false, not, ◌&&◌, Option, none, some, List, [], ◌∷◌, ltb, ◌==◌,
  if◌then◌else◌,
}
use earport_handoff.Base.Text.{Bytes, CString}
use earport_handoff.HashTable.{StringTable}

-- PLAYER_NOT_PLAYING and PLAYER_PLAYING
pub data Player : Type 0 where
  not_playing playing : Player

abbrev pub is_playing : Player → Bool
is_playing playing = true
is_playing not_playing = false

pub data MediaPlaybackTransition : Type 0 where
  no_transition started all_stopped : MediaPlaybackTransition

-- `tracker->playing_count--` and `++` on a `guint`
abbrev pub decrement : ℕ → ℕ
decrement n = (n + (2 ^ 32 - 1)) % 2 ^ 32

abbrev pub increment : ℕ → ℕ
increment n = (n + 1) % 2 ^ 32

-- `value == PLAYER_PLAYING` of a lookup, where a missing key gives NULL
abbrev pub found_playing : Option Player → Bool
found_playing none = false
found_playing (some p) = is_playing p

-- `known && was_playing == playing`
abbrev pub unchanged : Option Player → Bool → Bool
unchanged none now_playing = false
unchanged (some playing) now_playing = now_playing
unchanged (some not_playing) now_playing = not now_playing

abbrev pub player_value : Bool → Player
player_value now_playing = if now_playing then playing else not_playing

-- the `while` loop over the pairs of the table
unfoldable pub playing_ids : List (Bytes × Player) → List Bytes
playing_ids [] = []
playing_ids ((key, value) ∷ rest) =
    let ids = playing_ids rest in if is_playing value then key ∷ ids else ids

module _ (G : StringTable Player) where
  pub record MediaPlaybackTracker : Type 0 where
    pub players : G.Table
    pub playing_count : ℕ

  unfoldable pub media_playback_tracker_new : MediaPlaybackTracker
  media_playback_tracker_new = record { players = G.new; playing_count = 0 }

  abbrev pub count_after : ℕ → Option Player → Bool → ℕ
  count_after previous_count old now_playing =
      let stopped = if found_playing old then decrement previous_count else previous_count in
      if now_playing then increment stopped else stopped

  abbrev pub transition_between : ℕ → ℕ → MediaPlaybackTransition
  transition_between previous_count playing_count =
      if previous_count == 0 && ltb 0 playing_count
      then started
      else if ltb 0 previous_count && playing_count == 0
      then all_stopped
      else no_transition

  -- an update of a player whose name is not empty
  unfoldable pub update_player :
      MediaPlaybackTracker → Bytes → Bool → MediaPlaybackTracker × MediaPlaybackTransition
  update_player tracker player_id now_playing =
      let old = G.lookup tracker.players player_id in
      let playing_count = count_after tracker.playing_count old now_playing in
      if unchanged old now_playing then (tracker, no_transition) else (
        record {
          players = G.replace tracker.players player_id (player_value now_playing);
          playing_count = playing_count;
        },
        transition_between tracker.playing_count playing_count,
      )

  unfoldable pub media_playback_tracker_update :
      MediaPlaybackTracker → CString → Bool → MediaPlaybackTracker × MediaPlaybackTransition
  unfolding update_player
  media_playback_tracker_update tracker none now_playing = (tracker, no_transition)
  media_playback_tracker_update tracker (some []) now_playing = (tracker, no_transition)
  media_playback_tracker_update tracker (some (c ∷ cs)) now_playing =
      update_player tracker (c ∷ cs) now_playing

  -- the removal of a player that the table may know
  unfoldable pub remove_player :
      MediaPlaybackTracker → Bytes → Option Player → MediaPlaybackTracker × MediaPlaybackTransition
  remove_player tracker player_id none = (tracker, no_transition)
  remove_player tracker player_id (some not_playing) =
      (record tracker { players = G.remove tracker.players player_id }, no_transition)
  remove_player tracker player_id (some playing) =
      let playing_count = decrement tracker.playing_count in
      (
        record { players = G.remove tracker.players player_id; playing_count = playing_count },
        if playing_count == 0 then all_stopped else no_transition,
      )

  unfoldable pub media_playback_tracker_remove :
      MediaPlaybackTracker → CString → MediaPlaybackTracker × MediaPlaybackTransition
  unfolding remove_player
  media_playback_tracker_remove tracker none = (tracker, no_transition)
  media_playback_tracker_remove tracker (some player_id) =
      remove_player tracker player_id (G.lookup tracker.players player_id)

  unfoldable pub media_playback_tracker_is_playing : MediaPlaybackTracker → Bool
  media_playback_tracker_is_playing tracker = ltb 0 tracker.playing_count

  unfoldable pub media_playback_tracker_player_is_playing : MediaPlaybackTracker → CString → Bool
  media_playback_tracker_player_is_playing tracker none = false
  media_playback_tracker_player_is_playing tracker (some player_id) =
      found_playing (G.lookup tracker.players player_id)

  unfoldable pub media_playback_tracker_dup_playing_ids : MediaPlaybackTracker → List Bytes
  unfolding playing_ids
  media_playback_tracker_dup_playing_ids tracker = playing_ids (G.entries tracker.players)
