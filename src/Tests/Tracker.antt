-- ===== src/Tests/Tracker.antt =====
-- The playback tracker over a table that is a list of pairs.
use earport_handoff.Base.{ltb, ◌≡◌, refl, true, false, some, List, [], ◌∷◌, arith}
use earport_handoff.Base.Text.{codes}
use earport_handoff.Base.Trace.{run}
use earport_handoff.Tracker.{
  Player, media_playback_tracker_new, media_playback_tracker_is_playing,
  media_playback_tracker_player_is_playing, media_playback_tracker_dup_playing_ids,
  media_playback_tracker_update, update_player,
}
use earport_handoff.Tests.Pairs.{pairs_table, pairs_table_laws}
use earport_handoff.HashTable.{StringTable, StringTableLaws}
use earport_handoff.Tracker.Counting.{
  TrackerCall, update, track, after, players_playing, count_exact,
}
use earport_handoff.Tracker.Transitions.{crossing, transition-eq-crossing}
use earport_handoff.Tracker.Playing.{reported, player_is_playing-reported}

abbrev table : StringTable Player
table = pairs_table Player

abbrev laws : StringTableLaws table
laws = pairs_table_laws Player

-- Two players start, and one stops.
abbrev playback : List TrackerCall
playback =
    update (some (codes "mpv")) true
    ∷ update (some (codes "vlc")) true
    ∷ update (some (codes "vlc")) true
    ∷ update (some (codes "mpv")) false
    ∷ []

ids-playback :
    media_playback_tracker_dup_playing_ids table
      (run (after table) (media_playback_tracker_new table) playback)
    ≡ codes "vlc" ∷ []
unfolding track media_playback_tracker_update update_player media_playback_tracker_new
    media_playback_tracker_dup_playing_ids
ids-playback = refl

count_exact_example :
    (run (after table) (media_playback_tracker_new table) playback).playing_count
    ≡ players_playing table (run (after table) (media_playback_tracker_new table) playback)
count_exact_example = count_exact table laws playback (omega arith)

-- a pause of the only player that plays
transition-eq-crossing_example :
    let s = run (after table) (media_playback_tracker_new table) playback in
    let s' = (track table s (update (some (codes "vlc")) false)).0 in
    ((track table s (update (some (codes "vlc")) false)).1
      ≡ crossing (ltb 0 (players_playing table s)) (ltb 0 (players_playing table s')))
    × (media_playback_tracker_is_playing table s ≡ ltb 0 (players_playing table s))
    × (media_playback_tracker_is_playing table s' ≡ ltb 0 (players_playing table s'))
transition-eq-crossing_example =
    transition-eq-crossing table laws playback (update (some (codes "vlc")) false) (omega arith)

player_is_playing-reported_example :
    media_playback_tracker_player_is_playing table
      (run (after table) (media_playback_tracker_new table) playback)
      (some (codes "mpv"))
    ≡ run (reported (codes "mpv")) false playback
player_is_playing-reported_example = player_is_playing-reported table laws playback (codes "mpv")
