-- ===== src/Tracker/Transitions.antt =====
-- The transitions that the tracker reports.
use earport_handoff.Base.{
  ◌+◌, ◌^◌, ◌<◌, ◌≡◌, ap, ◌∙◌, refl, Bool, true, false, Option, none, some, List, [], ◌∷◌, arith,
  length, ltb,
}
use earport_handoff.Base.Text.{Bytes}
use earport_handoff.Base.Trace.{run}
use earport_handoff.Tracker.{
  Player, playing, not_playing, MediaPlaybackTracker, MediaPlaybackTransition, no_transition,
  started, all_stopped, media_playback_tracker_new, media_playback_tracker_update,
  media_playback_tracker_remove, media_playback_tracker_is_playing, update_player, remove_player,
  player_value,
}
use earport_handoff.HashTable.{StringTable, StringTableLaws}
use earport_handoff.Tracker.Counting.{
  TrackerCall, update, remove, track, after, players_playing, replace-count, remove-count, run-new,
  after-exact,
}

-- what a change between none playing and some playing is called
abbrev pub crossing : Bool → Bool → MediaPlaybackTransition
crossing false true = started
crossing true false = all_stopped
crossing _ _ = no_transition

module _ (G : StringTable Player) (laws : StringTableLaws G) where
  update-crossing :
      (s : MediaPlaybackTracker G) (k : Bytes) (b : Bool)
      → s.playing_count ≡ players_playing G s
      → players_playing G s + 1 < 2 ^ 32
      → (update_player G s k b).1
        ≡ crossing (ltb 0 s.playing_count) (ltb 0 (update_player G s k b).0.playing_count)
  unfolding update_player
  update-crossing s k b h bound = ground (arith, replace-count G laws s.players k (player_value b))

  remove-crossing :
      (s : MediaPlaybackTracker G) (k : Bytes) (old : Option Player)
      → G.lookup s.players k ≡ old
      → s.playing_count ≡ players_playing G s
      → players_playing G s + 1 < 2 ^ 32
      → (remove_player G s k old).1
        ≡ crossing (ltb 0 s.playing_count) (ltb 0 (remove_player G s k old).0.playing_count)
  unfolding remove_player
  remove-crossing s k none e h bound = ground arith
  remove-crossing s k (some playing) e h bound = ground (arith, remove-count G laws s.players k)
  remove-crossing s k (some not_playing) e h bound = ground arith

  track-crossing :
      (s : MediaPlaybackTracker G) (c : TrackerCall)
      → s.playing_count ≡ players_playing G s
      → players_playing G s + 1 < 2 ^ 32
      → (track G s c).1
        ≡ crossing
            (media_playback_tracker_is_playing G s)
            (media_playback_tracker_is_playing G (track G s c).0)
  unfolding track media_playback_tracker_update media_playback_tracker_remove
      media_playback_tracker_is_playing
  track-crossing s (update none b) h bound = ground arith
  track-crossing s (update (some []) b) h bound = ground arith
  track-crossing s (update (some (c ∷ cs)) b) h bound = update-crossing s (c ∷ cs) b h bound
  track-crossing s (remove none) h bound = ground arith
  track-crossing s (remove (some k)) h bound =
      remove-crossing s k (G.lookup s.players k) refl h bound

  -- After fewer than 2 ^ 32 - 1 calls on a new tracker, the next call reports that playback has
  -- started exactly if no player of the table was playing and one is now, that all have stopped
  -- exactly if one was playing and none is now, and nothing otherwise; and the tracker says that it
  -- is playing exactly if some player of the table is, before and after the call.
  pub transition-eq-crossing :
      (cs : List TrackerCall) (c : TrackerCall)
      → length cs + 1 < 2 ^ 32
      → let s = run (after G) (media_playback_tracker_new G) cs in
        let s' = (track G s c).0 in
        ((track G s c).1 ≡ crossing (ltb 0 (players_playing G s)) (ltb 0 (players_playing G s')))
        × (media_playback_tracker_is_playing G s ≡ ltb 0 (players_playing G s))
        × (media_playback_tracker_is_playing G s' ≡ ltb 0 (players_playing G s'))
  unfolding media_playback_tracker_is_playing
  transition-eq-crossing cs c bound =
      let s = run (after G) (media_playback_tracker_new G) cs in
      let s' = (track G s c).0 in
      let (exact, few) = run-new G laws cs (omega arith) in
      let exact' = (after-exact G laws s c exact (omega arith)).0 in
      let was = ap (ltb 0) exact in
      let is = ap (ltb 0) exact' in
      (
        track-crossing s c exact (omega arith)
            ∙ ap (λ b. crossing b (ltb 0 s'.playing_count)) was
            ∙ ap (crossing (ltb 0 (players_playing G s))) is,
        was,
        is,
      )
