-- ===== src/Tracker/Playing.antt =====
-- What the tracker answers about one player, against the reports of that player.
use earport_handoff.Base.{
  ◌≡◌, refl, sym, ap, ◌∙◌, inl, inr, Bool, true, false, ◌&&◌, Option, none, some, List, [], ◌∷◌,
  arith, count, bytes_equal, bytes_equal-eq, if◌then◌else◌, Bool-cases,
}
use earport_handoff.Base.Text.{Bytes}
use earport_handoff.Base.Trace.{run}
use earport_handoff.Tracker.{
  Player, playing, not_playing, is_playing, MediaPlaybackTracker, media_playback_tracker_new,
  media_playback_tracker_update, media_playback_tracker_remove,
  media_playback_tracker_player_is_playing, media_playback_tracker_dup_playing_ids, playing_ids,
  update_player, remove_player, found_playing, unchanged, player_value,
}
use earport_handoff.HashTable.{StringTable, StringTableLaws, has_key, find, without}
use earport_handoff.Tracker.Counting.{
  plays, one_if, TrackerCall, update, remove, track, after, lookup-count,
}

abbrev pub plays_as : Bytes → Bytes × Player → Bool
plays_as k e = has_key k e && plays e

without-same : (k : Bytes) (es : List (Bytes × Player)) → count (plays_as k) (without k es) ≡ 0
without-same k [] = refl
without-same k ((key, value) ∷ es) = ground (arith, without-same k es)

without-other :
    (j k : Bytes) (es : List (Bytes × Player))
    → bytes_equal j k ≡ false
    → count (plays_as k) (without j es) ≡ count (plays_as k) es
without-other j k [] h = refl
without-other j k ((key, value) ∷ es) h = elim (Bool-cases (bytes_equal key j)) [
  | inl same ↦
      let away : bytes_equal key k ≡ false =
        ap (λ n. bytes_equal n k) (bytes_equal-eq key j same) ∙ h in
      ground (arith, without-other j k es h)
  | inr other ↦ ground (arith, without-other j k es h)
]

ids-count :
    (k : Bytes) (es : List (Bytes × Player))
    → count (λ j. bytes_equal j k) (playing_ids es) ≡ count (plays_as k) es
unfolding playing_ids
ids-count k [] = refl
ids-count k ((key, value) ∷ es) = ground (arith, ids-count k es)

-- the latest report of the player, and false after its removal
abbrev pub reported : Bytes → Bool → TrackerCall → Bool
reported k was (update none b) = was
reported k was (update (some []) b) = was
reported k was (update (some (c ∷ cs)) b) = if bytes_equal (c ∷ cs) k then b else was
reported k was (remove none) = was
reported k was (remove (some j)) = if bytes_equal j k then false else was

module _ (G : StringTable Player) (laws : StringTableLaws G) where
  plays_in : G.Table → Bytes → Bool
  plays_in t k = found_playing (G.lookup t k)

  plays_in-replace :
      (t : G.Table) (j k : Bytes) (v : Player)
      → plays_in (G.replace t j v) k ≡ (if bytes_equal j k then is_playing v else plays_in t k)
  unfolding plays_in
  plays_in-replace t j k v = elim (Bool-cases (bytes_equal j k)) [
    | inl same ↦
        let e = bytes_equal-eq j k same in
        let gone : count (plays_as k) (without j (G.entries t)) ≡ 0 =
          ap (λ n. count (plays_as k) (without n (G.entries t))) e ∙ without-same k (G.entries t) in
        ground
          (arith, lookup-count G laws (G.replace t j v) k, laws.entries-replace t j v (plays_as k))
    | inr other ↦ ground (
      arith,
      lookup-count G laws (G.replace t j v) k,
      lookup-count G laws t k,
      laws.entries-replace t j v (plays_as k),
      without-other j k (G.entries t) other,
    )
  ]

  plays_in-remove :
      (t : G.Table) (j k : Bytes)
      → plays_in (G.remove t j) k ≡ (if bytes_equal j k then false else plays_in t k)
  unfolding plays_in
  plays_in-remove t j k = elim (Bool-cases (bytes_equal j k)) [
    | inl same ↦
        let e = bytes_equal-eq j k same in
        let gone : count (plays_as k) (without j (G.entries t)) ≡ 0 =
          ap (λ n. count (plays_as k) (without n (G.entries t))) e ∙ without-same k (G.entries t) in
        ground (arith, lookup-count G laws (G.remove t j) k, laws.entries-remove t j (plays_as k))
    | inr other ↦ ground (
      arith,
      lookup-count G laws (G.remove t j) k,
      lookup-count G laws t k,
      laws.entries-remove t j (plays_as k),
      without-other j k (G.entries t) other,
    )
  ]

  plays_in-key : (t : G.Table) (j k : Bytes) → bytes_equal j k ≡ true → plays_in t j ≡ plays_in t k
  plays_in-key t j k h = ap (plays_in t) (bytes_equal-eq j k h)

  unchanged-plays :
      (old : Option Player) (b : Bool) → unchanged old b ≡ true → found_playing old ≡ b
  unchanged-plays none b h = cc
  unchanged-plays (some playing) b h = sym h
  unchanged-plays (some not_playing) b h = ground arith

  update-reported :
      (s : MediaPlaybackTracker G) (j k : Bytes) (b : Bool)
      → plays_in (update_player G s j b).0.players k
        ≡ (if bytes_equal j k then b else plays_in s.players k)
  unfolding update_player plays_in
  update-reported s j k b = ground (
    arith,
    plays_in-replace s.players j k (player_value b),
    plays_in-key s.players j k,
    unchanged-plays (G.lookup s.players j) b,
  )

  remove-reported :
      (s : MediaPlaybackTracker G) (j k : Bytes) (old : Option Player)
      → G.lookup s.players j ≡ old
      → plays_in (remove_player G s j old).0.players k
        ≡ (if bytes_equal j k then false else plays_in s.players k)
  unfolding remove_player plays_in
  remove-reported s j k none e = ground (arith, plays_in-key s.players j k)
  remove-reported s j k (some playing) e = ground (arith, plays_in-remove s.players j k)
  remove-reported s j k (some not_playing) e = ground (arith, plays_in-remove s.players j k)

  after-reported :
      (s : MediaPlaybackTracker G) (k : Bytes) (c : TrackerCall)
      → plays_in (after G s c).players k ≡ reported k (plays_in s.players k) c
  unfolding track media_playback_tracker_update media_playback_tracker_remove
  after-reported s k (update none b) = refl
  after-reported s k (update (some []) b) = refl
  after-reported s k (update (some (c ∷ cs)) b) = update-reported s (c ∷ cs) k b
  after-reported s k (remove none) = refl
  after-reported s k (remove (some j)) = remove-reported s j k (G.lookup s.players j) refl

  run-reported :
      (cs : List TrackerCall) (s : MediaPlaybackTracker G) (k : Bytes)
      → plays_in (run (after G) s cs).players k ≡ run (reported k) (plays_in s.players k) cs
  run-reported [] s k = refl
  run-reported (c ∷ cs) s k =
      run-reported cs (after G s c) k ∙ ap (λ b. run (reported k) b cs) (after-reported s k c)

  new-plays : (k : Bytes) → plays_in (media_playback_tracker_new G).players k ≡ false
  unfolding plays_in media_playback_tracker_new
  new-plays k =
      ap found_playing (laws.lookup-find G.new k)
      ∙ ap (λ es. found_playing (find k es)) laws.entries-new

  -- After any calls on a new tracker, a player plays exactly if its latest report says so, and it
  -- has not been removed since. Reports without a name are no reports.
  pub player_is_playing-reported :
      (cs : List TrackerCall) (k : Bytes)
      → media_playback_tracker_player_is_playing G
          (run (after G) (media_playback_tracker_new G) cs)
          (some k)
        ≡ run (reported k) false cs
  unfolding media_playback_tracker_player_is_playing plays_in
  player_is_playing-reported cs k =
      run-reported cs (media_playback_tracker_new G) k
      ∙ ap (λ b. run (reported k) b cs) (new-plays k)

  -- In every tracker, the list of playing players holds each player that plays exactly once, and
  -- no other.
  pub dup_playing_ids-count :
      (s : MediaPlaybackTracker G) (k : Bytes)
      → count (λ j. bytes_equal j k) (media_playback_tracker_dup_playing_ids G s)
        ≡ one_if (media_playback_tracker_player_is_playing G s (some k))
  unfolding media_playback_tracker_dup_playing_ids media_playback_tracker_player_is_playing
  dup_playing_ids-count s k = ids-count k (G.entries s.players) ∙ lookup-count G laws s.players k
