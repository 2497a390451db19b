-- ===== src/Tracker/Counting.antt =====
-- The tracker's count, against the players of its table.
use earport_handoff.Base.{
  ℕ, ◌+◌, ◌^◌, ◌≤◌, ◌<◌, ◌≡◌, refl, sym, ap, ◌∙◌, inl, inr, Bool, ◌&&◌, Option, none, some, List,
  [], ◌∷◌, arith, count, length, bytes_equal, if◌then◌else◌, Bool-cases,
}
use earport_handoff.Base.Text.{Bytes, CString}
use earport_handoff.Base.Trace.{run}
use earport_handoff.Tracker.{
  Player, playing, not_playing, is_playing, MediaPlaybackTracker, MediaPlaybackTransition,
  media_playback_tracker_new, media_playback_tracker_update, media_playback_tracker_remove,
  update_player, remove_player, found_playing, player_value,
}
use earport_handoff.HashTable.{StringTable, StringTableLaws, has_key, find, without}

abbrev pub plays : Bytes × Player → Bool
plays (key, value) = is_playing value

abbrev pub one_if : Bool → ℕ
one_if b = if b then 1 else 0

pub count-without :
    (test : Bytes × Player → Bool) (k : Bytes) (es : List (Bytes × Player))
    → count test (without k es) + count (λ e. has_key k e && test e) es ≡ count test es
count-without test k [] = omega arith
count-without test k ((key, value) ∷ es) = ground (arith, count-without test k es)

count-and_le :
    (test other : Bytes × Player → Bool) (es : List (Bytes × Player))
    → count (λ e. test e && other e) es ≤ count test es
count-and_le test other [] = omega arith
count-and_le test other (e ∷ es) = ground (arith, count-and_le test other es)

-- With at most one pair of a key, the pairs of playing ones with the key are the one found.
pub count-find :
    (k : Bytes) (es : List (Bytes × Player))
    → count (has_key k) es ≤ 1
    → count (λ e. has_key k e && plays e) es ≡ one_if (found_playing (find k es))
count-find k [] h = omega arith
count-find k ((key, value) ∷ es) h = elim (Bool-cases (bytes_equal key k)) [
  | inl same ↦ ground (arith, count-and_le (has_key k) plays es)
  | inr other ↦ ground (arith, count-find k es)
]

-- one call
pub data TrackerCall : Type 0 where
  update : CString → Bool → TrackerCall
  remove : CString → TrackerCall

module _ (G : StringTable Player) where
  unfoldable pub track :
      MediaPlaybackTracker G → TrackerCall → MediaPlaybackTracker G × MediaPlaybackTransition
  track tracker (update player_id now_playing) =
      media_playback_tracker_update G tracker player_id now_playing
  track tracker (remove player_id) = media_playback_tracker_remove G tracker player_id

  abbrev pub after : MediaPlaybackTracker G → TrackerCall → MediaPlaybackTracker G
  after tracker c = (track tracker c).0

  -- the players of the table that play
  abbrev pub players_playing : MediaPlaybackTracker G → ℕ
  players_playing tracker = count plays (G.entries tracker.players)

  module _ (laws : StringTableLaws G) where
    pub lookup-count :
        (t : G.Table) (k : Bytes)
        → count (λ e. has_key k e && plays e) (G.entries t) ≡ one_if (found_playing (G.lookup t k))
    lookup-count t k =
        count-find k (G.entries t) (laws.keys_distinct t k)
        ∙ ap (λ o. one_if (found_playing o)) (sym (laws.lookup-find t k))

    pub replace-count :
        (t : G.Table) (k : Bytes) (v : Player)
        → count plays (G.entries (G.replace t k v)) + one_if (found_playing (G.lookup t k))
          ≡ count plays (G.entries t) + one_if (is_playing v)
    replace-count t k v = omega (
      arith,
      laws.entries-replace t k v plays,
      count-without plays k (G.entries t),
      lookup-count t k,
    )

    pub remove-count :
        (t : G.Table) (k : Bytes)
        → count plays (G.entries (G.remove t k)) + one_if (found_playing (G.lookup t k))
          ≡ count plays (G.entries t)
    remove-count t k = omega (
      arith,
      laws.entries-remove t k plays,
      count-without plays k (G.entries t),
      lookup-count t k,
    )

    update-exact :
        (s : MediaPlaybackTracker G) (k : Bytes) (b : Bool)
        → s.playing_count ≡ players_playing s
        → players_playing s + 1 < 2 ^ 32
        → let s' = (update_player G s k b).0 in
          (s'.playing_count ≡ players_playing s') × (players_playing s' ≤ players_playing s + 1)
    unfolding update_player
    update-exact s k b h bound = ground (arith, replace-count s.players k (player_value b))

    remove-exact :
        (s : MediaPlaybackTracker G) (k : Bytes) (old : Option Player)
        → G.lookup s.players k ≡ old
        → s.playing_count ≡ players_playing s
        → players_playing s + 1 < 2 ^ 32
        → let s' = (remove_player G s k old).0 in
          (s'.playing_count ≡ players_playing s') × (players_playing s' ≤ players_playing s + 1)
    unfolding remove_player
    remove-exact s k none e h bound = omega arith
    remove-exact s k (some playing) e h bound = ground (arith, remove-count s.players k)
    remove-exact s k (some not_playing) e h bound = ground (arith, remove-count s.players k)

    pub after-exact :
        (s : MediaPlaybackTracker G) (c : TrackerCall)
        → s.playing_count ≡ players_playing s
        → players_playing s + 1 < 2 ^ 32
        → let s' = after s c in
          (s'.playing_count ≡ players_playing s') × (players_playing s' ≤ players_playing s + 1)
    unfolding track media_playback_tracker_update media_playback_tracker_remove
    after-exact s (update none b) h bound = omega arith
    after-exact s (update (some []) b) h bound = omega arith
    after-exact s (update (some (c ∷ cs)) b) h bound = update-exact s (c ∷ cs) b h bound
    after-exact s (remove none) h bound = omega arith
    after-exact s (remove (some k)) h bound = remove-exact s k (G.lookup s.players k) refl h bound

    run-exact :
        (cs : List TrackerCall) (s : MediaPlaybackTracker G)
        → s.playing_count ≡ players_playing s
        → players_playing s + length cs < 2 ^ 32
        → let s' = run after s cs in
          (s'.playing_count ≡ players_playing s')
          × (players_playing s' ≤ players_playing s + length cs)
    run-exact [] s h bound = (h, omega arith)
    run-exact (c ∷ cs) s h bound =
        let (exact, grows) = after-exact s c h (omega arith) in
        let (exact_later, grows_later) = run-exact cs (after s c) exact (omega arith) in
        (exact_later, omega arith)

    new-exact :
        (media_playback_tracker_new G).playing_count
        ≡ players_playing (media_playback_tracker_new G)
    unfolding media_playback_tracker_new
    new-exact = ap (count plays) (sym laws.entries-new)

    -- the count after calls on a new tracker, and how many players it can be
    pub run-new :
        (cs : List TrackerCall)
        → length cs < 2 ^ 32
        → let s = run after (media_playback_tracker_new G) cs in
          (s.playing_count ≡ players_playing s) × (players_playing s ≤ length cs)
    unfolding media_playback_tracker_new
    run-new cs bound =
        let none_yet = ap (count plays) laws.entries-new in
        let (exact, grows) = run-exact cs (media_playback_tracker_new G) new-exact (omega arith) in
        (exact, omega arith)

    -- After fewer than 2 ^ 32 calls on a new tracker, its count is the number of players that the
    -- table holds as playing: the count has wrapped neither up nor below zero.
    pub count_exact :
        (cs : List TrackerCall)
        → length cs < 2 ^ 32
        → let s = run after (media_playback_tracker_new G) cs in s.playing_count ≡ players_playing s
    count_exact cs bound = (run-new cs bound).0
