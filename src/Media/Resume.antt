-- ===== src/Media/Resume.antt =====
-- Which players a resume plays, and what a pause leaves for it.
use earport_handoff.Base.{
  ℕ, ◌+◌, ◌≡◌, ap, ◌∙◌, inl, inr, Bool, true, false, not, ◌&&◌, some, List, [], ◌∷◌, ◌++◌, arith,
  count, bytes_equal, bytes_equal-eq, if◌then◌else◌, Bool-cases,
}
use earport_handoff.Base.Text.{Bytes, is_nonempty}
use earport_handoff.HashTable.{StringTable, StringTableLaws}
use earport_handoff.Tracker.{Player}
use earport_handoff.Media.{
  is_pause, Effect, call, Pauses, MediaControl, pause_reason_contains, queue_mpris_method,
  player_play_async, play_targets, dup_pause_targets, media_control_resume, add_unseen, keys,
}
use earport_handoff.Media.Lists.{
  occurrences, one_if, contains-occurrences, contains-add_unseen, add_unseen-le, contains-keys,
}

-- a Play call of the player
abbrev pub plays : Bytes → Effect → Bool
plays k (call operation) = not (is_pause operation.action) && bytes_equal operation.player_name k
plays k _ = false

-- whether a call to the player is sent
abbrev pub reaches : Bool → Bytes → Bool
reaches disposed k = not disposed && is_nonempty (some k)

pub count-append :
    {A : Type 0} (p : A → Bool) (l m : List A) → count p (l ++ m) ≡ count p l + count p m
count-append p [] m = omega arith
count-append p (a ∷ l) m = omega (arith, count-append p l m)

pub same_key : {B : Type 0} (f : Bytes → B) (n k : Bytes) → bytes_equal n k ≡ true → f n ≡ f k
same_key f n k h = ap f (bytes_equal-eq n k h)

module _ (G : StringTable Player) (P : StringTable ℕ) where
  pub play_async-count :
      (mc : MediaControl G P) (n k : Bytes)
      → count (plays k) (player_play_async G P mc n)
        ≡ one_if (reaches mc.disposed k && bytes_equal n k)
  unfolding player_play_async queue_mpris_method
  play_async-count mc n k = ground (arith, same_key (λ x. is_nonempty (some x)) n k)

  play_targets-count :
      (mc : MediaControl G P) (k : Bytes) (targets : List Bytes)
      → count (plays k) (play_targets G P mc targets) ≡ (
          if reaches mc.disposed k && not (pause_reason_contains G P mc.handoff k)
          then occurrences k targets
          else 0)
  unfolding play_targets
  play_targets-count mc k [] = ground arith
  play_targets-count mc k (n ∷ targets) =
      let same = same_key (pause_reason_contains G P mc.handoff) n k in
      elim (Bool-cases (pause_reason_contains G P mc.handoff n)) [
        | inl held ↦ rw held (play_targets-count mc k targets ∙ ground arith)
        | inr free ↦ rw free (
            count-append (plays k) (player_play_async G P mc n) (play_targets G P mc targets)
            ∙ ground (arith, play_async-count mc n k, play_targets-count mc k targets))
      ]

  dup_pause_targets-count :
      StringTableLaws P
      → (p : Pauses G P) (k : Bytes)
      → occurrences k (dup_pause_targets G P p) ≡ one_if (pause_reason_contains G P p k)
  unfolding dup_pause_targets
  dup_pause_targets-count laws p k =
      let owned = add_unseen [] p.paused_players in
      let pending = keys (P.entries p.pending_pauses) in
      ground (
        arith,
        laws.lookup-find p.pending_pauses k,
        contains-keys (P.entries p.pending_pauses) k,
        contains-add_unseen pending owned k,
        contains-add_unseen p.paused_players [] k,
        contains-occurrences (add_unseen owned pending) k,
        add_unseen-le pending owned k (add_unseen-le p.paused_players [] k (omega arith)),
      )

  -- A resume sends exactly one Play to each player that is paused for a removal, its Pause answered
  -- or not, and that no handoff holds; it sends none to any other player, and none at all once the
  -- media control is freed.
  pub resume_plays :
      StringTableLaws P
      → (mc : MediaControl G P) (k : Bytes)
      → count (plays k) (media_control_resume G P mc).1
        ≡ one_if (
            reaches mc.disposed k
            && pause_reason_contains G P mc.ear k
            && not (pause_reason_contains G P mc.handoff k))
  unfolding media_control_resume
  resume_plays laws mc k =
      play_targets-count mc k (dup_pause_targets G P mc.ear)
      ∙ ground (arith, dup_pause_targets-count laws mc.ear k)
