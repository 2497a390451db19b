-- ===== src/Handoff/Owner.antt =====
-- The policy's two flags over every history of calls, against the last decisive call.
use earport_handoff.Base.{Bool, true, false, ◌&&◌, ◌||◌, ◌≡◌, refl, ◌↔◌, List, [], ◌∷◌, arith}
use earport_handoff.Base.Trace.{run, Since, flag-run_iff}
use earport_handoff.Handoff.{
  HandoffSource, no_source, local, remote, HandoffPolicy, handoff_policy_reset,
  handoff_policy_note_source, handoff_policy_note_remote_request, handoff_policy_note_linux_claim,
  handoff_policy_is_yielded, handoff_policy_has_confirmed_linux_source,
}

-- one call of the policy
pub data Notice : Type 0 where
  reset remote_request linux_claim : Notice
  source : HandoffSource → Notice

unfoldable pub notify : HandoffPolicy → Notice → HandoffPolicy
unfolding handoff_policy_reset handoff_policy_note_remote_request handoff_policy_note_linux_claim
    handoff_policy_note_source
notify policy reset = handoff_policy_reset policy
notify policy remote_request = handoff_policy_note_remote_request policy
notify policy linux_claim = handoff_policy_note_linux_claim policy
notify policy (source s) = handoff_policy_note_source policy s

abbrev pub fresh : HandoffPolicy
fresh = record { yielded_to_remote = false; confirmed_linux_source = false }

-- Another host has asked for the AirPods, or plays on them.
abbrev pub yields : Notice → Bool
yields remote_request = true
yields (source remote) = true
yields _ = false

-- The call says nothing of who has the AirPods.
abbrev pub leaves_yielded : Notice → Bool
leaves_yielded (source no_source) = true
leaves_yielded (source remote) = true
leaves_yielded remote_request = true
leaves_yielded _ = false

abbrev pub confirms : Notice → Bool
confirms (source local) = true
confirms _ = false

-- A claim is only a request, and a source of none is transient: both leave the confirmation.
abbrev pub leaves_confirmed : Notice → Bool
leaves_confirmed linux_claim = true
leaves_confirmed (source no_source) = true
leaves_confirmed (source local) = true
leaves_confirmed _ = false

yielded-notify :
    (p : HandoffPolicy) (n : Notice)
    → handoff_policy_is_yielded (notify p n)
      ≡ (yields n || (leaves_yielded n && handoff_policy_is_yielded p))
unfolding notify handoff_policy_is_yielded
yielded-notify p (source s) = ground arith
yielded-notify p reset = refl
yielded-notify p n = ground arith

confirmed-notify :
    (p : HandoffPolicy) (n : Notice)
    → handoff_policy_has_confirmed_linux_source (notify p n)
      ≡ (confirms n || (leaves_confirmed n && handoff_policy_has_confirmed_linux_source p))
unfolding notify handoff_policy_has_confirmed_linux_source
confirmed-notify p (source s) = ground arith
confirmed-notify p reset = refl
confirmed-notify p n = ground arith

-- After any sequence of calls from a fresh policy, the policy is yielded exactly if some call was
-- a remote request or a remote source, and no later call was a reset, a claim or a local source.
pub yielded_iff :
    (ns : List Notice)
    → (handoff_policy_is_yielded (run notify fresh ns) ≡ true) ↔ Since yields leaves_yielded ns
unfolding handoff_policy_is_yielded
yielded_iff ns =
    flag-run_iff notify handoff_policy_is_yielded yields leaves_yielded yielded-notify fresh ns refl

-- After any sequence of calls from a fresh policy, Linux is the confirmed source exactly if some
-- call was a local source, and each later one was a local source, a source of none or a claim:
-- a claim alone never confirms, and a source of none never clears.
pub confirmed_iff :
    (ns : List Notice)
    → (handoff_policy_has_confirmed_linux_source (run notify fresh ns) ≡ true)
      ↔ Since confirms leaves_confirmed ns
unfolding handoff_policy_has_confirmed_linux_source
confirmed_iff ns =
    flag-run_iff notify handoff_policy_has_confirmed_linux_source confirms leaves_confirmed
      confirmed-notify fresh ns refl

notify-exclusive :
    (p : HandoffPolicy) (n : Notice)
    → (handoff_policy_is_yielded p && handoff_policy_has_confirmed_linux_source p) ≡ false
    → (handoff_policy_is_yielded (notify p n)
        && handoff_policy_has_confirmed_linux_source (notify p n))
      ≡ false
unfolding notify handoff_policy_is_yielded handoff_policy_has_confirmed_linux_source
notify-exclusive p (source s) h = ground arith
notify-exclusive p reset h = refl
notify-exclusive p n h = ground arith

-- A policy that is not both yielded and confirmed never becomes so, whatever calls follow.
pub run-exclusive :
    (ns : List Notice) (p : HandoffPolicy)
    → (handoff_policy_is_yielded p && handoff_policy_has_confirmed_linux_source p) ≡ false
    → (handoff_policy_is_yielded (run notify p ns)
        && handoff_policy_has_confirmed_linux_source (run notify p ns))
      ≡ false
run-exclusive [] p h = h
run-exclusive (n ∷ ns) p h = run-exclusive ns (notify p n) (notify-exclusive p n h)
