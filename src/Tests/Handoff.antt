-- ===== src/Tests/Handoff.antt =====
-- The handoff policy at concrete inputs.
use earport_handoff.Base.{true, false, ◌≡◌, refl, ◌↔◌, List, [], ◌∷◌}
use earport_handoff.Base.Trace.{run, Since}
use earport_handoff.Handoff.{
  no_source, local, remote, handoff_policy_is_yielded, handoff_policy_has_confirmed_linux_source,
}
use earport_handoff.Handoff.Owner.{
  Notice, remote_request, linux_claim, source, notify, fresh, confirms, leaves_confirmed,
  confirmed_iff,
}

-- A phone takes the AirPods, and Linux claims them back; the packets then confirm it.
abbrev taken_back : List Notice
taken_back =
    source local
    ∷ remote_request
    ∷ source remote
    ∷ linux_claim
    ∷ source no_source
    ∷ source local
    ∷ []

not_yielded : handoff_policy_is_yielded (run notify fresh taken_back) ≡ false
unfolding notify handoff_policy_is_yielded
not_yielded = refl

confirmed_iff_example :
    (handoff_policy_has_confirmed_linux_source (run notify fresh taken_back) ≡ true)
    ↔ Since confirms leaves_confirmed taken_back
confirmed_iff_example = confirmed_iff taken_back
