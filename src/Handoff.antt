-- ===== src/Handoff.antt =====
-- daemon/src/handoff_policy.c and handoff_policy.h: who owns the AirPods' audio. A policy object
-- is passed by value: its callers pass the address of a field of their own state, never NULL.
pub mod Owner
use earport_handoff.Base.{Bool, true, false}

pub data HandoffSource : Type 0 where
  no_source local remote : HandoffSource

pub record HandoffPolicy : Type 0 where
  pub yielded_to_remote : Bool
  pub confirmed_linux_source : Bool

unfoldable pub handoff_policy_reset : HandoffPolicy → HandoffPolicy
handoff_policy_reset policy = record policy {
  yielded_to_remote = false;
  confirmed_linux_source = false;
}

unfoldable pub handoff_policy_note_source : HandoffPolicy → HandoffSource → HandoffPolicy
handoff_policy_note_source policy remote = record policy {
  yielded_to_remote = true;
  confirmed_linux_source = false;
}
handoff_policy_note_source policy local = record policy {
  yielded_to_remote = false;
  confirmed_linux_source = true;
}
handoff_policy_note_source policy no_source = policy

unfoldable pub handoff_policy_note_remote_request : HandoffPolicy → HandoffPolicy
handoff_policy_note_remote_request policy = record policy {
  yielded_to_remote = true;
  confirmed_linux_source = false;
}

unfoldable pub handoff_policy_note_linux_claim : HandoffPolicy → HandoffPolicy
handoff_policy_note_linux_claim policy = record policy { yielded_to_remote = false }

unfoldable pub handoff_policy_is_yielded : HandoffPolicy → Bool
handoff_policy_is_yielded policy = policy.yielded_to_remote

unfoldable pub handoff_policy_has_confirmed_linux_source : HandoffPolicy → Bool
handoff_policy_has_confirmed_linux_source policy = policy.confirmed_linux_source
