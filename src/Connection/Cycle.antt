-- ===== src/Connection/Cycle.antt =====
-- What has happened before the daemon connects a device again, over every sequence of calls.
use earport_handoff.Base.{
  ◌≡◌, refl, ◌⊎◌, inl, inr, Bool, true, false, not, ◌&&◌, ◌||◌, none, List, arith,
}
use earport_handoff.Base.Text.{CString}
use earport_handoff.Base.Trace.{run, Since, Explains, flag-Since}
use earport_handoff.Connection.{
  RemovalLifecycle, address_is_valid, airpods_address_equal, removal_lifecycle_clear,
  removal_lifecycle_mark, removal_lifecycle_matches, removal_lifecycle_note_connected,
  removal_lifecycle_note_disconnected, removal_lifecycle_note_wear,
}
use earport_handoff.Connection.Address.{address_equal_symm, address_equal_trans}
use earport_handoff.Connection.Lifecycle.{
  LifecycleCall, mark, clear, note_connected, note_disconnected, note_wear, lifecycle_call,
}

abbrev pub empty : RemovalLifecycle
empty = record {
  address = none;
  disconnect_pending = false;
  reworn_while_disconnect_pending = false;
}

abbrev pub after_call : RemovalLifecycle → LifecycleCall → RemovalLifecycle
after_call l c = (lifecycle_call l c).0

-- The device is reported worn.
abbrev pub worn_again : CString → LifecycleCall → Bool
worn_again a (note_wear b left right) = airpods_address_equal b a && (left || right)
worn_again a _ = false

-- A call that can leave the device's pending disconnect, and that it was put on again since.
abbrev pub keeps_rewear : CString → LifecycleCall → Bool
keeps_rewear a (note_connected b) = airpods_address_equal b a
keeps_rewear a (note_disconnected b) = not (airpods_address_equal b a)
keeps_rewear a (note_wear b left right) =
    not (address_is_valid b) || (airpods_address_equal b a && (left || right))
keeps_rewear a _ = false

abbrev reconnects : CString → RemovalLifecycle → Bool
reconnects a l = (removal_lifecycle_note_disconnected l a).1

same_device :
    (l : RemovalLifecycle) (a b : CString)
    → airpods_address_equal l.address a ≡ true
    → airpods_address_equal l.address b ≡ true
    → airpods_address_equal b a ≡ true
same_device l a b h k = address_equal_trans b l.address a (address_equal_symm l.address b k) h

other_device :
    (l : RemovalLifecycle) (a b : CString)
    → airpods_address_equal l.address a ≡ true
    → airpods_address_equal b a ≡ true
    → airpods_address_equal l.address b ≡ true
other_device l a b h k = address_equal_trans l.address a b h (address_equal_symm b a k)

reconnect-Explains :
    (a : CString) → Explains after_call (reconnects a) (worn_again a) (keeps_rewear a)
unfolding lifecycle_call removal_lifecycle_note_disconnected removal_lifecycle_clear
    removal_lifecycle_mark removal_lifecycle_note_connected removal_lifecycle_note_wear
reconnect-Explains a l (mark b) h = ground arith
reconnect-Explains a l clear h = ground arith
reconnect-Explains a l (note_connected b) h = ground (arith, same_device l a b)
reconnect-Explains a l (note_disconnected b) h =
    ground (arith, same_device l a b, other_device l a b)
reconnect-Explains a l (note_wear b left right) h = ground (arith, same_device l a b)

-- The device is marked for removal.
abbrev pub marks : CString → LifecycleCall → Bool
marks a (mark b) = airpods_address_equal b a
marks a _ = false

-- A call that can leave the device's disconnect pending.
abbrev pub keeps_pending : CString → LifecycleCall → Bool
keeps_pending a (mark b) = airpods_address_equal b a
keeps_pending a clear = false
keeps_pending a (note_connected b) = airpods_address_equal b a
keeps_pending a (note_disconnected b) = not (airpods_address_equal b a)
keeps_pending a (note_wear b left right) = not (address_is_valid b) || airpods_address_equal b a

abbrev is_pending : CString → RemovalLifecycle → Bool
is_pending a l = l.disconnect_pending && airpods_address_equal l.address a

pending-Explains : (a : CString) → Explains after_call (is_pending a) (marks a) (keeps_pending a)
unfolding lifecycle_call removal_lifecycle_note_disconnected removal_lifecycle_clear
    removal_lifecycle_mark removal_lifecycle_note_connected removal_lifecycle_note_wear
pending-Explains a l (mark b) h = ground (arith, same_device l a b)
pending-Explains a l clear h = ground arith
pending-Explains a l (note_connected b) h = ground (arith, same_device l a b)
pending-Explains a l (note_disconnected b) h = ground (arith, same_device l a b, other_device l a b)
pending-Explains a l (note_wear b left right) h = ground (arith, same_device l a b)

reconnects-is_pending :
    (a : CString) (l : RemovalLifecycle) → reconnects a l ≡ true → is_pending a l ≡ true
unfolding removal_lifecycle_note_disconnected
reconnects-is_pending a l h = ground arith

-- After any calls from an empty lifecycle, a disconnection of a device asks for a reconnection
-- only if the device was marked for removal, and since then no other device was marked, connected
-- or worn, the device was not disconnected, and the lifecycle was not cleared; and only if the
-- device was reported worn, and since then it was neither taken off nor disconnected, no device
-- was marked, no other was connected or worn, and the lifecycle was not cleared.
pub reconnect_needs :
    (a : CString) (cs : List LifecycleCall)
    → (removal_lifecycle_note_disconnected (run after_call empty cs) a).1 ≡ true
    → Since (marks a) (keeps_pending a) cs × Since (worn_again a) (keeps_rewear a) cs
unfolding removal_lifecycle_note_disconnected airpods_address_equal
reconnect_needs a cs h = (
  flag-Since after_call (is_pending a) (marks a) (keeps_pending a) (pending-Explains a) empty cs
      refl (reconnects-is_pending a (run after_call empty cs) h),
  flag-Since after_call (reconnects a) (worn_again a) (keeps_rewear a) (reconnect-Explains a) empty
      cs refl h,
)

none_equal : (a : CString) → airpods_address_equal none a ≡ false
unfolding airpods_address_equal
none_equal a = refl

-- After a connection, or a wear report with a valid address, the lifecycle matches no device but
-- that one: the ownership of a removal never passes to another pair.
pub matches_only :
    (l : RemovalLifecycle) (a b : CString) (left right : Bool)
    → (removal_lifecycle_matches (removal_lifecycle_note_connected l b).0 a ≡ true)
      ⊎ ((address_is_valid b ≡ true)
          × (removal_lifecycle_matches (removal_lifecycle_note_wear l b left right).0 a ≡ true))
    → airpods_address_equal b a ≡ true
unfolding removal_lifecycle_note_connected removal_lifecycle_note_wear removal_lifecycle_matches
    removal_lifecycle_clear
matches_only l a b left right (inl h) = ground (arith, same_device l a b, none_equal a)
matches_only l a b left right (inr (v, h)) = ground (arith, same_device l a b, none_equal a)
