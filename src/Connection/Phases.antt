-- ===== src/Connection/Phases.antt =====
-- The abstract removal cycle: which device is being disconnected because it was taken off, and
-- what is known of it. Addresses are in one case.
use earport_handoff.Base.{Bool, true, false, not, Option, none, some, bytes_equal, if◌then◌else◌}
use earport_handoff.Base.Text.{Bytes}

-- No cycle; a Disconnect that is not answered yet; the same, and the device worn again since;
-- the device disconnected.
pub data Phase : Type 0 where
  idle : Phase
  removing reworn gone : Bytes → Phase

abbrev pub subject : Phase → Option Bytes
subject idle = none
subject (removing a) = some a
subject (reworn a) = some a
subject (gone a) = some a

abbrev pub is_subject : Phase → Option Bytes → Bool
is_subject p none = false
is_subject idle (some b) = false
is_subject (removing a) (some b) = bytes_equal a b
is_subject (reworn a) (some b) = bytes_equal a b
is_subject (gone a) (some b) = bytes_equal a b

abbrev pub mark : Option Bytes → Phase
mark none = idle
mark (some a) = removing a

abbrev pub connected : Phase → Option Bytes → Phase × Bool
connected p a = if is_subject p a then (p, true) else (idle, false)

-- the answer to the Disconnect: connect again at once if the device is worn again
abbrev pub end_removal : Phase → Phase × Bool
end_removal idle = (idle, false)
end_removal (removing a) = (gone a, false)
end_removal (reworn a) = (gone a, true)
end_removal (gone a) = (gone a, false)

abbrev pub disconnected : Phase → Option Bytes → Phase × Bool
disconnected p a = if is_subject p a then end_removal p else (p, false)

abbrev pub put_on : Phase → Phase × Bool
put_on idle = (idle, false)
put_on (removing a) = (reworn a, false)
put_on (reworn a) = (reworn a, false)
put_on (gone a) = (idle, true)

abbrev pub taken_off : Phase → Phase × Bool
taken_off (reworn a) = (removing a, false)
taken_off p = (p, false)

-- a wear report of another device ends the cycle, and one without an address is ignored
abbrev pub other_wear : Phase → Option Bytes → Phase
other_wear p none = p
other_wear p (some b) = idle

abbrev pub wear : Phase → Option Bytes → Bool → Phase × Bool
wear p a worn =
    if not (is_subject p a) then (other_wear p a, false) else if worn then put_on p else taken_off p
