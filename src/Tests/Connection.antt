-- ===== src/Tests/Connection.antt =====
-- The connection policy at concrete inputs.
use earport_handoff.Base.{◌≡◌, refl, true, false, some, List, [], ◌∷◌}
use earport_handoff.Base.Text.{CString, codes}
use earport_handoff.Base.Trace.{Since}
use earport_handoff.Connection.{
  RemovalLifecycle, airpods_address_equal, removal_lifecycle_note_disconnected,
  removal_lifecycle_mark, removal_lifecycle_note_wear,
}
use earport_handoff.Connection.Lifecycle.{
  LifecycleCall, mark, note_disconnected, note_wear, lifecycle_call, phase, phase_call, answers,
  answers_refine,
}
use earport_handoff.Connection.Cycle.{
  empty, marks, keeps_pending, worn_again, keeps_rewear, reconnect_needs,
}

abbrev mine : CString
mine = some (codes "AA:BB:CC:DD:EE:0f")

abbrev mine_upper : CString
mine_upper = some (codes "aa:bb:cc:dd:ee:0F")

abbrev other : CString
other = some (codes "11:22:33:44:55:66")

-- taken off, and put on again before BlueZ has disconnected
abbrev rewear : List LifecycleCall
rewear = mark mine ∷ note_wear mine_upper true false ∷ []

answers-rewear :
    answers lifecycle_call empty
      (mark mine ∷ note_wear mine_upper true false ∷ note_disconnected mine ∷ [])
    ≡ false ∷ false ∷ true ∷ []
unfolding lifecycle_call removal_lifecycle_mark removal_lifecycle_note_wear
    removal_lifecycle_note_disconnected airpods_address_equal
answers-rewear = refl

answers_refine_example :
    answers lifecycle_call empty rewear ≡ answers phase_call (phase empty) rewear
answers_refine_example = answers_refine rewear empty

reconnect_needs_example :
    Since (marks mine) (keeps_pending mine) rewear
    × Since (worn_again mine) (keeps_rewear mine) rewear
unfolding lifecycle_call removal_lifecycle_mark removal_lifecycle_note_wear
    removal_lifecycle_note_disconnected airpods_address_equal
reconnect_needs_example = reconnect_needs mine rewear refl

abbrev marked : RemovalLifecycle
marked = record {
  address = mine;
  disconnect_pending = true;
  reworn_while_disconnect_pending = false;
}
