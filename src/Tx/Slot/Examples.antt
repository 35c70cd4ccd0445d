-- ===== src/Tx/Slot/Examples.antt =====
-- The theorem about the talker slot of radio_server/tx/session.py at concrete inputs.
use radio_server.Base.{◌≡◌, List, [], ◌∷◌, some, false, none}
use radio_server.Tx.Slot.{new, count_of}
use radio_server.Tx.Slot.Exclusion.{Op, claim, free, run, owner, refusals, Holds, slot_exact}

abbrev claims : List Op
claims = claim (some "browser") 3 ∷ claim (some "mumble-relay") 4 ∷ free ∷ claim none 9 ∷ []

slot_exact_example :
    Holds (owner none claims) (run new claims)
    × (count_of "mumble-relay" (run new claims).refused ≡ refusals "mumble-relay" false claims)
slot_exact_example = slot_exact "mumble-relay" claims
