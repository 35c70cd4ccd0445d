-- ===== src/Activity/Examples.antt =====
-- The theorems about the gates of radio_server/activity/gate.py at concrete inputs.
use radio_server.Base.{Bool, true, false, List, [], ◌∷◌, Option, none, some}
use radio_server.Activity.Level.{AudioLevelGate}

abbrev closed : AudioLevelGate
closed = record {
  on_threshold = 500;
  off_threshold = 300;
  hang = 5;
  is_open = false;
  active_until = none;
}

abbrev answers : List (Option Bool)
answers = some true ∷ none ∷ none ∷ some true ∷ []
