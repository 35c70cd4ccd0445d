-- ===== src/Services/StationId/Examples.antt =====
-- The theorem about radio_server/services/station_id.py at a concrete run.
use radio_server.Base.{List, [], ◌∷◌}
use radio_server.Services.StationId.Identified.{Op, content, poll, end_session}

-- The second over is refused by the radio, so the ID of the third is still due.
abbrev evening : List Op
evening =
    content 5 (1 ∷ [])
    ∷ content 700 (2 ∷ [])
    ∷ content 705 (3 ∷ [])
    ∷ poll 900
    ∷ end_session 950
    ∷ []
