-- ===== src/Services/Examples.antt =====
-- The theorem about radio_server/services/station_id.py and radio_server/tx/session.py at a concrete
-- input.
use radio_server.Base.{◌≡◌, false, true, [], ◌∷◌, arith}
use radio_server.Services.StreamingId.{identifier}
use radio_server.Services.StreamingId.Lost.{starting, lost_key_up_id}
use radio_server.Tx.Session.{
  feed, returned, raised, radio_fault, line, sent, send_refused, key_edge, recorded, segment_ended,
}

lost_key_up_id_example :
    let tried = feed (identifier 600 (9 ∷ [])) 10 10 (1 ∷ 2 ∷ []) (starting 600 (9 ∷ []) false) in
    let next = feed (identifier 600 (9 ∷ [])) 12 12 (3 ∷ 4 ∷ []) tried.1 in
    (tried.0 ≡ raised radio_fault)
    × (next.0 ≡ returned)
    × (next.1.effects
        ≡ recorded (3 ∷ 4 ∷ [])
          ∷ sent (3 ∷ 4 ∷ [])
          ∷ key_edge true
          ∷ line true
          ∷ segment_ended
          ∷ key_edge false
          ∷ line false
          ∷ send_refused (9 ∷ [])
          ∷ key_edge true
          ∷ line true
          ∷ [])
lost_key_up_id_example =
    lost_key_up_id 600 (9 ∷ []) 10 10 12 12 (1 ∷ 2 ∷ []) (3 ∷ 4 ∷ []) (omega arith) (omega arith)
      (omega arith) (omega arith) (omega arith) (omega arith)
