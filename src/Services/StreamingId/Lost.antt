-- ===== src/Services/StreamingId/Lost.antt =====
-- A key-up ID that the radio refuses, between radio_server/services/station_id.py and
-- radio_server/tx/session.py.
use radio_server.Base.{ℕ, ◌-◌, ◌<◌, ◌%◌, Bool, true, false, ◌≡◌, ◌≢◌, [], ◌∷◌, none, arith, length}
use radio_server.Arbiter
use radio_server.Arbiter.{RadioArbiter}
use radio_server.Services.StreamingId.{
  StreamingId, new, key_up_id, periodic_id, sign_off_id, identifier,
}
use radio_server.Tx.Session.{
  Audio, line, sent, send_refused, key_edge, recorded, segment_ended, TxSession, returned,
  radio_fault, raised, feed, key_up, close, identify, ptt, transmit, attempt,
}

module _ (interval : ℕ) (id_frame : Audio) where
  -- A session that never transmitted, on a radio that will take the key and then refuse one transmit.
  abbrev pub starting : Bool → TxSession StreamingId
  starting hook = record {
    keyed = false;
    last_active = none;
    arbiter = Arbiter.new hook;
    ident = new;
    faults = false ∷ true ∷ [];
    effects = [];
  }

  -- The key-up ID is refused by the radio, so the over is refused and unkeyed; yet the next over,
  -- less than an interval later, goes out with no ID: the only audio that ever reached the radio is
  -- that over's content.
  pub lost_key_up_id :
      (now later now' later' : ℕ) (first second : Audio)
      → length first % 2 ≡ 0
      → length first ≢ 0
      → length second % 2 ≡ 0
      → length second ≢ 0
      → later - now < interval
      → now' - now < interval
      → let tried = feed (identifier interval id_frame) now later first (starting false) in
        let next = feed (identifier interval id_frame) now' later' second tried.1 in
        (tried.0 ≡ raised radio_fault)
        × (next.0 ≡ returned)
        × (next.1.effects
            ≡ recorded second
              ∷ sent second
              ∷ key_edge true
              ∷ line true
              ∷ segment_ended
              ∷ key_edge false
              ∷ line false
              ∷ send_refused id_frame
              ∷ key_edge true
              ∷ line true
              ∷ [])
  unfolding feed key_up close identify ptt transmit attempt key_up_id periodic_id sign_off_id
      Arbiter.acquire_tx Arbiter.release_tx Arbiter.notify Arbiter.mode
  lost_key_up_id now later now' later' first second h1 h2 h3 h4 h5 h6 = ground arith
