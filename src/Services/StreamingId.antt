-- ===== src/Services/StreamingId.antt =====
-- `StreamingId` of radio_server/services/station_id.py, the identifier of a streamed transmission, as
-- an implementation of the `TxIdentifier` that `TxSession` consults. It stamps its timer when it hands
-- ID audio out, before the audio has gone out; its encoder does not raise here.
pub mod Lost
use radio_server.Base.{ℕ, ◌-◌, Bool, true, false, Option, none, some, leb, if◌then◌else◌, ◌&&◌}
use radio_server.Services.StationId.{due_at}
use radio_server.Tx.Session.{Audio, IdReply, silent, id_audio, TxIdentifier}

pub record StreamingId : Type 0 where
  pub last_id : Option ℕ
  pub transmitted : Bool

abbrev pub new : StreamingId
new = record { last_id = none; transmitted = false }

module _ (interval : ℕ) (id_frame : Audio) where
  -- The ID and the stamp, if an ID is due.
  abbrev pub stamp_if : Bool → ℕ → StreamingId → IdReply × StreamingId
  stamp_if due now s =
      if due then (id_audio id_frame, record s { last_id = some now }) else (silent, s)

  unfoldable pub key_up_id : ℕ → StreamingId → IdReply × StreamingId
  key_up_id now s = stamp_if (due_at interval now s.last_id) now (record s { transmitted = true })

  unfoldable pub periodic_id : ℕ → StreamingId → IdReply × StreamingId
  periodic_id now s = stamp_if (due_at interval now s.last_id) now s

  unfoldable pub sign_off_id : ℕ → StreamingId → IdReply × StreamingId
  sign_off_id now s = stamp_if (s.transmitted && due_at interval now s.last_id) now s

  abbrev pub identifier : TxIdentifier StreamingId
  identifier = record {
    key_up_id = key_up_id;
    periodic_id = periodic_id;
    sign_off_id = sign_off_id;
  }
