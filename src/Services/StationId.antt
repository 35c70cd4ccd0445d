-- ===== src/Services/StationId.antt =====
-- `StationId` of radio_server/services/station_id.py: the seam through which a service's audio goes
-- out with a station ID when one is due. Times are ticks of the injected clock; `id_frame` is what
-- the encoder renders for the callsign. The radio may raise at any call: `faults` says what its next
-- calls do, as a list that is `false` past its end. `overs` lists what went out, newest first.
pub mod Identified
mod Examples
use radio_server.Base.{
  ℕ, ◌-◌, Bool, true, false, ◌&&◌, List, [], ◌∷◌, ◌++◌, Option, none, some, leb, if◌then◌else◌,
}

abbrev pub Audio : Type 0
Audio = List ℕ

-- One over as the radio took it: when, and what.
pub record Over : Type 0 where
  pub at : ℕ
  pub audio : Audio

pub record StationId : Type 0 where
  pub transmitted_this_session : Bool
  pub last_id : Option ℕ
  pub faults : List Bool
  pub overs : List Over

abbrev pub new : List Bool → StationId
new faults = record {
  transmitted_this_session = false;
  last_id = none;
  faults = faults;
  overs = [];
}

-- `raised` is the radio's exception, which every method lets through.
pub data Reply : Type 0 where
  returned : Bool → Reply
  raised : Reply

abbrev pub faulty : List Bool → Bool
faulty [] = false
faulty (b ∷ bs) = b

abbrev pub later_faults : List Bool → List Bool
later_faults [] = []
later_faults (b ∷ bs) = bs

-- `radio.transmit(audio)`: whether it returned.
unfoldable pub send : Over → StationId → Bool × StationId
send o s =
    if faulty s.faults
    then (false, record s { faults = later_faults s.faults })
    else (true, record s { faults = later_faults s.faults; overs = o ∷ s.overs })

abbrev pub due_at : ℕ → ℕ → Option ℕ → Bool
due_at interval now none = true
due_at interval now (some t) = leb interval (now - t)

-- `_reset`
abbrev pub reset : StationId → StationId
reset s = record s { transmitted_this_session = false; last_id = none }

-- What a method does once the radio has returned.
abbrev pub settle : (StationId → StationId) → Bool × StationId → Reply × StationId
settle f (true, s) = (returned true, f s)
settle f (false, s) = (raised, s)

module _ (interval : ℕ) (id_frame : Audio) where
  -- `_due`
  unfoldable pub due : ℕ → StationId → Bool
  due now s = due_at interval now s.last_id

  -- What `transmit` hands to the radio.
  abbrev pub over : ℕ → Audio → Bool → Over
  over now audio identified = record {
    at = now;
    audio = if identified then id_frame ++ audio else audio;
  }

  unfoldable pub transmit : ℕ → Audio → StationId → Reply × StationId
  unfolding due
  transmit now audio s =
      let identified = due now s in
      settle
        (λ s'. record s' {
          last_id = if identified then some now else s'.last_id;
          transmitted_this_session = true;
        })
        (send (over now audio identified) s)

  abbrev pub id_over : ℕ → Over
  id_over now = record { at = now; audio = id_frame }

  unfoldable pub identify : ℕ → StationId → Reply × StationId
  identify now s =
      settle (λ s'. record s' { last_id = some now; transmitted_this_session = true })
        (send (id_over now) s)

  unfoldable pub check : ℕ → StationId → Reply × StationId
  unfolding due
  check now s =
      if s.transmitted_this_session && due now s
      then settle (λ s'. record s' { last_id = some now }) (send (id_over now) s)
      else (returned false, s)

  unfoldable pub sign_off : ℕ → StationId → Reply × StationId
  sign_off now s =
      if s.transmitted_this_session
      then settle reset (send (id_over now) s)
      else (returned false, reset s)

unfoldable pub begin_session : StationId → StationId
begin_session s = reset s
