-- ===== src/Controller/State.antt =====
-- What a `Controller` of radio_server/controller/engine.py holds and reports, and `_keying`.
use radio_server.Base.{
  ℕ, String, Bool, false, ◌||◌, List, [], ◌∷◌, Option, none, some, if◌then◌else◌, str_eq,
}
use radio_server.Auth.Gate.{Session, AuthGate}
use radio_server.Services.StationId.{Audio, StationId, Reply, returned, raised}

abbrev pub is_member : String → List String → Bool
is_member s [] = false
is_member s (t ∷ ts) = str_eq s t || is_member s ts

abbrev pub find : {A : Type 0} → String → List (String × A) → Option A
find s [] = none
find s ((t, a) ∷ ts) = if str_eq s t then some a else find s ts

-- What a failed call was to send.
pub data Keyed : Type 0 where
  announcement station_id service : Keyed

-- A ControllerEvent: its phase and what its data tells of it.
pub data Event : Type 0 where
  session_open auth_accepted auth_rejected id : Event
  session_close : (signed_off : Bool) → Event
  tx_failed : Keyed → Event
  ran : (name : String) → Event
  link : (entry : Option String) → Event

-- A registered service: its name, and what it renders.
abbrev pub Service : Type 0
Service = String × (Session → Audio)

-- What is fixed at construction: the gate's verifier, timeout and enforcement, the ID of the station,
-- the registry and the keypad map.
pub record Config (V : Type 0) : Type 0 where
  pub verify_and_burn : String → ℕ → V → Bool × V
  pub timeout : ℕ
  pub enforce : Bool
  pub interval : ℕ
  pub id_frame : Audio
  pub registry : List (String × Service)
  pub id_digits : List String
  pub logout_digits : List String
  pub link_digits : List (String × String)
  pub link_off_digits : List String
  pub link_audio : List (String × Audio)
  pub link_off_audio : Option Audio
  pub login_audio : Option Audio
  pub timeout_audio : Option Audio
  pub logout_audio : Option Audio

-- The gate. Calling the Dispatcher is the last thing that `on_dtmf` does, so the gate hands on the
-- digits here, and `dispatch` is called with them.
abbrev pub gate : {V : Type 0} → Config V → AuthGate V String
gate k = record {
  verify_and_burn = k.verify_and_burn;
  dispatch = λ digits s. (digits, s);
  timeout = k.timeout;
  enforce = k.enforce;
}

-- What the calls change: `events` and `links` list what the callbacks got, newest first.
pub record Controller (V : Type 0) : Type 0 where
  pub session : Session
  pub codes : V
  pub station : StationId
  pub events : List Event
  pub links : List (Option String)

-- DispatchResult
pub record DispatchResult : Type 0 where
  pub digits : String
  pub name : Option String
  pub transmitted : Bool
  pub error : Bool

pub data Triggered : Type 0 where
  refused builtin : Triggered
  dispatched : DispatchResult → Triggered

module _ {V : Type 0} where
  abbrev pub with_station : StationId → Controller V → Controller V
  with_station s c = record c { station = s }

  abbrev pub emit : Event → Controller V → Controller V
  emit e c = record c { events = e ∷ c.events }

  -- `raised` is the re-raise of a strict call.
  abbrev pub keyed : Keyed → Bool → Reply → Controller V → Reply × Controller V
  keyed what strict (returned b) c = (returned b, c)
  keyed what strict raised c = (if strict then raised else returned false, emit (tx_failed what) c)

  -- `_keying`
  unfoldable pub keying :
      Keyed → Bool → (StationId → Reply × StationId) → Controller V → Reply × Controller V
  keying what strict call c =
      let (reply, station) = call c.station in keyed what strict reply (with_station station c)

  abbrev pub after :
      Reply × Controller V → (Bool → Controller V → Reply × Controller V) → Reply × Controller V
  after (returned b, c) f = f b c
  after (raised, c) f = (raised, c)
