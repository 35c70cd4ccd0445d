-- ===== src/Controller/Examples.antt =====
-- The theorems about radio_server/controller/engine.py on one station.
use radio_server.Base.{
  ℕ, ◌+◌, Bool, true, false, List, [], ◌∷◌, none, some, ◌≡◌, refl, inl, inr, arith, str_eq,
}
use radio_server.Auth.Gate.{
  authenticated, unauthenticated, is_idle, on_dtmf, expire_if_idle, open_session, logout,
}
use radio_server.Services.StationId.{
  Over, new, send, transmit, identify, check, sign_off, begin_session,
}
use radio_server.Services.StationId.Identified.{Identified}
use radio_server.Controller.State.{
  session_open, auth_rejected, tx_failed, ran, announcement, refused, Config, Controller, keying,
}
use radio_server.Controller.Command.{announce, close_session, run_command, dispatch}
use radio_server.Controller.Step.{answered, entered, entries_loop, step, trigger}
use radio_server.Controller.Step
use radio_server.Controller.Keys.{refusals, failures}
use radio_server.Controller.Keys.Calls.Run.{
  Call, stepped, opening, pressed, drive, drive-Identified, drive-failures,
}
use radio_server.Controller.Ledger.{IsOnLedger}
use radio_server.Controller.Ledger.Drive.{ArePrompt, drive-IsOnLedger}
use radio_server.Controller.Lost.{idle_entry_lost, pressed_logout_lost, opening_over_forgotten}

-- One code logs in; the state of the verifier counts the tries.
abbrev keypad : Bool → Config ℕ
keypad enforce = record {
  verify_and_burn = λ code now tries. (str_eq code "123456", tries + 1);
  timeout = 300;
  enforce = enforce;
  interval = 600;
  id_frame = 9 ∷ [];
  registry = ("1", ("time", λ s. 1 ∷ 2 ∷ [])) ∷ [];
  id_digits = "4" ∷ [];
  logout_digits = "99" ∷ [];
  link_digits = ("71", "club") ∷ [];
  link_off_digits = "98" ∷ [];
  link_audio = ("club", 3 ∷ []) ∷ [];
  link_off_audio = none;
  login_audio = some (5 ∷ []);
  timeout_audio = some (6 ∷ []);
  logout_audio = some (7 ∷ []);
}

abbrev fresh : List Bool → Controller ℕ
fresh faults = record {
  session = record { state = unauthenticated; last_activity = 0 };
  codes = 0;
  station = new faults;
  events = [];
  links = [];
}

-- The radio refuses the login announcement and the second service.
abbrev evening : List Call
evening =
    stepped 10 ("000000" ∷ "123456" ∷ [])
    ∷ stepped 20 ("1" ∷ "71" ∷ [])
    ∷ pressed "1" 30
    ∷ opening 35
    ∷ stepped 900 []
    ∷ []

abbrev after_evening : Controller ℕ
after_evening = drive (keypad true) (fresh (true ∷ false ∷ true ∷ [])) evening

drive-Identified_example : Identified 600 (9 ∷ []) after_evening.station.overs
drive-Identified_example =
    drive-Identified (keypad true) (fresh (true ∷ false ∷ true ∷ [])) (true ∷ false ∷ true ∷ [])
      evening refl

drive-failures_example : failures after_evening.events + refusals after_evening.station.faults ≡ 2
drive-failures_example = drive-failures (keypad true) (fresh (true ∷ false ∷ true ∷ [])) evening

evening-ArePrompt : ArePrompt (keypad true) (fresh (true ∷ false ∷ true ∷ [])) evening
unfolding is_idle on_dtmf expire_if_idle open_session logout send transmit identify check sign_off
    begin_session keying announce close_session run_command dispatch answered entered entries_loop
    step trigger Step.open_session
evening-ArePrompt = (inl refl, (inl refl, (refl, (tt, (inr refl, tt)))))

drive-IsOnLedger_example : IsOnLedger after_evening
drive-IsOnLedger_example =
    drive-IsOnLedger (keypad true) (fresh (true ∷ false ∷ true ∷ [])) evening evening-ArePrompt refl

-- A session that was left open, and that transmitted.
abbrev left_open : List Bool → Controller ℕ
left_open faults = record {
  session = record { state = authenticated; last_activity = 10 };
  codes = 1;
  station = record {
    transmitted_this_session = true;
    last_id = some 10;
    faults = faults;
    overs = record { at = 10; audio = 9 ∷ 5 ∷ [] } ∷ [];
  };
  events = session_open ∷ [];
  links = [];
}

idle_entry_lost_example :
    (step (keypad true) 400 ("000000" ∷ []) (left_open [])).1 ≡ record (left_open []) {
      session = record { state = unauthenticated; last_activity = 400 };
      codes = 2;
      events = auth_rejected ∷ session_open ∷ [];
    }
idle_entry_lost_example =
    idle_entry_lost (keypad true) (left_open []) "000000" 400 2 refl refl (omega arith) refl

pressed_logout_lost_example : trigger (keypad true) "99" 20 (left_open (true ∷ [])) ≡ (
  refused,
  record (left_open []) {
    session = record { state = unauthenticated; last_activity = 10 };
    events = tx_failed announcement ∷ session_open ∷ [];
  },
)
pressed_logout_lost_example =
    pressed_logout_lost (keypad true) (left_open (true ∷ [])) "99" 20 (7 ∷ []) refl refl refl refl
      refl

opening_over_forgotten_example :
    (o : Over) × ((entered (keypad false) "1" 20 (fresh [])).1 ≡ record (fresh []) {
      session = record { state = authenticated; last_activity = 20 };
      station = record {
        transmitted_this_session = false;
        last_id = none;
        faults = [];
        overs = o ∷ [];
      };
      events = ran "time" ∷ session_open ∷ [];
    })
opening_over_forgotten_example =
    opening_over_forgotten (keypad false) (fresh []) "1" "time" (λ s. 1 ∷ 2 ∷ []) 20 refl refl refl
      refl refl refl refl refl
