-- ===== src/Controller/Step.antt =====
-- `step`, `open_session` and `trigger` of radio_server/controller/engine.py.
use radio_server.Base.{
  ℕ, String, Bool, true, false, not, ◌&&◌, ◌||◌, List, [], ◌∷◌, Option, none, some, if◌then◌else◌,
}
use radio_server.Auth.Gate.{
  Session, AuthGate, Outcome, accepted, rejected, command, is_authenticated, on_dtmf,
  expire_if_idle, logout,
}
use radio_server.Auth.Gate
use radio_server.Services.StationId.{Audio, Reply, returned, raised, transmit, check, begin_session}
use radio_server.Controller.State.{
  is_member, announcement, station_id, service, session_open, auth_accepted, auth_rejected, id,
  tx_failed, ran, Config, gate, Controller, DispatchResult, Triggered, refused, builtin, dispatched,
  with_station, emit, keyed, keying,
}
use radio_server.Controller.Command.{announce, close_session, run_command, dispatch}

module _ {V : Type 0} (k : Config V) where
  -- The `command` event of a service that went out.
  abbrev pub recorded : Option String → Bool → Controller V → Controller V
  recorded (some name) true c = emit (ran name) c
  recorded (some name) false c = c
  recorded none transmitted c = c

  abbrev pub reported : Bool → Controller V → Controller V
  reported error c = if error then emit (tx_failed service) c else c

  -- A session that a command opened, when no code is asked for.
  abbrev pub opened_by_command : Bool → Controller V → Controller V
  opened_by_command was c =
      if not was && is_authenticated c.session.state
      then emit session_open (with_station (begin_session c.station) c)
      else c

  -- What `step` does once the Dispatcher has answered; the Boolean is `signed_off`.
  abbrev pub handled : ℕ → DispatchResult → Reply × Controller V → Bool × Controller V
  handled now r (returned true, c) = (is_member r.digits k.logout_digits, c)
  handled now r (returned false, c) = (false, recorded r.name r.transmitted c)
  handled now r (raised, c) = (false, c)

  abbrev pub commanded : Bool → ℕ → DispatchResult × Controller V → Bool × Controller V
  commanded was now (r, c) =
      handled now r (run_command k false r.digits now (reported r.error (opened_by_command was c)))

  -- One entry by the outcome of the gate.
  unfoldable pub answered : Bool → ℕ → Outcome String → Controller V → Bool × Controller V
  answered was now accepted c = (
    false,
    emit session_open (
        emit auth_accepted
          (announce k false now k.login_audio (with_station (begin_session c.station) c)).1),
  )
  answered was now rejected c = (false, emit auth_rejected c)
  answered was now (command digits) c = commanded was now (dispatch k digits now c)

  abbrev pub gated : Bool → ℕ → Outcome String × Session × V → Controller V → Bool × Controller V
  gated was now (outcome, s, codes) c =
      answered was now outcome (record c { session = s; codes = codes })

  unfoldable pub entered : String → ℕ → Controller V → Bool × Controller V
  entered entry now c =
      if is_member entry k.link_off_digits
      then (false, (run_command k false entry now c).1)
      else gated (is_authenticated c.session.state) now
          (on_dtmf (gate k) entry now c.session c.codes) c

  unfoldable pub entries_loop : List String → ℕ → Controller V → Bool × Controller V
  entries_loop [] now c = (false, c)
  entries_loop (entry ∷ entries) now c =
      let (signed, c') = entered entry now c in
      let (signed', c'') = entries_loop entries now c' in (signed || signed', c'')

  abbrev pub id_event : Reply × Controller V → Bool × Controller V
  id_event (returned true, c) = (true, emit id c)
  id_event (returned false, c) = (false, c)
  id_event (raised, c) = (false, c)

  abbrev pub periodic : ℕ → Controller V → Bool × Controller V
  periodic now c = id_event (keying station_id false (check k.interval k.id_frame now) c)

  -- What `step` does when the entries are through: `signed_off` and `id_sent`.
  abbrev pub settled : Bool → ℕ → Bool × Session → Controller V → (Bool × Bool) × Controller V
  settled signed now (true, s) c =
      ((true, false), (close_session k false now k.timeout_audio (record c { session = s })).1)
  settled signed now (false, s) c =
      let c' = record c { session = s } in
      if is_authenticated s.state
      then ((signed, (periodic now c').0), (periodic now c').1)
      else ((signed, false), c')

  -- `step`, up to the tick of an attached scan.
  unfoldable pub step : ℕ → List String → Controller V → (Bool × Bool) × Controller V
  step now entries c =
      let (signed, c') = entries_loop entries now c in
      settled signed now (expire_if_idle (gate k) now c'.session) c'

  abbrev pub is_returned : Reply → Bool
  is_returned (returned b) = true
  is_returned raised = false

  -- `open_session`: `opened` and `announced`.
  abbrev pub announced : Option Audio → ℕ → Controller V → Option Bool × Controller V
  announced none now c = (none, c)
  announced (some audio) now c =
      let (reply, s) = transmit k.interval k.id_frame now audio c.station in
      (some (is_returned reply), (keyed announcement false reply (with_station s c)).1)

  abbrev pub opened : ℕ → Bool × Session → Controller V → (Bool × Option Bool) × Controller V
  opened now (false, s) c = ((false, none), record c { session = s })
  opened now (true, s) c =
      let (said, c') =
        announced k.login_audio now
          (with_station (begin_session c.station) (record c { session = s })) in
      ((true, said), emit session_open (emit auth_accepted c'))

  unfoldable pub open_session : ℕ → Controller V → (Bool × Option Bool) × Controller V
  open_session now c = opened now (Gate.open_session now c.session) c

  -- `trigger`: its errors are the re-raise of a refused call.
  abbrev pub concluded : DispatchResult × Controller V → Triggered × Controller V
  concluded (r, c) = (dispatched r, recorded r.name r.transmitted (reported r.error c))

  abbrev pub triggered : String → ℕ → Reply × Controller V → Triggered × Controller V
  triggered digit now (returned true, c) = (builtin, c)
  triggered digit now (returned false, c) = concluded (dispatch k digit now c)
  triggered digit now (raised, c) = (refused, c)

  unfoldable pub trigger : String → ℕ → Controller V → Triggered × Controller V
  trigger digit now c = triggered digit now (run_command k true digit now c)
