-- ===== src/Controller/Command.antt =====
-- `_close_session` and `_run_command` of radio_server/controller/engine.py, and `Dispatcher` of
-- services/dispatch.py.
use radio_server.Base.{ℕ, String, Bool, true, false, ◌∷◌, Option, none, some, if◌then◌else◌}
use radio_server.Auth.Gate.{Session, logout}
use radio_server.Services.StationId.{
  Audio, StationId, Reply, returned, raised, transmit, identify, sign_off,
}
use radio_server.Controller.State.{
  is_member, find, announcement, station_id, id, session_close, link, Service, Config, Controller,
  DispatchResult, with_station, emit, keying, after,
}

module _ {V : Type 0} (k : Config V) where
  unfoldable pub announce : Bool → ℕ → Option Audio → Controller V → Reply × Controller V
  announce strict now none c = (returned true, c)
  announce strict now (some audio) c =
      keying announcement strict (transmit k.interval k.id_frame now audio) c

  -- `_close_session`
  unfoldable pub close_session : Bool → ℕ → Option Audio → Controller V → Reply × Controller V
  close_session strict now audio c = after (announce strict now audio c) (λ _ c.
      after (keying station_id strict (sign_off k.interval k.id_frame now) c)
        (λ sent c. (returned sent, emit (session_close sent) c)))

  -- The branches of `_run_command`.
  abbrev pub play_id : Bool → ℕ → Controller V → Reply × Controller V
  play_id strict now c =
      after (keying station_id strict (identify k.interval k.id_frame now) c)
        (λ sent c. (returned true, if sent then emit id c else c))

  abbrev pub logged_out : Bool → ℕ → Bool × Session → Controller V → Reply × Controller V
  logged_out strict now (true, s) c =
      after (close_session strict now k.logout_audio (record c { session = s }))
        (λ _ c. (returned true, c))
  logged_out strict now (false, s) c = (returned true, record c { session = s })

  abbrev pub linked : Bool → ℕ → Option String → Option Audio → Controller V → Reply × Controller V
  linked strict now entry audio c =
      after (announce strict now audio (record c { links = entry ∷ c.links }))
        (λ _ c. (returned true, emit (link entry) c))

  abbrev pub link_command : Bool → String → ℕ → Option String → Controller V → Reply × Controller V
  link_command strict digit now (some slug) c =
      linked strict now (some slug) (find slug k.link_audio) c
  link_command strict digit now none c =
      if is_member digit k.link_off_digits
      then linked strict now none k.link_off_audio c
      else (returned false, c)

  -- `_run_command`: whether the digit was a built-in.
  unfoldable pub run_command : Bool → String → ℕ → Controller V → Reply × Controller V
  run_command strict digit now c =
      if is_member digit k.id_digits
      then play_id strict now c
      else if is_member digit k.logout_digits
      then logged_out strict now (logout c.session) c
      else link_command strict digit now (find digit k.link_digits) c

  abbrev pub served :
      String → String → Reply × StationId → Controller V → DispatchResult × Controller V
  served digits name (returned _, s) c = (
    record { digits = digits; name = some name; transmitted = true; error = false },
    with_station s c,
  )
  served digits name (raised, s) c = (
    record { digits = digits; name = some name; transmitted = false; error = true },
    with_station s c,
  )

  abbrev pub matched : String → ℕ → Option Service → Controller V → DispatchResult × Controller V
  matched digits now none c =
      (record { digits = digits; name = none; transmitted = false; error = false }, c)
  matched digits now (some (name, render)) c =
      served digits name (transmit k.interval k.id_frame now (render c.session) c.station) c

  -- `Dispatcher.__call__`
  unfoldable pub dispatch : String → ℕ → Controller V → DispatchResult × Controller V
  dispatch digits now c = matched digits now (find digits k.registry) c
