-- ===== src/Controller/Keys/Calls/Run.antt =====
-- Whatever a controller of radio_server/controller/engine.py is driven with.
use mathlib.Core.Path.{subst}
use radio_server.Base.{
  ℕ, ◌+◌, String, Bool, true, false, List, [], ◌∷◌, Option, none, some, ◌≡◌, refl, sym, ap, ◌∙◌,
}
use radio_server.Auth.Gate.{
  Session, Outcome, accepted, rejected, command, is_authenticated, on_dtmf, expire_if_idle, logout,
}
use radio_server.Auth.Gate
use radio_server.Services.StationId.{
  Audio, StationId, new, Reply, returned, raised, transmit, begin_session,
}
use radio_server.Services.StationId.Identified.{content, Identified, overs-Identified}
use radio_server.Controller.State.{
  find, announcement, session_open, auth_accepted, Config, Controller, with_station, emit, keying,
}
use radio_server.Controller.Command.{run_command, matched, dispatch}
use radio_server.Controller.Step.{
  reported, step, announced, opened, open_session, triggered, trigger,
}
use radio_server.Controller.Keys.{
  refusals, failures, Keys, Keys-still, Keys-emit, Keys-then, keying-Keys, begin-Keys,
  run_command-Keys, transmit-Called, runs,
}
use radio_server.Controller.Keys.Calls.{matched-Owes, reported-Keys, recorded-Keys, step-Keys}

-- A step of the pump with the entries it heard, the login of the web page, and its buttons.
pub data Call : Type 0 where
  stepped : ℕ → List String → Call
  opening : ℕ → Call
  pressed : String → ℕ → Call

module _ {V : Type 0} (k : Config V) where
  announced-Keys :
      (audio : Option Audio) (now : ℕ) (c : Controller V) → Keys k c (announced k audio now c).1
  unfolding keying
  announced-Keys none now c = Keys-still k c c refl refl
  announced-Keys (some audio) now c =
      keying-Keys k announcement false (transmit k.interval k.id_frame now audio)
        (content now audio) c (transmit-Called k now audio)

  opened-Keys : (now : ℕ) (x : Bool × Session) (c : Controller V) → Keys k c (opened k now x c).1
  opened-Keys now (false, s) c = Keys-still k c _ refl refl
  opened-Keys now (true, s) c =
      let c1 = record c { session = s } in
      let c2 = with_station (begin_session c.station) c1 in
      let c3 = (announced k k.login_audio now c2).1 in
      Keys-then k c c1 _ (Keys-still k c c1 refl refl) (
        Keys-then k c1 c2 _ (begin-Keys k c1) (
          Keys-then k c2 c3 _ (announced-Keys k.login_audio now c2) (
            Keys-then k c3 (emit auth_accepted c3) _ (Keys-emit k c3 auth_accepted refl)
              (Keys-emit k (emit auth_accepted c3) session_open refl))))

  triggered-Keys :
      (digit : String) (now : ℕ) (c : Controller V) (x : Reply × Controller V)
      → Keys k c x.1
      → Keys k c (triggered k digit now x).1
  unfolding dispatch
  triggered-Keys digit now c (returned true, c') h = h
  triggered-Keys digit now c (returned false, c') h =
      let (r, c1) = matched k digit now (find digit k.registry) c' in
      let told =
        reported-Keys k r.error c' c1 (matched-Owes k digit now (find digit k.registry) c') in
      Keys-then k c c' _ h
        (Keys-then k c' (reported k r.error c1) _ told (recorded-Keys k r.name r.transmitted _))
  triggered-Keys digit now c (raised, c') h = h

  abbrev pub called_with : Controller V → Call → Controller V
  called_with c (stepped now entries) = (step k now entries c).1
  called_with c (opening now) = (open_session k now c).1
  called_with c (pressed digit now) = (trigger k digit now c).1

  call-Keys : (c : Controller V) (e : Call) → Keys k c (called_with c e)
  unfolding open_session trigger
  call-Keys c (stepped now entries) = step-Keys k now entries c
  call-Keys c (opening now) = opened-Keys now (Gate.open_session now c.session) c
  call-Keys c (pressed digit now) =
      triggered-Keys digit now c (run_command k true digit now c)
        (run_command-Keys k true digit now c)

  abbrev pub drive : Controller V → List Call → Controller V
  drive c [] = c
  drive c (e ∷ es) = drive (called_with c e) es

  drive-Keys : (c : Controller V) (es : List Call) → Keys k c (drive c es)
  drive-Keys c [] = Keys-still k c c refl refl
  drive-Keys c (e ∷ es) =
      Keys-then k c (called_with c e) _ (call-Keys c e) (drive-Keys (called_with c e) es)

  -- Whatever is entered over the air, opened or pressed, and whichever keyings the radio refuses, the audio
  -- of each over of a controller with a new station begins with the ID frame, or that of an over that went
  -- out less than the interval before it does.
  pub drive-Identified :
      (c : Controller V) (faults : List Bool) (es : List Call)
      → c.station ≡ new faults
      → Identified k.interval k.id_frame (drive c es).station.overs
  drive-Identified c faults es e =
      let h = drive-Keys c es in
      subst (λ (s : StationId). Identified k.interval k.id_frame s.overs)
        (sym (h.station_run ∙ ap (λ s. runs k s h.ops) e))
        (overs-Identified k.interval k.id_frame faults h.ops)

  -- No refusal is silent: over any calls, the `tx_failed` events that were told are as many as the
  -- keyings that the radio refused.
  pub drive-failures :
      (c : Controller V) (es : List Call)
      → failures (drive c es).events + refusals (drive c es).station.faults
        ≡ failures c.events + refusals c.station.faults
  drive-failures c es = (drive-Keys c es).all_told
