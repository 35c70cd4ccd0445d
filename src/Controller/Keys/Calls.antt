-- ===== src/Controller/Keys/Calls.antt =====
-- Any calls of radio_server/controller/engine.py: who keys the radio, and what is told of refusals.
pub mod Run
use radio_server.Base.{
  ℕ, zero, suc, ◌+◌, String, Bool, true, false, not, ◌&&◌, List, [], ◌∷◌, ◌++◌, Option, none, some,
  ◌≡◌, refl, sym, ap, ◌∙◌, if◌then◌else◌, if_intro, Bool-cases, inl, inr, arith,
}
use radio_server.Auth.Gate.{
  Session, Outcome, accepted, rejected, command, is_authenticated, on_dtmf, expire_if_idle, logout,
}
use radio_server.Auth.Gate
use radio_server.Services.StationId.{
  Audio, StationId, new, Reply, returned, raised, Over, over, id_over, send, faulty, later_faults,
  settle, reset, due, due_at, transmit, identify, check, sign_off, begin_session,
}
use radio_server.Services.StationId.Identified.{
  Op, content, on_demand, poll, end_session, start_session, apply, run, Identified,
  overs-Identified,
}
use radio_server.Controller.State.{
  is_member, is_member, find, Service, service, Keyed, station_id, service, announcement, Event,
  session_open, auth_accepted, auth_rejected, id, session_close, tx_failed, ran, link, Config, gate,
  Controller, DispatchResult, with_station, emit, keyed, keying, after,
}
use radio_server.Controller.Command.{
  announce, close_session, play_id, logged_out, linked, link_command, run_command, served, matched,
  dispatch,
}
use radio_server.Controller.Step.{
  recorded, reported, opened_by_command, handled, commanded, answered, gated, entered, entries_loop,
  id_event, periodic, settled, step, announced, opened, open_session, concluded, triggered, trigger,
}
use radio_server.Controller.Keys.{
  refusals, failures, count_failure, count_raised, Accounted, Called, Keys, Keys-still, Keys-emit,
  Keys-then, keying-Keys, begin-Keys, announce-Keys, close_session-Keys, run_command-Keys,
  transmit-Called, check-Called, keyed_told, runs, run-append,
}

module _ {V : Type 0} (k : Config V) where
  -- A transmission whose refusal is not told yet.
  pub record Owes (n : ℕ) (c c' : Controller V) : Type 0 where
    owed_ops : List Op
    owed_run : c'.station ≡ runs k c.station owed_ops
    owed :
        failures c'.events + refusals c'.station.faults + n
        ≡ failures c.events + refusals c.station.faults

  paid :
      (n : ℕ) (c c' c'' : Controller V)
      → Owes n c c'
      → c''.station ≡ c'.station
      → failures c''.events ≡ failures c'.events + n
      → Keys k c c''
  paid n c c' c'' o e f = record {
    ops = o.owed_ops;
    station_run = e ∙ o.owed_run;
    all_told = omega (arith, o.owed, f, ap (λ (s : StationId). refusals s.faults) e);
  }

  abbrev pub error_count : Bool → ℕ
  error_count error = if error then 1 else 0

  -- The Dispatcher owes the event of an error that it returns.
  served-Owes :
      (digits name : String) (now : ℕ) (audio : Audio) (c : Controller V) (r : Reply × StationId)
      → r.1 ≡ runs k c.station (content now audio ∷ [])
      → Accounted c.station r
      → Owes (error_count (served k digits name r c).0.error) c (served k digits name r c).1
  served-Owes digits name now audio c (returned b, s) e a = record {
    owed_ops = content now audio ∷ [];
    owed_run = e;
    owed = omega (arith, a);
  }
  served-Owes digits name now audio c (raised, s) e a = record {
    owed_ops = content now audio ∷ [];
    owed_run = e;
    owed = omega (arith, a);
  }

  pub matched-Owes :
      (digits : String) (now : ℕ) (m : Option Service) (c : Controller V)
      → Owes (error_count (matched k digits now m c).0.error) c (matched k digits now m c).1
  unfolding run
  matched-Owes digits now none c = record { owed_ops = []; owed_run = refl; owed = omega arith }
  matched-Owes digits now (some (name, render)) c =
      let call = transmit-Called k now (render c.session) in
      served-Owes digits name now (render c.session) c
        (transmit k.interval k.id_frame now (render c.session) c.station) (call.called c.station)
        (call.accounts c.station)

  Owes-then : (n : ℕ) (c c' c'' : Controller V) → Owes n c c' → Keys k c' c'' → Owes n c c''
  Owes-then n c c' c'' o h = record {
    owed_ops = o.owed_ops ++ h.ops;
    owed_run =
        h.station_run
        ∙ ap (λ s. runs k s h.ops) o.owed_run
        ∙ sym (run-append k c.station o.owed_ops h.ops);
    owed = omega (arith, o.owed, h.all_told);
  }

  pub reported-Keys :
      (error : Bool) (c c' : Controller V)
      → Owes (error_count error) c c'
      → Keys k c (reported k error c')
  reported-Keys true c c' o = paid 1 c c' (emit (tx_failed service) c') o refl (omega arith)
  reported-Keys false c c' o = paid 0 c c' c' o refl (omega arith)

  opened_by_command-Keys : (was : Bool) (c : Controller V) → Keys k c (opened_by_command k was c)
  opened_by_command-Keys was c =
      let c' = with_station (begin_session c.station) c in
      if_intro (Keys k c) (not was && is_authenticated c.session.state)
        (λ t.
          Keys-then k c c' (emit session_open c') (begin-Keys k c)
            (Keys-emit k c' session_open refl))
        (λ t. Keys-still k c c refl refl)

  pub recorded-Keys :
      (name : Option String) (sent : Bool) (c : Controller V) → Keys k c (recorded k name sent c)
  recorded-Keys none sent c = Keys-still k c c refl refl
  recorded-Keys (some name) true c = Keys-emit k c (ran name) refl
  recorded-Keys (some name) false c = Keys-still k c c refl refl

  handled-Keys :
      (now : ℕ) (r : DispatchResult) (c : Controller V) (x : Reply × Controller V)
      → Keys k c x.1
      → Keys k c (handled k now r x).1
  handled-Keys now r c (returned true, c') h = h
  handled-Keys now r c (returned false, c') h =
      Keys-then k c c' _ h (recorded-Keys r.name r.transmitted c')
  handled-Keys now r c (raised, c') h = h

  commanded-Keys :
      (was : Bool) (now : ℕ) (c : Controller V) (x : DispatchResult × Controller V)
      → Owes (error_count x.0.error) c x.1
      → Keys k c (commanded k was now x).1
  commanded-Keys was now c (r, c1) o =
      let c2 = opened_by_command k was c1 in
      let c3 = reported k r.error c2 in
      let told =
        reported-Keys r.error c c2 (Owes-then _ c c1 c2 o (opened_by_command-Keys was c1)) in
      handled-Keys now r c (run_command k false r.digits now c3)
        (Keys-then k c c3 _ told (run_command-Keys k false r.digits now c3))

  answered-Keys :
      (was : Bool) (now : ℕ) (o : Outcome String) (c : Controller V)
      → Keys k c (answered k was now o c).1
  unfolding answered dispatch
  answered-Keys was now accepted c =
      let c1 = with_station (begin_session c.station) c in
      let c2 = (announce k false now k.login_audio c1).1 in
      Keys-then k c c2 _
        (Keys-then k c c1 c2 (begin-Keys k c) (announce-Keys k false now k.login_audio c1))
        (Keys-then k c2 (emit auth_accepted c2) _ (Keys-emit k c2 auth_accepted refl)
          (Keys-emit k (emit auth_accepted c2) session_open refl))
  answered-Keys was now rejected c = Keys-emit k c auth_rejected refl
  answered-Keys was now (command digits) c =
      commanded-Keys was now c (matched k digits now (find digits k.registry) c)
        (matched-Owes digits now (find digits k.registry) c)

  entered-Keys : (entry : String) (now : ℕ) (c : Controller V) → Keys k c (entered k entry now c).1
  unfolding entered
  entered-Keys entry now c =
      let x = on_dtmf (gate k) entry now c.session c.codes in
      let c' = record c { session = x.1; codes = x.2 } in
      if_intro (λ (x : Bool × Controller V). Keys k c x.1) (is_member entry k.link_off_digits)
        (λ t. run_command-Keys k false entry now c)
        (λ t.
          Keys-then k c c' _ (Keys-still k c c' refl refl)
            (answered-Keys (is_authenticated c.session.state) now x.0 c'))

  entries_loop-Keys :
      (entries : List String) (now : ℕ) (c : Controller V)
      → Keys k c (entries_loop k entries now c).1
  unfolding entries_loop
  entries_loop-Keys [] now c = Keys-still k c c refl refl
  entries_loop-Keys (entry ∷ entries) now c =
      let c' = (entered k entry now c).1 in
      Keys-then k c c' _ (entered-Keys entry now c) (entries_loop-Keys entries now c')

  id_event-Keys :
      (c : Controller V) (x : Reply × Controller V) → Keys k c x.1 → Keys k c (id_event k x).1
  id_event-Keys c (returned true, c') h = Keys-then k c c' _ h (Keys-emit k c' id refl)
  id_event-Keys c (returned false, c') h = h
  id_event-Keys c (raised, c') h = h

  settled-Keys :
      (signed : Bool) (now : ℕ) (x : Bool × Session) (c : Controller V)
      → Keys k c (settled k signed now x c).1
  settled-Keys signed now (true, s) c =
      let c' = record c { session = s } in
      Keys-then k c c' _ (Keys-still k c c' refl refl)
        (close_session-Keys k false now k.timeout_audio c')
  settled-Keys signed now (false, s) c =
      let c' = record c { session = s } in
      let call = check k.interval k.id_frame now in
      if_intro (λ (x : (Bool × Bool) × Controller V). Keys k c x.1) (is_authenticated s.state)
        (λ t. Keys-then k c c' _ (Keys-still k c c' refl refl) (
          id_event-Keys c' (keying station_id false call c')
            (keying-Keys k station_id false call (poll now) c' (check-Called k now))))
        (λ t. Keys-still k c c' refl refl)

  pub step-Keys :
      (now : ℕ) (entries : List String) (c : Controller V) → Keys k c (step k now entries c).1
  unfolding step
  step-Keys now entries c =
      let (signed, c') = entries_loop k entries now c in
      Keys-then k c c' _ (entries_loop-Keys entries now c)
        (settled-Keys signed now (expire_if_idle (gate k) now c'.session) c')
