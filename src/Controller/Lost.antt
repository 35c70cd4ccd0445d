-- ===== src/Controller/Lost.antt =====
-- Closing IDs and session events that radio_server/controller/engine.py leaves out.
use radio_server.Base.{
  ℕ, ◌||◌, inl, inr, ◌-◌, ◌<◌, String, Bool, true, false, not, [], ◌∷◌, none, some, ◌≡◌, ap, ◌∙◌,
  if◌then◌else◌, arith,
}
use radio_server.Auth.Gate.{
  Session, authenticated, unauthenticated, Outcome, command, is_authenticated, is_idle, judge,
  on_dtmf, expire_if_idle, logout,
}
use radio_server.Auth.Gate.Login.{IsLive, on_dtmf_enforced}
use radio_server.Services.StationId.{
  StationId, Audio, Reply, returned, raised, Over, over, due, begin_session, send, settle, faulty,
  later_faults, transmit, sign_off,
}
use radio_server.Controller.State.{
  DispatchResult, ran, session_open, is_member, find, announcement, station_id, Triggered, refused,
  session_open, ran, auth_rejected, session_close, tx_failed, Config, gate, Controller,
  with_station, emit, keyed, keying, after,
}
use radio_server.Controller.Command.{
  dispatch, matched, served, linked, play_id, announce, close_session, logged_out, link_command,
  run_command,
}
use radio_server.Controller.Step.{
  commanded, handled, answered, gated, entered, entries_loop, settled, step, triggered, trigger,
}

module _ {V : Type 0} (k : Config V) where
  abbrev transmits : ℕ → Audio → StationId → Reply × StationId
  transmits now audio = transmit k.interval k.id_frame now audio

  abbrev the_over : ℕ → Audio → StationId → Over
  the_over now audio s = over k.interval k.id_frame now audio (due k.interval k.id_frame now s)

  transmit_refused :
      (now : ℕ) (audio : Audio) (s : StationId)
      → faulty s.faults ≡ true
      → transmits now audio s ≡ (raised, record s { faults = later_faults s.faults })
  unfolding transmit send
  transmit_refused now audio s e =
      let f : StationId → StationId = λ s'. record s' {
        last_id = if due k.interval k.id_frame now s then some now else s'.last_id;
        transmitted_this_session = true;
      } in
      ap
        (λ b. settle f (
          if b then (false, record s { faults = later_faults s.faults }) else (
            true,
            record s { faults = later_faults s.faults; overs = the_over now audio s ∷ s.overs },
          )))
        e

  -- The station after an over that the radio took.
  abbrev sent : ℕ → Audio → StationId → StationId
  sent now audio s = record {
    transmitted_this_session = true;
    last_id = if due k.interval k.id_frame now s then some now else s.last_id;
    faults = later_faults s.faults;
    overs = the_over now audio s ∷ s.overs;
  }

  transmit_taken :
      (now : ℕ) (audio : Audio) (s : StationId)
      → faulty s.faults ≡ false
      → transmits now audio s ≡ (returned true, sent now audio s)
  unfolding transmit send
  transmit_taken now audio s e =
      let f : StationId → StationId = λ s'. record s' {
        last_id = if due k.interval k.id_frame now s then some now else s'.last_id;
        transmitted_this_session = true;
      } in
      ap
        (λ b. settle f (
          if b then (false, record s { faults = later_faults s.faults }) else (
            true,
            record s { faults = later_faults s.faults; overs = the_over now audio s ∷ s.overs },
          )))
        e

  not-IsLive :
      (now : ℕ) (s : Session) → k.timeout < now - s.last_activity → ¬ (IsLive (gate k) now s)
  not-IsLive now s h l = absurd (omega (arith, l.1))

  idle_on_dtmf :
      (entry : String) (now : ℕ) (s : Session) (v : V)
      → k.enforce ≡ true
      → k.timeout < now - s.last_activity
      → on_dtmf (gate k) entry now s v
        ≡ judge
            (gate k)
            (record { state = unauthenticated; last_activity = now })
            (k.verify_and_burn entry now v)
  idle_on_dtmf entry now s v on idle = elim (on_dtmf_enforced (gate k) entry now s v on) [
    | inl (l, e) ↦ absurd (not-IsLive now s idle l)
    | inr (l, e) ↦ e
  ]

  -- A step that finds a wrong code for a session that is idle past the timeout ends the session with the
  -- event of the wrong code only: no over is sent, so no closing ID, and the end is not told.
  pub idle_entry_lost :
      (c : Controller V) (entry : String) (now : ℕ) (codes : V)
      → k.enforce ≡ true
      → is_member entry k.link_off_digits ≡ false
      → k.timeout < now - c.session.last_activity
      → k.verify_and_burn entry now c.codes ≡ (false, codes)
      → (step k now (entry ∷ []) c).1 ≡ record c {
        session = record { state = unauthenticated; last_activity = now };
        codes = codes;
        events = auth_rejected ∷ c.events;
      }
  unfolding step entries_loop entered expire_if_idle is_idle answered
  idle_entry_lost c entry now codes on other idle wrong =
      let was = is_authenticated c.session.state in
      let s : Session = record { state = unauthenticated; last_activity = now } in
      let finish : Bool × Controller V → Controller V =
        λ x. (settled k (x.0 || false) now (expire_if_idle (gate k) now x.1.session) x.1).1 in
      let gate_says : Controller V → Outcome String × Session × V → Controller V =
        λ c x. finish (gated k was now x c) in
      ap
        (λ b. finish (
          if b
          then (false, (run_command k false entry now c).1)
          else gated k was now (on_dtmf (gate k) entry now c.session c.codes) c))
        other
      ∙ ap (gate_says c) (idle_on_dtmf entry now c.session c.codes on idle)
      ∙ ap (λ x. gate_says c (judge (gate k) s x)) wrong

  refused_close :
      (now : ℕ) (audio : Audio) (c : Controller V)
      → faulty c.station.faults ≡ true
      → close_session k true now (some audio) c ≡ (
        raised,
        record c {
          station = record c.station { faults = later_faults c.station.faults };
          events = tx_failed announcement ∷ c.events;
        },
      )
  unfolding close_session announce keying
  refused_close now audio c refuses =
      ap
        (λ (x : Reply × StationId). after (keyed announcement true x.0 (with_station x.1 c)) (λ _ c.
          after (keying station_id true (sign_off k.interval k.id_frame now) c)
            (λ sent c. (returned sent, emit (session_close sent) c))))
        (transmit_refused now audio c.station refuses)

  -- When the radio refuses the announcement of a logout that is pressed, the session is ended without its
  -- closing ID and without a session_close, and the press fails.
  pub pressed_logout_lost :
      (c : Controller V) (digit : String) (now : ℕ) (audio : Audio)
      → is_member digit k.id_digits ≡ false
      → is_member digit k.logout_digits ≡ true
      → k.logout_audio ≡ some audio
      → c.session.state ≡ authenticated
      → faulty c.station.faults ≡ true
      → trigger k digit now c ≡ (
        refused,
        record c {
          session = record c.session { state = unauthenticated };
          station = record c.station { faults = later_faults c.station.faults };
          events = tx_failed announcement ∷ c.events;
        },
      )
  unfolding trigger run_command logout
  pressed_logout_lost c digit now audio other out says live refuses =
      let s = record c.session { state = unauthenticated } in
      let c' = record c { session = s } in
      let done : Reply × Controller V → Triggered × Controller V = λ x. triggered k digit now x in
      let links = link_command k true digit now (find digit k.link_digits) c in
      let ends : Bool × Session → Triggered × Controller V =
        λ x. done (logged_out k true now x c) in
      ap
        (λ b. done (
          if b
          then play_id k true now c
          else if is_member digit k.logout_digits
          then logged_out k true now (logout c.session) c
          else links))
        other
      ∙ ap (λ b. done (if b then logged_out k true now (logout c.session) c else links)) out
      ∙ ap (λ st. ends (if is_authenticated st then (true, s) else (false, c.session))) live
      ∙ ap (λ o. done (after (close_session k true now o c') (λ _ c. (returned true, c)))) says
      ∙ ap (λ x. done (after x (λ _ c. (returned true, c)))) (refused_close now audio c' refuses)

  other_command :
      (digit : String) (now : ℕ) (c : Controller V)
      → is_member digit k.link_off_digits ≡ false
      → is_member digit k.id_digits ≡ false
      → is_member digit k.logout_digits ≡ false
      → find digit k.link_digits ≡ none
      → run_command k false digit now c ≡ (returned false, c)
  unfolding run_command
  other_command digit now c off not_id not_out not_link =
      ap
        (λ b.
          if b
          then play_id k false now c
          else if is_member digit k.logout_digits
          then logged_out k false now (logout c.session) c
          else link_command k false digit now (find digit k.link_digits) c)
        not_id
      ∙ ap
          (λ b.
            if b
            then logged_out k false now (logout c.session) c
            else link_command k false digit now (find digit k.link_digits) c)
          not_out
      ∙ ap (λ o. link_command k false digit now o c) not_link
      ∙ ap (λ b. if b then linked k false now none k.link_off_audio c else (returned false, c)) off

  -- With enforcement off, what the gate makes of any entry.
  free_on_dtmf :
      (entry : String) (now : ℕ) (s : Session) (v : V)
      → k.enforce ≡ false
      → on_dtmf (gate k) entry now s v
        ≡ (command entry, record { state = authenticated; last_activity = now }, v)
  unfolding on_dtmf
  free_on_dtmf entry now s v off =
      let s' = record (expire_if_idle (gate k) now s).1 { last_activity = now } in
      ap
        (λ b.
          if not b
          then (command entry, record s' { state = authenticated }, v)
          else if is_authenticated s'.state
          then (command entry, s', v)
          else judge (gate k) s' (k.verify_and_burn entry now v))
        off

  taken_service :
      (digits name : String) (render : Session → Audio) (now : ℕ) (c : Controller V)
      → find digits k.registry ≡ some (name, render)
      → faulty c.station.faults ≡ false
      → dispatch k digits now c ≡ (
        record { digits = digits; name = some name; transmitted = true; error = false },
        with_station (sent now (render c.session) c.station) c,
      )
  unfolding dispatch
  taken_service digits name render now c found takes =
      ap (λ m. matched k digits now m c) found
      ∙ ap (λ x. served k digits name x c) (transmit_taken now (render c.session) c.station takes)

  -- With enforcement off, a service that opens the session goes out before the station ID is armed for the
  -- session, and the arming forgets it: the station then holds that it has not transmitted.
  pub opening_over_forgotten :
      (c : Controller V) (entry name : String) (render : Session → Audio) (now : ℕ)
      → k.enforce ≡ false
      → is_member entry k.link_off_digits ≡ false
      → is_member entry k.id_digits ≡ false
      → is_member entry k.logout_digits ≡ false
      → find entry k.link_digits ≡ none
      → find entry k.registry ≡ some (name, render)
      → c.session.state ≡ unauthenticated
      → faulty c.station.faults ≡ false
      → (o : Over) × ((entered k entry now c).1 ≡ record c {
        session = record { state = authenticated; last_activity = now };
        station = record {
          transmitted_this_session = false;
          last_id = none;
          faults = later_faults c.station.faults;
          overs = o ∷ c.station.overs;
        };
        events = ran name ∷ session_open ∷ c.events;
      })
  unfolding entered answered begin_session
  opening_over_forgotten c entry name render now off other not_id not_out not_link found shut
        takes =
      let s : Session = record { state = authenticated; last_activity = now } in
      let c1 = record c { session = s } in
      let armed : Controller V =
        emit session_open (with_station (begin_session (sent now (render s) c.station)) c1) in
      let r : DispatchResult = record {
        digits = entry;
        name = some name;
        transmitted = true;
        error = false;
      } in
      (
        the_over now (render s) c.station,
        ap
              (λ b.
                (if b
                  then (false, (run_command k false entry now c).1)
                  else gated k (is_authenticated c.session.state) now
                      (on_dtmf (gate k) entry now c.session c.codes) c).1)
              other
            ∙ ap (λ x. (gated k (is_authenticated c.session.state) now x c).1)
                (free_on_dtmf entry now c.session c.codes off)
            ∙ ap (λ st. (commanded k (is_authenticated st) now (dispatch k entry now c1)).1) shut
            ∙ ap (λ x. (commanded k false now x).1)
                (taken_service entry name render now c1 found takes)
            ∙ ap (λ x. (handled k now r x).1)
                (other_command entry now armed other not_id not_out not_link),
      )
