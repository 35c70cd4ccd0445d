-- ===== src/Controller/Ledger/Entry.antt =====
-- The ledger of radio_server/controller/engine.py over one entry.
use mathlib.Core.Path.{subst}
use mathlib.Core.Bool.{false≢true}
use radio_server.Base.{
  ℕ, ◌-◌, String, Bool, true, false, not, ◌&&◌, Option, none, some, ◌≡◌, refl, sym, ap, ◌∙◌,
  if◌then◌else◌, if_intro, ltb, arith,
}
use radio_server.Auth.Gate.{
  Session, SessionState, authenticated, unauthenticated, Outcome, accepted, command,
  is_authenticated, is_idle, judge, on_dtmf, expire_if_idle, logout,
}
use radio_server.Services.StationId.{StationId, Reply, returned, raised, transmit, begin_session}
use radio_server.Controller.State.{
  is_member, find, Service, session_open, auth_accepted, Config, gate, Controller, DispatchResult,
  with_station, emit, after,
}
use radio_server.Controller.Command.{
  announce, close_session, logged_out, link_command, run_command, served, matched, dispatch,
}
use radio_server.Controller.Step.{recorded, reported, opened_by_command, handled, answered, gated}
use radio_server.Controller.Ledger.{
  ledger_open, IsOnLedger, Keeps, Keeps-refl, announce-Keeps, play_id-Keeps, link_command-Keeps,
  Closes, close_session-Closes,
}

module _ {V : Type 0} (k : Config V) where
  -- Also, the session is not idle.
  pub record Good (now : ℕ) (c : Controller V) : Type 0 where
    pub on_ledger : IsOnLedger c
    pub not_idle : is_idle (gate k) now c.session ≡ false

  pub Keeps-Good : (now : ℕ) (c c' : Controller V) → Keeps c c' → Good now c → Good now c'
  Keeps-Good now c c' h g = record {
    on_ledger =
        ap (λ (s : Session). is_authenticated s.state) h.same_session
        ∙ g.on_ledger
        ∙ sym h.same_ledger;
    not_idle = ap (is_idle (gate k) now) h.same_session ∙ g.not_idle;
  }

  -- A closed session that is closed on the ledger.
  Closes-Good :
      (now : ℕ) (c c' : Controller V)
      → is_authenticated c.session.state ≡ false
      → Closes c c'
      → Good now c'
  unfolding is_idle
  Closes-Good now c c' out h =
      let s = ap (λ (s : Session). is_authenticated s.state) h.closed_session ∙ out in
      record {
        on_ledger = s ∙ sym h.closed;
        not_idle = ap (λ b. b && ltb k.timeout (now - c'.session.last_activity)) s;
      }

  pub run_command-Keeps :
      (strict : Bool) (digit : String) (now : ℕ) (c : Controller V)
      → is_member digit k.logout_digits ≡ false
      → Keeps c (run_command k strict digit now c).1
  unfolding run_command
  run_command-Keeps strict digit now c e =
      let other = link_command k strict digit now (find digit k.link_digits) c in
      if_intro (λ (x : Reply × Controller V). Keeps c x.1) (is_member digit k.id_digits)
        (λ t. play_id-Keeps k strict now c)
        (λ t.
          subst (λ b. Keeps c (if b then logged_out k strict now (logout c.session) c else other).1)
            (sym e) (link_command-Keeps k strict digit now (find digit k.link_digits) c))

  -- What goes on with the state alone.
  after_same :
      (P : Controller V → Type 0) (x : Reply × Controller V)
      → P x.1
      → P (after x (λ _ c. (returned true, c))).1
  after_same P (returned b, c) h = h
  after_same P (raised, c) h = h

  logged_out-Good :
      (now : ℕ) (c : Controller V)
      → Good now c
      → Good now (logged_out k false now (logout c.session) c).1
  unfolding logout
  logged_out-Good now c g =
      if_intro (λ (x : Bool × Session). Good now (logged_out k false now x c).1)
        (is_authenticated c.session.state)
        (λ t.
          let c' = record c { session = record c.session { state = unauthenticated } } in
          after_same (Good now) (close_session k false now k.logout_audio c')
            (Closes-Good now c' _ refl (close_session-Closes k now k.logout_audio c')))
        (λ t. g)

  pub run_command-Good :
      (digit : String) (now : ℕ) (c : Controller V)
      → Good now c
      → Good now (run_command k false digit now c).1
  unfolding run_command
  run_command-Good digit now c g =
      if_intro (λ (x : Reply × Controller V). Good now x.1) (is_member digit k.id_digits)
        (λ t. Keeps-Good now c _ (play_id-Keeps k false now c) g)
        (λ t.
          if_intro (λ (x : Reply × Controller V). Good now x.1) (is_member digit k.logout_digits)
            (λ t. logged_out-Good now c g)
            (λ t.
              Keeps-Good now c _ (link_command-Keeps k false digit now (find digit k.link_digits) c)
                g))

  -- A session that was just active.
  record Active (now : ℕ) (was : Bool) (c : Controller V) : Type 0 where
    is_open : c.session.state ≡ authenticated
    active_now : c.session.last_activity ≡ now
    was_ledger : ledger_open c.events ≡ was

  Active-Good : (now : ℕ) (c : Controller V) → Active now true c → Good now c
  unfolding is_idle
  Active-Good now c a = record {
    on_ledger = ap is_authenticated a.is_open ∙ sym a.was_ledger;
    not_idle = let e = a.active_now in ground arith;
  }

  opened_by_command-Good :
      (now : ℕ) (was : Bool) (c : Controller V)
      → Active now was c
      → Good now (opened_by_command k was c)
  opened_by_command-Good now true c a = Active-Good now c a
  opened_by_command-Good now false c a =
      if_intro (Good now) (is_authenticated c.session.state)
        (λ t.
          Active-Good now (emit session_open (with_station (begin_session c.station) c))
            (record { is_open = a.is_open; active_now = a.active_now; was_ledger = refl }))
        (λ t. absurd (false≢true (sym t ∙ ap is_authenticated a.is_open)))

  pub reported-Keeps : (error : Bool) (c : Controller V) → Keeps c (reported k error c)
  reported-Keeps true c = record { same_session = refl; same_ledger = refl }
  reported-Keeps false c = Keeps-refl c

  pub recorded-Keeps :
      (name : Option String) (sent : Bool) (c : Controller V) → Keeps c (recorded k name sent c)
  recorded-Keeps none sent c = Keeps-refl c
  recorded-Keeps (some name) true c = record { same_session = refl; same_ledger = refl }
  recorded-Keeps (some name) false c = Keeps-refl c

  served-Keeps :
      (digits name : String) (x : Reply × StationId) (c : Controller V)
      → Keeps c (served k digits name x c).1
  served-Keeps digits name (returned b, s) c = record { same_session = refl; same_ledger = refl }
  served-Keeps digits name (raised, s) c = record { same_session = refl; same_ledger = refl }

  pub matched-Keeps :
      (digits : String) (now : ℕ) (m : Option Service) (c : Controller V)
      → Keeps c (matched k digits now m c).1
  matched-Keeps digits now none c = Keeps-refl c
  matched-Keeps digits now (some (name, render)) c =
      served-Keeps digits name (transmit k.interval k.id_frame now (render c.session) c.station) c

  handled-Good :
      (now : ℕ) (r : DispatchResult) (x : Reply × Controller V)
      → Good now x.1
      → Good now (handled k now r x).1
  handled-Good now r (returned true, c) g = g
  handled-Good now r (returned false, c) g =
      Keeps-Good now c _ (recorded-Keeps r.name r.transmitted c) g
  handled-Good now r (raised, c) g = g

  Active-Keeps :
      (now : ℕ) (was : Bool) (c c' : Controller V)
      → Keeps c c'
      → Active now was c
      → Active now was c'
  Active-Keeps now was c c' h a = record {
    is_open = ap (λ (s : Session). s.state) h.same_session ∙ a.is_open;
    active_now = ap (λ (s : Session). s.last_activity) h.same_session ∙ a.active_now;
    was_ledger = h.same_ledger ∙ a.was_ledger;
  }

  command-Good :
      (was : Bool) (now : ℕ) (digits : String) (c : Controller V)
      → Active now was c
      → Good now (answered k was now (command digits) c).1
  unfolding answered dispatch
  command-Good was now digits c a =
      let (r, c1) = matched k digits now (find digits k.registry) c in
      let c2 = opened_by_command k was c1 in
      let c3 = reported k r.error c2 in
      let a1 = Active-Keeps now was c c1 (matched-Keeps digits now (find digits k.registry) c) a in
      let g3 =
        Keeps-Good now c2 c3 (reported-Keeps r.error c2) (opened_by_command-Good now was c1 a1) in
      handled-Good now r (run_command k false r.digits now c3) (run_command-Good r.digits now c3 g3)

  accepted-Good :
      (was : Bool) (now : ℕ) (c : Controller V)
      → c.session.state ≡ authenticated
      → c.session.last_activity ≡ now
      → Good now (answered k was now accepted c).1
  unfolding answered
  accepted-Good was now c e n =
      let c1 = with_station (begin_session c.station) c in
      let c2 = (announce k false now k.login_audio c1).1 in
      let h = announce-Keeps k false now k.login_audio c1 in
      Active-Good now (emit session_open (emit auth_accepted c2)) (record {
        is_open = ap (λ (s : Session). s.state) h.same_session ∙ e;
        active_now = ap (λ (s : Session). s.last_activity) h.same_session ∙ n;
        was_ledger = refl;
      })

  judged-Good :
      (now : ℕ) (x : Bool × V) (c : Controller V)
      → is_authenticated c.session.state ≡ false
      → ledger_open c.events ≡ false
      → Good now
          (gated k false now (judge (gate k) (record c.session { last_activity = now }) x) c).1
  unfolding answered is_idle
  judged-Good now (true, v) c out l = accepted-Good false now _ refl refl
  judged-Good now (false, v) c out l = record {
    on_ledger = out ∙ sym l;
    not_idle = ap (λ b. b && ltb k.timeout (now - now)) out;
  }

  state_of : (s : Session) → is_authenticated s.state ≡ true → s.state ≡ authenticated
  state_of s e = cases s.state e
    where
      cases : (st : SessionState) → is_authenticated st ≡ true → st ≡ authenticated
      cases authenticated e = refl
      cases unauthenticated e = absurd (false≢true e)

  pub gated-Good :
      (entry : String) (now : ℕ) (c : Controller V)
      → Good now c
      → Good now
          (gated k
            (is_authenticated c.session.state)
            now
            (on_dtmf (gate k) entry now c.session c.codes)
            c).1
  unfolding on_dtmf expire_if_idle
  gated-Good entry now c g =
      let was = is_authenticated c.session.state in
      let P : Outcome String × Session × V → Type 0 = λ x. Good now (gated k was now x c).1 in
      let s = record c.session { last_activity = now } in
      let fresh : P (
          if not k.enforce
          then (command entry, record s { state = authenticated }, c.codes)
          else if is_authenticated s.state
          then (command entry, s, c.codes)
          else judge (gate k) s (k.verify_and_burn entry now c.codes)) =
        if_intro P (not k.enforce)
          (λ t.
            command-Good was now entry (record c { session = record s { state = authenticated } })
              (record { is_open = refl; active_now = refl; was_ledger = sym g.on_ledger }))
          (λ t.
            if_intro P (is_authenticated s.state)
              (λ t.
                command-Good was now entry (record c { session = s })
                  (record {
                    is_open = state_of s t;
                    active_now = refl;
                    was_ledger = sym g.on_ledger;
                  }))
              (λ t.
                subst
                  (λ b.
                    Good now
                      (gated k b now (judge (gate k) s (k.verify_and_burn entry now c.codes)) c).1)
                  (sym t)
                  (judged-Good now (k.verify_and_burn entry now c.codes) c t
                    (sym g.on_ledger ∙ t)))) in
      subst
        (λ b.
          let p : Bool × Session =
            if b
            then (true, record c.session { state = unauthenticated })
            else (false, c.session) in
          let s' = record p.1 { last_activity = now } in
          P (
            if not k.enforce
            then (command entry, record s' { state = authenticated }, c.codes)
            else if is_authenticated s'.state
            then (command entry, s', c.codes)
            else judge (gate k) s' (k.verify_and_burn entry now c.codes)))
        (sym g.not_idle) fresh
