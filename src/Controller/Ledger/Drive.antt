-- ===== src/Controller/Ledger/Drive.antt =====
-- The ledger of radio_server/controller/engine.py over any calls.
use mathlib.Core.Path.{subst}
use radio_server.Base.{
  ℕ, String, Bool, true, false, List, [], ◌∷◌, Option, none, some, ◌≡◌, refl, sym, ap, ◌∙◌, ◌⊎◌,
  inl, inr, if_intro,
}
use radio_server.Auth.Gate.{
  Session, SessionState, authenticated, unauthenticated, Outcome, accepted, rejected, command,
  is_authenticated, is_idle, judge, on_dtmf, expire_if_idle, logout,
}
use radio_server.Auth.Gate
use radio_server.Services.StationId.{Audio, Reply, returned, raised, transmit, check, begin_session}
use radio_server.Controller.State.{
  is_member, find, announcement, station_id, Config, gate, Controller, with_station, keying,
}
use radio_server.Controller.Command.{run_command, matched, dispatch}
use radio_server.Controller.Step.{
  reported, entered, entries_loop, id_event, settled, step, announced, opened, open_session,
  triggered, trigger,
}
use radio_server.Controller.Keys.Calls.Run.{Call, stepped, opening, pressed, called_with, drive}
use radio_server.Controller.Ledger.{
  IsOnLedger, Keeps, Keeps-refl, Keeps-then, keyed-Keeps, keying-Keeps, close_session-Closes,
}
use radio_server.Controller.Ledger.Entry.{
  Good, run_command-Keeps, run_command-Good, gated-Good, reported-Keeps, recorded-Keeps,
  matched-Keeps,
}
use radio_server.Controller.Keys.Calls.Run.{Call, stepped, opening, pressed, called_with, drive}

module _ {V : Type 0} (k : Config V) where
  entered-Good :
      (entry : String) (now : ℕ) (c : Controller V)
      → Good k now c
      → Good k now (entered k entry now c).1
  unfolding entered
  entered-Good entry now c g =
      if_intro (λ (x : Bool × Controller V). Good k now x.1) (is_member entry k.link_off_digits)
        (λ t. run_command-Good k entry now c g) (λ t. gated-Good k entry now c g)

  entries_loop-Good :
      (entries : List String) (now : ℕ) (c : Controller V)
      → Good k now c
      → Good k now (entries_loop k entries now c).1
  unfolding entries_loop
  entries_loop-Good [] now c g = g
  entries_loop-Good (entry ∷ entries) now c g =
      entries_loop-Good entries now (entered k entry now c).1 (entered-Good entry now c g)

  Keeps-IsOnLedger : (c c' : Controller V) → Keeps c c' → IsOnLedger c → IsOnLedger c'
  Keeps-IsOnLedger c c' h g =
      ap (λ (s : Session). is_authenticated s.state) h.same_session ∙ g ∙ sym h.same_ledger

  id_event-Keeps :
      (c : Controller V) (x : Reply × Controller V) → Keeps c x.1 → Keeps c (id_event k x).1
  id_event-Keeps c (returned true, c') h =
      Keeps-then c c' _ h (record { same_session = refl; same_ledger = refl })
  id_event-Keeps c (returned false, c') h = h
  id_event-Keeps c (raised, c') h = h

  settled-IsOnLedger :
      (signed : Bool) (now : ℕ) (c : Controller V)
      → IsOnLedger c
      → IsOnLedger (settled k signed now (expire_if_idle (gate k) now c.session) c).1
  unfolding expire_if_idle
  settled-IsOnLedger signed now c g =
      if_intro (λ (x : Bool × Session). IsOnLedger (settled k signed now x c).1)
        (is_idle (gate k) now c.session)
        (λ t.
          let h =
            close_session-Closes k now k.timeout_audio
              (record c { session = record c.session { state = unauthenticated } }) in
          ap (λ (s : Session). is_authenticated s.state) h.closed_session ∙ sym h.closed)
        (λ t.
          if_intro (λ (x : (Bool × Bool) × Controller V). IsOnLedger x.1)
            (is_authenticated c.session.state) {y = ((signed, false), c)}
            (λ t.
              let call = check k.interval k.id_frame now in
              Keeps-IsOnLedger c _
                (id_event-Keeps c (keying station_id false call c)
                  (keying-Keeps station_id false call c))
                g)
            (λ t. g))

  -- A step finds no entry for a session that is idle, and no logout is pressed.
  abbrev pub IsPrompt : Controller V → Call → Type 0
  IsPrompt c (stepped now entries) = (is_idle (gate k) now c.session ≡ false) ⊎ (entries ≡ [])
  IsPrompt c (opening now) = Unit
  IsPrompt c (pressed digit now) = is_member digit k.logout_digits ≡ false

  abbrev pub ArePrompt : Controller V → List Call → Type 0
  ArePrompt c [] = Unit
  ArePrompt c (e ∷ es) = IsPrompt c e × ArePrompt (called_with k c e) es

  step-IsOnLedger :
      (now : ℕ) (entries : List String) (c : Controller V)
      → IsPrompt c (stepped now entries)
      → IsOnLedger c
      → IsOnLedger (step k now entries c).1
  unfolding step entries_loop
  step-IsOnLedger now entries c (inl n) g =
      let (signed, c') = entries_loop k entries now c in
      let good = entries_loop-Good entries now c (record { on_ledger = g; not_idle = n }) in
      settled-IsOnLedger signed now c' good.on_ledger
  step-IsOnLedger now entries c (inr e) g =
      subst (λ l. IsOnLedger (step k now l c).1) (sym e) (settled-IsOnLedger false now c g)

  announced-Keeps :
      (audio : Option Audio) (now : ℕ) (c : Controller V) → Keeps c (announced k audio now c).1
  announced-Keeps none now c = Keeps-refl c
  announced-Keeps (some audio) now c =
      let (reply, s) = transmit k.interval k.id_frame now audio c.station in
      Keeps-then c (with_station s c) _ (record { same_session = refl; same_ledger = refl })
        (keyed-Keeps announcement false reply (with_station s c))

  open-IsOnLedger :
      (now : ℕ) (c : Controller V) → IsOnLedger c → IsOnLedger (open_session k now c).1
  unfolding open_session Gate.open_session
  open-IsOnLedger now c g =
      if_intro (λ (x : Bool × Session). IsOnLedger (opened k now x c).1)
        (is_authenticated c.session.state) (λ t. g)
        (λ t.
          let c' = record c { session = record { state = authenticated; last_activity = now } } in
          let h = announced-Keeps k.login_audio now (with_station (begin_session c'.station) c') in
          ap (λ (s : Session). is_authenticated s.state) h.same_session)

  triggered-Keeps :
      (digit : String) (now : ℕ) (c : Controller V) (x : Reply × Controller V)
      → Keeps c x.1
      → Keeps c (triggered k digit now x).1
  unfolding dispatch
  triggered-Keeps digit now c (returned true, c') h = h
  triggered-Keeps digit now c (returned false, c') h =
      let (r, c1) = matched k digit now (find digit k.registry) c' in
      Keeps-then c c' _ h (
        Keeps-then c' c1 _ (matched-Keeps k digit now (find digit k.registry) c') (
          Keeps-then c1 (reported k r.error c1) _ (reported-Keeps k r.error c1)
            (recorded-Keeps k r.name r.transmitted (reported k r.error c1))))
  triggered-Keeps digit now c (raised, c') h = h

  call-IsOnLedger :
      (c : Controller V) (e : Call) → IsPrompt c e → IsOnLedger c → IsOnLedger (called_with k c e)
  unfolding trigger
  call-IsOnLedger c (stepped now entries) p g = step-IsOnLedger now entries c p g
  call-IsOnLedger c (opening now) p g = open-IsOnLedger now c g
  call-IsOnLedger c (pressed digit now) p g =
      Keeps-IsOnLedger c _
        (triggered-Keeps digit now c (run_command k true digit now c)
          (run_command-Keeps k true digit now c p))
        g

  -- When the session events tell the state of the session, they still do after any steps, logins from the
  -- web page and pressed buttons, whatever the radio refuses, provided that no step finds an entry for a
  -- session that is already idle, and that the logout is not pressed.
  pub drive-IsOnLedger :
      (c : Controller V) (es : List Call)
      → ArePrompt c es
      → IsOnLedger c
      → IsOnLedger (drive k c es)
  drive-IsOnLedger c [] p g = g
  drive-IsOnLedger c (e ∷ es) (p, ps) g =
      drive-IsOnLedger (called_with k c e) es ps (call-IsOnLedger c e p g)
