-- ===== src/Controller/Ledger.antt =====
-- Whether the session events of radio_server/controller/engine.py tell the state of the session.
pub mod Entry
pub mod Drive
use mathlib.Core.Path.{subst}
use radio_server.Base.{
  ℕ, ◌-◌, String, Bool, true, false, not, ◌&&◌, List, [], ◌∷◌, Option, none, some, ◌≡◌, refl, sym,
  ap, ◌∙◌, ◌⊎◌, inl, inr, if◌then◌else◌, if_intro, ltb, arith,
}
use radio_server.Auth.Gate.{
  Session, authenticated, unauthenticated, Outcome, accepted, rejected, command, is_authenticated,
  is_idle, judge, on_dtmf, expire_if_idle, logout,
}
use radio_server.Auth.Gate
use radio_server.Services.StationId.{
  Audio, StationId, Reply, returned, raised, transmit, identify, check, sign_off, begin_session,
}
use radio_server.Controller.State.{
  is_member, find, Service, Keyed, announcement, station_id, service, Event, session_open,
  auth_accepted, auth_rejected, id, session_close, tx_failed, ran, link, Config, gate, Controller,
  DispatchResult, with_station, emit, keyed, keying, after,
}
use radio_server.Controller.Command.{
  announce, close_session, play_id, logged_out, linked, link_command, run_command, served, matched,
  dispatch,
}
use radio_server.Controller.Step.{
  recorded, reported, opened_by_command, handled, commanded, answered, gated, entered, entries_loop,
  id_event, settled, step, announced, opened, open_session, concluded, triggered, trigger,
}

-- Whether the last session event, of the newest-first list, is a session_open.
abbrev pub ledger_open : List Event → Bool
ledger_open [] = false
ledger_open (session_open ∷ es) = true
ledger_open (session_close b ∷ es) = false
ledger_open (auth_accepted ∷ es) = ledger_open es
ledger_open (auth_rejected ∷ es) = ledger_open es
ledger_open (id ∷ es) = ledger_open es
ledger_open (tx_failed what ∷ es) = ledger_open es
ledger_open (ran name ∷ es) = ledger_open es
ledger_open (link entry ∷ es) = ledger_open es

-- The session is open exactly if the ledger says so.
abbrev pub IsOnLedger : {V : Type 0} → Controller V → Type 0
IsOnLedger c = is_authenticated c.session.state ≡ ledger_open c.events

module _ {V : Type 0} where
  -- Neither the session nor what the ledger says of it changed.
  pub record Keeps (c c' : Controller V) : Type 0 where
    pub same_session : c'.session ≡ c.session
    pub same_ledger : ledger_open c'.events ≡ ledger_open c.events

  pub Keeps-refl : (c : Controller V) → Keeps c c
  Keeps-refl c = record { same_session = refl; same_ledger = refl }

  pub Keeps-then : (c c' c'' : Controller V) → Keeps c c' → Keeps c' c'' → Keeps c c''
  Keeps-then c c' c'' x y = record {
    same_session = y.same_session ∙ x.same_session;
    same_ledger = y.same_ledger ∙ x.same_ledger;
  }

  pub keyed-Keeps :
      (what : Keyed) (strict : Bool) (r : Reply) (c : Controller V)
      → Keeps c (keyed what strict r c).1
  keyed-Keeps what strict (returned b) c = Keeps-refl c
  keyed-Keeps what strict raised c = record { same_session = refl; same_ledger = refl }

  pub keying-Keeps :
      (what : Keyed) (strict : Bool) (call : StationId → Reply × StationId) (c : Controller V)
      → Keeps c (keying what strict call c).1
  unfolding keying
  keying-Keeps what strict call c =
      let c' = with_station (call c.station).1 c in
      Keeps-then c c' _ (record { same_session = refl; same_ledger = refl })
        (keyed-Keeps what strict (call c.station).0 c')

  after-Keeps :
      (c : Controller V) (x : Reply × Controller V) (f : Bool → Controller V → Reply × Controller V)
      → Keeps c x.1
      → ((b : Bool) (c' : Controller V) → Keeps c' (f b c').1)
      → Keeps c (after x f).1
  after-Keeps c (returned b, c') f h g = Keeps-then c c' (f b c').1 h (g b c')
  after-Keeps c (raised, c') f h g = h

  -- A call that is not strict is followed by the rest, whatever the radio did.
  after_lax :
      (P : Reply × Controller V → Type 0) (what : Keyed) (call : StationId → Reply × StationId)
      (c : Controller V) (f : Bool → Controller V → Reply × Controller V)
      → ((b : Bool) (c' : Controller V) → Keeps c c' → P (f b c'))
      → P (after (keying what false call c) f)
  unfolding keying
  after_lax P what call c f h = go (call c.station)
    where
      go : (x : Reply × StationId) → P (after (keyed what false x.0 (with_station x.1 c)) f)
      go (returned b, s) =
          h b (with_station s c) (record { same_session = refl; same_ledger = refl })
      go (raised, s) =
          h false (emit (tx_failed what) (with_station s c))
            (record { same_session = refl; same_ledger = refl })

  -- A session that is closed for the caller is closed on the ledger.
  pub record Closes (c c' : Controller V) : Type 0 where
    pub closed_session : c'.session ≡ c.session
    pub closed : ledger_open c'.events ≡ false

module _ {V : Type 0} (k : Config V) where
  pub announce-Keeps :
      (strict : Bool) (now : ℕ) (audio : Option Audio) (c : Controller V)
      → Keeps c (announce k strict now audio c).1
  unfolding announce
  announce-Keeps strict now none c = Keeps-refl c
  announce-Keeps strict now (some audio) c =
      keying-Keeps announcement strict (transmit k.interval k.id_frame now audio) c

  pub play_id-Keeps :
      (strict : Bool) (now : ℕ) (c : Controller V) → Keeps c (play_id k strict now c).1
  play_id-Keeps strict now c =
      after-Keeps c (keying station_id strict (identify k.interval k.id_frame now) c)
        (λ sent c. (returned true, if sent then emit id c else c))
        (keying-Keeps station_id strict (identify k.interval k.id_frame now) c)
        (λ sent c.
          if_intro (λ (c' : Controller V). Keeps c c') sent
            (λ t. record { same_session = refl; same_ledger = refl }) (λ t. Keeps-refl c))

  linked-Keeps :
      (strict : Bool) (now : ℕ) (entry : Option String) (audio : Option Audio) (c : Controller V)
      → Keeps c (linked k strict now entry audio c).1
  linked-Keeps strict now entry audio c =
      let c' = record c { links = entry ∷ c.links } in
      after-Keeps c (announce k strict now audio c') (λ _ c. (returned true, emit (link entry) c))
        (Keeps-then c c' _ (record { same_session = refl; same_ledger = refl })
          (announce-Keeps strict now audio c'))
        (λ _ c. record { same_session = refl; same_ledger = refl })

  pub link_command-Keeps :
      (strict : Bool) (digit : String) (now : ℕ) (slug : Option String) (c : Controller V)
      → Keeps c (link_command k strict digit now slug c).1
  link_command-Keeps strict digit now (some slug) c =
      linked-Keeps strict now (some slug) (find slug k.link_audio) c
  link_command-Keeps strict digit now none c =
      if_intro (λ (x : Reply × Controller V). Keeps c x.1) (is_member digit k.link_off_digits)
        {y = (returned false, c)} (λ t. linked-Keeps strict now none k.link_off_audio c)
        (λ t. Keeps-refl c)

  sign_off-Closes :
      (now : ℕ) (c : Controller V)
      → Closes c
          (after
            (keying station_id false (sign_off k.interval k.id_frame now) c)
            (λ sent c. (returned sent, emit (session_close sent) c))).1
  sign_off-Closes now c =
      after_lax (λ x. Closes c x.1) station_id (sign_off k.interval k.id_frame now) c
        (λ sent c. (returned sent, emit (session_close sent) c))
        (λ b c' h. record { closed_session = h.same_session; closed = refl })

  pub close_session-Closes :
      (now : ℕ) (audio : Option Audio) (c : Controller V)
      → Closes c (close_session k false now audio c).1
  unfolding close_session announce
  close_session-Closes now none c = sign_off-Closes now c
  close_session-Closes now (some audio) c =
      after_lax (λ x. Closes c x.1) announcement (transmit k.interval k.id_frame now audio) c
        (λ _ c.
          after (keying station_id false (sign_off k.interval k.id_frame now) c)
            (λ sent c. (returned sent, emit (session_close sent) c)))
        (λ b c' h.
          let x = sign_off-Closes now c' in
          record { closed_session = x.closed_session ∙ h.same_session; closed = x.closed })
