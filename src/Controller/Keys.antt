-- ===== src/Controller/Keys.antt =====
-- What the calls of radio_server/controller/engine.py do to the transmitter and tell of it.
pub mod Calls
use radio_server.Base.{
  ℕ, zero, suc, ◌+◌, String, Bool, true, false, not, ◌&&◌, List, [], ◌∷◌, ◌++◌, Option, none, some,
  ◌≡◌, refl, sym, ap, ◌∙◌, if◌then◌else◌, if_intro, Bool-cases, inl, inr, arith,
}
use radio_server.Auth.Gate.{
  Session, Outcome, accepted, rejected, command, is_authenticated, on_dtmf, expire_if_idle, logout,
}
use radio_server.Auth.Gate
use radio_server.Services.StationId.{
  Audio, StationId, new, Reply, returned, raised, Over, over, id_over, send, faulty, later_faults,
  settle, reset, due, due_at, transmit, identify, check, sign_off, begin_session,
}
use radio_server.Services.StationId.Identified.{
  Op, content, on_demand, poll, end_session, start_session, apply, run, Identified,
  overs-Identified,
}
use radio_server.Controller.State.{
  is_member, find, Keyed, station_id, service, announcement, Event, session_open, auth_accepted,
  auth_rejected, id, session_close, tx_failed, ran, link, Config, gate, Controller, DispatchResult,
  with_station, emit, keyed, keying, after,
}
use radio_server.Controller.Command.{
  announce, close_session, play_id, logged_out, linked, link_command, run_command, served, matched,
  dispatch,
}
use radio_server.Controller.Step.{
  recorded, reported, opened_by_command, handled, commanded, answered, gated, entered, entries_loop,
  id_event, periodic, settled, step, announced, opened, open_session, concluded, triggered, trigger,
}

-- The calls that the radio will refuse.
abbrev pub refusals : List Bool → ℕ
refusals [] = 0
refusals (b ∷ bs) = (if b then 1 else 0) + refusals bs

abbrev pub count_failure : Event → ℕ
count_failure (tx_failed what) = 1
count_failure session_open = 0
count_failure auth_accepted = 0
count_failure auth_rejected = 0
count_failure id = 0
count_failure (session_close b) = 0
count_failure (ran name) = 0
count_failure (link entry) = 0

-- The `tx_failed` events.
abbrev pub failures : List Event → ℕ
failures [] = 0
failures (e ∷ es) = count_failure e + failures es

abbrev pub count_raised : Reply → ℕ
count_raised (returned b) = 0
count_raised raised = 1

refusals_step :
    (bs : List Bool) → refusals bs ≡ (if faulty bs then 1 else 0) + refusals (later_faults bs)
refusals_step [] = refl
refusals_step (b ∷ bs) = refl

-- A reply, and what became of the station: it raised if the radio refused the call.
abbrev pub Accounted : StationId → Reply × StationId → Type 0
Accounted s (r, s') = refusals s'.faults + count_raised r ≡ refusals s.faults

settle-Accounted :
    (f : StationId → StationId) (o : Over) (s : StationId)
    → ((s' : StationId) → (f s').faults ≡ s'.faults)
    → Accounted s (settle f (send o s))
unfolding send
settle-Accounted f o s h =
    let e = refusals_step s.faults in
    if_intro (λ p. Accounted s (settle f p)) (faulty s.faults)
      (λ t. omega (arith, ap {B = ℕ} (λ t. if t then 1 else 0) t))
      (λ t. omega (
        arith,
        ap {B = ℕ} (λ t. if t then 1 else 0) t,
        ap refusals (h (record s { faults = later_faults s.faults; overs = o ∷ s.overs })),
      ))

module _ {V : Type 0} (k : Config V) where
  abbrev apply_op : StationId → Op → StationId
  apply_op = apply k.interval k.id_frame

  abbrev pub runs : StationId → List Op → StationId
  runs = run k.interval k.id_frame

  -- A method of the station: one of its operations, and it raises when the radio refuses.
  pub record Called (call : StationId → Reply × StationId) (o : Op) : Type 0 where
    pub called : (s : StationId) → (call s).1 ≡ apply_op s o
    pub accounts : (s : StationId) → Accounted s (call s)

  pub transmit-Called :
      (now : ℕ) (audio : Audio)
      → Called (transmit k.interval k.id_frame now audio) (content now audio)
  unfolding transmit
  transmit-Called now audio = record {
    called = λ s. refl;
    accounts = λ s.
        settle-Accounted _ (over k.interval k.id_frame now audio (due k.interval k.id_frame now s))
          s (λ s'. refl);
  }

  identify-Called : (now : ℕ) → Called (identify k.interval k.id_frame now) (on_demand now)
  unfolding identify
  identify-Called now = record {
    called = λ s. refl;
    accounts = λ s. settle-Accounted _ (id_over k.interval k.id_frame now) s (λ s'. refl);
  }

  pub check-Called : (now : ℕ) → Called (check k.interval k.id_frame now) (poll now)
  unfolding check
  check-Called now = record {
    called = λ s. refl;
    accounts = λ s.
        if_intro (Accounted s) (s.transmitted_this_session && due k.interval k.id_frame now s)
          (λ t. settle-Accounted _ (id_over k.interval k.id_frame now) s (λ s'. refl))
          (λ t. omega arith);
  }

  sign_off-Called : (now : ℕ) → Called (sign_off k.interval k.id_frame now) (end_session now)
  unfolding sign_off
  sign_off-Called now = record {
    called = λ s. refl;
    accounts = λ s.
        if_intro (Accounted s) s.transmitted_this_session
          (λ t. settle-Accounted _ (id_over k.interval k.id_frame now) s (λ s'. refl))
          (λ t. omega arith);
  }

  -- The refusals that a call met and those that it told of; the calls still to be refused count too.
  abbrev pub told : Controller V → ℕ
  told c = failures c.events + refusals c.station.faults

  -- From `c` to `c'` the transmitter was used by operations of the station only, and every refusal was told.
  pub record Keys (c c' : Controller V) : Type 0 where
    pub ops : List Op
    pub station_run : c'.station ≡ runs c.station ops
    pub all_told : told c' ≡ told c

  pub run-append : (s : StationId) (xs ys : List Op) → runs s (xs ++ ys) ≡ runs (runs s xs) ys
  unfolding run
  run-append s [] ys = refl
  run-append s (x ∷ xs) ys = run-append (apply_op s x) xs ys

  -- Nothing was keyed, and no failure told.
  pub Keys-still :
      (c c' : Controller V)
      → c'.station ≡ c.station
      → failures c'.events ≡ failures c.events
      → Keys c c'
  unfolding run
  Keys-still c c' e f = record {
    ops = [];
    station_run = e;
    all_told = omega (arith, f, ap (λ (s : StationId). refusals s.faults) e);
  }

  pub Keys-emit : (c : Controller V) (e : Event) → count_failure e ≡ 0 → Keys c (emit e c)
  Keys-emit c e z = Keys-still c (emit e c) refl (omega arith)

  pub Keys-then : (c c' c'' : Controller V) → Keys c c' → Keys c' c'' → Keys c c''
  Keys-then c c' c'' x y = record {
    ops = x.ops ++ y.ops;
    station_run =
        y.station_run
        ∙ ap (λ s. runs s y.ops) x.station_run
        ∙ sym (run-append c.station x.ops y.ops);
    all_told = y.all_told ∙ x.all_told;
  }

  pub keyed_told :
      (what : Keyed) (strict : Bool) (r : Reply) (c : Controller V)
      → (failures (keyed what strict r c).1.events ≡ count_raised r + failures c.events)
        × ((keyed what strict r c).1.station ≡ c.station)
  keyed_told what strict (returned b) c = (omega arith, refl)
  keyed_told what strict raised c = (refl, refl)

  pub keying-Keys :
      (what : Keyed) (strict : Bool) (call : StationId → Reply × StationId) (o : Op)
      (c : Controller V)
      → Called call o
      → Keys c (keying what strict call c).1
  unfolding keying run
  keying-Keys what strict call o c h =
      let c' = with_station (call c.station).1 c in
      let (f, e) = keyed_told what strict (call c.station).0 c' in
      record {
        ops = o ∷ [];
        station_run = e ∙ h.called c.station;
        all_told =
            omega (arith, f, h.accounts c.station, ap (λ (s : StationId). refusals s.faults) e);
      }

  pub begin-Keys : (c : Controller V) → Keys c (with_station (begin_session c.station) c)
  unfolding begin_session run
  begin-Keys c = record { ops = start_session ∷ []; station_run = refl; all_told = refl }

  after-Keys :
      (c : Controller V) (x : Reply × Controller V) (f : Bool → Controller V → Reply × Controller V)
      → Keys c x.1
      → ((b : Bool) (c' : Controller V) → Keys c' (f b c').1)
      → Keys c (after x f).1
  after-Keys c (returned b, c') f h g = Keys-then c c' (f b c').1 h (g b c')
  after-Keys c (raised, c') f h g = h

  pub announce-Keys :
      (strict : Bool) (now : ℕ) (audio : Option Audio) (c : Controller V)
      → Keys c (announce k strict now audio c).1
  unfolding announce
  announce-Keys strict now none c = Keys-still c c refl refl
  announce-Keys strict now (some audio) c = keying-Keys _ strict _ _ c (transmit-Called now audio)

  pub close_session-Keys :
      (strict : Bool) (now : ℕ) (audio : Option Audio) (c : Controller V)
      → Keys c (close_session k strict now audio c).1
  unfolding close_session
  close_session-Keys strict now audio c =
      let close : Bool → Controller V → Reply × Controller V =
        λ sent c. (returned sent, emit (session_close sent) c) in
      after-Keys c (announce k strict now audio c)
        (λ _ c. after (keying station_id strict (sign_off k.interval k.id_frame now) c) close)
        (announce-Keys strict now audio c)
        (λ _ c.
          after-Keys c (keying station_id strict (sign_off k.interval k.id_frame now) c) close
            (keying-Keys station_id strict (sign_off k.interval k.id_frame now) (end_session now) c
              (sign_off-Called now))
            (λ sent c. Keys-emit c (session_close sent) refl))

  play_id-Keys : (strict : Bool) (now : ℕ) (c : Controller V) → Keys c (play_id k strict now c).1
  play_id-Keys strict now c =
      after-Keys c _ _ (keying-Keys _ strict _ _ c (identify-Called now)) (λ sent c.
        if_intro (λ (c' : Controller V). Keys c c') sent (λ t. Keys-emit c id refl)
          (λ t. Keys-still c c refl refl))

  logged_out-Keys :
      (strict : Bool) (now : ℕ) (b : Bool) (s : Session) (c : Controller V)
      → Keys c (logged_out k strict now (b, s) c).1
  logged_out-Keys strict now true s c =
      after-Keys c _ _
        (Keys-then c (record c { session = s }) _ (Keys-still c _ refl refl)
          (close_session-Keys strict now k.logout_audio (record c { session = s })))
        (λ _ c. Keys-still c c refl refl)
  logged_out-Keys strict now false s c = Keys-still c _ refl refl

  linked-Keys :
      (strict : Bool) (now : ℕ) (entry : Option String) (audio : Option Audio) (c : Controller V)
      → Keys c (linked k strict now entry audio c).1
  linked-Keys strict now entry audio c =
      after-Keys c _ _
        (Keys-then c (record c { links = entry ∷ c.links }) _ (Keys-still c _ refl refl)
          (announce-Keys strict now audio (record c { links = entry ∷ c.links })))
        (λ _ c. Keys-emit c (link entry) refl)

  link_command-Keys :
      (strict : Bool) (digit : String) (now : ℕ) (slug : Option String) (c : Controller V)
      → Keys c (link_command k strict digit now slug c).1
  link_command-Keys strict digit now (some slug) c = linked-Keys strict now _ _ c
  link_command-Keys strict digit now none c =
      if_intro (λ (x : Reply × Controller V). Keys c x.1) (is_member digit k.link_off_digits)
        {y = (returned false, c)} (λ t. linked-Keys strict now none k.link_off_audio c)
        (λ t. Keys-still c c refl refl)

  pub run_command-Keys :
      (strict : Bool) (digit : String) (now : ℕ) (c : Controller V)
      → Keys c (run_command k strict digit now c).1
  unfolding run_command
  run_command-Keys strict digit now c =
      if_intro (λ (x : Reply × Controller V). Keys c x.1) (is_member digit k.id_digits)
        (λ t. play_id-Keys strict now c)
        (λ t.
          if_intro (λ (x : Reply × Controller V). Keys c x.1) (is_member digit k.logout_digits)
            (λ t. logged_out-Keys strict now (logout c.session).0 (logout c.session).1 c)
            (λ t. link_command-Keys strict digit now (find digit k.link_digits) c))
