-- ===== src/Tx/Session.antt =====
-- `TxSession` of radio_server/tx/session.py. The radio and the identifier may raise at any call: the
-- session carries a list of what its next radio calls do (`true` raises; past its end they return),
-- and every effect is listed, newest first, a refused one too. The key-edge callback does not raise
-- (the wired publisher cannot); what the recorder raises is swallowed by the code, so a recorder
-- call is an effect that always returns. A session with no identifier has one that stays silent.
-- Times are ticks of the injected clock, and `later` is the reading of the clock in `close`.
pub mod Keying
pub mod Unwind
use radio_server.Base.{
  ℕ, ◌+◌, ◌-◌, ◌%◌, Bool, true, false, not, List, [], ◌∷◌, Option, none, some, length, leb, ◌==◌,
  if◌then◌else◌,
}
use radio_server.Arbiter
use radio_server.Arbiter.{RadioArbiter}

abbrev pub Audio : Type 0
Audio = List ℕ

-- `CANONICAL_FORMAT.frame_bytes`: two bytes to a sample, one channel.
abbrev pub frame_bytes : ℕ
frame_bytes = 2

pub data Effect : Type 0 where
  line : Bool → Effect
  line_refused : Bool → Effect
  sent : Audio → Effect
  send_refused : Audio → Effect
  key_edge : Bool → Effect
  recorded : Audio → Effect
  segment_ended : Effect

pub data Error : Type 0 where
  format_mismatch arbiter_state radio_fault identifier_fault : Error

pub data Reply : Type 0 where
  returned : Reply
  raised : Error → Reply

-- What an identifier answers: `None`, ID audio, or an exception.
pub data IdReply : Type 0 where
  silent : IdReply
  id_audio : Audio → IdReply
  broken : IdReply

-- The `TxIdentifier` protocol, over the identifier's own state.
pub record TxIdentifier (S : Type 0) : Type 0 where
  pub key_up_id : ℕ → S → IdReply × S
  pub periodic_id : ℕ → S → IdReply × S
  pub sign_off_id : ℕ → S → IdReply × S

pub record TxSession (S : Type 0) : Type 0 where
  pub keyed : Bool
  pub last_active : Option ℕ
  pub arbiter : RadioArbiter
  pub ident : S
  pub faults : List Bool
  pub effects : List Effect

abbrev pub faulty : List Bool → Bool
faulty [] = false
faulty (b ∷ bs) = b

abbrev pub later_faults : List Bool → List Bool
later_faults [] = []
later_faults (b ∷ bs) = bs

module _ {S : Type 0} where
  -- One call of the radio: it does `e`, or raises and is listed as `refused`.
  unfoldable pub attempt : Effect → Effect → TxSession S → Reply × TxSession S
  attempt e refused s =
      if faulty s.faults
      then (
        raised radio_fault,
        record s { faults = later_faults s.faults; effects = refused ∷ s.effects },
      )
      else (returned, record s { faults = later_faults s.faults; effects = e ∷ s.effects })

  unfoldable pub ptt : Bool → TxSession S → Reply × TxSession S
  ptt on = attempt (line on) (line_refused on)

  unfoldable pub transmit : Audio → TxSession S → Reply × TxSession S
  transmit audio = attempt (sent audio) (send_refused audio)

  abbrev pub play : IdReply → TxSession S → Reply × TxSession S
  play silent s = (returned, s)
  play (id_audio a) s = transmit a s
  play broken s = (raised identifier_fault, s)

  -- Ask the identifier, and transmit what it answers.
  unfoldable pub identify : (ℕ → S → IdReply × S) → ℕ → TxSession S → Reply × TxSession S
  identify ask now s = let (r, i) = ask now s.ident in play r (record s { ident = i })

  abbrev pub released : Reply × TxSession S → Reply × TxSession S
  released (raised e, s) = (raised e, s)
  released (returned, s) = (
    returned,
    record s {
      keyed = false;
      arbiter = Arbiter.release_tx s.arbiter;
      effects = segment_ended ∷ key_edge false ∷ s.effects;
    },
  )

module _ {S : Type 0} (id : TxIdentifier S) where
  -- `close`: the sign-off ID is best effort, the unkey is not.
  unfoldable pub close : ℕ → TxSession S → Reply × TxSession S
  close now s =
      if s.keyed then released (ptt false (identify id.sign_off_id now s).1) else (returned, s)

  -- The second window of `_key_up`: a fault closes the session and is raised again.
  abbrev pub or_close : ℕ → Reply × TxSession S → Reply × TxSession S
  or_close later (returned, s) = (returned, s)
  or_close later (raised e, s) = (raised e, (close later s).1)

  abbrev pub line_up : ℕ → ℕ → Reply × TxSession S → Reply × TxSession S
  line_up now later (raised e, s) = (raised e, record s { arbiter = Arbiter.release_tx s.arbiter })
  line_up now later (returned, s) =
      or_close later
        (identify id.key_up_id now (record s { keyed = true; effects = key_edge true ∷ s.effects }))

  abbrev pub claimed : ℕ → ℕ → Option RadioArbiter → TxSession S → Reply × TxSession S
  claimed now later none s = (raised arbiter_state, s)
  claimed now later (some a) s = line_up now later (ptt true (record s { arbiter = a }))

  unfoldable pub key_up : ℕ → ℕ → TxSession S → Reply × TxSession S
  key_up now later s = claimed now later (Arbiter.acquire_tx s.arbiter) s

  abbrev pub stamped : ℕ → Audio → Reply × TxSession S → Reply × TxSession S
  stamped now bytes (raised e, s) = (raised e, s)
  stamped now bytes (returned, s) =
      (returned, record s { last_active = some now; effects = recorded bytes ∷ s.effects })

  abbrev pub content : ℕ → Audio → Reply × TxSession S → Reply × TxSession S
  content now bytes (raised e, s) = (raised e, s)
  content now bytes (returned, s) = stamped now bytes (transmit bytes s)

  unfoldable pub feed : ℕ → ℕ → Audio → TxSession S → Reply × TxSession S
  feed now later bytes s =
      if not (length bytes % frame_bytes == 0)
      then (raised format_mismatch, s)
      else if length bytes == 0
      then (returned, s)
      else content now bytes (if s.keyed then identify id.periodic_id now s else key_up now later s)

  abbrev pub since : ℕ → Option ℕ → ℕ → Bool
  since now none timeout = false
  since now (some t) timeout = leb timeout (now - t)

  -- `idle_elapsed`, for a clock that does not run backwards.
  unfoldable pub idle_elapsed : ℕ → ℕ → TxSession S → Bool
  idle_elapsed idle_timeout now s = if s.keyed then since now s.last_active idle_timeout else false

  unfoldable pub on_idle : ℕ → ℕ → ℕ → TxSession S → (Reply × TxSession S) × Bool
  unfolding idle_elapsed
  on_idle idle_timeout now later s =
      if idle_elapsed idle_timeout now s then (close later s, true) else ((returned, s), false)

module _ {S : Type 0} where
  unfoldable pub touch : ℕ → TxSession S → TxSession S
  touch now s = if s.keyed then record s { last_active = some now } else s
