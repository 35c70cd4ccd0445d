-- ===== src/Auth/Gate.antt =====
-- `Session` and `AuthGate` of radio_server/auth/session.py. The verifier is anything with the
-- `verify_and_burn` of `TotpVerifier` and `FixedCodeVerifier`, over its own state `V`; the dispatch
-- hook may change the session. Times are ticks of the injected clock. A hook that raises is not
-- modelled.
pub mod Login
pub mod Polling
use radio_server.Base.{
  ℕ, ◌-◌, String, Bool, true, false, not, ◌&&◌, List, [], ◌∷◌, ltb, if◌then◌else◌,
}

pub data SessionState : Type 0 where
  unauthenticated authenticated : SessionState

pub record Session : Type 0 where
  pub state : SessionState
  pub last_activity : ℕ

abbrev pub new : Session
new = record { state = unauthenticated; last_activity = 0 }

abbrev pub is_authenticated : SessionState → Bool
is_authenticated authenticated = true
is_authenticated unauthenticated = false

-- `OutcomeKind` with the `detail` of a command.
pub data Outcome (D : Type 0) : Type 0 where
  accepted rejected : Outcome D
  command : D → Outcome D

pub record AuthGate (V D : Type 0) : Type 0 where
  pub verify_and_burn : String → ℕ → V → Bool × V
  pub dispatch : String → Session → D × Session
  pub timeout : ℕ
  pub enforce : Bool

module _ {V D : Type 0} (g : AuthGate V D) where
  -- An authenticated session that is idle past the timeout.
  unfoldable pub is_idle : ℕ → Session → Bool
  is_idle now s = is_authenticated s.state && ltb g.timeout (now - s.last_activity)

  unfoldable pub expire_if_idle : ℕ → Session → Bool × Session
  unfolding is_idle
  expire_if_idle now s =
      if is_idle now s then (true, record s { state = unauthenticated }) else (false, s)

  -- The `_dispatch` call of a session in `s`, and its outcome.
  abbrev pub run_command : String → Session → V → Outcome D × Session × V
  run_command digits s v = let (d, s') = g.dispatch digits s in (command d, s', v)

  abbrev pub judge : Session → Bool × V → Outcome D × Session × V
  judge s (true, v) = (accepted, record s { state = authenticated }, v)
  judge s (false, v) = (rejected, s, v)

  unfoldable pub on_dtmf : String → ℕ → Session → V → Outcome D × Session × V
  on_dtmf digits now s v =
      let s' = record (expire_if_idle now s).1 { last_activity = now } in
      if not g.enforce
      then run_command digits (record s' { state = authenticated }) v
      else if is_authenticated s'.state
      then run_command digits s' v
      else judge s' (g.verify_and_burn digits now v)

unfoldable pub logout : Session → Bool × Session
logout s =
    if is_authenticated s.state then (true, record s { state = unauthenticated }) else (false, s)

unfoldable pub open_session : ℕ → Session → Bool × Session
open_session now s =
    if is_authenticated s.state
    then (false, record s { last_activity = now })
    else (true, record s { state = authenticated; last_activity = now })
