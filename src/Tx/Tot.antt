-- ===== src/Tx/Tot.antt =====
-- radio_server/tx/tot.py: the time-out timer around a radio. A method is cut where it gives the lock back:
-- each locked section is a function, and so is what follows outside of the lock, so that other threads may
-- run in between. A timer may fire at any moment with the token that it was armed with, so a fire that was in
-- flight when it was cancelled is a run of `fire_locked` too; `_timer` is set and cleared together with
-- `_token` and is not a field of its own. Numbers that grow stand for the identities of the `object()`
-- tokens, and `calls` lists what reached the wrapped radio, newest first. A call of the radio that raises is
-- not modelled.
pub mod Threads
pub mod Watch
pub mod Latch
pub mod Race
use radio_server.Base.{
  ℕ, ◌+◌, Bool, true, false, not, List, [], ◌∷◌, Option, none, some, ltb, ◌==◌, if◌then◌else◌,
}

pub data RadioCall : Type 0 where
  ptt_call : Bool → RadioCall
  transmit_call : List ℕ → RadioCall

pub record TotRadio : Type 0 where
  pub tot : ℕ
  pub token : Option ℕ
  pub issued : ℕ
  pub keyed : Bool
  pub locked : Bool
  pub timeouts : ℕ
  pub calls : List RadioCall

abbrev pub new : ℕ → TotRadio
new tot = record {
  tot = tot;
  token = none;
  issued = 0;
  keyed = false;
  locked = false;
  timeouts = 0;
  calls = [];
}

-- `_disarm`
unfoldable pub disarm : TotRadio → TotRadio
disarm t = record t { token = none }

-- `_arm`
unfoldable pub arm : TotRadio → TotRadio
unfolding disarm
arm t = if ltb 0 t.tot then record t { token = some t.issued; issued = t.issued + 1 } else disarm t

abbrev pub is_live : Option ℕ → ℕ → Bool
is_live none tok = false
is_live (some k) tok = k == tok

-- `_fire`, under the lock: whether it goes on, which it does not for a token that is not live.
unfoldable pub fire_locked : ℕ → TotRadio → Bool × TotRadio
fire_locked tok t =
    if is_live t.token tok
    then (
      true,
      record t { token = none; keyed = false; locked = (if t.keyed then true else t.locked) },
    )
    else (false, t)

-- `_fire`, outside of the lock: the forced unkey, and the `on_timeout` hook (counted).
unfoldable pub forced : TotRadio → TotRadio
forced t = record t { timeouts = t.timeouts + 1; calls = ptt_call false ∷ t.calls }

-- `_fire` with no thread in between.
unfoldable pub fire : ℕ → TotRadio → TotRadio
unfolding fire_locked forced
fire tok t = let (on, t') = fire_locked tok t in if on then forced t' else t'

-- `ptt`, under the lock.
unfoldable pub ptt_locked : Bool → TotRadio → TotRadio
unfolding arm
ptt_locked on t =
    let fresh = record t { locked = false; keyed = on } in if on then arm fresh else disarm fresh

-- The wrapped call of `ptt`.
unfoldable pub key : Bool → TotRadio → TotRadio
key on t = record t { calls = ptt_call on ∷ t.calls }

-- `ptt` with no thread in between.
unfoldable pub ptt : Bool → TotRadio → TotRadio
unfolding ptt_locked key
ptt on t = key on (ptt_locked on t)

-- The first locked part of `transmit`: `none` if the audio is dropped, else `one_shot`.
unfoldable pub transmit_enter : TotRadio → Option Bool × TotRadio
transmit_enter t =
    if t.locked then (none, t) else (some (not t.keyed), if t.keyed then t else arm t)

-- The `finally` part of `transmit`.
unfoldable pub transmit_exit : Bool → TotRadio → TotRadio
unfolding disarm
transmit_exit one_shot t = if one_shot then (if t.locked then t else disarm t) else t

-- The wrapped call of `transmit`.
unfoldable pub send : List ℕ → TotRadio → TotRadio
send audio t = record t { calls = transmit_call audio ∷ t.calls }

unfoldable pub close : TotRadio → TotRadio
unfolding disarm
close t = record t { token = none; keyed = false; locked = false }
