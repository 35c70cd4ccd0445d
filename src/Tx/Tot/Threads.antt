-- ===== src/Tx/Tot/Threads.antt =====
-- The threads of radio_server/tx/tot.py: one caller, and the timer threads. A step is one locked section or
-- one call of the wrapped radio, so the threads interleave wherever the lock is not held.
use radio_server.Base.{ℕ, zero, suc, ◌+◌, Bool, List, [], ◌∷◌, Option, none, some, if◌then◌else◌}
use radio_server.Tx.Tot.{
  TotRadio, new, fire_locked, forced, ptt_locked, key, transmit_enter, send, transmit_exit, close,
}

-- Where the caller stands: between two calls, or before the radio call of `ptt` or `transmit` or before the
-- `finally` of `transmit`.
pub data Caller : Type 0 where
  between : Caller
  pressing : Bool → Caller
  sending : List ℕ → Bool → Caller
  leaving : Bool → Caller

-- `unkeying` timer threads are past the lock of `_fire` and before their forced unkey.
pub record Threads : Type 0 where
  pub radio : TotRadio
  pub caller : Caller
  pub unkeying : ℕ

-- A call of `ptt`, `transmit` or `close`, the next step of the caller, a timer thread that enters `_fire`,
-- and one that unkeys. What is not up to happen leaves everything as it is.
pub data Event : Type 0 where
  press : Bool → Event
  play : List ℕ → Event
  shut : Event
  proceed : Event
  timer : ℕ → Event
  unkey : Event

abbrev pub start : ℕ → Threads
start tot = record { radio = new tot; caller = between; unkeying = 0 }

-- The locked section of a call of `transmit`.
abbrev pub entered : List ℕ → Option Bool × TotRadio → ℕ → Threads
entered audio (none, t) n = record { radio = t; caller = between; unkeying = n }
entered audio (some one_shot, t) n = record {
  radio = t;
  caller = sending audio one_shot;
  unkeying = n;
}

-- A call begins when the caller is between two.
abbrev pub called : Caller → Threads → Threads → Threads
called between s s' = s'
called _ s s' = s

abbrev pub proceeds : Caller → Threads → Threads
proceeds between s = s
proceeds (pressing on) s = record s { radio = key on s.radio; caller = between }
proceeds (sending audio one_shot) s = record s {
  radio = send audio s.radio;
  caller = leaving one_shot;
}
proceeds (leaving one_shot) s = record s {
  radio = transmit_exit one_shot s.radio;
  caller = between;
}

abbrev pub fired : Bool × TotRadio → Threads → Threads
fired (on, t) s = record s { radio = t; unkeying = (if on then s.unkeying + 1 else s.unkeying) }

abbrev pub unkeys : ℕ → Threads → Threads
unkeys zero s = s
unkeys (suc n) s = record s { radio = forced s.radio; unkeying = n }

abbrev pub apply : Threads → Event → Threads
apply s (press on) =
    called s.caller s (record s { radio = ptt_locked on s.radio; caller = pressing on })
apply s (play audio) = called s.caller s (entered audio (transmit_enter s.radio) s.unkeying)
apply s shut = called s.caller s (record s { radio = close s.radio })
apply s proceed = proceeds s.caller s
apply s (timer k) = fired (fire_locked k s.radio) s
apply s unkey = unkeys s.unkeying s

unfoldable pub run : Threads → List Event → Threads
run s [] = s
run s (e ∷ es) = run (apply s e) es
