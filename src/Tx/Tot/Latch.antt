-- ===== src/Tx/Tot/Latch.antt =====
-- What the time-out of radio_server/tx/tot.py leaves to the threads that run on.
use radio_server.Base.{ℕ, none, ◌+◌, true, false, ◌≡◌, List, [], ◌∷◌}
use radio_server.Tx.Tot.{TotRadio, RadioCall, ptt_call, transmit_call}
use radio_server.Tx.Tot.Threads.{Caller, pressing, sending, Threads, Event, press, shut}

-- No key command and no close: audio and timers only.
abbrev pub IsQuiet : Event → Type 0
IsQuiet (press on) = ⊥
IsQuiet shut = ⊥
IsQuiet _ = Unit {0}

-- The calls that put the radio on the air: audio, and a key command.
abbrev pub emitted : List RadioCall → ℕ
emitted [] = 0
emitted (ptt_call true ∷ cs) = 1 + emitted cs
emitted (ptt_call false ∷ cs) = emitted cs
emitted (transmit_call audio ∷ cs) = 1 + emitted cs

-- Such a call that the caller was let through to, and has not made yet.
abbrev pub under_way : Caller → ℕ
under_way (pressing true) = 1
under_way (sending audio b) = 1
under_way _ = 0

-- A radio that is latched off, with what it has emitted or still will, and the time-outs likewise.
record IsOff (emissions timeouts : ℕ) (s : Threads) : Type 0 where
  off : s.radio.locked ≡ true
  unkeyed : s.radio.keyed ≡ false
  idle : s.radio.token ≡ none
  emits : emitted s.radio.calls + under_way s.caller ≡ emissions
  reports : s.radio.timeouts + s.unkeying ≡ timeouts

abbrev threads : TotRadio → Caller → ℕ → Threads
threads t c n = record { radio = t; caller = c; unkeying = n }
