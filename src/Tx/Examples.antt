-- ===== src/Tx/Examples.antt =====
-- The theorems about radio_server/tx at concrete inputs.
use radio_server.Base.{ℕ, Bool, true, false, ◌≡◌, ◌≢◌, refl, List, [], ◌∷◌, some, none, arith, ◌⊎◌}
use radio_server.Arbiter
use radio_server.Tx.Tot
use radio_server.Tx.Tot.{
  TotRadio, ptt_call, transmit_call, fire, ptt, fire_locked, forced, ptt_locked, key, arm,
  transmit_enter, transmit_exit, send,
}
use radio_server.Tx.Tot.Threads.{
  Event, press, play, proceed, timer, unkey, Threads, sending, start, apply, run,
}
use radio_server.Tx.Tot.Watch.{IsWatched, run-IsWatched}
use radio_server.Tx.Tot.Race.{key_during_one_shot}
use radio_server.Tx.Session.{TxSession, TxIdentifier, silent, id_audio, returned, key_up}
use radio_server.Tx.Session.Keying.Run
use radio_server.Tx.Session.Keying.Run.{
  Step, feed_step, touch_step, idle_step, close_step, run-IsCoherent,
}
use radio_server.Tx.Session.Keying.{IsCoherent, line_state, edge_state}
use radio_server.Tx.Session.Unwind.{IsUnkeyed, key_up_all_or_none}

-- A held key that times out while the caller is on its way to send, and audio after it.
abbrev stuck : List Event
stuck =
    press true
    ∷ proceed
    ∷ play (1 ∷ 2 ∷ [])
    ∷ timer 0
    ∷ proceed
    ∷ unkey
    ∷ proceed
    ∷ play (3 ∷ 4 ∷ [])
    ∷ proceed
    ∷ []

stuck_calls :
    (run (start 180) stuck).radio.calls
    ≡ ptt_call false ∷ transmit_call (1 ∷ 2 ∷ []) ∷ ptt_call true ∷ []
unfolding run ptt_locked key transmit_enter transmit_exit send fire_locked forced
stuck_calls = refl

run-IsWatched_example : IsWatched (run (start 180) stuck).radio
run-IsWatched_example = run-IsWatched 180 stuck

-- A held key, with the caller past the check of a `transmit`.
abbrev held : Threads
held = record {
  radio = record (Tot.new 180) {
    token = some 0;
    issued = 1;
    keyed = true;
    calls = ptt_call true ∷ [];
  };
  caller = sending (1 ∷ 2 ∷ []) false;
  unkeying = 0;
}

abbrev after_timeout : Threads
after_timeout =
    run (apply held (timer 0)) (proceed ∷ unkey ∷ proceed ∷ play (3 ∷ 4 ∷ []) ∷ proceed ∷ [])

key_during_one_shot_example :
    let (r, entered) = transmit_enter (Tot.new 180) in
    let left = transmit_exit true (ptt true (send (1 ∷ 2 ∷ []) entered)) in
    (r ≡ some true) × (left.keyed ≡ true) × (left.token ≡ none) × (fire 1 left ≡ left)
key_during_one_shot_example =
    key_during_one_shot (Tot.new 180) (1 ∷ 2 ∷ []) 1 (omega arith) refl refl

-- An identifier that wants to identify at key-up and at key-down.
abbrev talkative : TxIdentifier (Unit {0})
talkative = record {
  key_up_id = λ now s. (id_audio (9 ∷ 9 ∷ []), s);
  periodic_id = λ now s. (silent, s);
  sign_off_id = λ now s. (id_audio (8 ∷ 8 ∷ []), s);
}

abbrev starting : List Bool → TxSession (Unit {0})
starting faults = record {
  keyed = false;
  last_active = none;
  arbiter = Arbiter.new true;
  ident = tt;
  faults = faults;
  effects = [];
}

starting-IsCoherent : (faults : List Bool) → IsCoherent (starting faults)
unfolding line_state edge_state
starting-IsCoherent faults = record {
  latch = refl;
  line_as_keyed = refl;
  edge_as_keyed = refl;
  on_air = tt;
}

abbrev over : List Step
over = feed_step 1 1 (1 ∷ 2 ∷ []) ∷ feed_step 2 2 (3 ∷ []) ∷ touch_step 3 ∷ idle_step 5 9 9 ∷ []

run-IsCoherent_example : IsCoherent (Run.run talkative (starting (false ∷ false ∷ true ∷ [])) over)
run-IsCoherent_example =
    run-IsCoherent talkative (starting (false ∷ false ∷ true ∷ [])) over
      (starting-IsCoherent (false ∷ false ∷ true ∷ []))

key_up_all_or_none_example :
    (((key_up talkative 1 1 (starting (false ∷ true ∷ []))).0 ≡ returned)
      × ((key_up talkative 1 1 (starting (false ∷ true ∷ []))).1.keyed ≡ true)
      × ((key_up talkative 1 1 (starting (false ∷ true ∷ []))).1.arbiter.is_transmitting ≡ true))
    ⊎ (((key_up talkative 1 1 (starting (false ∷ true ∷ []))).0 ≢ returned)
        × IsUnkeyed false (key_up talkative 1 1 (starting (false ∷ true ∷ []))).1)
key_up_all_or_none_example =
    key_up_all_or_none talkative 1 1 (starting (false ∷ true ∷ []))
      (starting-IsCoherent (false ∷ true ∷ [])) refl

abbrev keyed_at : ℕ → TxSession (Unit {0})
keyed_at t = record (starting (true ∷ [])) {
  keyed = true;
  last_active = some t;
  arbiter = record (Arbiter.new true) { is_transmitting = true; is_receiving = true };
}
