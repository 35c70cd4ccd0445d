-- ===== src/Auth/Examples.antt =====
-- The theorems about radio_server/auth at concrete inputs.
use radio_server.Base.{zero, String, true, false, ◌≡◌, refl, List, [], ◌∷◌, arith, All}
use radio_server.Base.Int.{ℤ, pos, ◌+ℤ◌, ◌*ℤ◌}
use radio_server.Auth.Totp.{
  TotpVerifier, verify_and_burn, verify_fixed, is_in, prune, step_at, expected, try_steps,
}
use radio_server.Auth.Totp.Replay
use radio_server.Auth.Totp.Match.{matched, first_match}
use radio_server.Auth.Totp.Replay.{accepted_once}
use radio_server.Auth.Gate
use radio_server.Auth.Gate.{
  AuthGate, Session, Outcome, command, rejected, authenticated, unauthenticated, on_dtmf,
  run_command, judge,
}
use radio_server.Auth.Gate.Login.{
  Event, entry, tick, sign_out, IsWrong, no_code_no_command, outcomes,
}

-- One code in the first step, and another from then on.
abbrev code_at : ℤ → String
code_at (pos zero) = "111111"
code_at _ = "222222"

abbrev verifier : TotpVerifier
verifier = record { code_at = code_at; ticks = 1; interval = 30; consumed = [] }

first_login : (verify_and_burn "222222" 45 verifier).0 ≡ true
unfolding verify_and_burn try_steps expected step_at prune is_in ◌+ℤ◌ ◌*ℤ◌
first_login = refl

accepted_once_example :
    (verify_and_burn "222222" 46
      (Replay.run (("111111", 45) ∷ []) (verify_and_burn "222222" 45 verifier).1)).0
    ≡ false
unfolding matched first_match expected step_at ◌+ℤ◌ ◌*ℤ◌
accepted_once_example =
    accepted_once verifier "222222" (pos 1) 45 46 (("111111", 45) ∷ []) first_login refl
      (omega arith) refl

-- A gate with the fixed code of radio_server/auth/fixed.py, which echoes the digits.
abbrev gate : AuthGate (Unit {0}) String
gate = record {
  verify_and_burn = λ digits now v. (verify_fixed "1234" digits, v);
  dispatch = λ digits s. (digits, s);
  timeout = 300;
  enforce = true;
}

abbrev logged_in : Session
logged_in = record { state = authenticated; last_activity = 100 }

abbrev guesses : List Event
guesses = entry "5" 10 ∷ tick 11 ∷ entry "0000" 12 ∷ sign_out ∷ entry "" 13 ∷ []

guesses-IsWrong : All (IsWrong gate) guesses
unfolding verify_fixed
guesses-IsWrong = ((λ v. refl), (tt, ((λ v. refl), (tt, ((λ v. refl), tt)))))

no_code_no_command_example : All (λ o. o ≡ rejected) (outcomes gate guesses Gate.new tt)
no_code_no_command_example = no_code_no_command gate guesses Gate.new tt refl refl guesses-IsWrong

abbrev visit : List Event
visit = entry "1234" 10 ∷ tick 200 ∷ entry "5" 250 ∷ tick 600 ∷ entry "6" 700 ∷ []
