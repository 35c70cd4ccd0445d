-- ===== src/Auth/Totp.antt =====
-- `TotpVerifier` of radio_server/auth/totp.py and `FixedCodeVerifier` of radio_server/auth/fixed.py.
-- The clock's reading is `now`, in ticks of a second divided by `ticks`; `code_at` is what
-- `pyotp.TOTP.at` gives for a Unix time, which may lie before the epoch. `compare_digest` of two
-- ASCII texts is their equality. The burned pairs are a list, newest first.
pub mod Match
pub mod Replay
use radio_server.Base.{
  ℕ, ◌-◌, ◌/◌, ◌%◌, String, str_eq, Bool, true, false, ◌&&◌, ◌||◌, not, List, [], ◌∷◌, Option, none,
  some, if◌then◌else◌,
}
use radio_server.Base.Int.{ℤ, pos, negsuc, ◌+ℤ◌, ◌*ℤ◌, eq_ℤ, leb_ℤ}

-- (code, time step)
abbrev pub Burn : Type 0
Burn = String × ℤ

abbrev pub eq_burn : Burn → Burn → Bool
eq_burn (c, s) (d, t) = str_eq c d && eq_ℤ s t

unfoldable pub is_in : Burn → List Burn → Bool
is_in b [] = false
is_in b (x ∷ xs) = eq_burn b x || is_in b xs

-- `_prune`
unfoldable pub prune : ℤ → List Burn → List Burn
prune now_step [] = []
prune now_step ((code, step) ∷ bs) =
    let rest = prune now_step bs in
    if leb_ℤ (now_step +ℤ negsuc 0) step then (code, step) ∷ rest else rest

pub record TotpVerifier : Type 0 where
  pub code_at : ℤ → String
  pub ticks : ℕ
  pub interval : ℕ
  pub consumed : List Burn

-- `_step_at`: int(now) // interval
unfoldable pub step_at : TotpVerifier → ℕ → ℤ
step_at v now = pos (now / v.ticks / v.interval)

-- The offsets -1, 0, 1 of the window.
abbrev pub offsets : List ℤ
offsets = negsuc 0 ∷ pos 0 ∷ pos 1 ∷ []

unfoldable pub expected : TotpVerifier → ℤ → String
expected v step = v.code_at (step *ℤ pos v.interval)

-- The loop over the window.
unfoldable pub try_steps : String → ℤ → List ℤ → TotpVerifier → Bool × TotpVerifier
try_steps code now_step [] v = (false, v)
try_steps code now_step (offset ∷ os) v =
    let step = now_step +ℤ offset in
    let rest = try_steps code now_step os v in
    if str_eq (expected v step) code
    then (if is_in (code, step) v.consumed
        then (false, v)
        else (true, record v { consumed = (code, step) ∷ v.consumed }))
    else rest

unfoldable pub verify_and_burn : String → ℕ → TotpVerifier → Bool × TotpVerifier
verify_and_burn code now v =
    let now_step = step_at v now in
    try_steps code now_step offsets (record v { consumed = prune now_step v.consumed })

unfoldable pub current_code : ℕ → TotpVerifier → String
current_code now v = v.code_at (pos (now / v.ticks))

unfoldable pub seconds_remaining : ℕ → TotpVerifier → ℕ
seconds_remaining now v = v.interval - now / v.ticks % v.interval

-- `FixedCodeVerifier.verify_and_burn`, which burns nothing.
unfoldable pub verify_fixed : String → String → Bool
verify_fixed configured code =
    if str_eq configured "" || str_eq code "" then false else str_eq configured code
