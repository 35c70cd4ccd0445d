-- ===== src/Auth/Totp/Replay.antt =====
-- Single use of the codes of radio_server/auth/totp.py.
use mathlib.Core.Bool.{false≢true}
use mathlib.Core.Path.{subst}
use native.Mathlib.Nat.{le-div_iff_mul-le, div-mul-le_self}
use radio_server.Base.{
  ℕ, zero, suc, ◌≤◌, ◌/◌, String, Bool, true, false, List, [], ◌∷◌, some, ◌≡◌, refl, sym, ◌∙◌, ap,
  arith, ◌⊎◌, inl, inr, Bool-cases,
}
use radio_server.Base.Int.{ℤ, negsuc, ◌+ℤ◌, leb_ℤ}
use radio_server.Auth.Totp.{is_in, prune, TotpVerifier, step_at, expected, verify_and_burn}
use radio_server.Auth.Totp.Match.{
  first_match, matched, settle, is_in-prune, matched-in_window, pruned, verify_lem, settle_fields,
  settle_keeps, settle_burns,
}

-- Calls in turn.
pub run : List (String × ℕ) → TotpVerifier → TotpVerifier
run [] v = v
run ((code, now) ∷ calls) v = run calls (verify_and_burn code now v).1

-- The clock of the calls does not run backwards from `t`, nor past `end`.
abbrev pub Forward : ℕ → List (String × ℕ) → ℕ → Type 0
Forward t [] end = t ≤ end
Forward t ((code, now) ∷ calls) end = (t ≤ now) × Forward now calls end

-- The pair is burned, or too old for the window at `t`.
abbrev IsSpent : String → ℤ → ℕ → TotpVerifier → Type 0
IsSpent code s t v =
    (is_in (code, s) v.consumed ≡ true) ⊎ (leb_ℤ (step_at v t +ℤ negsuc 0) s ≡ false)

div_mono : (k a b : ℕ) → a ≤ b → a / k ≤ b / k
div_mono zero a b h = omega arith
div_mono (suc k) a b h =
    (le-div_iff_mul-le (omega arith)).1 (omega (arith, div-mul-le_self a (suc k)))

spent_later :
    (v : TotpVerifier) (s : ℤ) (t now : ℕ)
    → t ≤ now
    → leb_ℤ (step_at v t +ℤ negsuc 0) s ≡ false
    → leb_ℤ (step_at v now +ℤ negsuc 0) s ≡ false
unfolding step_at ◌+ℤ◌
spent_later v s t now le h =
    ground (arith, div_mono v.ticks t now le, div_mono v.interval (t / v.ticks) (now / v.ticks))

verify-IsSpent :
    (code c : String) (s : ℤ) (t now : ℕ) (v : TotpVerifier)
    → t ≤ now
    → IsSpent code s t v
    → IsSpent code s now (verify_and_burn c now v).1
verify-IsSpent code c s t now v le p =
    subst (λ (q : Bool × TotpVerifier). IsSpent code s now q.1) (sym (verify_lem v c now))
      (go (Bool-cases (leb_ℤ (step_at v now +ℤ negsuc 0) s)) p)
  where
    after : TotpVerifier
    after = (settle c (matched v c now) (pruned v now)).1

    old : leb_ℤ (step_at v now +ℤ negsuc 0) s ≡ false → IsSpent code s now after
    old f = inr (
        ap (λ st. leb_ℤ (st +ℤ negsuc 0) s)
          ((settle_fields c (matched v c now) (pruned v now)).0 now)
        ∙ (unfold step_at in f))

    go :
        (leb_ℤ (step_at v now +ℤ negsuc 0) s ≡ true) ⊎ (leb_ℤ (step_at v now +ℤ negsuc 0) s ≡ false)
        → IsSpent code s t v
        → IsSpent code s now after
    go (inr f) q = old f
    go (inl w) (inr f) = old (spent_later v s t now le f)
    go (inl w) (inl b) = inl (
        settle_keeps c (code, s) (matched v c now) (pruned v now)
          (is_in-prune code (step_at v now) s v.consumed w ∙ b))

run-IsSpent :
    (code : String) (s : ℤ) (t end : ℕ) (calls : List (String × ℕ)) (v : TotpVerifier)
    → Forward t calls end
    → IsSpent code s t v
    → (r : ℕ) × (r ≤ end) × IsSpent code s r (run calls v)
unfolding run
run-IsSpent code s t end [] v f p = (t, f, p)
run-IsSpent code s t end ((c, now) ∷ calls) v (le, f) p =
    run-IsSpent code s now end calls (verify_and_burn c now v).1 f
      (verify-IsSpent code c s t now v le p)

matched-run :
    (calls : List (String × ℕ)) (v : TotpVerifier) (d : String) (t : ℕ)
    → matched (run calls v) d t ≡ matched v d t
unfolding run
matched-run [] v d t = refl
matched-run ((c, now) ∷ calls) v d t =
    matched-run calls (verify_and_burn c now v).1 d t
    ∙ subst (λ (q : Bool × TotpVerifier). matched q.1 d t ≡ matched v d t)
        (sym (verify_lem v c now))
        ((settle_fields c (matched v c now) (pruned v now)).1 d t ∙ pruned_matched)
  where
    pruned_matched : matched (pruned v now) d t ≡ matched v d t
    pruned_matched = unfold matched first_match expected step_at in refl

spent-refused :
    (v : TotpVerifier) (code : String) (s : ℤ) (r again : ℕ)
    → r ≤ again
    → IsSpent code s r v
    → matched v code again ≡ some s
    → (verify_and_burn code again v).0 ≡ false
spent-refused v code s r again le (inr f) m =
    absurd (false≢true (sym (spent_later v s r again le f) ∙ matched-in_window v code again s m))
spent-refused v code s r again le (inl b) m = rw (verify_lem, m) (ground (arith, in_pruned ∙ b))
  where
    in_pruned : is_in (code, s) (prune (step_at v again) v.consumed) ≡ is_in (code, s) v.consumed
    in_pruned = is_in-prune code _ s v.consumed (matched-in_window v code again s m)

-- An accepted code is single use: once a code was accepted at a time step, then after any calls
-- whatever, with a clock that does not run backwards, the same code matching the same step is
-- refused.
pub accepted_once :
    (v : TotpVerifier) (code : String) (s : ℤ) (now again : ℕ) (calls : List (String × ℕ))
    → (verify_and_burn code now v).0 ≡ true
    → matched v code now ≡ some s
    → Forward now calls again
    → matched v code again ≡ some s
    → (verify_and_burn code again (run calls (verify_and_burn code now v).1)).0 ≡ false
unfolding run
accepted_once v code s now again calls ok m f m' =
    let first = (verify_and_burn code now v).1 in
    let (r, le, spent) = run-IsSpent code s now again calls first f (inl burned) in
    spent-refused (run calls first) code s r again le spent
      (matched-run ((code, now) ∷ calls) v code again ∙ m')
  where
    burned : is_in (code, s) (verify_and_burn code now v).1.consumed ≡ true
    burned = rw (verify_lem, m) (settle_burns code s (pruned v now) (rw (verify_lem, m) at ok))
