-- ===== src/Auth/Totp/Match.antt =====
-- Which codes radio_server/auth/totp.py accepts.
use mathlib.Core.Bool.{false≢true}
use radio_server.Base.{
  ℕ, String, str_eq, str_eq_iff, Bool, true, false, List, [], ◌∷◌, Option, none, some,
  if◌then◌else◌, ◌≡◌, refl, arith, inl, inr, if_intro, Bool-cases, ◌↔◌,
}
use radio_server.Base.Int.{ℤ, negsuc, ◌+ℤ◌, leb_ℤ, eq_ℤ_iff}
use radio_server.Auth.Totp.{
  Burn, eq_burn, is_in, prune, TotpVerifier, step_at, offsets, expected, try_steps, verify_and_burn,
}

eq_burn_iff : (b c : Burn) → (eq_burn b c ≡ true) ↔ (b ≡ c)
eq_burn_iff (c, s) (d, t) = ground (arith, str_eq_iff c d, eq_ℤ_iff s t)

-- The step of the window that a code is compared with first and matches.
unfoldable pub first_match : TotpVerifier → String → ℤ → List ℤ → Option ℤ
first_match v code now_step [] = none
first_match v code now_step (offset ∷ os) =
    let rest = first_match v code now_step os in
    if str_eq (expected v (now_step +ℤ offset)) code then some (now_step +ℤ offset) else rest

unfoldable pub matched : TotpVerifier → String → ℕ → Option ℤ
matched v code now = first_match v code (step_at v now) offsets

-- What the loop makes of that step.
abbrev pub settle : String → Option ℤ → TotpVerifier → Bool × TotpVerifier
settle code none v = (false, v)
settle code (some s) v =
    if is_in (code, s) v.consumed
    then (false, v)
    else (true, record v { consumed = (code, s) ∷ v.consumed })

try_steps-first_match :
    (code : String) (n : ℤ) (os : List ℤ) (v : TotpVerifier)
    → try_steps code n os v ≡ settle code (first_match v code n os) v
unfolding try_steps first_match
try_steps-first_match code n [] v = refl
try_steps-first_match code n (o ∷ os) v = elim (Bool-cases (str_eq (expected v (n +ℤ o)) code)) [
  | inl e ↦ simp e
  | inr e ↦ simp e (try_steps-first_match code n os v)
]

-- The window starts one step back, so pruning drops nothing that can still be compared.
pub is_in-prune :
    (c : String) (n s : ℤ) (bs : List Burn)
    → leb_ℤ (n +ℤ negsuc 0) s ≡ true
    → is_in (c, s) (prune n bs) ≡ is_in (c, s) bs
unfolding is_in prune
is_in-prune c n s [] h = refl
is_in-prune c n s ((d, t) ∷ bs) h =
    ground (arith, is_in-prune c n s bs h, eq_burn_iff (c, s) (d, t))

pub matched-in_window :
    (v : TotpVerifier) (code : String) (now : ℕ) (s : ℤ)
    → matched v code now ≡ some s
    → leb_ℤ (step_at v now +ℤ negsuc 0) s ≡ true
unfolding matched first_match step_at ◌+ℤ◌
matched-in_window v code now s h = ground arith

abbrev pub pruned : TotpVerifier → ℕ → TotpVerifier
pruned v now = record v { consumed = prune (step_at v now) v.consumed }

pub verify_lem :
    (v : TotpVerifier) (code : String) (now : ℕ)
    → verify_and_burn code now v ≡ settle code (matched v code now) (pruned v now)
unfolding verify_and_burn matched first_match expected
verify_lem v code now = try_steps-first_match code (step_at v now) offsets (pruned v now)

-- Nothing but the burned pairs changes, and what is burned stays burned.
module _ (c : String) where
  pub settle_fields :
      (o : Option ℤ) (v : TotpVerifier)
      → ((t : ℕ) → step_at (settle c o v).1 t ≡ step_at v t)
        × ((d : String) (t : ℕ) → matched (settle c o v).1 d t ≡ matched v d t)
  unfolding step_at matched first_match expected
  settle_fields none v = (λ t. refl, λ d t. refl)
  settle_fields (some s) v =
      if_intro
        (λ (p : Bool × TotpVerifier).
          ((t : ℕ) → step_at p.1 t ≡ step_at v t)
          × ((d : String) (t : ℕ) → matched p.1 d t ≡ matched v d t))
        (is_in (c, s) v.consumed) {x = (false, v)} (λ _. (λ t. refl, λ d t. refl))
        (λ _. (λ t. refl, λ d t. refl))

  pub settle_keeps :
      (b : Burn) (o : Option ℤ) (v : TotpVerifier)
      → is_in b v.consumed ≡ true
      → is_in b (settle c o v).1.consumed ≡ true
  unfolding is_in
  settle_keeps b none v h = h
  settle_keeps b (some s) v h = ground arith

  pub settle_burns :
      (s : ℤ) (v : TotpVerifier)
      → (settle c (some s) v).0 ≡ true
      → is_in (c, s) (settle c (some s) v).1.consumed ≡ true
  unfolding is_in
  settle_burns s v h = ground (arith, eq_burn_iff (c, s) (c, s))

-- A code is accepted exactly if it matches a step of the window and the first step that it matches is
-- not burned for it.
pub verify_exact :
    (v : TotpVerifier) (code : String) (now : ℕ)
    → ((verify_and_burn code now v).0 ≡ true)
      ↔ ((s : ℤ) × (matched v code now ≡ some s) × (is_in (code, s) v.consumed ≡ false))
verify_exact v code now = rw verify_lem (go (matched v code now) refl)
  where
    go :
        (o : Option ℤ)
        → matched v code now ≡ o
        → ((settle code o (pruned v now)).0 ≡ true)
          ↔ ((s : ℤ) × (o ≡ some s) × (is_in (code, s) v.consumed ≡ false))
    go none e = (λ h. absurd (false≢true h), λ w. cc (w.1))
    go (some s) e =
        (λ h. (s, refl, ground (arith, in_pruned)), λ (t, e', f). ground (arith, in_pruned))
      where
        in_pruned : is_in (code, s) (prune (step_at v now) v.consumed) ≡ is_in (code, s) v.consumed
        in_pruned = is_in-prune code _ s v.consumed (matched-in_window v code now s e)
