-- ===== src/Activity/Level/Hysteresis.antt =====
-- The hysteresis and the hang time of the gate of radio_server/activity/gate.py.
use radio_server.Base.{
  ℕ, ◌+◌, ◌≤◌, ◌<◌, Bool, true, false, ◌≡◌, refl, sym, ap, ◌∙◌, List, [], ◌∷◌, none, some, map, All,
  arith, leb, ltb, if_intro, if◌then◌else◌, Bool-cases, inl, inr,
}
use radio_server.Activity.Level.{AudioLevelGate, call}

-- The decisions on frames, each a level and a time.
unfoldable pub decide : List (ℕ × ℕ) → AudioLevelGate → List Bool
decide [] g = []
decide ((level, now) ∷ fs) g = let (b, g') = call level now g in b ∷ decide fs g'

-- Below the threshold that opens a gate, and not below the one that holds it open.
abbrev pub IsMarginal : ℕ → ℕ → ℕ × ℕ → Type 0
IsMarginal on off (level, now) = (off ≤ level) × (level < on)

abbrev pub IsQuiet : ℕ → ℕ × ℕ → Type 0
IsQuiet off (level, now) = level < off

-- Which frames a gate relays that is held until `t`: those before it, and none from the first on
-- that is not.
unfoldable pub relayed_until : ℕ → List (ℕ × ℕ) → List Bool
relayed_until t [] = []
relayed_until t ((level, now) ∷ fs) =
    let rest = relayed_until t fs in if ltb now t then true ∷ rest else false ∷ map (λ f. false) fs

open_call :
    (level now : ℕ) (g : AudioLevelGate)
    → g.is_open ≡ true
    → g.off_threshold ≤ level
    → call level now g ≡ (true, record g { is_open = true; active_until = some (now + g.hang) })
unfolding call
open_call level now g e h = let t : leb g.off_threshold level ≡ true = ground arith in simp (e, t)

closed_call :
    (level now : ℕ) (g : AudioLevelGate)
    → g.is_open ≡ false
    → level < g.on_threshold
    → call level now g ≡ (false, record g { is_open = false; active_until = none })
unfolding call
closed_call level now g e h = let t : leb g.on_threshold level ≡ false = ground arith in simp (e, t)

loud_call :
    (level now : ℕ) (g : AudioLevelGate)
    → g.off_threshold < g.on_threshold
    → g.on_threshold ≤ level
    → call level now g ≡ (true, record g { is_open = true; active_until = some (now + g.hang) })
unfolding call
loud_call level now g lt h =
    let t : leb (if g.is_open then g.off_threshold else g.on_threshold) level ≡ true =
      if_intro (λ x. leb x level ≡ true) g.is_open (λ e. ground arith) (λ e. ground arith) in
    simp (t)

quiet_call :
    (level now t : ℕ) (g : AudioLevelGate)
    → g.is_open ≡ true
    → g.active_until ≡ some t
    → level < g.off_threshold
    → call level now g ≡ (
        if ltb now t then (true, g) else (false, record g { is_open = false; active_until = none }))
unfolding call
quiet_call level now t g e u h =
    let l : leb g.off_threshold level ≡ false = ground arith in simp (e, u, l)

-- Hysteresis: while each level is below the threshold that opens the gate and not below the one that
-- holds it open, the gate neither opens nor closes.
pub marginal_steady :
    (fs : List (ℕ × ℕ)) (g : AudioLevelGate)
    → All (IsMarginal g.on_threshold g.off_threshold) fs
    → decide fs g ≡ map (λ f. g.is_open) fs
unfolding decide
marginal_steady [] g h = refl
marginal_steady ((level, now) ∷ fs) g ((lo, hi), hs) = elim (Bool-cases g.is_open) [
  | inl e ↦
      ap (λ (p : Bool × AudioLevelGate). p.0 ∷ decide fs p.1) (open_call level now g e lo)
      ∙ ap (λ l. true ∷ l)
          (marginal_steady fs (record g { is_open = true; active_until = some (now + g.hang) }) hs)
      ∙ ap (λ b. b ∷ map (λ f. b) fs) (sym e)
  | inr e ↦
      ap (λ (p : Bool × AudioLevelGate). p.0 ∷ decide fs p.1) (closed_call level now g e hi)
      ∙ ap (λ l. false ∷ l)
          (marginal_steady fs (record g { is_open = false; active_until = none }) hs)
      ∙ ap (λ b. b ∷ map (λ f. b) fs) (sym e)
]

-- Whoever never reaches the opening threshold leaves a closed gate closed.
closed_quiet :
    (fs : List (ℕ × ℕ)) (g : AudioLevelGate)
    → g.is_open ≡ false
    → g.off_threshold < g.on_threshold
    → All (IsQuiet g.off_threshold) fs
    → decide fs g ≡ map (λ f. false) fs
unfolding decide
closed_quiet [] g e lt h = refl
closed_quiet ((level, now) ∷ fs) g e lt (h, hs) =
    ap (λ (p : Bool × AudioLevelGate). p.0 ∷ decide fs p.1)
      (closed_call level now g e (omega arith))
    ∙ ap (λ l. false ∷ l)
        (closed_quiet fs (record g { is_open = false; active_until = none }) refl lt hs)

held_quiet :
    (fs : List (ℕ × ℕ)) (t : ℕ) (g : AudioLevelGate)
    → g.is_open ≡ true
    → g.active_until ≡ some t
    → g.off_threshold < g.on_threshold
    → All (IsQuiet g.off_threshold) fs
    → decide fs g ≡ relayed_until t fs
unfolding decide relayed_until
held_quiet [] t g e u lt h = refl
held_quiet ((level, now) ∷ fs) t g e u lt (h, hs) = elim (Bool-cases (ltb now t)) [
  | inl b ↦
      let c : call level now g ≡ (true, g) = quiet_call level now t g e u h ∙ simp (b) in
      ap (λ (p : Bool × AudioLevelGate). p.0 ∷ decide fs p.1) c
      ∙ ap (λ l. true ∷ l) (held_quiet fs t g e u lt hs)
      ∙ simp (b)
  | inr b ↦
      let c : call level now g ≡ (false, record g { is_open = false; active_until = none }) =
        quiet_call level now t g e u h ∙ simp (b) in
      ap (λ (p : Bool × AudioLevelGate). p.0 ∷ decide fs p.1) c
      ∙ ap (λ l. false ∷ l)
          (closed_quiet fs (record g { is_open = false; active_until = none }) refl lt hs)
      ∙ simp (b)
]

-- Hang time: a frame that reaches the opening threshold is relayed, and of frames behind it that are
-- all below the holding threshold those before the hang time is over, and none from the first on that
-- is not.
pub hang_exact :
    (level now : ℕ) (fs : List (ℕ × ℕ)) (g : AudioLevelGate)
    → g.off_threshold < g.on_threshold
    → g.on_threshold ≤ level
    → All (IsQuiet g.off_threshold) fs
    → decide ((level, now) ∷ fs) g ≡ true ∷ relayed_until (now + g.hang) fs
unfolding decide
hang_exact level now fs g lt h hs =
    ap (λ (p : Bool × AudioLevelGate). p.0 ∷ decide fs p.1) (loud_call level now g lt h)
    ∙ ap (λ l. true ∷ l)
        (held_quiet fs (now + g.hang)
          (record g { is_open = true; active_until = some (now + g.hang) }) refl refl lt hs)
