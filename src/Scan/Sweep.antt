-- ===== src/Scan/Sweep.antt =====
-- The single pass `sweep` of radio_server/scan/engine.py.
use radio_server.Base.{
  ℕ, zero, suc, ◌+◌, Bool, true, false, ◌≡◌, refl, List, [], ◌∷◌, Option, none, some,
}
use mathlib.Core.Path.{subst}
use radio_server.Scan.{
  ResumeMode, scanning, polled, event, ScanPlan, active_channels, held, done, ScanEngine, act, tune,
  read_busy, sweep, sweep_from,
}
use radio_server.Scan.Ticks.{last_tuned}

-- The order of the polls: the channels in turn, with the priority channel before each but the first.
unfoldable pub visits : Option ℕ → ℕ → List ℕ → List ℕ
visits q idx [] = []
visits none idx (f ∷ fs) = f ∷ visits none (idx + 1) fs
visits (some q) zero (f ∷ fs) = f ∷ visits (some q) 1 fs
visits (some q) (suc idx) (f ∷ fs) = q ∷ f ∷ visits (some q) (suc idx + 1) fs

-- The first of them whose reading is busy.
unfoldable pub first_busy : List ℕ → List Bool → Option ℕ
first_busy (f ∷ fs) (true ∷ bs) = some f
first_busy (f ∷ fs) (false ∷ bs) = first_busy fs bs
first_busy _ _ = none

first_busy_quiet : (fs : List ℕ) → first_busy fs [] ≡ none
unfolding first_busy
first_busy_quiet [] = refl
first_busy_quiet (f ∷ fs) = refl

-- The scan holds on what was found, tuned to it, and is done if nothing was.
abbrev pub Ends : Option ℕ → ScanEngine → Type 0
Ends none s = s.state ≡ done
Ends (some f) s = (s.state ≡ held) × (s.current_freq ≡ some f) × (last_tuned s.actions ≡ some f)

abbrev pub Swept : Option ℕ → Option ℕ × ScanEngine → Type 0
Swept found r = (r.0 ≡ found) × Ends r.0 r.1

-- The engine after a channel was clear, and after a peek was.
abbrev passed : ℕ → ℕ → ScanEngine → ScanEngine
passed f idx s = act (polled false) (
    act (event scanning f (some idx)) (record (tune f (record s { index = idx })) {
      current_freq = some f;
      current_channel = some idx;
    }))

abbrev peeked : ℕ → ScanEngine → ScanEngine
peeked q s = act (polled false) (tune q s)

module _ (mode : ResumeMode) (dwell settle : ℕ) (cs locked : List ℕ) where
  abbrev plan : Option ℕ → ScanPlan
  plan q = record { channels = cs; lockout = locked; priority = q }

  sweep_from_lem :
      (q : Option ℕ) (idx : ℕ) (fs : List ℕ) (bs : List Bool) (s : ScanEngine)
      → Swept
          (first_busy (visits q idx fs) bs)
          (sweep_from mode dwell settle (plan q) idx fs (record s { busy = bs }))
  unfolding sweep_from visits first_busy read_busy
  sweep_from_lem q idx [] bs s = (refl, refl)
  sweep_from_lem none idx (f ∷ fs) [] s =
      subst
        (λ o. Swept o (
          sweep_from mode dwell settle (plan none) (idx + 1) fs
            (record (passed f idx s) { busy = [] })))
        (first_busy_quiet (visits none (idx + 1) fs))
        (sweep_from_lem none (idx + 1) fs [] (passed f idx s))
  sweep_from_lem none idx (f ∷ fs) (true ∷ bs) s = (refl, (refl, refl, refl))
  sweep_from_lem none idx (f ∷ fs) (false ∷ bs) s =
      sweep_from_lem none (idx + 1) fs bs (passed f idx s)
  sweep_from_lem (some q) zero (f ∷ fs) [] s =
      subst
        (λ o.
          Swept o (
            sweep_from mode dwell settle (plan (some q)) 1 fs
              (record (passed f 0 s) { busy = [] })))
        (first_busy_quiet (visits (some q) 1 fs)) (sweep_from_lem (some q) 1 fs [] (passed f 0 s))
  sweep_from_lem (some q) zero (f ∷ fs) (true ∷ bs) s = (refl, (refl, refl, refl))
  sweep_from_lem (some q) zero (f ∷ fs) (false ∷ bs) s =
      sweep_from_lem (some q) 1 fs bs (passed f 0 s)
  sweep_from_lem (some q) (suc i) (f ∷ fs) [] s =
      subst
        (λ o. Swept o (
          sweep_from mode dwell settle (plan (some q)) (suc i + 1) fs
            (record (passed f (suc i) (peeked q s)) { busy = [] })))
        (first_busy_quiet (visits (some q) (suc i + 1) fs))
        (sweep_from_lem (some q) (suc i + 1) fs [] (passed f (suc i) (peeked q s)))
  sweep_from_lem (some q) (suc i) (f ∷ fs) (true ∷ bs) s = (refl, (refl, refl, refl))
  sweep_from_lem (some q) (suc i) (f ∷ fs) (false ∷ []) s =
      subst
        (λ o. Swept o (
          sweep_from mode dwell settle (plan (some q)) (suc i + 1) fs
            (record (passed f (suc i) (peeked q s)) { busy = [] })))
        (first_busy_quiet (visits (some q) (suc i + 1) fs))
        (sweep_from_lem (some q) (suc i + 1) fs [] (passed f (suc i) (peeked q s)))
  sweep_from_lem (some q) (suc i) (f ∷ fs) (false ∷ true ∷ bs) s = (refl, (refl, refl, refl))
  sweep_from_lem (some q) (suc i) (f ∷ fs) (false ∷ false ∷ bs) s =
      sweep_from_lem (some q) (suc i + 1) fs bs (passed f (suc i) (peeked q s))

-- A sweep finds the first busy one of the channels in the plan's order, with the priority channel
-- polled before each channel but the first. If it finds one, it holds on it with the receiver tuned
-- to it; if it finds none, the scan is done.
pub sweep_exact :
    (mode : ResumeMode) (dwell settle : ℕ) (p : ScanPlan) (s : ScanEngine)
    → Swept
        (first_busy (visits p.priority 0 (active_channels p)) s.busy)
        (sweep mode dwell settle p s)
unfolding sweep
sweep_exact mode dwell settle p s =
    sweep_from_lem mode dwell settle p.channels p.lockout p.priority 0 (active_channels p) s.busy s
