-- ===== src/Scan/Plan.antt =====
-- The channels of a `ScanPlan` of radio_server/scan/engine.py.
use radio_server.Base.{
  ℕ, zero, suc, ◌+◌, ◌-◌, ◌*◌, ◌/◌, ◌<◌, ◌≤◌, true, false, Bool-cases, ◌↔◌, inl, inr, ◌≡◌, sym, ◌∙◌,
  List, [], ◌∷◌, Option, some, length, get_or, ◌==◌, arith, if◌then◌else◌, ==_iff,
}
use mathlib.Core.Path.{subst}
use native.Mathlib.Nat.{le-div_iff_mul-le}
use radio_server.Scan.{ScanPlan, is_in, unlocked, active_channels, count_up, from_range}

kept :
    (lockout : List ℕ) (c : ℕ) (cs : List ℕ) (i : ℕ)
    → is_in c lockout ≡ false
    → ((j : ℕ)
        → j < length (unlocked lockout cs)
        → is_in (get_or (unlocked lockout cs) j 0) lockout ≡ false)
    → i < suc (length (unlocked lockout cs))
    → is_in (get_or (c ∷ unlocked lockout cs) i 0) lockout ≡ false
kept lockout c cs zero e ih h = e
kept lockout c cs (suc j) e ih h = ih j (omega arith)

get_or-unlocked :
    (lockout cs : List ℕ) (i : ℕ)
    → i < length (unlocked lockout cs)
    → is_in (get_or (unlocked lockout cs) i 0) lockout ≡ false
unfolding unlocked
get_or-unlocked lockout [] i h = absurd (omega arith)
get_or-unlocked lockout (c ∷ cs) i h = elim (Bool-cases (is_in c lockout)) [
  | inl e ↦
      let h' = rw (e) at h in
      subst
        (λ b.
          is_in (get_or (if b then unlocked lockout cs else c ∷ unlocked lockout cs) i 0) lockout
          ≡ false)
        (sym e) (get_or-unlocked lockout cs i h')
  | inr e ↦
      let h' = rw (e) at h in
      subst
        (λ b.
          is_in (get_or (if b then unlocked lockout cs else c ∷ unlocked lockout cs) i 0) lockout
          ≡ false)
        (sym e) (kept lockout c cs i e (get_or-unlocked lockout cs) h')
]

pub active-unlocked :
    (p : ScanPlan) (i : ℕ)
    → i < length (active_channels p)
    → is_in (get_or (active_channels p) i 0) p.lockout ≡ false
unfolding active_channels
active-unlocked p i h = get_or-unlocked p.lockout p.channels i h

up_in :
    (n start step f : ℕ)
    → is_in f (count_up n start step) ≡ true
    → (i : ℕ) × (i < n) × (f ≡ start + i * step)
unfolding is_in
up_in zero start step f h = cc
up_in (suc n) start step f h = elim (Bool-cases (f == start)) [
  | inl e ↦ (0, omega arith, (==_iff f start).0 e ∙ omega arith)
  | inr e ↦
      let (i, lt, eq) = up_in n (start + step) step f (rw (e) at h) in
      (suc i, omega arith, omega arith)
]

in_up : (n start step i : ℕ) → i < n → is_in (start + i * step) (count_up n start step) ≡ true
unfolding is_in
in_up zero start step i h = absurd (omega arith)
in_up (suc n) start step zero h = ground arith
in_up (suc n) start step (suc i) h =
    let e : start + suc i * step ≡ start + step + i * step = omega arith in
    let ih = in_up n (start + step) step i (omega arith) in grind arith

-- A range with a positive step from a start that is not past its stop gives a plan, and a frequency is
-- in it exactly if it is at most the stop and a whole number of steps above the start.
pub from_range_exact :
    (start_hz stop_hz step_hz : ℕ) (lockout : List ℕ) (priority : Option ℕ) (f : ℕ)
    → 0 < step_hz
    → start_hz ≤ stop_hz
    → (p : ScanPlan) × (from_range start_hz stop_hz step_hz lockout priority ≡ some p)
      × ((is_in f p.channels ≡ true) ↔ ((i : ℕ) × (f ≡ start_hz + i * step_hz) × (f ≤ stop_hz)))
unfolding from_range
from_range_exact a b step lockout priority f hs hab = (
  record {
    channels = count_up ((b - a) / step + 1) a step;
    lockout = lockout;
    priority = priority;
  },
  ground arith,
  (
    λ h.
        let (i, lt, e) = up_in ((b - a) / step + 1) a step f h in
        let le : i * step ≤ b - a = (le-div_iff_mul-le hs).0 (omega arith) in (i, e, omega arith),
    λ (i, e, le).
        let lt : i ≤ (b - a) / step = (le-div_iff_mul-le hs).1 (omega arith) in
        subst (λ x. is_in x (count_up ((b - a) / step + 1) a step) ≡ true) (sym e)
          (in_up ((b - a) / step + 1) a step i (omega arith)),
  ),
)
