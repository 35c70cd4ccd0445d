-- ===== src/Tx/Slot/Exclusion.antt =====
-- Any sequence of claims and releases of the talker slot of radio_server/tx/session.py.
use radio_server.Base.{
  ℕ, ◌+◌, String, str_eq, str_eq_iff, Bool, true, false, ◌≡◌, refl, sym, ap, ◌∙◌, List, [], ◌∷◌,
  Option, none, some, arith, Bool-cases, inl, inr, if◌then◌else◌,
}
use mathlib.Core.Path.{subst}
use radio_server.Tx.Slot.{TxSlot, new, label, count_of, count_up, try_acquire, release}

pub data Op : Type 0 where
  claim : Option String → ℕ → Op
  free : Op

abbrev pub apply : TxSlot → Op → TxSlot
apply s (claim h now) = (try_acquire h now s).1
apply s free = release s

unfoldable pub run : TxSlot → List Op → TxSlot
run s [] = s
run s (o ∷ os) = run (apply s o) os

-- Who holds the slot, from the calls alone: the first claim since the last release.
unfoldable pub owner : Option (Option String × ℕ) → List Op → Option (Option String × ℕ)
owner o [] = o
owner none (claim h now ∷ os) = owner (some (h, now)) os
owner (some o) (claim h now ∷ os) = owner (some o) os
owner o (free ∷ os) = owner none os

-- How often a label was refused, from the calls alone: its claims while another one held the slot.
unfoldable pub refusals : String → Bool → List Op → ℕ
refusals k b [] = 0
refusals k false (claim h now ∷ os) = refusals k true os
refusals k true (claim h now ∷ os) = (if str_eq k (label h) then 1 else 0) + refusals k true os
refusals k b (free ∷ os) = refusals k false os

-- A slot that an owner holds, or none.
abbrev pub Holds : Option (Option String × ℕ) → TxSlot → Type 0
Holds none s = (s.is_occupied ≡ false) × (s.holder ≡ none) × (s.acquired_at ≡ none)
Holds (some (h, t)) s = (s.is_occupied ≡ true) × (s.holder ≡ h) × (s.acquired_at ≡ some t)

abbrev is_held : Option (Option String × ℕ) → Bool
is_held none = false
is_held (some o) = true

count_of-count_up :
    (k h : String) (l : List (String × ℕ))
    → count_of k (count_up h l) ≡ (if str_eq k h then 1 else 0) + count_of k l
unfolding count_of count_up
count_of-count_up k h [] = ground arith
count_of-count_up k h ((j, n) ∷ l) = elim (Bool-cases (str_eq h j)) [
  | inl e ↦ let same : str_eq k h ≡ str_eq k j = ap (str_eq k) ((str_eq_iff h j).0 e) in grind arith
  | inr e ↦
      let ih = count_of-count_up k h l in
      elim (Bool-cases (str_eq k h)) [
        | inl t ↦
            let other : str_eq k j ≡ false = ap (λ x. str_eq x j) ((str_eq_iff k h).0 t) ∙ e in
            grind arith
        | inr f ↦ grind arith
      ]
]

claim_free :
    (h : Option String) (now : ℕ) (s : TxSlot)
    → s.is_occupied ≡ false
    → (try_acquire h now s).1 ≡ record s { is_occupied = true; holder = h; acquired_at = some now }
unfolding try_acquire
claim_free h now s e = simp (e)

claim_held :
    (h : Option String) (now : ℕ) (s : TxSlot)
    → s.is_occupied ≡ true
    → (try_acquire h now s).1 ≡ record s { refused = count_up (label h) s.refused }
unfolding try_acquire
claim_held h now s e = simp (e)

abbrev Ran : String → Option (Option String × ℕ) → List Op → ℕ → TxSlot → Type 0
Ran k o os n s =
    Holds (owner o os) (run s os) × (count_of k (run s os).refused ≡ n + refusals k (is_held o) os)

slot_run :
    (k : String) (o : Option (Option String × ℕ)) (os : List Op) (s : TxSlot)
    → Holds o s
    → Ran k o os (count_of k s.refused) s
unfolding run owner refusals release
slot_run k o [] s h = (h, omega arith)
slot_run k none (claim h now ∷ os) s (e, _, _) =
    subst
      (λ t.
        Holds (owner (some (h, now)) os) (run t os)
        × (count_of k (run t os).refused ≡ count_of k s.refused + refusals k true os))
      (sym (claim_free h now s e))
      (slot_run k (some (h, now)) os
        (record s { is_occupied = true; holder = h; acquired_at = some now }) (refl, refl, refl))
slot_run k (some (g, t)) (claim h now ∷ os) s (e, hs, ts) =
    let (held, n) =
      slot_run k (some (g, t)) os (record s { refused = count_up (label h) s.refused })
        (e, hs, ts) in
    subst
      (λ t'.
        Holds (owner (some (g, t)) os) (run t' os)
        × (count_of k (run t' os).refused
            ≡ count_of k s.refused + refusals k true (claim h now ∷ os)))
      (sym (claim_held h now s e))
      (held, n ∙ omega (arith, count_of-count_up k (label h) s.refused))
slot_run k none (free ∷ os) s _ = slot_run k none os (release s) (refl, refl, refl)
slot_run k (some o) (free ∷ os) s _ = slot_run k none os (release s) (refl, refl, refl)

-- Over any claims and releases of a new slot: it is held by the first claim since the last release,
-- with its label and since its time, or free with neither if there is none; and the ledger has, for
-- each label, how often a claim with it came while the slot was held.
pub slot_exact :
    (k : String) (os : List Op)
    → Holds (owner none os) (run new os) × (count_of k (run new os).refused ≡ refusals k false os)
unfolding count_of
slot_exact k os =
    let (held, n) = slot_run k none os new (refl, refl, refl) in (held, n ∙ omega arith)
