-- ===== src/Link/Mute/Window.antt =====
-- When the gate of radio_server/link/mute.py is muted.
use radio_server.Base.{
  ℕ, ◌+◌, Bool, true, false, ◌||◌, ◌≡◌, refl, ap, ◌∙◌, List, [], ◌∷◌, Option, none, some, ltb,
  arith,
}
use radio_server.Link.Mute.{DtmfMuteGate, new, later_of, mute_for, before, muted}

-- Any arms of the gate: each with its hold and its time.
unfoldable pub arm_all : List (ℕ × ℕ) → DtmfMuteGate → DtmfMuteGate
arm_all [] g = g
arm_all ((hold, now) ∷ as') g = arm_all as' (mute_for hold now g)

-- Whether some window of them is open at `t`.
unfoldable pub is_covered : ℕ → List (ℕ × ℕ) → Bool
is_covered t [] = false
is_covered t ((hold, now) ∷ as') = ltb t (now + hold) || is_covered t as'

before-later_of :
    (t until : ℕ) (o : Option ℕ) → before t (some (later_of until o)) ≡ (ltb t until || before t o)
before-later_of t until none = ground arith
before-later_of t until (some m) = ground arith

or_swap : (a b c : Bool) → ((a || b) || c) ≡ (b || (a || c))
or_swap true true c = refl
or_swap true false c = refl
or_swap false true c = refl
or_swap false false c = refl

muted-arm_all :
    (t : ℕ) (arms : List (ℕ × ℕ)) (g : DtmfMuteGate)
    → muted t (arm_all arms g) ≡ (muted t g || is_covered t arms)
unfolding muted arm_all is_covered mute_for
muted-arm_all t [] g = ground arith
muted-arm_all t ((hold, now) ∷ as') g =
    muted-arm_all t as' (mute_for hold now g)
    ∙ ap (λ b. b || is_covered t as') (before-later_of t (now + hold) g.muted_until)
    ∙ or_swap (ltb t (now + hold)) (before t g.muted_until) (is_covered t as')

-- After any arms of a new gate, by tones and digits with any holds and in any order of their times, it
-- is muted at a time exactly if the window of one of them is open then.
pub mute_exact : (t : ℕ) (arms : List (ℕ × ℕ)) → muted t (arm_all arms new) ≡ is_covered t arms
unfolding muted
mute_exact t arms = muted-arm_all t arms new
