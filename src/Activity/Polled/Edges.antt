-- ===== src/Activity/Polled/Edges.antt =====
-- What `PolledGate` of radio_server/activity/gate.py answers and logs over any polls.
use radio_server.Base.{
  ℕ, ◌+◌, Bool, true, false, ◌≡◌, refl, ◌∙◌, List, [], ◌∷◌, Option, none, some, arith,
  if◌then◌else◌,
}
use radio_server.Activity.Polled.{PolledGate, new, poll_once, call}

unfoldable pub poll_all : List (Option Bool) → PolledGate → PolledGate
poll_all [] g = g
poll_all (r ∷ rs) g = poll_all rs (poll_once r g)

-- The last poll's answer, of which a failure is a clear channel.
unfoldable pub last_answer : Bool → List (Option Bool) → Bool
last_answer b [] = b
last_answer b (none ∷ rs) = last_answer false rs
last_answer b (some c ∷ rs) = last_answer c rs

-- The polls that fail after one that did not, and the polls that answer after one that failed.
unfoldable pub falls : Bool → List (Option Bool) → ℕ
falls failing [] = 0
falls failing (none ∷ rs) = (if failing then 0 else 1) + falls true rs
falls failing (some c ∷ rs) = falls false rs

unfoldable pub rises : Bool → List (Option Bool) → ℕ
rises failing [] = 0
rises failing (none ∷ rs) = rises true rs
rises failing (some c ∷ rs) = (if failing then 1 else 0) + rises false rs

counted : (b : Bool) (n x : ℕ) → (if b then n else n + 1) + x ≡ n + ((if b then 0 else 1) + x)
counted true n x = omega arith
counted false n x = omega arith

counted_up : (b : Bool) (n x : ℕ) → (if b then n + 1 else n) + x ≡ n + ((if b then 1 else 0) + x)
counted_up true n x = omega arith
counted_up false n x = omega arith

polled_from :
    (rs : List (Option Bool)) (g : PolledGate)
    → (call (poll_all rs g) ≡ last_answer g.busy rs)
      × ((poll_all rs g).warnings ≡ g.warnings + falls g.failing rs)
      × ((poll_all rs g).recoveries ≡ g.recoveries + rises g.failing rs)
unfolding poll_all last_answer falls rises poll_once call
polled_from [] g = (refl, omega arith, omega arith)
polled_from (none ∷ rs) g =
    let (a, w, r) = polled_from rs (poll_once none g) in
    (a, w ∙ counted g.failing g.warnings (falls true rs), r)
polled_from (some c ∷ rs) g =
    let (a, w, r) = polled_from rs (poll_once (some c) g) in
    (a, w, r ∙ counted_up g.failing g.recoveries (rises false rs))

-- Over any polls of a new gate: it answers what the last poll said, a failed one being a clear
-- channel, and it logs one warning for each run of failures and one recovery for each end of one.
pub polls_exact :
    (rs : List (Option Bool))
    → (call (poll_all rs new) ≡ last_answer false rs)
      × ((poll_all rs new).warnings ≡ falls false rs)
      × ((poll_all rs new).recoveries ≡ rises false rs)
polls_exact rs = let (a, w, r) = polled_from rs new in (a, w ∙ omega arith, r ∙ omega arith)
