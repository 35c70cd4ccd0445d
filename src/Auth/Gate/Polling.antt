-- ===== src/Auth/Gate/Polling.antt =====
-- `expire_if_idle` of radio_server/auth/session.py, polled between the entries.
use radio_server.Base.{ℕ, ◌-◌, ◌≤◌, ◌<◌, String, List, [], ◌∷◌, ◌≡◌, refl, ap, ◌∙◌, arith, ◌⊎◌, inl}
use radio_server.Auth.Gate.{
  unauthenticated, Session, Outcome, AuthGate, expire_if_idle, on_dtmf, logout, open_session,
}
use radio_server.Auth.Gate.Login.{Event, entry, tick, sign_out, operator_open, outcomes}

-- The same events without the polls.
pub without_ticks : List Event → List Event
without_ticks [] = []
without_ticks (tick now ∷ es) = without_ticks es
without_ticks (e ∷ es) = e ∷ without_ticks es

-- The times do not run backwards from `t`.
abbrev pub Forward : ℕ → List Event → Type 0
Forward t [] = Unit {0}
Forward t (entry digits now ∷ es) = (t ≤ now) × Forward now es
Forward t (tick now ∷ es) = (t ≤ now) × Forward now es
Forward t (sign_out ∷ es) = Forward t es
Forward t (operator_open now ∷ es) = (t ≤ now) × Forward now es

module _ {V D : Type 0} (g : AuthGate V D) where
  -- Alike from `t` on: one may have been demoted where the other is idle past the timeout.
  record IsAlike (t : ℕ) (s r : Session) : Type 0 where
    same_stamp : s.last_activity ≡ r.last_activity
    same_login :
        (s.state ≡ r.state) ⊎ ((s.state ≡ unauthenticated) × (g.timeout < t - r.last_activity))

  IsAlike-refl : (t : ℕ) (s : Session) → IsAlike t s s
  IsAlike-refl t s = record { same_stamp = refl; same_login = inl refl }

  alike-expire :
      (t now : ℕ) (s r : Session)
      → t ≤ now
      → IsAlike t s r
      → (expire_if_idle g now s).1.state ≡ (expire_if_idle g now r).1.state
  unfolding expire_if_idle
  alike-expire t now s r le a = ground arith

  alike-entry :
      (t now : ℕ) (digits : String) (s r : Session) (v : V)
      → t ≤ now
      → IsAlike t s r
      → on_dtmf g digits now s v ≡ on_dtmf g digits now r v
  unfolding on_dtmf
  alike-entry t now digits s r v le a = simp (alike-expire t now s r le a)

  IsAlike-tick :
      (t now : ℕ) (s r : Session)
      → t ≤ now
      → IsAlike t s r
      → IsAlike now (expire_if_idle g now s).1 r
  unfolding expire_if_idle
  IsAlike-tick t now s r le a = ground arith

  IsAlike-logout : (t : ℕ) (s r : Session) → IsAlike t s r → IsAlike t (logout s).1 (logout r).1
  unfolding logout
  IsAlike-logout t s r a = ground arith

  IsAlike-open :
      (t now : ℕ) (s r : Session)
      → IsAlike t s r
      → IsAlike now (open_session now s).1 (open_session now r).1
  unfolding open_session
  IsAlike-open t now s r a = ground arith

  alike-outcomes :
      (es : List Event) (t : ℕ) (s r : Session) (v : V)
      → Forward t es
      → IsAlike t s r
      → outcomes g es s v ≡ outcomes g (without_ticks es) r v
  unfolding without_ticks
  alike-outcomes [] t s r v f a = refl
  alike-outcomes (entry digits now ∷ es) t s r v (le, f) a =
      let next = on_dtmf g digits now r v in
      ap (λ (q : Outcome D × Session × V). q.0 ∷ outcomes g es q.1 q.2)
        (alike-entry t now digits s r v le a)
      ∙ ap (λ l. next.0 ∷ l)
          (alike-outcomes es now next.1 next.1 next.2 f (IsAlike-refl now next.1))
  alike-outcomes (tick now ∷ es) t s r v (le, f) a =
      alike-outcomes es now (expire_if_idle g now s).1 r v f (IsAlike-tick t now s r le a)
  alike-outcomes (sign_out ∷ es) t s r v f a =
      alike-outcomes es t (logout s).1 (logout r).1 v f (IsAlike-logout t s r a)
  alike-outcomes (operator_open now ∷ es) t s r v (le, f) a =
      alike-outcomes es now (open_session now s).1 (open_session now r).1 v f
        (IsAlike-open t now s r a)

  -- Polling at any times, with a clock that does not run backwards, changes the outcome of no entry:
  -- the entries of a sequence fare as they do with the polls left out.
  pub polls_unobservable :
      (es : List Event) (t : ℕ) (s : Session) (v : V)
      → Forward t es
      → outcomes g es s v ≡ outcomes g (without_ticks es) s v
  polls_unobservable es t s v f = alike-outcomes es t s s v f (IsAlike-refl t s)
