-- ===== src/Auth/Gate/Login.antt =====
-- What an entry does to a session of radio_server/auth/session.py.
use mathlib.Core.Bool.{false≢true}
use native.Mathlib.Decide.{dec_le}
use radio_server.Base.{
  sym, ap, ℕ, ◌-◌, ◌≤◌, String, Bool, true, false, List, [], ◌∷◌, ◌≡◌, refl, arith, ◌⊎◌, inl, inr,
  All,
}
use radio_server.Auth.Gate.{
  SessionState, unauthenticated, authenticated, Session, Outcome, rejected, AuthGate,
  expire_if_idle, run_command, judge, on_dtmf, logout, open_session,
}

pub data Event : Type 0 where
  entry : String → ℕ → Event
  tick : ℕ → Event
  sign_out : Event
  operator_open : ℕ → Event

-- The session is logged in and was last active within the timeout.
abbrev pub IsLive : {V D : Type 0} → AuthGate V D → ℕ → Session → Type 0
IsLive g now s = (s.state ≡ authenticated) × (now - s.last_activity ≤ g.timeout)

module _ {V D : Type 0} (g : AuthGate V D) where
  IsLive-cases : (now : ℕ) (s : Session) → IsLive g now s ⊎ ¬ (IsLive g now s)
  IsLive-cases now s = state_case s.state refl
    where
      state_case : (st : SessionState) → s.state ≡ st → IsLive g now s ⊎ ¬ (IsLive g now s)
      state_case unauthenticated e = inr (λ l. cc)
      state_case authenticated e = elim (dec_le (now - s.last_activity) g.timeout) [
        | yes h ↦ inl (e, h)
        | no h ↦ inr (λ l. h l.1)
      ]

  expire_live :
      (now : ℕ) (s : Session) → IsLive g now s → (expire_if_idle g now s).1.state ≡ authenticated
  unfolding expire_if_idle
  expire_live now s l = ground arith

  expire_dead :
      (now : ℕ) (s : Session)
      → ¬ (IsLive g now s)
      → (expire_if_idle g now s).1.state ≡ unauthenticated
  unfolding expire_if_idle
  expire_dead now s l = ground arith

  -- With enforcement on, an entry is a command exactly for a live session, whose dispatch sees it
  -- stamped, and then no code is consulted; otherwise the digits are a login attempt: the verifier is
  -- asked once, its answer is the outcome and the session's state, and nothing is dispatched.
  pub on_dtmf_enforced :
      (digits : String) (now : ℕ) (s : Session) (v : V)
      → g.enforce ≡ true
      → (IsLive g now s
          × (on_dtmf g digits now s v
              ≡ run_command g digits (record { state = authenticated; last_activity = now }) v))
        ⊎ (¬ (IsLive g now s)
            × (on_dtmf g digits now s v
                ≡ judge g
                    (record { state = unauthenticated; last_activity = now })
                    (g.verify_and_burn digits now v)))
  unfolding on_dtmf
  on_dtmf_enforced digits now s v e = elim (IsLive-cases now s) [
    | inl l ↦ inl (l, simp (e, expire_live now s l))
    | inr d ↦ inr (d, simp (e, expire_dead now s d))
  ]

  dtmf_dead :
      (digits : String) (now : ℕ) (s : Session) (v : V)
      → g.enforce ≡ true
      → ¬ (IsLive g now s)
      → on_dtmf g digits now s v
        ≡ judge g
            (record { state = unauthenticated; last_activity = now })
            (g.verify_and_burn digits now v)
  unfolding on_dtmf
  dtmf_dead digits now s v e d = simp (e, expire_dead now s d)

  -- With enforcement off every entry is dispatched, in an authenticated session stamped with its
  -- time, and no code is consulted.
  pub on_dtmf_open :
      (digits : String) (now : ℕ) (s : Session) (v : V)
      → g.enforce ≡ false
      → on_dtmf g digits now s v
        ≡ run_command g digits (record { state = authenticated; last_activity = now }) v
  unfolding on_dtmf
  on_dtmf_open digits now s v e = simp e

  -- Events in turn, with the outcomes of the entries in order.
  abbrev pub outcomes : List Event → Session → V → List (Outcome D)
  outcomes [] s v = []
  outcomes (entry digits now ∷ es) s v =
      let (o, s', v') = on_dtmf g digits now s v in o ∷ outcomes es s' v'
  outcomes (tick now ∷ es) s v = outcomes es (expire_if_idle g now s).1 v
  outcomes (sign_out ∷ es) s v = outcomes es (logout s).1 v
  outcomes (operator_open now ∷ es) s v = outcomes es (open_session now s).1 v

  -- No operator opens the session, and no entry is a code that the verifier takes at its time.
  abbrev pub IsWrong : Event → Type 0
  IsWrong (entry digits now) = (v : V) → (g.verify_and_burn digits now v).0 ≡ false
  IsWrong (operator_open now) = ⊥
  IsWrong _ = Unit {0}

  judge_wrong :
      (s : Session) (p : Bool × V)
      → p.0 ≡ false
      → ((judge g s p).0 ≡ rejected) × ((judge g s p).1 ≡ s)
  judge_wrong s (true, v) h = absurd (false≢true (sym h))
  judge_wrong s (false, v) h = (refl, refl)

  rejects :
      (digits : String) (now : ℕ) (s : Session) (v : V)
      → g.enforce ≡ true
      → s.state ≡ unauthenticated
      → (g.verify_and_burn digits now v).0 ≡ false
      → ((on_dtmf g digits now s v).0 ≡ rejected)
        × ((on_dtmf g digits now s v).1.state ≡ unauthenticated)
  rejects digits now s v e u w =
      let dead : ¬ (IsLive g now s) = λ l. cc in
      let (o, t) =
        judge_wrong (record { state = unauthenticated; last_activity = now })
          (g.verify_and_burn digits now v) w in
      rw (dtmf_dead digits now s v e dead) (o, ap (λ (r : Session). r.state) t)

  -- Without a code that the verifier takes nothing is ever dispatched: from a session that is not
  -- logged in, with enforcement on and no operator, every entry of any sequence is rejected.
  pub no_code_no_command :
      (es : List Event) (s : Session) (v : V)
      → g.enforce ≡ true
      → s.state ≡ unauthenticated
      → All IsWrong es
      → All (λ o. o ≡ rejected) (outcomes es s v)
  no_code_no_command [] s v e u a = tt
  no_code_no_command (entry digits now ∷ es) s v e u (w, a) =
      let (o, u') = rejects digits now s v e u (w v) in (o, no_code_no_command es _ _ e u' a)
  no_code_no_command (tick now ∷ es) s v e u (_, a) =
      no_code_no_command es _ v e (expire_dead now s (λ l. cc)) a
  no_code_no_command (sign_out ∷ es) s v e u (_, a) =
      no_code_no_command es _ v e (unfold logout in ground arith) a
  no_code_no_command (operator_open now ∷ es) s v e u (b, a) = absurd b
