-- ===== src/Tx/Session/Unwind.antt =====
-- How radio_server/tx/session.py backs out: a key-up that fails (ADR 0151), the unkey of `close` with
-- a sign-off ID that raises.
use mathlib.Core.Path.{subst}
use mathlib.Core.Bool.{false≢true}
use radio_server.Base.{
  ℕ, Bool, true, false, ◌≡◌, ◌≢◌, refl, sym, ◌∙◌, List, ◌∷◌, arith, if_intro, ◌⊎◌, inl, inr,
  Option-cases,
}
use radio_server.Arbiter
use radio_server.Arbiter.{RadioArbiter}
use radio_server.Arbiter.Latch.{release_latch, acquire_latch, acquire_refused}
use radio_server.Tx.Session.{
  Effect, line, line_refused, key_edge, Reply, returned, raised, IdReply, silent, id_audio, broken,
  TxIdentifier, TxSession, attempt, ptt, transmit, play, identify, released, close, or_close,
  line_up, key_up, later_faults,
}
use radio_server.Tx.Session.Keying.{
  attempt_intro, IsCoherent, IsReady, key_up-IsReady, identify-IsCoherent, line_state, edge_state,
}

-- The radio itself refused the unkey.
abbrev pub refused_unkey : List Effect → Bool
refused_unkey (line_refused false ∷ es) = true
refused_unkey _ = false

-- The key is up and the radio given back, RX as it was, unless the radio refused the unkey.
abbrev pub IsUnkeyed : {S : Type 0} → Bool → TxSession S → Type 0
IsUnkeyed rx s =
    (refused_unkey s.effects ≡ true)
    ⊎ ((s.keyed ≡ false) × (s.arbiter.is_transmitting ≡ false) × (s.arbiter.is_receiving ≡ rx))

module _ {S : Type 0} where
  play_receiving :
      (r : IdReply) (s : TxSession S) → (play r s).1.arbiter.is_receiving ≡ s.arbiter.is_receiving
  unfolding transmit attempt
  play_receiving silent s = refl
  play_receiving (id_audio a) s = ground arith
  play_receiving broken s = refl

  identify_receiving :
      (ask : ℕ → S → IdReply × S) (now : ℕ) (s : TxSession S)
      → (identify ask now s).1.arbiter.is_receiving ≡ s.arbiter.is_receiving
  unfolding identify
  identify_receiving ask now s =
      let (r, i) = ask now s.ident in play_receiving r (record s { ident = i })

  unkey_lem :
      (s : TxSession S) (rx : Bool)
      → s.arbiter.is_receiving ≡ rx
      → IsUnkeyed rx (released (ptt false s)).1
  unfolding ptt
  unkey_lem s rx h =
      attempt_intro (λ p. IsUnkeyed rx (released p).1) _ _ s (inl refl)
        (inr (refl, (release_latch s.arbiter).0, (release_latch s.arbiter).1 ∙ h))

module _ {S : Type 0} (id : TxIdentifier S) where
  -- `close` of a keyed session unkeys it and gives the radio back with the RX latch as it was,
  -- whatever the sign-off ID does; only the radio's own refusal of `ptt(False)` leaves it keyed.
  pub close_unkeys :
      (now : ℕ) (s : TxSession S)
      → s.keyed ≡ true
      → IsUnkeyed s.arbiter.is_receiving (close id now s).1
  unfolding close
  close_unkeys now s k =
      if_intro (λ (p : Reply × TxSession S). IsUnkeyed s.arbiter.is_receiving p.1) s.keyed
        {x = released (ptt false asked)}
        (λ _. unkey_lem asked s.arbiter.is_receiving (identify_receiving id.sign_off_id now s))
        (λ f. absurd (false≢true (sym f ∙ k)))
    where
      asked : TxSession S
      asked = (identify id.sign_off_id now s).1

  -- A reply that was not `returned` comes with a session that is unkeyed.
  abbrev Unwound : Bool → Reply × TxSession S → Type 0
  Unwound rx p = p.0 ≢ returned → IsUnkeyed rx p.1

  or_close_unwinds :
      (later : ℕ) (rx : Bool) (p : Reply × TxSession S)
      → p.1.keyed ≡ true
      → p.1.arbiter.is_receiving ≡ rx
      → Unwound rx (or_close id later p)
  or_close_unwinds later rx (returned, s) k e h = absurd (h refl)
  or_close_unwinds later rx (raised x, s) k e h =
      subst (λ b. IsUnkeyed b (close id later s).1) e (close_unkeys later s k)

  line_up_unwinds :
      (now later : ℕ) (s : TxSession S) (a : RadioArbiter)
      → IsCoherent s
      → s.keyed ≡ false
      → a.is_transmitting ≡ true
      → Unwound a.is_receiving (line_up id now later (ptt true (record s { arbiter = a })))
  unfolding ptt line_state edge_state
  line_up_unwinds now later s a c k h =
      attempt_intro (λ p. Unwound a.is_receiving (line_up id now later p)) _ _ _
        (λ _. inr (k, (release_latch a).0, (release_latch a).1))
        (or_close_unwinds later a.is_receiving (identify id.key_up_id now up)
          (identify-IsCoherent id.key_up_id now up up-IsCoherent refl).1
          (identify_receiving id.key_up_id now up))
    where
      up : TxSession S
      up = record s {
        keyed = true;
        arbiter = a;
        faults = later_faults s.faults;
        effects = key_edge true ∷ line true ∷ s.effects;
      }

      up-IsCoherent : IsCoherent up
      up-IsCoherent = record {
        latch = h;
        line_as_keyed = refl;
        edge_as_keyed = refl;
        on_air = c.on_air;
      }

  -- A key-up of a coherent session is all or none (ADR 0151): either it returns, and the session is
  -- keyed and holds the arbiter, or it raises, for whatever reason, and the session is not keyed and
  -- the arbiter is released with its RX latch as before, unless the radio refused the unkey.
  pub key_up_all_or_none :
      (now later : ℕ) (s : TxSession S)
      → IsCoherent s
      → s.keyed ≡ false
      → (((key_up id now later s).0 ≡ returned)
          × ((key_up id now later s).1.keyed ≡ true)
          × ((key_up id now later s).1.arbiter.is_transmitting ≡ true))
        ⊎ (((key_up id now later s).0 ≢ returned)
            × IsUnkeyed s.arbiter.is_receiving (key_up id now later s).1)
  key_up_all_or_none now later s c k = go (key_up id now later s).0 refl
    where
      ready : IsReady (key_up id now later s)
      ready = key_up-IsReady id now later s c k

      unwinds : Unwound s.arbiter.is_receiving (key_up id now later s)
      unwinds = elim (Option-cases (Arbiter.acquire_tx s.arbiter)) [
        | inl e ↦ absurd (false≢true (sym k ∙ sym c.latch ∙ acquire_refused s.arbiter e))
        | inr (a, e) ↦
            unfold key_up in
            rw e (
              let (_, h, r) = acquire_latch s.arbiter a e in
              subst (λ b. Unwound b (line_up id now later (ptt true (record s { arbiter = a })))) r
                (line_up_unwinds now later s a c k h))
      ]

      go :
          (r : Reply)
          → (key_up id now later s).0 ≡ r
          → (((key_up id now later s).0 ≡ returned)
              × ((key_up id now later s).1.keyed ≡ true)
              × ((key_up id now later s).1.arbiter.is_transmitting ≡ true))
            ⊎ (((key_up id now later s).0 ≢ returned)
                × IsUnkeyed s.arbiter.is_receiving (key_up id now later s).1)
      go returned e = inl (e, ready.on_return e, ready.coherent.latch ∙ ready.on_return e)
      go (raised x) e =
          let ne : (key_up id now later s).0 ≢ returned = λ h. cc in inr (ne, unwinds ne)
