-- ===== src/Tx/Session/Keying.antt =====
-- The keying state of radio_server/tx/session.py under any faults of the radio and the identifier.
pub mod Run
use radio_server.Base.{
  ℕ, ◌%◌, Bool, true, false, not, ◌≡◌, refl, sym, ◌∙◌, List, [], ◌∷◌, arith, if_intro, length, ◌==◌,
  inl, inr, Option-cases,
}
use radio_server.Arbiter
use radio_server.Arbiter.{RadioArbiter}
use radio_server.Arbiter.Latch.{release_latch, acquire_latch}
use radio_server.Tx.Session.{
  Audio, Effect, line, sent, key_edge, Reply, radio_fault, format_mismatch, frame_bytes, returned,
  raised, IdReply, silent, id_audio, broken, TxIdentifier, TxSession, attempt, ptt, transmit, play,
  identify, released, close, or_close, line_up, key_up, stamped, content, feed, on_idle, touch,
  faulty, later_faults,
}

-- The PTT line as the last key command that the radio took left it.
unfoldable pub line_state : List Effect → Bool
line_state [] = false
line_state (line on ∷ es) = on
line_state (_ ∷ es) = line_state es

-- What the key-edge callback was told last.
unfoldable pub edge_state : List Effect → Bool
edge_state [] = false
edge_state (key_edge on ∷ es) = on
edge_state (_ ∷ es) = edge_state es

-- No audio goes to a radio whose line is down.
abbrev pub OnAir : List Effect → Type 0
OnAir [] = Unit {0}
OnAir (sent a ∷ es) = (line_state es ≡ true) × OnAir es
OnAir (_ ∷ es) = OnAir es

module _ {S : Type 0} where
  -- The latch of the arbiter, the line, and the ledger agree with `keyed`.
  pub record IsCoherent (s : TxSession S) : Type 0 where
    pub latch : s.arbiter.is_transmitting ≡ s.keyed
    pub line_as_keyed : line_state s.effects ≡ s.keyed
    pub edge_as_keyed : edge_state s.effects ≡ s.keyed
    pub on_air : OnAir s.effects

  transmit-IsCoherent :
      (a : Audio) (s : TxSession S)
      → IsCoherent s
      → s.keyed ≡ true
      → IsCoherent (transmit a s).1 × ((transmit a s).1.keyed ≡ true)
  unfolding transmit attempt line_state edge_state
  transmit-IsCoherent a s c k = ground arith

  play-IsCoherent :
      (r : IdReply) (s : TxSession S)
      → IsCoherent s
      → s.keyed ≡ true
      → IsCoherent (play r s).1 × ((play r s).1.keyed ≡ true)
  play-IsCoherent silent s c k = (c, k)
  play-IsCoherent (id_audio a) s c k = transmit-IsCoherent a s c k
  play-IsCoherent broken s c k = (c, k)

  -- Asking the identifier, and playing what it answers, keeps a keyed session coherent and keyed.
  pub identify-IsCoherent :
      (ask : ℕ → S → IdReply × S) (now : ℕ) (s : TxSession S)
      → IsCoherent s
      → s.keyed ≡ true
      → IsCoherent (identify ask now s).1 × ((identify ask now s).1.keyed ≡ true)
  unfolding identify
  identify-IsCoherent ask now s c k =
      let (r, i) = ask now s.ident in
      play-IsCoherent r (record s { ident = i })
        (record {
          latch = c.latch;
          line_as_keyed = c.line_as_keyed;
          edge_as_keyed = c.edge_as_keyed;
          on_air = c.on_air;
        })
        k

  released-IsCoherent :
      (s : TxSession S)
      → OnAir s.effects
      → line_state s.effects ≡ false
      → IsCoherent (released (returned, s)).1
  unfolding line_state edge_state
  released-IsCoherent s o l = record {
    latch = (release_latch s.arbiter).0;
    line_as_keyed = l;
    edge_as_keyed = refl;
    on_air = o;
  }

  -- A property of a radio call, from its two outcomes.
  pub attempt_intro :
      (P : Reply × TxSession S → Type 0) (e refused : Effect) (s : TxSession S)
      → P (
        raised radio_fault,
        record s { faults = later_faults s.faults; effects = refused ∷ s.effects },
      )
      → P (returned, record s { faults = later_faults s.faults; effects = e ∷ s.effects })
      → P (attempt e refused s)
  unfolding attempt
  attempt_intro P e refused s bad good = if_intro P (faulty s.faults) (λ _. bad) (λ _. good)

  unkey-IsCoherent :
      (s : TxSession S) → IsCoherent s → s.keyed ≡ true → IsCoherent (released (ptt false s)).1
  unfolding ptt line_state edge_state
  unkey-IsCoherent s c k =
      attempt_intro (λ p. IsCoherent (released p).1) _ _ s
        (record {
          latch = c.latch;
          line_as_keyed = c.line_as_keyed;
          edge_as_keyed = c.edge_as_keyed;
          on_air = c.on_air;
        })
        (released-IsCoherent
          (record s { faults = later_faults s.faults; effects = line false ∷ s.effects }) c.on_air
          refl)

-- Coherent, and keyed if nothing was raised.
pub record IsReady {S : Type 0} (p : Reply × TxSession S) : Type 0 where
  pub coherent : IsCoherent p.1
  pub on_return : p.0 ≡ returned → p.1.keyed ≡ true

module _ {S : Type 0} (id : TxIdentifier S) where
  pub close-IsCoherent : (now : ℕ) (s : TxSession S) → IsCoherent s → IsCoherent (close id now s).1
  unfolding close
  close-IsCoherent now s c =
      if_intro (λ (p : Reply × TxSession S). IsCoherent p.1) s.keyed
        (λ k.
          let (c', k') = identify-IsCoherent id.sign_off_id now s c k in unkey-IsCoherent _ c' k')
        (λ k. c)

  or_close-IsReady :
      (later : ℕ) (p : Reply × TxSession S)
      → IsCoherent p.1
      → p.1.keyed ≡ true
      → IsReady (or_close id later p)
  or_close-IsReady later (returned, s) c k = record { coherent = c; on_return = λ _. k }
  or_close-IsReady later (raised e, s) c k = record {
    coherent = close-IsCoherent later s c;
    on_return = λ h. cc;
  }

  -- A claim that fails gives the radio back.
  line_up-IsReady :
      (now later : ℕ) (s : TxSession S) (a : RadioArbiter)
      → IsCoherent s
      → s.keyed ≡ false
      → a.is_transmitting ≡ true
      → IsReady (line_up id now later (ptt true (record s { arbiter = a })))
  unfolding ptt line_state edge_state
  line_up-IsReady now later s a c k h =
      attempt_intro (λ p. IsReady (line_up id now later p)) _ _ _
        (record {
          coherent = record {
            latch = (release_latch a).0 ∙ sym k;
            line_as_keyed = c.line_as_keyed;
            edge_as_keyed = c.edge_as_keyed;
            on_air = c.on_air;
          };
          on_return = λ e. cc;
        })
        (let (c', k') = identify-IsCoherent id.key_up_id now up up-IsCoherent refl in
          or_close-IsReady later _ c' k')
    where
      up : TxSession S
      up = record s {
        keyed = true;
        arbiter = a;
        faults = later_faults s.faults;
        effects = key_edge true ∷ line true ∷ s.effects;
      }

      up-IsCoherent : IsCoherent up
      up-IsCoherent = record {
        latch = h;
        line_as_keyed = refl;
        edge_as_keyed = refl;
        on_air = c.on_air;
      }

  pub key_up-IsReady :
      (now later : ℕ) (s : TxSession S)
      → IsCoherent s
      → s.keyed ≡ false
      → IsReady (key_up id now later s)
  unfolding key_up
  key_up-IsReady now later s c k = elim (Option-cases (Arbiter.acquire_tx s.arbiter)) [
    | inl e ↦ rw e (record { coherent = c; on_return = λ h. cc })
    | inr (a, e) ↦ rw e (line_up-IsReady now later s a c k (acquire_latch s.arbiter a e).1)
  ]

  content-IsCoherent :
      (now : ℕ) (bytes : Audio) (p : Reply × TxSession S)
      → IsReady p
      → IsCoherent (content id now bytes p).1
  unfolding transmit line_state edge_state
  content-IsCoherent now bytes (raised e, s) r = r.coherent
  content-IsCoherent now bytes (returned, s) r =
      attempt_intro (λ p. IsCoherent (stamped id now bytes p).1) _ _ s
        (record {
          latch = r.coherent.latch;
          line_as_keyed = r.coherent.line_as_keyed;
          edge_as_keyed = r.coherent.edge_as_keyed;
          on_air = r.coherent.on_air;
        })
        (record {
          latch = r.coherent.latch;
          line_as_keyed = r.coherent.line_as_keyed;
          edge_as_keyed = r.coherent.edge_as_keyed;
          on_air = (r.coherent.line_as_keyed ∙ r.on_return refl, r.coherent.on_air);
        })

  pub feed-IsCoherent :
      (now later : ℕ) (bytes : Audio) (s : TxSession S)
      → IsCoherent s
      → IsCoherent (feed id now later bytes s).1
  unfolding feed
  feed-IsCoherent now later bytes s c =
      if_intro After (not (length bytes % frame_bytes == 0)) {x = (raised format_mismatch, s)}
        (λ _. c)
        λ _.
          if_intro After (length bytes == 0) {x = (returned, s)} (λ _. c)
            λ _. content-IsCoherent now bytes _ (
              if_intro IsReady s.keyed {x = identify id.periodic_id now s}
                (λ k.
                  let (c', k') = identify-IsCoherent id.periodic_id now s c k in
                  record { coherent = c'; on_return = λ _. k' })
                (λ k. key_up-IsReady now later s c k))
    where
      After : Reply × TxSession S → Type 0
      After p = IsCoherent p.1
