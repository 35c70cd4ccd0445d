-- ===== src/Tx/Session/Keying/Run.antt =====
-- Any calls of a session of radio_server/tx/session.py.
use radio_server.Base.{ℕ, Bool, List, [], ◌∷◌, arith, if_intro}
use radio_server.Tx.Session.{Audio, Reply, TxIdentifier, TxSession, close, feed, on_idle, touch}
use radio_server.Tx.Session.Keying.{IsCoherent, close-IsCoherent, feed-IsCoherent}

-- What an endpoint does with its session.
pub data Step : Type 0 where
  feed_step : ℕ → ℕ → Audio → Step
  touch_step : ℕ → Step
  idle_step : ℕ → ℕ → ℕ → Step
  close_step : ℕ → Step

module _ {S : Type 0} (id : TxIdentifier S) where
  abbrev pub apply : TxSession S → Step → TxSession S
  apply s (feed_step now later bytes) = (feed id now later bytes s).1
  apply s (touch_step now) = touch now s
  apply s (idle_step timeout now later) = (on_idle id timeout now later s).0.1
  apply s (close_step now) = (close id now s).1

  pub run : TxSession S → List Step → TxSession S
  run s [] = s
  run s (x ∷ xs) = run (apply s x) xs

  touch-IsCoherent : (now : ℕ) (s : TxSession S) → IsCoherent s → IsCoherent (touch now s)
  unfolding touch
  touch-IsCoherent now s c = ground arith

  apply-IsCoherent : (s : TxSession S) (x : Step) → IsCoherent s → IsCoherent (apply s x)
  apply-IsCoherent s (feed_step now later bytes) c = feed-IsCoherent id now later bytes s c
  apply-IsCoherent s (touch_step now) c = touch-IsCoherent now s c
  apply-IsCoherent s (idle_step timeout now later) c =
      unfold on_idle in
      if_intro (λ (p : (Reply × TxSession S) × Bool). IsCoherent p.0.1) _
        (λ _. close-IsCoherent id later s c) (λ _. c)
  apply-IsCoherent s (close_step now) c = close-IsCoherent id now s c

  -- Whatever is fed and whichever calls of the radio or the identifier raise: the arbiter's TX latch,
  -- the PTT line and the last key edge reported agree with `keyed`, and audio, the ID included, only
  -- ever reached the radio while its line was up.
  pub run-IsCoherent : (s : TxSession S) (xs : List Step) → IsCoherent s → IsCoherent (run s xs)
  unfolding run
  run-IsCoherent s [] c = c
  run-IsCoherent s (x ∷ xs) c = run-IsCoherent (apply s x) xs (apply-IsCoherent s x c)
