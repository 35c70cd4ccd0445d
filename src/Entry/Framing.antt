-- ===== src/Entry/Framing.antt =====
-- Entries keyed into the framer of radio_server/audio/dtmf.py.
use radio_server.Base.{
  ℕ, ◌+◌, ◌<◌, ◌≡◌, ◌≢◌, refl, sym, ap, ◌∙◌, List, [], ◌∷◌, ◌++◌, Option, none, some, All, arith,
  append-nil, append_assoc,
}
use radio_server.Entry.{DtmfFramer, feed, expire, clear_key, submit_key}

-- A key that is appended, with the time since the key before it.
abbrev pub IsKey : ℕ → ℕ × ℕ → Type 0
IsKey timeout (d, gap) = (d ≢ clear_key) × (d ≢ submit_key) × (gap < timeout)

abbrev pub digits : List (ℕ × ℕ) → List ℕ
digits [] = []
digits ((d, gap) ∷ ks) = d ∷ digits ks

abbrev pub and_entry : Option (List ℕ) → List (List ℕ) → List (List ℕ)
and_entry none es = es
and_entry (some e) es = e ∷ es

-- The entries that come out, and the framer after, of keys that begin after the time `t`.
unfoldable pub type_in : ℕ → ℕ → List (ℕ × ℕ) → DtmfFramer → List (List ℕ) × DtmfFramer
type_in timeout t [] s = ([], s)
type_in timeout t ((d, gap) ∷ ks) s =
    let (r, s') = feed timeout d (t + gap) s in
    let (es, s'') = type_in timeout (t + gap) ks s' in (and_entry r es, s'')

module _ (timeout : ℕ) where
  -- A key in time is appended.
  feed_key :
      (d gap t : ℕ) (b : List ℕ)
      → IsKey timeout (d, gap)
      → feed timeout d (t + gap) (record { buffer = b; last_at = some t })
        ≡ (none, record { buffer = b ++ (d ∷ []); last_at = some (t + gap) })
  unfolding feed expire
  feed_key d gap t b (c, u, g) = ground arith

  -- The submit key in time hands on what is not empty.
  feed_submit :
      (d gap t : ℕ) (b : List ℕ)
      → gap < timeout
      → feed timeout submit_key (t + gap) (record { buffer = d ∷ b; last_at = some t })
        ≡ (some (d ∷ b), record { buffer = []; last_at = some (t + gap) })
  unfolding feed expire
  feed_submit d gap t b g = ground arith

  -- What is read from a result of `feed` and the keys behind it.
  keys_then :
      (d gap t : ℕ) (ks : List (ℕ × ℕ)) (s s' : DtmfFramer) (r : Option (List ℕ))
      → feed timeout d (t + gap) s ≡ (r, s')
      → (type_in timeout t ((d, gap) ∷ ks) s).0 ≡ and_entry r (type_in timeout (t + gap) ks s').0
  unfolding type_in
  keys_then d gap t ks s s' r e = ap (λ p. and_entry p.0 (type_in timeout (t + gap) ks p.1).0) e

  typed :
      (ks : List (ℕ × ℕ)) (d gap t : ℕ) (b : List ℕ)
      → All (IsKey timeout) ks
      → gap < timeout
      → (type_in timeout t
          (ks ++ ((submit_key, gap) ∷ []))
          (record { buffer = d ∷ b; last_at = some t })).0
        ≡ (d ∷ (b ++ digits ks)) ∷ []
  unfolding type_in
  typed [] d gap t b h g =
      keys_then submit_key gap t [] (record { buffer = d ∷ b; last_at = some t })
        (record { buffer = []; last_at = some (t + gap) }) (some (d ∷ b)) (feed_submit d gap t b g)
      ∙ ap (λ l. (d ∷ l) ∷ []) (sym (append-nil b))
  typed ((k, g1) ∷ ks) d gap t b (h, hs) g =
      keys_then k g1 t (ks ++ ((submit_key, gap) ∷ []))
        (record { buffer = d ∷ b; last_at = some t })
        (record { buffer = d ∷ (b ++ (k ∷ [])); last_at = some (t + g1) }) none
        (feed_key k g1 t (d ∷ b) h)
      ∙ typed ks d gap (t + g1) (b ++ (k ∷ [])) hs g
      ∙ ap (λ l. (d ∷ l) ∷ []) (append_assoc b (k ∷ []) (digits ks))

  cleared :
      (t : ℕ) (s : DtmfFramer)
      → feed timeout clear_key t s ≡ (none, record { buffer = []; last_at = some t })
  unfolding feed
  cleared t s = refl

  -- From any state, a clear key, then one or more keys other than clear and submit, then a submit key,
  -- each less than the timeout after the one before, give one entry, which is those keys in order.
  pub entry_exact :
      (s : DtmfFramer) (t d g gap : ℕ) (ks : List (ℕ × ℕ))
      → IsKey timeout (d, g)
      → All (IsKey timeout) ks
      → gap < timeout
      → (type_in timeout t ((clear_key, 0) ∷ (d, g) ∷ (ks ++ ((submit_key, gap) ∷ []))) s).0
        ≡ (d ∷ digits ks) ∷ []
  entry_exact s t d g gap ks h hs lt =
      keys_then clear_key 0 t ((d, g) ∷ (ks ++ ((submit_key, gap) ∷ []))) s
        (record { buffer = []; last_at = some (t + 0) }) none (cleared (t + 0) s)
      ∙ keys_then d g (t + 0) (ks ++ ((submit_key, gap) ∷ []))
          (record { buffer = []; last_at = some (t + 0) })
          (record { buffer = d ∷ []; last_at = some (t + 0 + g) }) none (feed_key d g (t + 0) [] h)
      ∙ typed ks d gap (t + 0 + g) [] hs lt
