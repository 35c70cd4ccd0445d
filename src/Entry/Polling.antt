-- ===== src/Entry/Polling.antt =====
-- Polling the inter-digit timeout of radio_server/audio/dtmf.py between the keys.
use radio_server.Base.{
  ℕ, ◌≤◌, Bool, true, false, not, ◌&&◌, ◌≡◌, refl, ap, ◌∙◌, List, [], ◌∷◌, Option, none, some,
  arith, Bool-cases, inl, inr,
}
use radio_server.Entry.{DtmfFramer, feed, tick, expire, is_empty, gap_reached, handle}
use radio_server.Entry.Framing.{and_entry}

pub data Event : Type 0 where
  key : ℕ → ℕ → Event
  poll : ℕ → Event

-- The times do not run backwards, from `t` on.
abbrev pub IsForward : ℕ → List Event → Type 0
IsForward t [] = Unit
IsForward t (key d now ∷ es) = (t ≤ now) × IsForward now es
IsForward t (poll now ∷ es) = (t ≤ now) × IsForward now es

unfoldable pub without_polls : List Event → List Event
without_polls [] = []
without_polls (key d now ∷ es) = key d now ∷ without_polls es
without_polls (poll now ∷ es) = without_polls es

-- The entries that come out.
unfoldable pub entries : ℕ → List Event → DtmfFramer → List (List ℕ)
entries timeout [] s = []
entries timeout (key d now ∷ es) s =
    let (r, s') = feed timeout d now s in and_entry r (entries timeout es s')
entries timeout (poll now ∷ es) s = entries timeout es (tick timeout now s)

gap_later :
    (timeout now later : ℕ) (at : Option ℕ)
    → now ≤ later
    → gap_reached timeout now at ≡ true
    → gap_reached timeout later at ≡ true
gap_later timeout now later none h e = e
gap_later timeout now later (some t) h e = ground arith

and_implies : (b : Bool) {p q : Bool} → (b && p) ≡ true → (p ≡ true → q ≡ true) → (b && q) ≡ true
and_implies true e f = f e
and_implies false e f = e

module _ (timeout : ℕ) where
  expire_twice :
      (now later : ℕ) (s : DtmfFramer)
      → now ≤ later
      → expire timeout later (expire timeout now s) ≡ expire timeout later s
  unfolding expire
  expire_twice now later s h =
      elim (Bool-cases (not (is_empty s.buffer) && gap_reached timeout now s.last_at)) [
        | inl e ↦
            let e' : (not (is_empty s.buffer) && gap_reached timeout later s.last_at) ≡ true =
              and_implies (not (is_empty s.buffer)) e (gap_later timeout now later s.last_at h) in
            simp (e, e')
        | inr e ↦ simp (e)
      ]

  feed_same :
      (d now : ℕ) (s s' : DtmfFramer)
      → expire timeout now s ≡ expire timeout now s'
      → feed timeout d now s ≡ feed timeout d now s'
  unfolding feed
  feed_same d now s s' e =
      ap (λ (x : DtmfFramer). handle timeout d (record x { last_at = some now })) e

  same_entries :
      (es : List Event) (t : ℕ) (s s' : DtmfFramer)
      → ((n : ℕ) → t ≤ n → expire timeout n s ≡ expire timeout n s')
      → IsForward t es
      → entries timeout es s ≡ entries timeout (without_polls es) s'
  unfolding entries without_polls tick
  same_entries [] t s s' same f = refl
  same_entries (key d now ∷ es) t s s' same (le, f) =
      let r = feed timeout d now s' in
      ap (λ (p : Option (List ℕ) × DtmfFramer). and_entry p.0 (entries timeout es p.1))
        (feed_same d now s s' (same now le))
      ∙ ap (and_entry r.0) (same_entries es now r.1 r.1 (λ n h. refl) f)
  same_entries (poll now ∷ es) t s s' same (le, f) =
      same_entries es now (expire timeout now s) s'
        (λ n h. expire_twice now n s h ∙ same n (omega arith)) f

  -- With a clock that does not run backwards, polling the timeout between keys changes no entry: the
  -- entries are those of the keys alone.
  pub ticks_unobservable :
      (es : List Event) (t : ℕ) (s : DtmfFramer)
      → IsForward t es
      → entries timeout es s ≡ entries timeout (without_polls es) s
  ticks_unobservable es t s f = same_entries es t s s (λ n h. refl) f
