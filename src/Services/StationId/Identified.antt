-- ===== src/Services/StationId/Identified.antt =====
-- The Part 97 rule on identification over any run of radio_server/services/station_id.py.
use mathlib.Core.Bool.{false≢true}
use radio_server.Base.{
  ℕ, ◌&&◌, ◌-◌, ◌<◌, Bool, true, false, ◌≡◌, refl, sym, if◌then◌else◌, List, [], ◌∷◌, ◌++◌,
  append-nil, Option, none, some, ◌⊎◌, inl, inr, arith, if_intro,
}
use radio_server.Services.StationId.{
  Audio, Over, StationId, new, Reply, returned, raised, send, due_at, transmit, identify, check,
  sign_off, begin_session, reset, settle, over, id_over, faulty, later_faults,
}

-- What the controller and the dispatcher do with the station.
pub data Op : Type 0 where
  content : ℕ → Audio → Op
  on_demand : ℕ → Op
  poll : ℕ → Op
  end_session : ℕ → Op
  start_session : Op

module _ (interval : ℕ) (id_frame : Audio) where
  abbrev pub apply : StationId → Op → StationId
  apply s (content now audio) = (transmit interval id_frame now audio s).1
  apply s (on_demand now) = (identify interval id_frame now s).1
  apply s (poll now) = (check interval id_frame now s).1
  apply s (end_session now) = (sign_off interval id_frame now s).1
  apply s start_session = begin_session s

  unfoldable pub run : StationId → List Op → StationId
  run s [] = s
  run s (o ∷ os) = run (apply s o) os

  -- The audio that the radio took begins with the ID frame.
  abbrev pub HasId : Over → Type 0
  HasId o = (rest : Audio) × (o.audio ≡ id_frame ++ rest)

  -- An over with an ID went out less than the interval before `now`.
  abbrev pub RecentId : ℕ → List Over → Type 0
  RecentId now [] = ⊥
  RecentId now (o ∷ os) = (HasId o × (now - o.at < interval)) ⊎ RecentId now os

  -- Each over begins with an ID, or one that does went out recently before it.
  abbrev pub Identified : List Over → Type 0
  Identified [] = Unit {0}
  Identified (o ∷ os) = (HasId o ⊎ RecentId o.at os) × Identified os

  -- `last_id` is the time of an ID that went out.
  abbrev WentOut : Option ℕ → List Over → Type 0
  WentOut none os = Unit {0}
  WentOut (some t) [] = ⊥
  WentOut (some t) (o ∷ os) = (HasId o × (o.at ≡ t)) ⊎ WentOut (some t) os

  record IsKept (s : StationId) : Type 0 where
    overs_identified : Identified s.overs
    last_went_out : WentOut s.last_id s.overs

  recent_of_last :
      (now : ℕ) (l : Option ℕ) (os : List Over)
      → WentOut l os
      → due_at interval now l ≡ false
      → RecentId now os
  recent_of_last now none os w d = absurd (false≢true (sym d))
  recent_of_last now (some t) [] w d = absurd w
  recent_of_last now (some t) (o ∷ os) (inl (h, e)) d = inl (h, ground arith)
  recent_of_last now (some t) (o ∷ os) (inr w) d = inr (recent_of_last now (some t) os w d)

  -- One more over does not undo that an ID went out.
  WentOut-later : (l : Option ℕ) (o : Over) (os : List Over) → WentOut l os → WentOut l (o ∷ os)
  WentOut-later none o os w = tt
  WentOut-later (some t) o os w = inr w

  settle_intro :
      (P : Reply × StationId → Type 0) (f : StationId → StationId) (o : Over) (s : StationId)
      → P (raised, record s { faults = later_faults s.faults })
      → P (returned true, f (record s { faults = later_faults s.faults; overs = o ∷ s.overs }))
      → P (settle f (send o s))
  unfolding send
  settle_intro P f o s bad good =
      if_intro (λ p. P (settle f p)) (faulty s.faults) (λ _. bad) (λ _. good)

  abbrev After : Reply × StationId → Type 0
  After p = IsKept p.1

  raised-IsKept : (s : StationId) → IsKept s → IsKept (record s { faults = later_faults s.faults })
  raised-IsKept s k = record {
    overs_identified = k.overs_identified;
    last_went_out = k.last_went_out;
  }

  id_over-HasId : (now : ℕ) → HasId (id_over interval id_frame now)
  id_over-HasId now = ([], sym (append-nil id_frame))

  id-IsKept :
      (s : StationId) (now : ℕ) (b : Bool) (fs : List Bool)
      → IsKept s
      → IsKept (record {
        transmitted_this_session = b;
        last_id = some now;
        faults = fs;
        overs = id_over interval id_frame now ∷ s.overs;
      })
  id-IsKept s now b fs k = record {
    overs_identified = (inl (id_over-HasId now), k.overs_identified);
    last_went_out = inl (id_over-HasId now, refl);
  }

  transmit-IsKept :
      (now : ℕ) (audio : Audio) (s : StationId)
      → IsKept s
      → IsKept (transmit interval id_frame now audio s).1
  unfolding transmit
  transmit-IsKept now audio s k = go (due_at interval now s.last_id) refl
    where
      go :
          (b : Bool)
          → due_at interval now s.last_id ≡ b
          → IsKept
              (settle
                (λ s'. record s' {
                  last_id = if b then some now else s'.last_id;
                  transmitted_this_session = true;
                })
                (send (over interval id_frame now audio b) s)).1
      go true d = settle_intro After _ _ s (raised-IsKept s k) (record {
        overs_identified = (inl (audio, refl), k.overs_identified);
        last_went_out = inl ((audio, refl), refl);
      })
      go false d = settle_intro After _ _ s (raised-IsKept s k) (record {
        overs_identified =
            (inr (recent_of_last now s.last_id s.overs k.last_went_out d), k.overs_identified);
        last_went_out = WentOut-later s.last_id _ s.overs k.last_went_out;
      })

  reset-IsKept : (s : StationId) → Identified s.overs → IsKept (reset s)
  reset-IsKept s i = record { overs_identified = i; last_went_out = tt }

  apply-IsKept : (s : StationId) (o : Op) → IsKept s → IsKept (apply s o)
  unfolding identify check sign_off begin_session
  apply-IsKept s (content now audio) k = transmit-IsKept now audio s k
  apply-IsKept s (on_demand now) k =
      settle_intro After _ _ s (raised-IsKept s k) (id-IsKept s now true _ k)
  apply-IsKept s (poll now) k =
      if_intro After (s.transmitted_this_session && due_at interval now s.last_id)
        {y = (returned false, s)}
        (λ _.
          settle_intro After _ _ s (raised-IsKept s k)
            (id-IsKept s now s.transmitted_this_session _ k))
        (λ _. k)
  apply-IsKept s (end_session now) k =
      if_intro After s.transmitted_this_session {y = (returned false, reset s)}
        (λ _. settle_intro After reset _ s (raised-IsKept s k) (record {
          overs_identified = (inl (id_over-HasId now), k.overs_identified);
          last_went_out = tt;
        }))
        (λ _. reset-IsKept s k.overs_identified)
  apply-IsKept s start_session k = reset-IsKept s k.overs_identified

  run-IsKept : (s : StationId) (os : List Op) → IsKept s → IsKept (run s os)
  unfolding run
  run-IsKept s [] k = k
  run-IsKept s (o ∷ os) k = run-IsKept (apply s o) os (apply-IsKept s o k)

  -- Whatever is called at whichever times, and whichever radio calls raise, the audio of each over that
  -- went out begins with the ID frame, or that of an over less than the interval before it does.
  pub overs-Identified :
      (faults : List Bool) (os : List Op) → Identified (run (new faults) os).overs
  overs-Identified faults os = kept.overs_identified
    where
      kept : IsKept (run (new faults) os)
      kept = run-IsKept (new faults) os (record { overs_identified = tt; last_went_out = tt })
