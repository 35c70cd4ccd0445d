-- ===== src/Scan/Ticks.antt =====
-- What holds of a scan of radio_server/scan/engine.py at any time: where it stands, what the
-- receiver is tuned to, and the order of the events that a client sees.
pub mod Run
use radio_server.Base.{
  ℕ, suc, ◌+◌, ◌%◌, ◌<◌, Bool, true, false, Bool-cases, inl, inr, ◌⊎◌, ◌≡◌, ◌≢◌, refl, sym, ap, ◌∙◌,
  List, [], ◌∷◌, Option, none, some, length, get_or, arith, if_intro, leb, ltb,
}
use mathlib.Core.Path.{subst}
use radio_server.Arbiter.{RadioArbiter}
use radio_server.Scan.{
  ResumeMode, carrier, timed, hold, Phase, scanning, active, dwelling, resumed, Action, tuned,
  polled, event, ScanPlan, is_in, active_channels, State, idle, listening, dwelling_on, held, done,
  ScanEngine, new, act, tune, read_busy, begin_listen, begin_dwell, advance, advance_with,
  after_peek, step_on, polled_first, start, start_with, heard, resume, resume_from, dwell_at,
  dwell_on, carrier_dropped, step, tick,
}
use radio_server.Scan.Plan.{active-unlocked}

abbrev pub Event : Type 0
Event = Phase × ℕ × Option ℕ

abbrev pub last_tuned : List Action → Option ℕ
last_tuned [] = none
last_tuned (tuned f ∷ as') = some f
last_tuned (_ ∷ as') = last_tuned as'

abbrev pub last_event : List Action → Option Event
last_event [] = none
last_event (event ph f c ∷ as') = some (ph, f, c)
last_event (_ ∷ as') = last_event as'

-- What the event before a `scanning` may be.
abbrev pub Free : Option Event → Type 0
Free none = Unit
Free (some (scanning, f, c)) = Unit
Free (some (resumed, f, c)) = Unit
Free (some _) = ⊥

-- Which event may come after which: active after scanning, dwelling after active and resumed after
-- dwelling, each of the same frequency and channel.
abbrev pub Follows : Option Event → Event → Type 0
Follows e (scanning, f, c) = Free e
Follows e (active, f, c) = e ≡ some (scanning, f, c)
Follows e (dwelling, f, c) = e ≡ some (active, f, c)
Follows e (resumed, f, c) = e ≡ some (dwelling, f, c)

abbrev pub Ordered : List Action → Type 0
Ordered [] = Unit
Ordered (event ph f c ∷ as') = Follows (last_event as') (ph, f, c) × Ordered as'
Ordered (_ ∷ as') = Ordered as'

-- The priority channel, or a channel of the plan that is not locked out, by its index.
abbrev pub OnPlan : ScanPlan → ℕ → Option ℕ → Type 0
OnPlan p f none = p.priority ≡ some f
OnPlan p f (some i) =
    (i < length (active_channels p))
    × (get_or (active_channels p) i 0 ≡ f)
    × (is_in f p.lockout ≡ false)

-- The receiver is tuned to the present frequency, and the last event was about it.
abbrev pub At : ScanPlan → Phase → ScanEngine → Type 0
At p ph s =
    (f : ℕ) × (s.current_freq ≡ some f)
    × (last_tuned s.actions ≡ some f)
    × (last_event s.actions ≡ some (ph, f, s.current_channel))
    × OnPlan p f s.current_channel
    × (0 < length (active_channels p))

abbrev pub Stands : ResumeMode → ScanPlan → State → ScanEngine → Type 0
Stands mode p idle s = s.actions ≡ []
Stands mode p listening s = At p scanning s
Stands mode p dwelling_on s = At p dwelling s × (mode ≢ hold)
Stands mode p held s = At p dwelling s × (mode ≡ hold)
Stands mode p done s = (s.actions ≡ []) × (active_channels p ≡ [])

pub record IsSound (mode : ResumeMode) (p : ScanPlan) (s : ScanEngine) : Type 0 where
  pub ordered : Ordered s.actions
  pub stands : Stands mode p s.state s

-- A poll reads something, and changes nothing else.
read_first :
    (l : List Bool) (s : ScanEngine)
    → (b : Bool) × (bs : List Bool) × (polled_first l s
        ≡ (b, act (polled b) (record s { busy = bs })))
read_first [] s = (false, s.busy, refl)
read_first (b ∷ bs) s = (b, bs, refl)

pub read_busy_lem :
    (s : ScanEngine)
    → (b : Bool) × (bs : List Bool) × (read_busy s ≡ (b, act (polled b) (record s { busy = bs })))
unfolding read_busy
read_busy_lem s = read_first s.busy s

pub begin_dwell-IsSound :
    (mode : ResumeMode) (dwell settle : ℕ) (p : ScanPlan)
    → (freq : ℕ) (channel : Option ℕ) (now : ℕ) (s : ScanEngine) → Ordered s.actions
    → last_event s.actions ≡ some (scanning, freq, channel)
    → last_tuned s.actions ≡ some freq
    → OnPlan p freq channel
    → 0 < length (active_channels p)
    → IsSound mode p (begin_dwell mode dwell settle p freq channel now s)
unfolding begin_dwell
begin_dwell-IsSound carrier dwell settle p freq channel now s o e t on pos = record {
  ordered = (refl, (e, o));
  stands = ((freq, refl, t, refl, on, pos), λ h. cc);
}
begin_dwell-IsSound timed dwell settle p freq channel now s o e t on pos = record {
  ordered = (refl, (e, o));
  stands = ((freq, refl, t, refl, on, pos), λ h. cc);
}
begin_dwell-IsSound hold dwell settle p freq channel now s o e t on pos = record {
  ordered = (refl, (e, o));
  stands = ((freq, refl, t, refl, on, pos), refl);
}

module _ (mode : ResumeMode) (dwell settle : ℕ) (p : ScanPlan) where
  pub begin_listen-IsSound :
      (freq channel now : ℕ) (s : ScanEngine)
      → Ordered s.actions
      → Free (last_event s.actions)
      → OnPlan p freq (some channel)
      → 0 < length (active_channels p)
      → IsSound mode p (begin_listen mode dwell settle p freq channel now s)
  unfolding begin_listen
  begin_listen-IsSound freq channel now s o fr on pos = record {
    ordered = (fr, o);
    stands = (freq, refl, refl, refl, on, pos);
  }

  step_on-IsSound :
      (now : ℕ) (s : ScanEngine)
      → Ordered s.actions
      → Free (last_event s.actions)
      → 0 < length (active_channels p)
      → IsSound mode p (step_on mode dwell settle p now s)
  step_on-IsSound now s o fr pos =
      let i = (s.index + 1) % length (active_channels p) in
      let h : i < length (active_channels p) = omega arith in
      begin_listen-IsSound (get_or (active_channels p) i 0) i now (record s { index = i }) o fr
        (h, refl, active-unlocked p i h) pos

  peeked-IsSound :
      (freq now : ℕ) (r : Bool × ScanEngine)
      → p.priority ≡ some freq
      → Ordered r.1.actions
      → Free (last_event r.1.actions)
      → last_tuned r.1.actions ≡ some freq
      → 0 < length (active_channels p)
      → IsSound mode p (after_peek mode dwell settle p freq now r)
  peeked-IsSound freq now (true, s) e o fr t pos =
      begin_dwell-IsSound mode dwell settle p freq none now (act (event scanning freq none) s)
        (fr, o) refl t e pos
  peeked-IsSound freq now (false, s) e o fr t pos = step_on-IsSound now s o fr pos

  peek-IsSound :
      (q : Option ℕ) (now : ℕ) (s : ScanEngine)
      → p.priority ≡ q
      → Ordered s.actions
      → Free (last_event s.actions)
      → 0 < length (active_channels p)
      → IsSound mode p (advance_with mode dwell settle p now q s)
  peek-IsSound none now s e o fr pos = step_on-IsSound now s o fr pos
  peek-IsSound (some freq) now s e o fr pos =
      let (b, bs, eq) = read_busy_lem (tune freq s) in
      subst (λ r. IsSound mode p (after_peek mode dwell settle p freq now r)) (sym eq)
        (peeked-IsSound freq now (b, act (polled b) (record (tune freq s) { busy = bs })) e o fr
          refl pos)

  pub advance-IsSound :
      (now : ℕ) (s : ScanEngine)
      → Ordered s.actions
      → Free (last_event s.actions)
      → 0 < length (active_channels p)
      → IsSound mode p (advance mode dwell settle p now s)
  unfolding advance
  advance-IsSound now s o fr pos = peek-IsSound p.priority now s refl o fr pos
