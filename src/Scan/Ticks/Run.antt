-- ===== src/Scan/Ticks/Run.antt =====
-- The scan of radio_server/scan/engine.py over any ticks, and the ticks while TX holds the radio.
use radio_server.Base.{
  ℕ, ◌+◌, ◌<◌, Bool, true, false, Bool-cases, inl, inr, ◌≡◌, refl, sym, ap, ◌∙◌, List, [], ◌∷◌,
  length, get_or, arith, if_intro, if◌then◌else◌, leb, ltb,
}
use mathlib.Core.Path.{subst}
use radio_server.Arbiter.{RadioArbiter}
use radio_server.Scan.{
  ResumeMode, carrier, timed, hold, Phase, scanning, dwelling, resumed, polled, event, ScanPlan,
  is_in, active_channels, State, idle, listening, dwelling_on, held, done, ScanEngine, new, act,
  start, start_with, heard, resume, resume_from, dwell_at, dwell_on, carrier_dropped, step, tick,
}
use radio_server.Scan.Plan.{active-unlocked}
use radio_server.Scan.Ticks.{
  At, Free, Ordered, Stands, IsSound, last_event, read_busy_lem, begin_listen-IsSound,
  begin_dwell-IsSound, advance-IsSound,
}

module _ (mode : ResumeMode) (dwell settle : ℕ) (p : ScanPlan) where
  start-IsSound :
      (now : ℕ) (l : List ℕ) (s : ScanEngine)
      → active_channels p ≡ l
      → s.actions ≡ []
      → IsSound mode p (start_with mode dwell settle p now l s)
  start-IsSound now [] s e n = record { ordered = subst Ordered (sym n) tt; stands = (n, e) }
  start-IsSound now (f ∷ fs) s e n =
      let pos : 0 < length (active_channels p) = subst (λ l. 0 < length l) (sym e) (omega arith) in
      begin_listen-IsSound mode dwell settle p f 0 now (record s { index = 0 })
        (subst Ordered (sym n) tt) (subst (λ l. Free (last_event l)) (sym n) tt)
        (
          pos,
          ap (λ l. get_or l 0 0) e,
          subst (λ c. is_in c p.lockout ≡ false) (ap (λ l. get_or l 0 0) e)
              (active-unlocked p 0 pos),
        )
        pos

  heard-IsSound :
      (now : ℕ) (b : Bool) (s : ScanEngine)
      → Ordered s.actions
      → At p scanning s
      → IsSound mode p (heard mode dwell settle p now (b, s))
  heard-IsSound now true s o (f, c, t, e, on, pos) =
      subst (λ q. IsSound mode p (dwell_at mode dwell settle p now q s)) (sym c)
        (begin_dwell-IsSound mode dwell settle p f s.current_channel now s o e t on pos)
  heard-IsSound now false s o (f, c, t, e, on, pos) =
      advance-IsSound mode dwell settle p now s o (subst Free (sym e) tt) pos

  resume-IsSound :
      (now : ℕ) (s : ScanEngine)
      → Ordered s.actions
      → At p dwelling s
      → IsSound mode p (resume mode dwell settle p now s)
  resume-IsSound now s o (f, c, t, e, on, pos) =
      subst (λ q. IsSound mode p (resume_from mode dwell settle p now q s)) (sym c)
        (advance-IsSound mode dwell settle p now (act (event resumed f s.current_channel) s) (e, o)
          tt pos)

  -- A poll leaves the scan where it was.
  polled-At :
      (ph : Phase) (b : Bool) (bs : List Bool) (s : ScanEngine)
      → At p ph s
      → At p ph (act (polled b) (record s { busy = bs }))
  polled-At ph b bs s at = at

  dwell_on-IsSound :
      (m : ResumeMode) (now : ℕ) (s : ScanEngine)
      → mode ≡ m
      → s.state ≡ dwelling_on
      → Ordered s.actions
      → At p dwelling s
      → IsSound mode p s
      → IsSound mode p (dwell_on mode dwell settle p now m s)
  dwell_on-IsSound carrier now s em es o at h =
      let (b, bs, eq) = read_busy_lem s in
      subst (λ r. IsSound mode p (carrier_dropped mode dwell settle p now r)) (sym eq)
        (elim b
          as (λ b. IsSound mode p (
            carrier_dropped mode dwell settle p now (b, act (polled b) (record s { busy = bs })))) [
              | true ↦ record {
                ordered = o;
                stands =
                    subst (λ st. Stands mode p st (act (polled true) (record s { busy = bs })))
                      (sym es) (at, λ e. cc);
              }
              | false ↦ resume-IsSound now (act (polled false) (record s { busy = bs })) o at
            ])
  dwell_on-IsSound timed now s em es o at h =
      if_intro (IsSound mode p) (leb s.dwell_deadline now) (λ t. resume-IsSound now s o at) (λ f. h)
  dwell_on-IsSound hold now s em es o at h = h

  step-IsSound :
      (st : State) (now : ℕ) (s : ScanEngine)
      → s.state ≡ st
      → Stands mode p st s
      → IsSound mode p s
      → IsSound mode p (step mode dwell settle p now st s)
  unfolding start
  step-IsSound idle now s e n h = start-IsSound now (active_channels p) s refl n
  step-IsSound listening now s e at h =
      if_intro (IsSound mode p) (ltb now (s.tuned_at + settle)) (λ t. h)
        (λ t.
          let (b, bs, eq) = read_busy_lem s in
          subst (λ r. IsSound mode p (heard mode dwell settle p now r)) (sym eq)
            (heard-IsSound now b (act (polled b) (record s { busy = bs })) h.ordered at))
  step-IsSound dwelling_on now s e (at, m) h = dwell_on-IsSound mode now s refl e h.ordered at h
  step-IsSound held now s e _ h = h
  step-IsSound done now s e _ h = h

  tick-IsSound :
      (a : RadioArbiter) (now : ℕ) (s : ScanEngine)
      → IsSound mode p s
      → IsSound mode p (tick mode dwell settle p a now s)
  unfolding tick
  tick-IsSound a now s h =
      if_intro (IsSound mode p) a.is_transmitting (λ t. h)
        (λ t. step-IsSound s.state now s refl h.stands h)

  unfoldable pub run : ScanEngine → List (RadioArbiter × ℕ) → ScanEngine
  run s [] = s
  run s ((a, now) ∷ ts) = run (tick mode dwell settle p a now s) ts

  run_from-IsSound :
      (ts : List (RadioArbiter × ℕ)) (s : ScanEngine) → IsSound mode p s → IsSound mode p (run s ts)
  unfolding run
  run_from-IsSound [] s h = h
  run_from-IsSound ((a, now) ∷ ts) s h =
      run_from-IsSound ts (tick mode dwell settle p a now s) (tick-IsSound a now s h)

  -- Over any ticks of a new engine, whatever the polls read and whenever TX holds the radio: a scan
  -- that listens, dwells or holds is on a channel of the plan that is not locked out or on the
  -- priority channel, the receiver is tuned to it, and the last event was about it; it dwells in no
  -- other mode than carrier or timed and holds in hold mode only; it is done only if no channel is
  -- left. Events come in order: active after scanning, dwelling after active and resumed after
  -- dwelling, of the same channel, and scanning after none, scanning or resumed.
  pub run-IsSound :
      (busy : List Bool) (ts : List (RadioArbiter × ℕ)) → IsSound mode p (run (new busy) ts)
  run-IsSound busy ts = run_from-IsSound ts (new busy) (record { ordered = tt; stands = refl })

  -- The ticks at which TX does not hold the radio.
  unfoldable pub unpaused : List (RadioArbiter × ℕ) → List (RadioArbiter × ℕ)
  unpaused [] = []
  unpaused ((a, now) ∷ ts) =
      let rest = unpaused ts in if a.is_transmitting then rest else (a, now) ∷ rest

  tick_free :
      (a : RadioArbiter) (now : ℕ) (s : ScanEngine)
      → a.is_transmitting ≡ false
      → tick mode dwell settle p a now s ≡ step mode dwell settle p now s.state s
  unfolding tick
  tick_free a now s e = simp (e)

  -- The ticks that come while TX holds the radio leave no trace: any ticks have the effect of those
  -- of them at which it does not.
  pub pauses_unobservable :
      (ts : List (RadioArbiter × ℕ)) (s : ScanEngine) → run s ts ≡ run s (unpaused ts)
  unfolding run unpaused tick
  pauses_unobservable [] s = refl
  pauses_unobservable ((a, now) ∷ ts) s = elim (Bool-cases a.is_transmitting) [
    | inl e ↦ simp (e, pauses_unobservable ts s)
    | inr e ↦
        subst
          (λ b.
            run (if b then s else step mode dwell settle p now s.state s) ts
            ≡ run s (if b then unpaused ts else (a, now) ∷ unpaused ts))
          (sym e)
          (pauses_unobservable ts (step mode dwell settle p now s.state s)
            ∙ ap (λ x. run x (unpaused ts)) (sym (tick_free a now s e)))
  ]
