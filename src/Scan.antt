-- ===== src/Scan.antt =====
-- radio_server/scan/engine.py: the plan, the clock-driven scan and the single sweep. `busy` is what
-- the next polls of the receiver read, a list that is `false` past its end. What the engine does is
-- listed newest first: tunings, polls with their readings, and events. Times are ticks of the clock. A
-- `set_frequency` or `status` of the radio that raises is not modelled.
pub mod Plan
pub mod Ticks
pub mod Sweep
mod Examples
use radio_server.Base.{
  ℕ, zero, suc, ◌+◌, ◌-◌, ◌*◌, ◌/◌, ◌%◌, Bool, true, false, not, ◌||◌, List, [], ◌∷◌, Option, none,
  some, length, get_or, leb, ltb, ◌==◌, if◌then◌else◌,
}
use radio_server.Arbiter.{RadioArbiter}

pub data ResumeMode : Type 0 where
  carrier timed hold : ResumeMode

pub data Phase : Type 0 where
  scanning active dwelling resumed : Phase

-- `ScanEvent`: the phase, the frequency and the channel.
pub data Action : Type 0 where
  tuned : ℕ → Action
  polled : Bool → Action
  event : Phase → ℕ → Option ℕ → Action

pub record ScanPlan : Type 0 where
  pub channels : List ℕ
  pub lockout : List ℕ
  pub priority : Option ℕ

unfoldable pub is_in : ℕ → List ℕ → Bool
is_in f [] = false
is_in f (g ∷ gs) = f == g || is_in f gs

unfoldable pub unlocked : List ℕ → List ℕ → List ℕ
unlocked lockout [] = []
unlocked lockout (c ∷ cs) =
    let rest = unlocked lockout cs in if is_in c lockout then rest else c ∷ rest

unfoldable pub active_channels : ScanPlan → List ℕ
active_channels p = unlocked p.lockout p.channels

-- `range(start, stop + 1, step)` as its length and its start
abbrev pub count_up : ℕ → ℕ → ℕ → List ℕ
count_up zero start step = []
count_up (suc n) start step = start ∷ count_up n (start + step) step

-- `from_range`: `none` is the ValueError.
unfoldable pub from_range : ℕ → ℕ → ℕ → List ℕ → Option ℕ → Option ScanPlan
from_range start_hz stop_hz step_hz lockout priority =
    if step_hz == 0
    then none
    else if ltb stop_hz start_hz
    then none
    else some (record {
      channels = count_up ((stop_hz - start_hz) / step_hz + 1) start_hz step_hz;
      lockout = lockout;
      priority = priority;
    })

pub data State : Type 0 where
  idle listening dwelling_on held done : State

pub record ScanEngine : Type 0 where
  pub state : State
  pub index : ℕ
  pub current_freq : Option ℕ
  pub current_channel : Option ℕ
  pub tuned_at : ℕ
  pub dwell_deadline : ℕ
  pub busy : List Bool
  pub actions : List Action

abbrev pub new : List Bool → ScanEngine
new busy = record {
  state = idle;
  index = 0;
  current_freq = none;
  current_channel = none;
  tuned_at = 0;
  dwell_deadline = 0;
  busy = busy;
  actions = [];
}

abbrev pub act : Action → ScanEngine → ScanEngine
act a s = record s { actions = a ∷ s.actions }

abbrev pub tune : ℕ → ScanEngine → ScanEngine
tune freq = act (tuned freq)

abbrev pub polled_first : List Bool → ScanEngine → Bool × ScanEngine
polled_first [] s = (false, act (polled false) s)
polled_first (b ∷ bs) s = (b, act (polled b) (record s { busy = bs }))

-- `_read_busy`
unfoldable pub read_busy : ScanEngine → Bool × ScanEngine
read_busy s = polled_first s.busy s

abbrev pub is_empty : List ℕ → Bool
is_empty [] = true
is_empty (c ∷ cs) = false

module _ (mode : ResumeMode) (dwell settle : ℕ) (p : ScanPlan) where
  unfoldable pub begin_listen : ℕ → ℕ → ℕ → ScanEngine → ScanEngine
  begin_listen freq channel now s = act (event scanning freq (some channel)) (record (tune freq s) {
    current_freq = some freq;
    current_channel = some channel;
    tuned_at = now;
    state = listening;
  })

  abbrev pub dwell_state : ℕ → ResumeMode → ScanEngine → ScanEngine
  dwell_state now carrier s = record s { state = dwelling_on }
  dwell_state now timed s = record s { dwell_deadline = now + dwell; state = dwelling_on }
  dwell_state now hold s = record s { state = held }

  unfoldable pub begin_dwell : ℕ → Option ℕ → ℕ → ScanEngine → ScanEngine
  begin_dwell freq channel now s = act (event dwelling freq channel) (
      dwell_state now mode (
        act (event active freq channel)
          (record s { current_freq = some freq; current_channel = channel })))

  abbrev pub step_on : ℕ → ScanEngine → ScanEngine
  step_on now s =
      let i = (s.index + 1) % length (active_channels p) in
      begin_listen (get_or (active_channels p) i 0) i now (record s { index = i })

  abbrev pub after_peek : ℕ → ℕ → Bool × ScanEngine → ScanEngine
  after_peek freq now (true, s) = begin_dwell freq none now (act (event scanning freq none) s)
  after_peek freq now (false, s) = step_on now s

  abbrev pub advance_with : ℕ → Option ℕ → ScanEngine → ScanEngine
  advance_with now none s = step_on now s
  advance_with now (some freq) s = after_peek freq now (read_busy (tune freq s))

  -- `_advance`: the priority channel is peeked at first.
  unfoldable pub advance : ℕ → ScanEngine → ScanEngine
  advance now s = advance_with now p.priority s

  abbrev pub start_with : ℕ → List ℕ → ScanEngine → ScanEngine
  start_with now [] s = record s { state = done }
  start_with now (f ∷ fs) s = begin_listen f 0 now (record s { index = 0 })

  -- `_start`
  unfoldable pub start : ℕ → ScanEngine → ScanEngine
  start now s = start_with now (active_channels p) s

  -- The present frequency is set once the scan listens.
  abbrev pub dwell_at : ℕ → Option ℕ → ScanEngine → ScanEngine
  dwell_at now none s = s
  dwell_at now (some f) s = begin_dwell f s.current_channel now s

  abbrev pub heard : ℕ → Bool × ScanEngine → ScanEngine
  heard now (true, s) = dwell_at now s.current_freq s
  heard now (false, s) = advance now s

  abbrev pub resume_from : ℕ → Option ℕ → ScanEngine → ScanEngine
  resume_from now none s = s
  resume_from now (some f) s = advance now (act (event resumed f s.current_channel) s)

  abbrev pub resume : ℕ → ScanEngine → ScanEngine
  resume now s = resume_from now s.current_freq s

  abbrev pub carrier_dropped : ℕ → Bool × ScanEngine → ScanEngine
  carrier_dropped now (true, s) = s
  carrier_dropped now (false, s) = resume now s

  abbrev pub dwell_on : ℕ → ResumeMode → ScanEngine → ScanEngine
  dwell_on now carrier s = carrier_dropped now (read_busy s)
  dwell_on now timed s = if leb s.dwell_deadline now then resume now s else s
  dwell_on now hold s = s

  abbrev pub step : ℕ → State → ScanEngine → ScanEngine
  step now idle s = start now s
  step now listening s = if ltb now (s.tuned_at + settle) then s else heard now (read_busy s)
  step now dwelling_on s = dwell_on now mode s
  step now held s = s
  step now done s = s

  -- A key-up holds the radio, so the scan pauses in place.
  unfoldable pub tick : RadioArbiter → ℕ → ScanEngine → ScanEngine
  tick arbiter now s = if arbiter.is_transmitting then s else step now s.state s

  -- The peek at the priority channel before every channel of a sweep but the first.
  abbrev pub peek : ℕ → Option ℕ → ScanEngine → Option ℕ × ScanEngine
  peek idx none s = (none, s)
  peek zero (some f) s = (none, s)
  peek (suc idx) (some f) s = let (b, s') = read_busy (tune f s) in (if b then some f else none, s')

  abbrev pub hold_on : ℕ → Option ℕ → ScanEngine → Option ℕ × ScanEngine
  hold_on f channel s = (
    some f,
    act (event dwelling f channel) (record (act (event active f channel) s) { state = held }),
  )

  -- `sweep` from the channel at `idx` on
  unfoldable pub sweep_from : ℕ → List ℕ → ScanEngine → Option ℕ × ScanEngine
  sweep_from idx [] s = (none, record s { state = done })
  sweep_from idx (f ∷ fs) s =
      let (held_priority, s1) = peek idx p.priority s in
      let s2 = record (tune f (record s1 { index = idx })) {
        current_freq = some f;
        current_channel = some idx;
      } in
      let (b, s3) = read_busy (act (event scanning f (some idx)) s2) in
      let rest = sweep_from (idx + 1) fs s3 in
      elim held_priority [
        | some q ↦ hold_on q none (record (act (event scanning q none) s1) {
          current_freq = some q;
          current_channel = none;
        })
        | none ↦ if b then hold_on f (some idx) s3 else rest
      ]

  unfoldable pub sweep : ScanEngine → Option ℕ × ScanEngine
  unfolding sweep_from
  sweep s = sweep_from 0 (active_channels p) s
