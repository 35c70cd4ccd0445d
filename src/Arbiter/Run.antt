-- ===== src/Arbiter/Run.antt =====
-- Any sequence of calls on one arbiter of radio_server/arbiter/state.py.
use radio_server.Base.{
  Bool, true, false, ◌≡◌, ◌≢◌, refl, ◌∙◌, not, ◌&&◌, List, [], ◌∷◌, Option, none, some, arith,
  if_intro, if◌then◌else◌,
}
use radio_server.Arbiter.{
  RadioMode, idle, receiving, transmitting, RadioArbiter, new, mode, acquire_tx, release_tx,
  begin_receive, end_receive, eq_mode, notify,
}

pub data Op : Type 0 where
  acquire release begin_rx end_rx : Op

-- A caller that is refused leaves the arbiter as it was.
abbrev or_same : RadioArbiter → Option RadioArbiter → RadioArbiter
or_same a none = a
or_same a (some b) = b

abbrev pub apply : RadioArbiter → Op → RadioArbiter
apply a acquire = or_same a (acquire_tx a)
apply a release = release_tx a
apply a begin_rx = begin_receive a
apply a end_rx = end_receive a

unfoldable pub run : RadioArbiter → List Op → RadioArbiter
run a [] = a
run a (o ∷ os) = run (apply a o) os

-- The two latches as the calls alone determine them.
unfoldable pub tx_held : Bool → List Op → Bool
tx_held b [] = b
tx_held b (acquire ∷ os) = tx_held true os
tx_held b (release ∷ os) = tx_held false os
tx_held b (_ ∷ os) = tx_held b os

unfoldable pub rx_wanted : Bool → List Op → Bool
rx_wanted b [] = b
rx_wanted b (begin_rx ∷ os) = rx_wanted true os
rx_wanted b (end_rx ∷ os) = rx_wanted false os
rx_wanted b (_ ∷ os) = rx_wanted b os

abbrev pub owner : Bool → Bool → RadioMode
owner tx rx = if tx then transmitting else if rx then receiving else idle

latch_tx :
    (a : RadioArbiter) (o : Op) → (apply a o).is_transmitting ≡ tx_held a.is_transmitting (o ∷ [])
unfolding acquire_tx release_tx begin_receive end_receive tx_held mode eq_mode
latch_tx a acquire = ground arith
latch_tx a _ = ground arith

latch_rx :
    (a : RadioArbiter) (o : Op) → (apply a o).is_receiving ≡ rx_wanted a.is_receiving (o ∷ [])
unfolding acquire_tx release_tx begin_receive end_receive rx_wanted mode eq_mode
latch_rx a acquire = ground arith
latch_rx a _ = ground arith

run_tx :
    (a : RadioArbiter) (os : List Op) → (run a os).is_transmitting ≡ tx_held a.is_transmitting os
unfolding run tx_held
run_tx a [] = refl
run_tx a (acquire ∷ os) = run_tx (apply a acquire) os ∙ (λ i. tx_held (latch_tx a acquire i) os)
run_tx a (release ∷ os) = run_tx (apply a release) os ∙ (λ i. tx_held (latch_tx a release i) os)
run_tx a (begin_rx ∷ os) = run_tx (apply a begin_rx) os ∙ (λ i. tx_held (latch_tx a begin_rx i) os)
run_tx a (end_rx ∷ os) = run_tx (apply a end_rx) os ∙ (λ i. tx_held (latch_tx a end_rx i) os)

run_rx : (a : RadioArbiter) (os : List Op) → (run a os).is_receiving ≡ rx_wanted a.is_receiving os
unfolding run rx_wanted
run_rx a [] = refl
run_rx a (acquire ∷ os) = run_rx (apply a acquire) os ∙ (λ i. rx_wanted (latch_rx a acquire i) os)
run_rx a (release ∷ os) = run_rx (apply a release) os ∙ (λ i. rx_wanted (latch_rx a release i) os)
run_rx a (begin_rx ∷ os) =
    run_rx (apply a begin_rx) os ∙ (λ i. rx_wanted (latch_rx a begin_rx i) os)
run_rx a (end_rx ∷ os) = run_rx (apply a end_rx) os ∙ (λ i. rx_wanted (latch_rx a end_rx i) os)

-- After any calls on any arbiter, refused ones included, the mode is the one that the last TX call
-- and the last RX call determine independently, with TX before RX before idle.
pub mode-run :
    (a : RadioArbiter) (os : List Op)
    → mode (run a os) ≡ owner (tx_held a.is_transmitting os) (rx_wanted a.is_receiving os)
unfolding mode
mode-run a os = ground (arith, run_tx a os, run_rx a os)

-- What the callback has been told, newest first, and what it stands for before the first call.
abbrev pub last_told : List RadioMode → RadioMode
last_told [] = idle
last_told (m ∷ ms) = m

abbrev pub NoRepeat : List RadioMode → Type 0
NoRepeat [] = Unit {0}
NoRepeat (m ∷ ms) = (m ≢ last_told ms) × NoRepeat ms

pub record IsTold (a : RadioArbiter) : Type 0 where
  pub is_hooked : a.hooked ≡ true
  pub current : last_told a.changes ≡ mode a
  pub no_repeat : NoRepeat a.changes

eq_mode→eq : (m n : RadioMode) → eq_mode m n ≡ true → m ≡ n
unfolding eq_mode
eq_mode→eq m n h = ground arith

ne_of_eq_mode : (m n : RadioMode) → eq_mode m n ≡ false → m ≢ n
unfolding eq_mode
ne_of_eq_mode m n h = ground arith

mode_told : (b : RadioArbiter) (ms : List RadioMode) → mode (record b { changes = ms }) ≡ mode b
unfolding mode
mode_told b ms = refl

notify-IsTold :
    (a b : RadioArbiter)
    → IsTold a
    → b.hooked ≡ true
    → b.changes ≡ a.changes
    → IsTold (notify (mode a) b)
unfolding notify
notify-IsTold a b t h e =
    if_intro IsTold (b.hooked && not (eq_mode (mode b) (mode a)))
      (λ told. record {
        is_hooked = h;
        current = ground (arith, mode_told b (mode b ∷ b.changes));
        no_repeat = (ground (arith, ne_of_eq_mode (mode b) (mode a)), rw e t.no_repeat);
      })
      (λ quiet. record {
        is_hooked = h;
        current = ground (arith, eq_mode→eq (mode b) (mode a));
        no_repeat = rw e t.no_repeat;
      })

apply-IsTold : (a : RadioArbiter) (o : Op) → IsTold a → IsTold (apply a o)
unfolding acquire_tx release_tx begin_receive end_receive
apply-IsTold a acquire t =
    if_intro (λ o. IsTold (or_same a o)) a.is_transmitting (λ held. t)
      (λ free. notify-IsTold a _ t t.is_hooked refl)
apply-IsTold a release t = notify-IsTold a _ t t.is_hooked refl
apply-IsTold a begin_rx t = notify-IsTold a _ t t.is_hooked refl
apply-IsTold a end_rx t = notify-IsTold a _ t t.is_hooked refl

run-IsTold : (a : RadioArbiter) (os : List Op) → IsTold a → IsTold (run a os)
unfolding run
run-IsTold a [] t = t
run-IsTold a (o ∷ os) t = run-IsTold (apply a o) os (apply-IsTold a o t)

-- With a callback wired to a new arbiter, after any calls the last mode it was told is the present
-- mode, and it was never told the same mode twice in a row, nor `idle` first.
pub changes-run :
    (os : List Op)
    → (last_told (run (new true) os).changes ≡ mode (run (new true) os))
      × NoRepeat (run (new true) os).changes
changes-run os =
    let t : IsTold (run (new true) os) = run-IsTold (new true) os new-IsTold in
    (t.current, t.no_repeat)
  where
    new-IsTold : IsTold (new true)
    new-IsTold = record { is_hooked = refl; current = unfold mode in refl; no_repeat = tt }
