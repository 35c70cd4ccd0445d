-- ===== src/Arbiter.antt =====
-- radio_server/arbiter/state.py: who owns the half-duplex radio. `on_change` is the field `hooked`
-- (whether a callback is wired) with the list of the modes that it was called with, newest first.
pub mod Latch
pub mod Run
mod Examples
use radio_server.Base.{
  Bool, true, false, ◌&&◌, not, ◌≡◌, refl, List, [], ◌∷◌, Option, none, some, arith, if◌then◌else◌,
}

pub data RadioMode : Type 0 where
  idle receiving transmitting : RadioMode

pub eq_mode : RadioMode → RadioMode → Bool
eq_mode idle idle = true
eq_mode receiving receiving = true
eq_mode transmitting transmitting = true
eq_mode _ _ = false

pub record RadioArbiter : Type 0 where
  pub is_transmitting : Bool
  pub is_receiving : Bool
  pub hooked : Bool
  pub changes : List RadioMode

-- `__init__`
abbrev pub new : Bool → RadioArbiter
new hook = record { is_transmitting = false; is_receiving = false; hooked = hook; changes = [] }

-- TX priority > RX > idle.
unfoldable pub mode : RadioArbiter → RadioMode
mode a = if a.is_transmitting then transmitting else if a.is_receiving then receiving else idle

-- `_notify`: the callback fires iff the derived mode differs from `before`.
unfoldable pub notify : RadioMode → RadioArbiter → RadioArbiter
notify before a =
    if a.hooked && not (eq_mode (mode a) before)
    then record a { changes = mode a ∷ a.changes }
    else a

-- `none` is the ArbiterStateError, which is raised before anything changes.
unfoldable pub acquire_tx : RadioArbiter → Option RadioArbiter
unfolding notify
acquire_tx a =
    if a.is_transmitting then none else some (notify (mode a) (record a { is_transmitting = true }))

unfoldable pub release_tx : RadioArbiter → RadioArbiter
unfolding notify
release_tx a = notify (mode a) (record a { is_transmitting = false })

unfoldable pub begin_receive : RadioArbiter → RadioArbiter
unfolding notify
begin_receive a = notify (mode a) (record a { is_receiving = true })

unfoldable pub end_receive : RadioArbiter → RadioArbiter
unfolding notify
end_receive a = notify (mode a) (record a { is_receiving = false })
