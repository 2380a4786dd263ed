-- ===== src/Board/Runtime.antt =====
-- tasks/can_communication.rs: the state of the CAN driver, when the driver is restarted, and the code
-- of that state for the downlink.
use l_comboard.Base.{
  ℕ, ◌+◌, ◌≤◌, ◌≡◌, ◌↔◌, ◌⊎◌, List, [], ◌∷◌, Bool, true, false, not, ◌||◌, leb, if◌then◌else◌,
  arith,
}
use l_comboard.Can.Health.{CanHealth}

pub data CanRuntimeState : Type 0 where
  awaiting_traffic normal bus_recovering tx_state_unknown : CanRuntimeState

pub data CanRuntimeEvent : Type 0 where
  transmit_succeeded receive_succeeded bus_off timed_out_unknown_state : CanRuntimeEvent

-- The state after an event, and whether the driver is to be restarted.
pub transition_runtime : CanRuntimeState → CanRuntimeEvent → CanRuntimeState × Bool
transition_runtime awaiting_traffic transmit_succeeded = (normal, false)
transition_runtime awaiting_traffic receive_succeeded = (normal, false)
transition_runtime awaiting_traffic bus_off = (bus_recovering, true)
transition_runtime normal bus_off = (bus_recovering, true)
transition_runtime awaiting_traffic timed_out_unknown_state = (tx_state_unknown, true)
transition_runtime normal timed_out_unknown_state = (tx_state_unknown, true)
transition_runtime tx_state_unknown bus_off = (bus_recovering, false)
transition_runtime bus_recovering timed_out_unknown_state = (tx_state_unknown, false)
transition_runtime bus_recovering transmit_succeeded = (normal, false)
transition_runtime tx_state_unknown transmit_succeeded = (normal, false)
transition_runtime bus_recovering receive_succeeded = (normal, false)
transition_runtime state _ = (state, false)

-- The driver, and what `stop().start()` makes of it, are parameters.
unfoldable pub enter_recovering :
    {Twai : Type 0}
    → (Twai → Twai)
    → Twai
    → CanRuntimeState
    → CanRuntimeEvent
    → Twai × CanRuntimeState × Bool
unfolding transition_runtime
enter_recovering restart can state event =
    let (next_state, restart_required) = transition_runtime state event in
    (if restart_required then restart can else can, next_state, restart_required)

pub fallback_health_code : CanRuntimeState → CanHealth → ℕ
fallback_health_code bus_recovering health = 5
fallback_health_code tx_state_unknown health = 6
fallback_health_code _ CanHealth.active = 1
fallback_health_code _ CanHealth.warning = 2
fallback_health_code _ CanHealth.passive = 3
fallback_health_code _ CanHealth.bus_off = 4

abbrev is_normal : CanRuntimeState → Bool
is_normal normal = true
is_normal _ = false

abbrev is_active : CanHealth → Bool
is_active CanHealth.active = true
is_active _ = false

-- What `publish_error_state` stores: the threshold of consecutive errors is 3.
unfoldable pub error_state : CanRuntimeState → CanHealth → ℕ → ℕ → Bool → Bool
error_state state health consecutive_tx_errors consecutive_rx_errors mission_status_fresh =
    not (is_normal state)
    || (not (is_active health)
        || (leb 3 consecutive_tx_errors
            || (leb 3 consecutive_rx_errors || not mission_status_fresh)))

-- The driver handle after a run of events, and how often it was restarted.
pub restarts : CanRuntimeState → List CanRuntimeEvent → CanRuntimeState × ℕ
unfolding transition_runtime
restarts state [] = (state, 0)
restarts state (e ∷ es) =
    let (next, again) = transition_runtime state e in
    let (last, n) = restarts next es in (last, (if again then 1 else 0) + n)

-- The events that show that the bus carries frames.
abbrev pub successes : List CanRuntimeEvent → ℕ
successes [] = 0
successes (transmit_succeeded ∷ es) = 1 + successes es
successes (receive_succeeded ∷ es) = 1 + successes es
successes (_ ∷ es) = successes es

-- A restart is allowed while the state is waiting or normal.
abbrev allowance : CanRuntimeState → ℕ
allowance awaiting_traffic = 1
allowance normal = 1
allowance _ = 0

restarts-bounded :
    (s : CanRuntimeState) (es : List CanRuntimeEvent)
    → (restarts s es).1 ≤ successes es + allowance s
unfolding restarts transition_runtime
restarts-bounded s [] = ground arith
restarts-bounded s (e ∷ es) = ground (arith, restarts-bounded (transition_runtime s e).0 es)

-- From any state, over any events, the driver is restarted at most once more often than a frame is
-- transmitted or received: errors alone restart it at most once.
pub restarts-le :
    (s : CanRuntimeState) (es : List CanRuntimeEvent) → (restarts s es).1 ≤ successes es + 1
restarts-le s es = ground (arith, restarts-bounded s es)

-- The code fits the range that the fallback packet allows, and it tells a recovery from a reported health: it is 5 or 6 exactly in
-- the two states of recovery.
pub fallback_health_code_iff :
    (s : CanRuntimeState) (h : CanHealth)
    → (1 ≤ fallback_health_code s h)
      × (fallback_health_code s h ≤ 6)
      × ((5 ≤ fallback_health_code s h)
          ↔ ((s ≡ CanRuntimeState.bus_recovering) ⊎ (s ≡ CanRuntimeState.tx_state_unknown)))
unfolding fallback_health_code
fallback_health_code_iff s h = ground arith
