-- ===== src/EventBus.antt =====
-- The bus of runtime events (comet/web/runtime_protocol.py, class RuntimeEventBus). An event's
-- payload is of any type, and has no key that the event has itself; the clock's reading is an
-- argument.
mod Window
mod Tests
use comet_l.Prelude.{
  ℕ, ◌+◌, List, [], ◌∷◌, ◌++◌, Text, Option, none, some, ltb, keep_last, filter_by,
}

pub record Event {ℓ} (A : Type ℓ) : Type ℓ where
  pub sequence : ℕ
  pub timestamp : ℕ
  pub type : Text
  pub payload : A

pub record Bus {ℓ} (A : Type ℓ) : Type ℓ where
  pub max_events : ℕ
  pub events : List (Event A)  -- `deque(maxlen=max_events)`, the oldest first
  pub sequence : ℕ

module _ {ℓ} {A : Type ℓ} where
  -- `RuntimeEventBus(max_events)`
  unfoldable pub new_bus : ℕ → Bus A
  new_bus max_events = record { max_events = max_events; events = []; sequence = 0 }

  abbrev next_event : ℕ → Text → A → Bus A → Event A
  next_event now type payload b = record {
    sequence = b.sequence + 1;
    timestamp = now;
    type = type;
    payload = payload;
  }

  unfoldable pub publish : ℕ → Text → A → Bus A → Bus A × Event A
  publish now type payload b =
      let event = next_event now type payload b in
      (
        record b {
          events = keep_last b.max_events (b.events ++ event ∷ []);
          sequence = b.sequence + 1;
        },
        event,
      )

  -- `__call__`: an event without a type is a ValueError.
  unfoldable pub call : ℕ → Text → A → Bus A → Option (Bus A × Event A)
  unfolding publish
  call now [] payload b = none
  call now (c ∷ type) payload b = some (publish now (c ∷ type) payload b)

  unfoldable pub list_events : ℕ → Bus A → List (Event A)
  list_events after_sequence b = filter_by (λ e. ltb after_sequence e.sequence) b.events
