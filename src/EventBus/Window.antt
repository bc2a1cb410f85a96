-- ===== src/EventBus/Window.antt =====
-- The bus holds a window of consecutive sequence numbers that ends at the latest one.
use comet_l.Prelude.{
  ℕ, zero, suc, ◌+◌, ◌-◌, ◌≤◌, ◌<◌, ◌≡◌, refl, sym, List, [], ◌∷◌, ◌++◌, Text, arith, length,
  length-append, length-drop, length-keep_last, drop, keep_last, filter_by, ltb,
}
use comet_l.EventBus.{Event, Bus, new_bus, publish, list_events}

module _ {ℓ} {A : Type ℓ} where
  -- The events are numbered from `start` on, one by one.
  abbrev pub NumberedFrom : ℕ → List (Event A) → Type 0
  NumberedFrom start [] = Unit
  NumberedFrom start (e ∷ es) = (e.sequence ≡ start) × NumberedFrom (start + 1) es

  -- The bus keeps at most `max_events` events, and they are the last ones published, in order.
  pub record IsWindow (b : Bus A) : Type 0 where
    pub bounded : length b.events ≤ b.max_events
    pub counted : length b.events ≤ b.sequence
    pub numbered : NumberedFrom (b.sequence - length b.events + 1) b.events

  from_eq : {m n : ℕ} (es : List (Event A)) → m ≡ n → NumberedFrom m es → NumberedFrom n es
  from_eq es e h = rw (← e) h

  NumberedFrom-drop :
      (n start : ℕ) (es : List (Event A))
      → n ≤ length es
      → NumberedFrom start es
      → NumberedFrom (start + n) (drop n es)
  NumberedFrom-drop zero start es le h = from_eq es (omega arith) h
  NumberedFrom-drop (suc n) start [] le h = tt
  NumberedFrom-drop (suc n) start (e ∷ es) le h =
      from_eq (drop n es) (omega arith) (NumberedFrom-drop n (start + 1) es (omega arith) h.1)

  NumberedFrom-append :
      (start : ℕ) (es : List (Event A)) (e : Event A)
      → NumberedFrom start es
      → e.sequence ≡ start + length es
      → NumberedFrom start (es ++ e ∷ [])
  NumberedFrom-append start [] e h k = (omega arith, tt)
  NumberedFrom-append start (d ∷ es) e h k =
      (h.0, NumberedFrom-append (start + 1) es e h.1 (omega arith))

  -- A new bus holds an empty window.
  pub new_bus-IsWindow : (n : ℕ) → IsWindow (new_bus {A = A} n)
  unfolding new_bus
  new_bus-IsWindow n = record { bounded = omega arith; counted = omega arith; numbered = tt }

  -- Publishing keeps the window: it drops the oldest events and numbers the new one next.
  pub publish-IsWindow :
      (now : ℕ) (type : Text) (payload : A) (b : Bus A)
      → IsWindow b
      → IsWindow (publish now type payload b).0
  unfolding publish
  publish-IsWindow now type payload b h = record {
    bounded = length-keep_last b.max_events all;
    counted = omega (arith, size, kept);
    numbered = from_eq (keep_last b.max_events all) (omega (arith, size, kept)) (
        NumberedFrom-drop (length all - b.max_events) (b.sequence - length b.events + 1) all
          (omega arith)
          (NumberedFrom-append (b.sequence - length b.events + 1) b.events new h.numbered
            (omega (arith, h.counted))));
  }
    where
      new : Event A
      new = record { sequence = b.sequence + 1; timestamp = now; type = type; payload = payload }

      all : List (Event A)
      all = b.events ++ new ∷ []

      size : length all ≡ length b.events + 1
      size = length-append b.events (new ∷ [])

      kept : length (keep_last b.max_events all) ≡ length all - (length all - b.max_events)
      kept = length-drop (length all - b.max_events) all

  filter_later :
      (after start : ℕ) (es : List (Event A))
      → after < start
      → NumberedFrom start es
      → filter_by (λ e. ltb after e.sequence) es ≡ es
  filter_later after start [] lt h = refl
  filter_later after start (e ∷ es) lt h =
      ground (arith, filter_later after (start + 1) es (omega arith) h.1)

  filter_after :
      (after start k : ℕ) (es : List (Event A))
      → start + k ≡ after + 1
      → NumberedFrom start es
      → filter_by (λ e. ltb after e.sequence) es ≡ drop k es
  filter_after after start zero es n h = filter_later after start es (omega arith) h
  filter_after after start (suc k) [] n h = refl
  filter_after after start (suc k) (e ∷ es) n h =
      ground (arith, filter_after after (start + 1) k es (omega arith) h.1)

  -- A client that has seen the events up to `after`, and is no further behind than the window
  -- reaches, is given all later events, each once and in order.
  pub list_events_complete :
      (after : ℕ) (b : Bus A)
      → IsWindow b
      → after ≤ b.sequence
      → b.sequence ≤ after + length b.events
      → NumberedFrom (after + 1) (list_events after b)
        × (length (list_events after b) ≡ b.sequence - after)
  unfolding list_events
  list_events_complete after b h le reach = rw (← same) (
    from_eq (drop k b.events) (omega (arith, h.counted))
        (NumberedFrom-drop k (b.sequence - length b.events + 1) b.events (omega arith) h.numbered),
    omega (arith, length-drop k b.events, h.counted),
  )
    where
      k : ℕ
      k = after + length b.events - b.sequence

      same : drop k b.events ≡ filter_by (λ e. ltb after e.sequence) b.events
      same = sym (
          filter_after after (b.sequence - length b.events + 1) k b.events
            (omega (arith, h.counted)) h.numbered)
