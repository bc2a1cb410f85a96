-- ===== src/AgentState/Invariant.antt =====
-- The tables of targets stay consistent, whoever takes and gives back which targets.
use comet_l.Prelude.{
  ℕ, ◌<◌, ◌≡◌, Bool, false, ◌||◌, Option, some, List, [], ◌∷◌, ◌++◌, Text, text_eq, text_eq_iff,
  lookup, lookup-insert, lookup-erase_ne, lookup-erase_self, NodupKeys, insert-NodupKeys,
  erase-NodupKeys, contains, arith, Bool-cases, Option-cases, inl, inr,
}
use comet_l.MethodKeys.{build_method_key}
use comet_l.AgentState.Types.{running, Lifecycle, WorkerResult, State}
use comet_l.AgentState.{
  is_taken, new_lifecycle, take_target, acquire_target, ended, lifecycle_of, give_back,
  mark_target_processed, release_target,
}

-- A key that a worker holds is in the lifecycle table with the same record, which is running; each
-- lifecycle record has an order of its own, below the counter.
pub record IsState (s : State) : Type 0 where
  pub active_nodup : NodupKeys s.active_targets
  pub active_known :
      (k : Text) (l : Lifecycle)
      → lookup k s.active_targets ≡ some l
      → lookup k s.target_lifecycle ≡ some l
  pub active_running :
      (k : Text) (l : Lifecycle) → lookup k s.active_targets ≡ some l → l.status ≡ running
  pub order_below :
      (k : Text) (l : Lifecycle)
      → lookup k s.target_lifecycle ≡ some l
      → l.order < s.target_order_counter
  pub order_distinct :
      (j k : Text) (l m : Lifecycle)
      → lookup j s.target_lifecycle ≡ some l
      → lookup k s.target_lifecycle ≡ some m
      → l.order ≡ m.order
      → j ≡ k

pub contains-append :
    (k t : Text) (xs : List Text) → contains k (xs ++ t ∷ []) ≡ (contains k xs || text_eq t k)
contains-append k t [] = ground arith
contains-append k t (x ∷ xs) = ground (arith, contains-append k t xs)

take_target-IsState :
    (now : ℕ) (key c m : Text) (signature : Option Text) (s : State)
    → is_taken key s ≡ false
    → IsState s
    → IsState (take_target now key c m signature s)
take_target-IsState now key c m signature s free h =
    let new = new_lifecycle now key c m signature s.target_order_counter in
    record {
      active_nodup = insert-NodupKeys key new s.active_targets h.active_nodup;
      active_known = λ k l e. ground (
        arith,
        lookup-insert key k new s.active_targets,
        lookup-insert key k new s.target_lifecycle,
        text_eq_iff key k,
        h.active_known k l,
      );
      active_running = λ k l e. ground (
        arith,
        lookup-insert key k new s.active_targets,
        text_eq_iff key k,
        h.active_running k l,
      );
      order_below = λ k l e.
          ground (
            arith,
            lookup-insert key k new s.target_lifecycle,
            text_eq_iff key k,
            h.order_below k l,
          );
      order_distinct = λ j k l m e f same. ground (
        arith,
        lookup-insert key j new s.target_lifecycle,
        lookup-insert key k new s.target_lifecycle,
        text_eq_iff key j,
        text_eq_iff key k,
        h.order_below j l,
        h.order_below k m,
        h.order_distinct j k l m,
      );
    }

-- A worker that takes a target keeps the tables consistent.
pub acquire_target-IsState :
    (digest : Text → Text) (now : ℕ) (c m : Text) (signature : Option Text) (s : State)
    → IsState s
    → IsState (acquire_target digest now c m signature s).0
unfolding acquire_target
acquire_target-IsState digest now c m signature s h =
    let key = build_method_key digest c m signature in
    elim (Bool-cases (is_taken key s)) [
      | inl e ↦ rw e h
      | inr e ↦ rw e (take_target-IsState now key c m signature s e h)
    ]

-- The record that is given back: the one in the table, or a new one with the counter's order.
record IsOrdered (key : Text) (s : State) (l : Lifecycle) (counter : ℕ) : Type 0 where
  below : l.order < counter
  grown : (j : Text) (m : Lifecycle) → lookup j s.target_lifecycle ≡ some m → m.order < counter
  own :
      (j : Text) (m : Lifecycle)
      → lookup j s.target_lifecycle ≡ some m
      → m.order ≡ l.order
      → j ≡ key

lifecycle_of-IsOrdered :
    (now : ℕ) (key c m : Text) (signature : Option Text) (s : State)
    → IsState s
    → IsOrdered key s
        (lifecycle_of now key c m signature s).0
        (lifecycle_of now key c m signature s).1
lifecycle_of-IsOrdered now key c m signature s h =
    elim (Option-cases (lookup key s.target_lifecycle)) [
      | inl e ↦
          rw (e, lifecycle_of)
            (record {
              below = omega arith;
              grown = λ j m f. ground (arith, h.order_below j m f);
              own = λ j m f same. absurd (ground (arith, h.order_below j m f));
            })
      | inr (l, e) ↦
          rw (e, lifecycle_of)
            (record {
              below = h.order_below key l e;
              grown = λ j m f. h.order_below j m f;
              own = λ j m f same. h.order_distinct j key m l f e same;
            })
    ]

give_back-IsState :
    (now : ℕ) (key : Text) (success : Bool) (result : Option WorkerResult) (l : Lifecycle)
    (counter : ℕ) (s : State)
    → IsOrdered key s l counter
    → IsState s
    → IsState (give_back now key success result (l, counter) s)
give_back-IsState now key success result l counter s o h =
    let new = ended now success result l in
    record {
      active_nodup = erase-NodupKeys key s.active_targets h.active_nodup;
      active_known = λ k a e. ground (
        arith,
        lookup-erase_ne key k s.active_targets,
        lookup-erase_self key s.active_targets h.active_nodup,
        lookup-insert key k new s.target_lifecycle,
        text_eq_iff key k,
        h.active_known k a,
      );
      active_running = λ k a e. ground (
        arith,
        lookup-erase_ne key k s.active_targets,
        lookup-erase_self key s.active_targets h.active_nodup,
        text_eq_iff key k,
        h.active_running k a,
      );
      order_below = λ k a e. ground (
        arith,
        lookup-insert key k new s.target_lifecycle,
        text_eq_iff key k,
        o.below,
        o.grown k a,
      );
      order_distinct = λ i k a b e f same. ground (
        arith,
        lookup-insert key i new s.target_lifecycle,
        lookup-insert key k new s.target_lifecycle,
        text_eq_iff key i,
        text_eq_iff key k,
        o.own i a,
        o.own k b,
        h.order_distinct i k a b,
      );
    }

pub mark_target_processed-IsState :
    (key : Text) (s : State) → IsState s → IsState (mark_target_processed key s)
unfolding mark_target_processed
mark_target_processed-IsState key s h = elim (Bool-cases (contains key s.processed_targets)) [
  | inl e ↦ rw e h
  | inr e ↦ rw e (record {
    active_nodup = h.active_nodup;
    active_known = h.active_known;
    active_running = h.active_running;
    order_below = h.order_below;
    order_distinct = h.order_distinct;
  })
]

-- A worker that gives a target back keeps the tables consistent.
pub release_target-IsState :
    (digest : Text → Text) (now : ℕ) (c m : Text) (signature : Option Text) (success : Bool)
    (result : Option WorkerResult) (s : State)
    → IsState s
    → IsState (release_target digest now c m signature success result s)
unfolding release_target
release_target-IsState digest now c m signature success result s h =
    let key = build_method_key digest c m signature in
    let freed =
      give_back-IsState now key success result (lifecycle_of now key c m signature s).0
        (lifecycle_of now key c m signature s).1 s
        (lifecycle_of-IsOrdered now key c m signature s h) h in
    elim (Bool-cases success) [
      | inl e ↦ rw e (mark_target_processed-IsState key _ (rw e at freed))
      | inr e ↦ rw e (rw e at freed)
    ]
