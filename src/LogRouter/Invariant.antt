-- ===== src/LogRouter/Invariant.antt =====
-- The invariant of the router: each stream has its own place in the order, and counts its buffer.
use comet_l.Prelude.{
  ℕ, ◌+◌, ◌≤◌, ◌<◌, ◌≡◌, Option, none, some, List, [], ◌∷◌, Text, codes, Dict, get_or_else,
  if◌then◌else◌, refl, lookup, insert, lookup-insert, text_eq_iff, text_eq, length, length-append,
  length-drop, length-keep_last, ◌-◌, keep_last, arith, ◌++◌,
}
use comet_l.LogRouter.{
  Update, LogEntry, LogRecord, Stream, new_stream, logged, merge_stream_state, Router, buffer_of,
  ensure_stream_locked, ensure_stream, new_router, no_streams, no_update, pending, task_of,
  entry_of, emit, Detail, sync_parallel_state,
}

pub record IsStream (r : Router) (task_id : Text) (s : Stream) : Type 0 where
  pub named : s.task_id ≡ task_id
  pub placed : s.order < r.stream_order
  pub counted : s.buffered_entry_count ≡ length (buffer_of task_id r)
  pub all_counted : s.buffered_entry_count ≤ s.total_entry_count

pub record IsRouter (r : Router) : Type 0 where
  pub streams : (id : Text) (s : Stream) → lookup id r.streams ≡ some s → IsStream r id s
  pub no_stream : (id : Text) → lookup id r.streams ≡ none → buffer_of id r ≡ []
  pub bounded : (id : Text) → length (buffer_of id r) ≤ r.max_entries_per_stream
  pub separate :
      (i j : Text) (s t : Stream)
      → lookup i r.streams ≡ some s
      → lookup j r.streams ≡ some t
      → s.order ≡ t.order
      → i ≡ j

-- A stream put in the place of the one of its name, beside buffers that differ in that task's only.
module _ (task_id : Text) (s s' : Stream) (buffer : List LogEntry) (buffers : Dict (List LogEntry))
    (r : Router) (h : IsRouter r) (found : lookup task_id r.streams ≡ some s) where
  written : Router
  written = record r { streams = insert task_id s' r.streams; buffers = buffers }

  written-IsRouter :
      ((id : Text)
        → get_or_else (lookup id buffers) []
          ≡ (if text_eq task_id id then buffer else buffer_of id r))
      → s'.task_id ≡ task_id
      → s'.order ≡ s.order
      → s'.buffered_entry_count ≡ length buffer
      → length buffer ≤ s'.total_entry_count
      → length buffer ≤ r.max_entries_per_stream
      → IsRouter written
  unfolding written
  written-IsRouter same named place count total bound = record {
    streams = λ id t e. ground (
      arith,
      h.streams id t,
      h.streams task_id s found,
      lookup-insert task_id id s' r.streams,
      same id,
      text_eq_iff task_id id,
    );
    no_stream = λ id e. ground (
      arith,
      h.no_stream id,
      lookup-insert task_id id s' r.streams,
      same id,
      text_eq_iff task_id id,
    );
    bounded = λ id. ground (arith, h.bounded id, same id, text_eq_iff task_id id);
    separate = λ i j t u e f o. ground (
      arith,
      h.separate i j t u,
      h.separate task_id j s u,
      h.separate i task_id t s,
      lookup-insert task_id i s' r.streams,
      lookup-insert task_id j s' r.streams,
      text_eq_iff task_id i,
      text_eq_iff task_id j,
    );
  }

ensure_stream_locked-IsRouter :
    (task_id : Text) (r : Router) → IsRouter r → IsRouter (ensure_stream_locked task_id none r).0
unfolding ensure_stream_locked
ensure_stream_locked-IsRouter task_id r h = record {
  streams = λ id s e. grind (
    arith,
    h.streams id s,
    h.no_stream id,
    lookup-insert task_id id (new_stream task_id r.stream_order) r.streams,
    text_eq_iff task_id id,
  );
  no_stream = λ id e. ground (
    arith,
    h.no_stream id,
    lookup-insert task_id id (new_stream task_id r.stream_order) r.streams,
    text_eq_iff task_id id,
  );
  bounded = λ id. ground (arith, h.bounded id);
  separate = λ i j s t e f o. ground (
    arith,
    h.separate i j s t,
    h.streams i s,
    h.streams j t,
    lookup-insert task_id i (new_stream task_id r.stream_order) r.streams,
    lookup-insert task_id j (new_stream task_id r.stream_order) r.streams,
    text_eq_iff task_id i,
    text_eq_iff task_id j,
  );
}

pub ensure_stream_locked-lookup :
    (task_id : Text) (r : Router)
    → let (r', s) = ensure_stream_locked task_id none r in lookup task_id r'.streams ≡ some s
unfolding ensure_stream_locked
ensure_stream_locked-lookup task_id r = ground (
  arith,
  lookup-insert task_id task_id (new_stream task_id r.stream_order) r.streams,
  text_eq_iff task_id task_id,
)

pub ensure_stream_locked-buffers :
    (task_id : Text) (r : Router) → (ensure_stream_locked task_id none r).0.buffers ≡ r.buffers
unfolding ensure_stream_locked
ensure_stream_locked-buffers task_id r = ground arith

pub ensure_stream_locked-sequence :
    (task_id : Text) (r : Router) → (ensure_stream_locked task_id none r).0.sequence ≡ r.sequence
unfolding ensure_stream_locked
ensure_stream_locked-sequence task_id r = ground arith

ensure_stream_locked-max :
    (task_id : Text) (r : Router)
    → (ensure_stream_locked task_id none r).0.max_entries_per_stream ≡ r.max_entries_per_stream
unfolding ensure_stream_locked
ensure_stream_locked-max task_id r = ground arith

-- Merging an update into a stream keeps the invariant of the router.
pub ensure_stream-IsRouter :
    (task_id : Text) (u : Update) (r : Router) → IsRouter r → IsRouter (ensure_stream task_id u r)
unfolding ensure_stream merge_stream_state written
ensure_stream-IsRouter task_id u r h =
    let h' = ensure_stream_locked-IsRouter task_id r h in
    let found = ensure_stream_locked-lookup task_id r in
    let r' = (ensure_stream_locked task_id none r).0 in
    let old = h'.streams task_id _ found in
    written-IsRouter task_id (ensure_stream_locked task_id none r).1 _ (buffer_of task_id r')
      r'.buffers r' h' found (λ id. ground (arith, text_eq_iff task_id id)) old.named refl refl
      (omega (arith, old.counted, old.all_counted)) (h'.bounded task_id)

renumbered-IsRouter : (n : ℕ) (r : Router) → IsRouter r → IsRouter (record r { sequence = n })
renumbered-IsRouter n r h = record {
  streams = λ id s e. ground (arith, h.streams id s);
  no_stream = h.no_stream;
  bounded = h.bounded;
  separate = h.separate;
}

-- Logging a record keeps the invariant of the router.
pub emit-IsRouter :
    (now : ℕ) (context : Option Text) (rec : LogRecord) (r : Router)
    → IsRouter r
    → IsRouter (emit now context rec r)
unfolding emit logged written
emit-IsRouter now context rec r h =
    let task_id = task_of rec context in
    let r₁ : Router = record r { sequence = r.sequence + 1 } in
    let h' = ensure_stream_locked-IsRouter task_id r₁ (renumbered-IsRouter (r.sequence + 1) r h) in
    let r' = (ensure_stream_locked task_id none r₁).0 in
    let stream = (ensure_stream_locked task_id none r₁).1 in
    let old = h'.streams task_id stream (ensure_stream_locked-lookup task_id r₁) in
    let all = buffer_of task_id r' ++ entry_of now context rec r ∷ [] in
    let buffer = keep_last r.max_entries_per_stream all in
    written-IsRouter task_id stream _ buffer (insert task_id buffer r'.buffers) r' h'
      (ensure_stream_locked-lookup task_id r₁)
      (λ id. ground (arith, lookup-insert task_id id buffer r'.buffers, text_eq_iff task_id id))
      old.named refl refl
      (omega (
        arith,
        old.counted,
        old.all_counted,
        length-drop (length all - r.max_entries_per_stream) all,
        length-append (buffer_of task_id r') (entry_of now context rec r ∷ []),
      ))
      (omega
        (arith, ensure_stream_locked-max task_id r₁, length-keep_last r.max_entries_per_stream all))

no_streams-IsRouter : (max_entries : ℕ) → IsRouter (no_streams max_entries)
no_streams-IsRouter max_entries = record {
  streams = λ id s e. cc;
  no_stream = λ id e. refl;
  bounded = λ id. omega arith;
  separate = λ i j s t e f o. cc;
}

-- A new router meets the invariant.
pub new_router-IsRouter : (max_entries : ℕ) → IsRouter (new_router max_entries)
unfolding new_router
new_router-IsRouter max_entries =
    ensure_stream-IsRouter (codes "main") (record no_update { status = some pending })
      (no_streams max_entries) (no_streams-IsRouter max_entries)

-- Merging the lifecycle of the parallel state keeps the invariant, whatever the records say.
pub sync_parallel_state-IsRouter :
    (details : List Detail) (r : Router) → IsRouter r → IsRouter (sync_parallel_state details r)
unfolding sync_parallel_state
sync_parallel_state-IsRouter [] r h = h
sync_parallel_state-IsRouter (d ∷ details) r h =
    sync_parallel_state-IsRouter details _ (one d.target_id)
  where
    one :
        (id : Text)
        → IsRouter (elim id as (λ _. Router) [ [] ↦ r | c ∷ s ↦ ensure_stream (c ∷ s) d.update r ])
    one [] = h
    one (c ∷ s) = ensure_stream-IsRouter (c ∷ s) d.update r h
