-- ===== src/LogRouter/Behaviour.antt =====
-- What logging a record and merging an update do to the stream, and what they leave alone.
use mathlib.Core.Path.{subst}
use comet_l.Prelude.{
  zero, suc, Bool, List, ◌∙◌, text_eq, text_eq→eq, count_of, Bool-cases, inl, inr, ℕ, ◌+◌, ◌≡◌, ◌≢◌,
  true, ◌⊎◌, or_else, refl, if◌then◌else◌, Option, none, some, [], ◌∷◌, ◌++◌, Text, lookup,
  lookup-insert, text_eq_iff, length, keep_last, arith,
}
use comet_l.LogRouter.{
  Update, LogRecord, Stream, StreamStatus, pending, running, completed, failed, cancelled, stale,
  new_stream, is_terminal, logged, merge_stream_state, Router, buffer_of, ensure_stream_locked,
  ensure_stream, task_of, entry_of, emit, get_logs, get_stream,
}
use comet_l.LogRouter.Invariant.{ensure_stream_locked-buffers, ensure_stream_locked-sequence}

locked-others :
    (task_id id : Text) (r : Router)
    → task_id ≢ id
    → lookup id (ensure_stream_locked task_id none r).0.streams ≡ lookup id r.streams
unfolding ensure_stream_locked
locked-others task_id id r h = ground (
  arith,
  lookup-insert task_id id (new_stream task_id r.stream_order) r.streams,
  text_eq_iff task_id id,
)

-- A record goes to the end of its task's buffer, of which the last entries are kept, and the
-- other tasks' streams and buffers stay as they are.
pub emit-get_logs :
    (now : ℕ) (context : Option Text) (rec : LogRecord) (r : Router)
    → let task_id = task_of rec context in
      let r' = emit now context rec r in
      (get_logs task_id r'
        ≡ keep_last r.max_entries_per_stream
            (get_logs task_id r ++ entry_of now context rec r ∷ []))
      × (r'.sequence ≡ r.sequence + 1)
      × ((id : Text)
          → task_id ≢ id
          → (get_logs id r' ≡ get_logs id r) × (get_stream id r' ≡ get_stream id r))
unfolding emit get_logs get_stream
emit-get_logs now context rec r =
    let task_id = task_of rec context in
    let r₁ : Router = record r { sequence = r.sequence + 1 } in
    let (r', stream) = ensure_stream_locked task_id none r₁ in
    let same = ensure_stream_locked-buffers task_id r₁ in
    let buffer =
      keep_last r.max_entries_per_stream
        (buffer_of task_id r' ++ entry_of now context rec r ∷ []) in
    (
      ground (
        arith,
        same,
        lookup-insert task_id task_id buffer r'.buffers,
        text_eq_iff task_id task_id,
      ),
      ground (arith, ensure_stream_locked-sequence task_id r₁),
      λ id h. (
        ground (arith, same, lookup-insert task_id id buffer r'.buffers, text_eq_iff task_id id),
        ground (
          arith,
          lookup-insert task_id id (logged now (length buffer) stream) r'.streams,
          locked-others task_id id r₁ h,
          text_eq_iff task_id id,
        ),
      ),
    )

-- The records that the router handles one after the other, each with its time and its context's task
unfoldable pub emit_records : List (ℕ × Option Text × LogRecord) → Router → Router
unfolding emit
emit_records [] r = r
emit_records ((now, context, rec) ∷ records) r = emit_records records (emit now context rec r)

-- Whether a record belongs to the task
abbrev pub is_of_task : Text → ℕ × Option Text × LogRecord → Bool
is_of_task id (now, context, rec) = text_eq (task_of rec context) id

-- The status that a number of records leaves: two kinds of ended tasks stay, all others run.
abbrev pub status_after : ℕ → StreamStatus → StreamStatus
status_after zero status = status
status_after (suc n) completed = completed
status_after (suc n) failed = failed
status_after (suc n) _ = running

status_after-status_after :
    (n : ℕ) (x : StreamStatus) → status_after n (status_after 1 x) ≡ status_after (suc n) x
status_after-status_after zero x = refl
status_after-status_after (suc n) pending = refl
status_after-status_after (suc n) running = refl
status_after-status_after (suc n) completed = refl
status_after-status_after (suc n) failed = refl
status_after-status_after (suc n) cancelled = refl
status_after-status_after (suc n) stale = refl

status_after-add :
    (n : ℕ) (x : StreamStatus) → status_after n (status_after 1 x) ≡ status_after (1 + n) x
status_after-add n x =
    let same : suc n ≡ 1 + n = omega arith in
    subst (λ k. status_after n (status_after 1 x) ≡ status_after k x) same
      (status_after-status_after n x)

-- What is left of a stream of which so many records were logged
abbrev pub IsAfter : ℕ → Stream → Stream → Type 0
IsAfter n s s' =
    (s'.status ≡ status_after n s.status)
    × (s'.total_entry_count ≡ s.total_entry_count + n)
    × (s'.order ≡ s.order)

logged-IsAfter : (now buffered : ℕ) (s : Stream) → IsAfter 1 s (logged now buffered s)
unfolding logged
logged-IsAfter now buffered s = (by_status s.status, refl, refl)
  where
    by_status : (x : StreamStatus) → (if is_terminal x then x else running) ≡ status_after 1 x
    by_status pending = refl
    by_status running = refl
    by_status completed = refl
    by_status failed = refl
    by_status cancelled = refl
    by_status stale = refl

emit-own :
    (now : ℕ) (context : Option Text) (rec : LogRecord) (r : Router) (s : Stream)
    → get_stream (task_of rec context) r ≡ some s
    → (s' : Stream) × (get_stream (task_of rec context) (emit now context rec r) ≡ some s')
      × IsAfter 1 s s'
unfolding emit get_stream ensure_stream_locked
emit-own now context rec r s found =
    let task_id = task_of rec context in
    let buffer =
      keep_last r.max_entries_per_stream (buffer_of task_id r ++ entry_of now context rec r ∷ []) in
    let s' = logged now (length buffer) s in
    (
      s',
      ground
          (arith, found, lookup-insert task_id task_id s' r.streams, text_eq_iff task_id task_id),
      logged-IsAfter now (length buffer) s,
    )

emit-task :
    (id : Text) (now : ℕ) (context : Option Text) (rec : LogRecord) (r : Router) (s : Stream)
    → task_of rec context ≡ id
    → get_stream id r ≡ some s
    → (s' : Stream) × (get_stream id (emit now context rec r) ≡ some s') × IsAfter 1 s s'
emit-task id now context rec r s same =
    subst
      (λ k.
        get_stream k r ≡ some s
        → (s' : Stream) × (get_stream k (emit now context rec r) ≡ some s') × IsAfter 1 s s')
      same (emit-own now context rec r s)

-- After any sequence of records a stream that was completed or failed is so still, and any other of
-- which at least one record was logged runs, a cancelled one too; each record of the task is counted,
-- and the stream keeps its place.
pub emit_records_status :
    (id : Text) (records : List (ℕ × Option Text × LogRecord)) (r : Router) (s : Stream)
    → get_stream id r ≡ some s
    → (s' : Stream) × (get_stream id (emit_records records r) ≡ some s')
      × IsAfter (count_of (is_of_task id) records) s s'
unfolding emit_records
emit_records_status id [] r s found = (s, found, (refl, omega arith, refl))
emit_records_status id ((now, context, rec) ∷ records) r s found =
    elim (Bool-cases (text_eq (task_of rec context) id)) [
      | inl own ↦
          let same = text_eq→eq (task_of rec context) id own in
          let (s₁, found₁, (status₁, count₁, order₁)) =
            emit-task id now context rec r s same found in
          let (s', found', (status', count', order')) =
            emit_records_status id records (emit now context rec r) s₁ found₁ in
          (
            s',
            found',
            (
              rw (own, status', status₁)
                  (status_after-add (count_of (is_of_task id) records) s.status),
              rw own (omega (arith, count', count₁)),
              order' ∙ order₁,
            ),
          )
      | inr other ↦
          let apart : task_of rec context ≢ id =
            ground (arith, text_eq_iff (task_of rec context) id) in
          let kept = ((emit-get_logs now context rec r).2 id apart).1 in
          let (s', found', after) =
            emit_records_status id records (emit now context rec r) s (kept ∙ found) in
          let same : count_of (is_of_task id) records
              ≡ count_of (is_of_task id) ((now, context, rec) ∷ records) =
            rw other (omega arith) in
          (s', found', subst (λ n. IsAfter n s s') same after)
    ]

-- A stream that is completed or failed keeps its status when a running task is merged into it,
-- and its start is never moved.
pub ensure_stream_terminal :
    (task_id : Text) (u : Update) (r : Router) (s : Stream)
    → get_stream task_id r ≡ some s
    → is_terminal s.status ≡ true
    → (u.status ≡ none) ⊎ (u.status ≡ some running)
    → (s' : Stream) × (get_stream task_id (ensure_stream task_id u r) ≡ some s')
      × (s'.status ≡ s.status)
      × (s'.started_at ≡ or_else s.started_at u.started_at)
unfolding ensure_stream get_stream merge_stream_state ensure_stream_locked
ensure_stream_terminal task_id u r s found terminal which =
    let s' : Stream = record (merge_stream_state u s) {
      buffered_entry_count = length (buffer_of task_id r);
    } in
    (
      s',
      ground
          (arith, found, lookup-insert task_id task_id s' r.streams, text_eq_iff task_id task_id),
      ground arith,
      refl,
    )
