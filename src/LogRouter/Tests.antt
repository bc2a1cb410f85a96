-- ===== src/LogRouter/Tests.antt =====
-- A router after two records of a task that then completed, and the theorems there.
use comet_l.Prelude.{
  ℕ, Option, List, ◌+◌, ◌≡◌, ◌≢◌, refl, none, some, [], ◌∷◌, ◌++◌, Text, codes, text_eq, keep_last,
}
use comet_l.LogRouter.{
  LogRecord, Update, no_update, Stream, completed, Router, new_router, emit, ensure_stream,
  sync_parallel_state, task_of, entry_of, get_logs, get_stream,
}
use comet_l.LogRouter.Invariant.{
  IsRouter, new_router-IsRouter, ensure_stream-IsRouter, emit-IsRouter,
  sync_parallel_state-IsRouter,
}
use comet_l.LogRouter.Behaviour.{emit-get_logs, emit_records, emit_records_status}

program : Unit {0}
unfolding new_router emit ensure_stream sync_parallel_state get_logs get_stream text_eq
program = tt

abbrev rec : LogRecord
rec = record {
  task_id = some (codes "A.f");
  name = codes "comet";
  level = codes "INFO";
  message = codes "m";
}

abbrev done : Update
done = record no_update { status = some completed; completed_at = some 9 }

abbrev router : Router
router = ensure_stream (codes "A.f") done (emit 6 none rec (emit 5 none rec (new_router 1)))

router-IsRouter : IsRouter router
router-IsRouter =
    ensure_stream-IsRouter (codes "A.f") done _
      (emit-IsRouter 6 none rec _ (emit-IsRouter 5 none rec _ (new_router-IsRouter 1)))

abbrev stream : Stream
stream = record {
  task_id = codes "A.f";
  order = 1;
  status = completed;
  started_at = some 5;
  ended_at = some 9;
  completed_at = some 9;
  duration_seconds = none;
  first_entry_at = some 5;
  last_entry_at = some 6;
  total_entry_count = 2;
  buffered_entry_count = 1;
}

router-stream : get_stream (codes "A.f") router ≡ some stream
unfolding program
router-stream = refl

emit-IsRouter_example : IsRouter (emit 7 none rec router)
emit-IsRouter_example = emit-IsRouter 7 none rec router router-IsRouter

sync_parallel_state-IsRouter_example :
    IsRouter (sync_parallel_state (record { target_id = codes "B.g"; update = done } ∷ []) router)
sync_parallel_state-IsRouter_example =
    sync_parallel_state-IsRouter (record { target_id = codes "B.g"; update = done } ∷ []) router
      router-IsRouter

emit-get_logs_example :
    let task_id = task_of rec none in
    let r' = emit 7 none rec router in
    (get_logs task_id r'
      ≡ keep_last router.max_entries_per_stream
          (get_logs task_id router ++ entry_of 7 none rec router ∷ []))
    × (r'.sequence ≡ router.sequence + 1)
    × ((id : Text)
        → task_id ≢ id
        → (get_logs id r' ≡ get_logs id router) × (get_stream id r' ≡ get_stream id router))
emit-get_logs_example = emit-get_logs 7 none rec router

abbrev later_records : List (ℕ × Option Text × LogRecord)
later_records =
    (7, none, rec) ∷ (8, some (codes "B.g"), record rec { task_id = none }) ∷ (9, none, rec) ∷ []

emit_records_status_example :
    (s' : Stream) × (get_stream (codes "A.f") (emit_records later_records router) ≡ some s')
    × ((s'.status ≡ completed) × (s'.total_entry_count ≡ 4) × (s'.order ≡ 1))
unfolding text_eq
emit_records_status_example =
    emit_records_status (codes "A.f") later_records router stream router-stream
