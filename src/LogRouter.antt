-- ===== src/LogRouter.antt =====
-- The router of log records into a stream for each task (comet/web/log_router.py). Times and
-- durations are numbers; a status is one of those that the callers pass. The clock's reading and
-- the task context of the calling thread are arguments. What a stream's `to_dict` shows is the
-- record itself.
mod Streams
mod Invariant
mod Behaviour
mod Tests
pub use Streams.{
  StreamStatus, pending, running, completed, failed, cancelled, stale, Update, no_update, LogEntry,
  LogRecord, Stream, new_stream, is_terminal,
}
unfoldable pub use Streams.{logged, merge_stream_state}
use comet_l.Prelude.{
  ℕ, ◌+◌, ◌≡◌, Bool, true, false, ◌&&◌, ◌||◌, Option, none, some, List, [], ◌∷◌, ◌++◌, map, Text,
  codes, Dict, lookup, insert, length, keep_last, get_or_else, if◌then◌else◌, ltb, ◌==◌, max,
}

pub record Router : Type 0 where
  pub max_entries_per_stream : ℕ
  pub sequence : ℕ
  pub stream_order : ℕ
  pub buffers : Dict (List LogEntry)  -- each a `deque(maxlen=max_entries_per_stream)`
  pub streams : Dict Stream

-- `self._buffers.get(task_id, ())`, and `self._buffers[task_id]` of the defaultdict.
abbrev pub buffer_of : Text → Router → List LogEntry
buffer_of task_id r = get_or_else (lookup task_id r.buffers) []

-- `_ensure_stream_locked`: the stream of a task, made on first use.
unfoldable pub ensure_stream_locked : Text → Option ℕ → Router → Router × Stream
ensure_stream_locked task_id order r = elim (lookup task_id r.streams) [
  | some stream ↦ (r, stream)
  | none ↦
      let next_order = get_or_else order r.stream_order in
      let stream = new_stream task_id next_order in
      (
        record r {
          stream_order = elim order [
            | none ↦ r.stream_order + 1
            | some _ ↦ max r.stream_order (next_order + 1)
          ];
          streams = insert task_id stream r.streams;
        },
        stream,
      )
]

-- `ensure_stream`: the stream is made, merged with the update, and its count refreshed. The source
-- changes the stream in place; here it is written back.
unfoldable pub ensure_stream : Text → Update → Router → Router
unfolding ensure_stream_locked merge_stream_state
ensure_stream task_id update r =
    let (r', stream) = ensure_stream_locked task_id none r in
    let merged = merge_stream_state update stream in
    record r' {
      streams =
          insert task_id (record merged { buffered_entry_count = length (buffer_of task_id r') })
            r'.streams;
    }

-- The fields before the first stream.
abbrev pub no_streams : ℕ → Router
no_streams max_entries = record {
  max_entries_per_stream = max_entries;
  sequence = 0;
  stream_order = 0;
  buffers = [];
  streams = [];
}

-- The constructor: an empty router with the stream of the main task.
unfoldable pub new_router : ℕ → Router
unfolding ensure_stream
new_router max_entries =
    ensure_stream (codes "main") (record no_update { status = some pending })
      (no_streams max_entries)

-- `a or b` for texts: the empty text and None are passed over.
abbrev or_text : Option Text → Text → Text
or_text none d = d
or_text (some []) d = d
or_text (some (c ∷ s)) d = c ∷ s

-- `getattr(record, "task_id", None) or get_task_context() or "main"`
abbrev pub task_of : LogRecord → Option Text → Text
task_of rec context = or_text rec.task_id (or_text context (codes "main"))

-- The entry that `emit` makes of a record.
abbrev pub entry_of : ℕ → Option Text → LogRecord → Router → LogEntry
entry_of now context rec r = record {
  sequence = r.sequence + 1;
  timestamp = now;
  task_id = task_of rec context;
  logger = rec.name;
  level = rec.level;
  message = rec.message;
}

-- `emit`
unfoldable pub emit : ℕ → Option Text → LogRecord → Router → Router
unfolding ensure_stream_locked logged
emit now context rec r =
    let task_id = task_of rec context in
    let (r', stream) = ensure_stream_locked task_id none (record r { sequence = r.sequence + 1 }) in
    let buffer =
      keep_last r.max_entries_per_stream
        (buffer_of task_id r' ++ entry_of now context rec r ∷ []) in
    record r' {
      streams = insert task_id (logged now (length buffer) stream) r'.streams;
      buffers = insert task_id buffer r'.buffers;
    }

-- One lifecycle record of `get_task_lifecycle_details`, as far as `sync_parallel_state` reads it.
pub record Detail : Type 0 where
  pub target_id : Text
  pub update : Update

-- `sync_parallel_state`: records without an id are passed over.
unfoldable pub sync_parallel_state : List Detail → Router → Router
unfolding ensure_stream
sync_parallel_state [] r = r
sync_parallel_state (d ∷ details) r =
    sync_parallel_state details
      (elim d.target_id [ [] ↦ r | c ∷ s ↦ ensure_stream (c ∷ s) d.update r ])

-- `get_logs`, `get_stream`
unfoldable pub get_logs : Text → Router → List LogEntry
get_logs task_id r = buffer_of task_id r

unfoldable pub get_stream : Text → Router → Option Stream
get_stream task_id r = lookup task_id r.streams
