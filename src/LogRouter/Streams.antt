-- ===== src/LogRouter/Streams.antt =====
-- One log stream and the changes to it.
use comet_l.Prelude.{ℕ, ◌+◌, Bool, true, false, Option, none, some, Text, or_else, if◌then◌else◌}

pub data StreamStatus : Type 0 where
  pending running completed failed cancelled stale : StreamStatus

pub record LogEntry : Type 0 where
  pub sequence : ℕ
  pub timestamp : ℕ
  pub task_id : Text
  pub logger : Text
  pub level : Text
  pub message : Text

-- What `emit` reads of a `logging.LogRecord`.
pub record LogRecord : Type 0 where
  pub task_id : Option Text
  pub name : Text
  pub level : Text
  pub message : Text

-- `LogStreamState`
pub record Stream : Type 0 where
  pub task_id : Text
  pub order : ℕ
  pub status : StreamStatus
  pub started_at : Option ℕ
  pub ended_at : Option ℕ
  pub completed_at : Option ℕ
  pub duration_seconds : Option ℕ
  pub first_entry_at : Option ℕ
  pub last_entry_at : Option ℕ
  pub total_entry_count : ℕ
  pub buffered_entry_count : ℕ

-- The defaults of the dataclass.
abbrev pub new_stream : Text → ℕ → Stream
new_stream task_id order = record {
  task_id = task_id;
  order = order;
  status = pending;
  started_at = none;
  ended_at = none;
  completed_at = none;
  duration_seconds = none;
  first_entry_at = none;
  last_entry_at = none;
  total_entry_count = 0;
  buffered_entry_count = 0;
}

-- `status in {"completed", "failed"}`
abbrev pub is_terminal : StreamStatus → Bool
is_terminal completed = true
is_terminal failed = true
is_terminal _ = false

-- What `emit` changes of the stream; the count is that of the buffer after the append.
unfoldable pub logged : ℕ → ℕ → Stream → Stream
logged now buffered s = record s {
  started_at = or_else s.started_at (some now);
  status = if is_terminal s.status then s.status else running;
  first_entry_at = or_else s.first_entry_at (some now);
  last_entry_at = some now;
  total_entry_count = s.total_entry_count + 1;
  buffered_entry_count = buffered;
}

-- The keyword arguments of `ensure_stream`.
pub record Update : Type 0 where
  pub status : Option StreamStatus
  pub started_at : Option ℕ
  pub ended_at : Option ℕ
  pub completed_at : Option ℕ
  pub duration_seconds : Option ℕ

abbrev pub no_update : Update
no_update = record {
  status = none;
  started_at = none;
  ended_at = none;
  completed_at = none;
  duration_seconds = none;
}

-- A stream that is completed or failed does not run again.
abbrev pub merge_status : Option StreamStatus → StreamStatus → StreamStatus
merge_status none old = old
merge_status (some running) old = if is_terminal old then old else running
merge_status (some new) old = new

-- `_merge_stream_state_locked`
unfoldable pub merge_stream_state : Update → Stream → Stream
merge_stream_state u s =
    let ended = or_else u.ended_at s.ended_at in
    record s {
      started_at = or_else s.started_at u.started_at;
      status = merge_status u.status s.status;
      ended_at = elim u.completed_at [ none ↦ ended | some t ↦ or_else ended (some t) ];
      completed_at = or_else u.completed_at s.completed_at;
      duration_seconds = or_else u.duration_seconds s.duration_seconds;
    }
