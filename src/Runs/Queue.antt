-- ===== src/Runs/Queue.antt =====
-- The order of the queue, its positions, and the limits on what may start.
use comet_l.Prelude.{
  ℕ, ◌+◌, Bool, true, false, ◌&&◌, ◌||◌, not, Option, none, some, List, [], ◌∷◌, map, Text, text_eq,
  text_lt, Dict, lookup, filter_by, count_of, sort_by, leb, ltb, ◌==◌, if◌then◌else◌,
}
use comet_l.Runs.Types.{is_active, is_pending, Session, RunRecord, Service, same_user}

-- The order of the keys `(created_at, run_id)`.
abbrev pub queued_before : Session → Session → Bool
queued_before a b =
    ltb a.created_at b.created_at || (a.created_at == b.created_at && text_lt a.run_id b.run_id)

-- `_can_start_session_locked`
unfoldable pub can_start_session : Session → List Session → Bool
can_start_session s sessions =
    if leb s.policy.global_max_running_tasks (count_of (λ c. is_active c.status) sessions)
    then false
    else ltb (count_of (λ c. is_active c.status && same_user c.user_id s.user_id) sessions)
        s.policy.per_user_max_running_tasks

abbrev pub is_queued : Session → Bool
is_queued s = is_pending s.status && not s.cancel_requested

-- `enumerate(…, start=n)` over the ids.
unfoldable pub number_from : ℕ → List Session → Dict ℕ
number_from n [] = []
number_from n (s ∷ ss) = (s.run_id, n) ∷ number_from (n + 1) ss

-- The positions of the pending sessions, in the order of the queue.
unfoldable pub queue_positions : List Session → Dict ℕ
unfolding number_from sort_by
queue_positions sessions = number_from 1 (sort_by queued_before (filter_by is_queued sessions))

abbrev pub reposition : Dict ℕ → Session → Session
reposition positions s = record s { queue_position = lookup s.run_id positions }

abbrev same_position : Option ℕ → Option ℕ → Bool
same_position none none = true
same_position none (some b) = false
same_position (some a) none = false
same_position (some a) (some b) = a == b

-- `update_run_queue_position`: the id is the table's primary key.
abbrev pub set_position : Text → Option ℕ → List RunRecord → List RunRecord
set_position id position =
    map (λ r. if text_eq r.id id then record r { queue_position = position } else r)

-- A row is written for each session whose position changes.
unfoldable pub write_positions : Dict ℕ → List Session → List RunRecord → List RunRecord
write_positions positions [] rs = rs
write_positions positions (s ∷ ss) rs =
    let position = lookup s.run_id positions in
    write_positions positions ss
      (if same_position s.queue_position position then rs else set_position s.run_id position rs)

abbrev write_rows : Dict ℕ → List Session → Option (List RunRecord) → Option (List RunRecord)
write_rows positions sessions none = none
write_rows positions sessions (some rs) = some (write_positions positions sessions rs)

-- `_refresh_queue_positions_locked`: pending sessions are numbered from 1, all others have no
-- position. The source writes the rows of the pending sessions first; rows of different sessions
-- do not touch one another.
unfoldable pub refresh_queue_positions : Service → Service
unfolding queue_positions write_positions
refresh_queue_positions svc =
    let positions = queue_positions svc.sessions in
    record svc {
      sessions = map (reposition positions) svc.sessions;
      records = write_rows positions svc.sessions svc.records;
    }
