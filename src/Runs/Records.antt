-- ===== src/Runs/Records.antt =====
-- The queries on the table of runs (comet/web/storage.py), and the runs that a restart of the server
-- finds in it (`_load_persisted_sessions`). A set of statuses is a test.
use comet_l.Prelude.{
  ℕ, ◌≡◌, refl, Bool, false, not, ◌&&◌, ◌||◌, Option, none, some, or_else, List, [], ◌∷◌, map, Text,
  text_eq, text_lt, filter_by, count_of, sort_by, ltb, ◌==◌, arith, if◌then◌else◌,
}
use comet_l.Runs.Types.{
  Status, failed, completed, cancelled, stale, is_active, is_pending, RunRecord,
}

-- `get_run_record`
unfoldable pub get_run_record : Text → List RunRecord → Option RunRecord
get_run_record id [] = none
get_run_record id (r ∷ rs) = if text_eq r.id id then some r else get_run_record id rs

-- ORDER BY created_at ASC, id ASC
abbrev pub older : RunRecord → RunRecord → Bool
older a b = ltb a.created_at b.created_at || ((a.created_at == b.created_at) && text_lt a.id b.id)

abbrev is_user : Option ℕ → RunRecord → Bool
is_user none r = false
is_user (some u) r = elim r.user_id [ none ↦ false | some v ↦ v == u ]

-- `list_run_records`: the newest first
unfoldable pub list_run_records : Option ℕ → Bool → List RunRecord → List RunRecord
unfolding sort_by
list_run_records user_id include_all rs =
    sort_by (λ a b. older b a) (if include_all then rs else filter_by (is_user user_id) rs)

-- `list_run_records_by_statuses`: the oldest first
unfoldable pub list_run_records_by_statuses : (Status → Bool) → List RunRecord → List RunRecord
unfolding sort_by
list_run_records_by_statuses statuses rs =
    sort_by older (filter_by (λ (r : RunRecord). statuses r.status) rs)

abbrev stale_record : ℕ → Text → RunRecord → RunRecord
stale_record now error r = record r {
  status = stale;
  finished_at = or_else r.finished_at (some now);
  error = or_else r.error (some error);
  queue_position = none;
}

-- `mark_stale_run_records`: how many rows were marked, and the table
unfoldable pub mark_stale_run_records :
    ℕ → (Status → Bool) → Text → List RunRecord → ℕ × List RunRecord
mark_stale_run_records now statuses error rs = (
  count_of (λ (r : RunRecord). statuses r.status) rs,
  map (λ (r : RunRecord). if statuses r.status then stale_record now error r else r) rs,
)

-- The table after the first statements of `_load_persisted_sessions`
unfoldable pub mark_interrupted : ℕ → Text → Text → List RunRecord → List RunRecord
unfolding mark_stale_run_records
mark_interrupted now lost unscheduled rs =
    (mark_stale_run_records now is_pending unscheduled
      (mark_stale_run_records now is_active lost rs).1).1

-- `_session_from_record`: when a run failed and when it completed
abbrev pub restored_times : RunRecord → Option ℕ × Option ℕ
restored_times r = elim r.status [
  | failed ↦ (r.finished_at, none)
  | completed ↦ (none, r.finished_at)
  | cancelled ↦ (r.finished_at, none)
  | stale ↦ (r.finished_at, none)
  | _ ↦ (none, none)
]

marked_count :
    (now : ℕ) (p q : Status → Bool) (error : Text) (rs : List RunRecord)
    → q stale ≡ false
    → count_of (λ (r : RunRecord). q r.status) (mark_stale_run_records now p error rs).1
      ≡ count_of (λ (r : RunRecord). q r.status && not (p r.status)) rs
unfolding mark_stale_run_records
marked_count now p q error [] h = refl
marked_count now p q error (r ∷ rs) h = ground (arith, marked_count now p q error rs h)

none_left :
    (p : Status → Bool) (rs : List RunRecord)
    → count_of (λ (r : RunRecord). p r.status && not (p r.status)) rs ≡ 0
none_left p [] = refl
none_left p (r ∷ rs) = ground (arith, none_left p rs)

fewer_left :
    (p q : Status → Bool) (rs : List RunRecord)
    → count_of (λ (r : RunRecord). q r.status) rs ≡ 0
    → count_of (λ (r : RunRecord). q r.status && not (p r.status)) rs ≡ 0
fewer_left p q [] h = refl
fewer_left p q (r ∷ rs) h = ground (arith, fewer_left p q rs)

-- After a restart of the server no row of the table is active or pending.
pub mark_interrupted-none_left :
    (now : ℕ) (lost unscheduled : Text) (rs : List RunRecord)
    → (count_of (λ (r : RunRecord). is_active r.status) (mark_interrupted now lost unscheduled rs)
        ≡ 0)
      × (count_of
            (λ (r : RunRecord). is_pending r.status)
            (mark_interrupted now lost unscheduled rs)
          ≡ 0)
unfolding mark_interrupted
mark_interrupted-none_left now lost unscheduled rs =
    let first = (mark_stale_run_records now is_active lost rs).1 in
    (
      rw (marked_count now is_pending is_active unscheduled first refl) (
          fewer_left is_pending is_active first
            (rw (marked_count now is_active is_active lost rs refl) (none_left is_active rs))),
      rw (marked_count now is_pending is_pending unscheduled first refl)
          (none_left is_pending first),
    )
