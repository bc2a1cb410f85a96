-- ===== src/Runs/Tests.antt =====
-- Runs of the service on concrete requests, and the theorems at such inputs.
use comet_l.Prelude.{
  ℕ, ◌≤◌, ◌≡◌, refl, true, false, Option, none, some, List, [], ◌∷◌, map, Text, codes, arith,
}
use comet_l.Runs.Types.{Status, pending, starting, completed, cancelled, Policy, Session, Service}
use comet_l.Runs.Store.{find_session}
use comet_l.Runs.Scheduler.{start_run, cancel_run, dispatch_pending_runs}
use comet_l.Runs.Lifecycle.{
  ready, raised, global_queue_full, new_session, register, create_run, mark_running, mark_completed,
}
use comet_l.Runs.Limits.{WithinLimits, active_count, user_active_count}
use comet_l.Runs.Dispatching.{dispatch_pending_runs_total}
use comet_l.Runs.Steps.{create, cancel, start, Reach, here, next}
use comet_l.Runs.Reached.{Reach-limits, Reach-WithinLimits}
use comet_l.Runs.Exhausted.{dispatch_pending_runs_exhausted}
use comet_l.Runs.StaysEnded.{HasEnded}
use comet_l.Runs.Ended.{Reach-HasEnded}
use comet_l.Runs.Queue.{can_start_session}
use comet_l.Runs.Scheduler.{choose}
use comet_l.Runs.Store.{add_key, publish_snapshot, modify_session, upsert}
use comet_l.Prelude.{text_eq}

abbrev one_at_a_time : Policy
one_at_a_time = record {
  global_max_running_tasks = 1;
  per_user_max_running_tasks = 1;
  global_max_pending_tasks = 2;
  per_user_max_pending_tasks = 2;
}

abbrev empty_service : Service
empty_service = record {
  sessions = [];
  records = some [];
  specs = [];
  controls = [];
  threads = [];
  github_configs = [];
  active_run_id = none;
  routers = [];
  snapshots = [];
}

abbrev run_a : Text
run_a = codes "run-a"

abbrev run_b : Text
run_b = codes "run-b"

abbrev one_run : Service
one_run = register (new_session 1 run_a (some 7) one_at_a_time) false empty_service

abbrev two_runs : Service
two_runs = register (new_session 2 run_b (some 7) one_at_a_time) true one_run

abbrev or_empty : Option Service → Service
or_empty none = empty_service
or_empty (some svc) = svc

abbrev statuses : Service → List Status
statuses svc = map (λ (s : Session). s.status) svc.sessions

abbrev positions : Service → List (Option ℕ)
positions svc = map (λ (s : Session). s.queue_position) svc.sessions

abbrev started : Service
started = or_empty (start_run 4 run_b (or_empty (start_run 3 run_a two_runs)))

empty_Within : WithinLimits one_at_a_time empty_service
unfolding find_session
empty_Within = record {
  uniform = tt;
  in_all = omega arith;
  for_user = λ u. omega arith;
  launched_active = λ id s l e. cc;
}

two_positions : positions two_runs ≡ some 1 ∷ some 2 ∷ []
unfolding register comet_l.Prelude.text_eq
two_positions = refl

queue_full :
    create_run 5 (codes "run-c") none one_at_a_time (ready false) two_runs
    ≡ raised global_queue_full
unfolding create_run find_session comet_l.Prelude.text_eq upsert
queue_full = refl

-- The second run waits for the first.
started-statuses : statuses started ≡ starting ∷ pending ∷ []
unfolding start_run register comet_l.Prelude.text_eq comet_l.Runs.Scheduler.choose
    comet_l.Runs.Store.publish_snapshot comet_l.Runs.Store.modify_session
started-statuses = refl

started-positions : positions started ≡ none ∷ some 1 ∷ []
unfolding start_run register comet_l.Prelude.text_eq comet_l.Runs.Scheduler.choose
    comet_l.Runs.Store.publish_snapshot comet_l.Runs.Store.modify_session
started-positions = refl

-- When the first ends, the second starts.
completed_statuses :
    statuses (or_empty (mark_completed 9 none run_a (or_empty (mark_running 6 run_a started))))
    ≡ completed ∷ starting ∷ []
unfolding start_run register mark_completed mark_running comet_l.Prelude.text_eq
    comet_l.Runs.Scheduler.choose comet_l.Runs.Store.modify_session
completed_statuses = refl

-- A run that is cancelled in the queue does not start.
cancelled_statuses :
    statuses (or_empty (cancel_run 6 run_b (codes "user_cancelled") started))
    ≡ starting ∷ cancelled ∷ []
unfolding start_run register cancel_run comet_l.Prelude.text_eq comet_l.Runs.Scheduler.choose
    comet_l.Runs.Store.modify_session
cancelled_statuses = refl

reached : Reach one_at_a_time empty_service (or_empty (start_run 3 run_a two_runs))
unfolding start_run register create_run find_session comet_l.Prelude.text_eq upsert
    comet_l.Runs.Scheduler.choose comet_l.Runs.Store.publish_snapshot
    comet_l.Runs.Store.modify_session
reached =
    next
      (next (next here (create 1 run_a (some 7) false _ refl refl refl))
        (create 2 run_b (some 7) true _ refl refl refl))
      (start 3 run_a refl)

Reach-limits_example :
    (active_count (or_empty (start_run 3 run_a two_runs)) ≤ 1)
    × ((u : ℕ) → user_active_count u (or_empty (start_run 3 run_a two_runs)) ≤ 1)
Reach-limits_example = Reach-limits one_at_a_time empty_Within reached

dispatch_pending_runs_total_example :
    (svc' : Service) × (dispatch_pending_runs 3 two_runs ≡ some svc')
dispatch_pending_runs_total_example = dispatch_pending_runs_total 3 two_runs

abbrev in_queue : Service
in_queue = or_empty (start_run 3 run_a two_runs)

abbrev both : Service
both = record in_queue { specs = add_key run_b in_queue.specs }

abbrev waiting : Session
waiting = record (new_session 2 run_b (some 7) one_at_a_time) { queue_position = some 1 }

dispatch_pending_runs_exhausted_example :
    (waiting.cancel_requested ≡ false) × (can_start_session waiting started.sessions ≡ false)
unfolding start_run register text_eq choose publish_snapshot modify_session
dispatch_pending_runs_exhausted_example =
    dispatch_pending_runs_exhausted run_b 4 both {svc' = started} waiting refl refl refl refl

abbrev without_a : Service
without_a = or_empty (cancel_run 4 run_a (codes "user_cancelled") two_runs)

reached_cancel : Reach one_at_a_time empty_service without_a
unfolding start_run register create_run find_session cancel_run text_eq upsert modify_session choose
reached_cancel =
    next
      (next (next here (create 1 run_a (some 7) false _ refl refl refl))
        (create 2 run_b (some 7) true _ refl refl refl))
      (cancel 4 run_a (codes "user_cancelled") refl)

then_start : Reach one_at_a_time without_a (or_empty (start_run 5 run_b without_a))
unfolding start_run register cancel_run text_eq modify_session choose
then_start = next here (start 5 run_b refl)

without_a_ended : HasEnded run_a without_a
unfolding start_run register create_run find_session cancel_run text_eq upsert modify_session choose
    publish_snapshot
without_a_ended = refl

Reach-HasEnded_example : HasEnded run_a (or_empty (start_run 5 run_b without_a))
Reach-HasEnded_example =
    Reach-HasEnded run_a one_at_a_time
      (Reach-WithinLimits one_at_a_time empty_Within reached_cancel) then_start without_a_ended
