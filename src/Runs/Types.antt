-- ===== src/Runs/Types.antt =====
-- The data of the run service: sessions, their database rows, and the service's tables.
use comet_l.Prelude.{ℕ, Bool, true, false, Option, none, some, List, Text, Dict, ◌==◌}
use comet_l.LogRouter.{Router}

pub data Status : Type 0 where
  created pending starting running cancelling completed failed cancelled stale : Status

-- `status in RUNNING_STATUSES`
abbrev pub is_active : Status → Bool
is_active starting = true
is_active running = true
is_active cancelling = true
is_active _ = false

abbrev pub is_pending : Status → Bool
is_pending pending = true
is_pending _ = false

-- The limits of `DeploymentPolicyConfig` on the queue.
pub record Policy : Type 0 where
  pub global_max_running_tasks : ℕ
  pub per_user_max_running_tasks : ℕ
  pub global_max_pending_tasks : ℕ
  pub per_user_max_pending_tasks : ℕ

-- `RunSession`, without its paths; the policy is the one in its configuration snapshot.
pub record Session : Type 0 where
  pub run_id : Text
  pub status : Status
  pub user_id : Option ℕ
  pub created_at : ℕ
  pub policy : Policy
  pub started_at : Option ℕ
  pub completed_at : Option ℕ
  pub failed_at : Option ℕ
  pub error : Option Text
  pub queue_position : Option ℕ
  pub cancel_requested : Bool
  pub cancellation_reason : Option Text

-- A row of the table `runs`.
pub record RunRecord : Type 0 where
  pub id : Text
  pub status : Status
  pub user_id : Option ℕ
  pub created_at : ℕ
  pub started_at : Option ℕ
  pub finished_at : Option ℕ
  pub error : Option Text
  pub queue_position : Option ℕ
  pub cancel_requested : Bool
  pub cancellation_reason : Option Text

-- What a published runtime snapshot shows of the session.
pub record Snapshot : Type 0 where
  pub run_id : Text
  pub status : Status
  pub queue_position : Option ℕ
  pub cancel_requested : Bool

-- Where the background thread of a run stands in `_run_in_background`.
pub data Thread : Type 0 where
  launched executing ended : Thread

pub record Service : Type 0 where
  pub sessions : List Session  -- `_sessions`, in insertion order; each key is the `run_id`
  pub records : Option (List RunRecord)  -- `_web_database`, if there is one
  pub specs : List Text  -- the keys of `_scheduler_specs`
  pub controls : Dict Bool  -- `_run_controls`: whether the event is set
  pub threads : Dict Thread
  pub github_configs : List Text  -- the keys of `_github_runtime_configs`
  pub active_run_id : Option Text
  pub routers : Dict Router  -- `_log_routers`
  pub snapshots : List Snapshot  -- what was published, the oldest first

-- `a == b` on user ids, where neither is None.
abbrev pub same_user : Option ℕ → Option ℕ → Bool
same_user none b = false
same_user (some a) none = false
same_user (some a) (some b) = a == b
