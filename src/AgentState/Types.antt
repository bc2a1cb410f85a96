-- ===== src/AgentState/Types.antt =====
-- The data of the agent's state, as far as targets, histories and batches go.
use comet_l.Prelude.{ℕ, Bool, Option, List, Text, Dict}

-- A target's dictionary: its names, and the rest in a printed form.
pub record TargetInfo : Type 0 where
  pub class_name : Option Text
  pub method_name : Option Text
  pub method_signature : Option Text
  pub details : Text

-- An entry of the blacklist.
pub record FailedTarget : Type 0 where
  pub target : Text
  pub class_name : Text
  pub method_name : Text
  pub method_signature : Option Text
  pub reason : Text
  pub iteration : ℕ

pub data TargetStatus : Type 0 where
  running completed failed : TargetStatus

-- The record of a target that a worker took; metadata of the caller's is left out.
pub record Lifecycle : Type 0 where
  pub target_id : Text
  pub class_name : Text
  pub method_name : Text
  pub method_signature : Option Text
  pub order : ℕ
  pub started_at : ℕ
  pub status : TargetStatus
  pub ended_at : Option ℕ
  pub completed_at : Option ℕ
  pub duration_seconds : Option ℕ
  pub error : Option Text

-- What the state reads of a `WorkerResult`; an empty error counts as none.
pub record WorkerResult : Type 0 where
  pub target_id : Text
  pub success : Bool
  pub error : Option Text
  pub processing_time : ℕ

pub record Action : Type 0 where
  pub iteration : ℕ
  pub action : Text
  pub success : Bool

-- `parallel_stats`, without the merge conflicts
pub record ParallelStats : Type 0 where
  pub total_batches : ℕ
  pub total_workers_spawned : ℕ
  pub total_targets_processed : ℕ
  pub failed_targets_in_parallel : ℕ

pub record State : Type 0 where
  pub iteration : ℕ
  pub llm_calls : ℕ
  pub current_target : Option TargetInfo
  pub previous_target : Option TargetInfo
  pub action_history : List Action
  pub recent_improvements : List Text
  pub improvement_summary : ℕ × Option Text  -- `count`, `latest`
  pub processed_targets : List Text
  pub failed_targets : List FailedTarget
  pub active_targets : Dict Lifecycle
  pub target_lifecycle : Dict Lifecycle
  pub target_order_counter : ℕ
  pub current_batch : ℕ
  pub batch_results : List (List WorkerResult)
  pub parallel_stats : ParallelStats
