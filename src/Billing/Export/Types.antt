-- ===== src/Billing/Export/Types.antt =====
-- The data of internal/billing/export_worker.go: tasks and their rows, requests, and what is shared by
-- the handlers and the workers.
use api_ops.Common.{ℕ, Bool, true, false, Option, List, String}

pub data Status : Type 0 where
  pending running success failed cancelled : Status

abbrev pub is_pending : Status → Bool
is_pending pending = true
is_pending _ = false

abbrev pub is_running : Status → Bool
is_running running = true
is_running _ = false

pub record Task : Type 0 where
  pub task_id : String
  pub user_id : ℕ
  pub username : String
  pub period : String
  pub period_start : ℕ
  pub period_end : ℕ
  pub formats : String
  pub kind : String
  pub vendor_code : String
  pub status : Status
  pub progress : ℕ
  pub file_path : String
  pub file_size : ℕ
  pub error_msg : String
  pub started_at : Option ℕ
  pub finished_at : Option ℕ
  pub operator : String

-- A worker between two tasks, or inside `processOneTask`.
pub data Job : Type 0 where
  idle : Job
  busy : Task → Job

pub record World : Type 0 where
  pub rows : List (String × Task)
  pub queue : List Task
  pub sems : List (ℕ × ℕ)
  pub first : Job
  pub second : Job

-- What the caller gets.
pub data Reply : Type 0 where
  created : String → Reply
  count_failed too_many create_failed queue_full : Reply

-- The request as `EnqueueExportTask` takes it.
pub record Request : Type 0 where
  pub user_id : ℕ
  pub username : String
  pub period : String
  pub formats : String
  pub kind : String
  pub vendor_code : String
  pub operator : String
  pub period_start : ℕ
  pub period_end : ℕ
