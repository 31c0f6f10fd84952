-- ===== src/Protocol/Drafts.antt =====
-- protocol/draft.py: drafts, their sessions and dispatch plans. A confidence is a number of hundredths.
use newbro.Prelude.{ℕ, String, Bool, Option, List, eqb}
use newbro.Prelude.Json.{Fields}
use newbro.Protocol.Enums.{TaskMode, RuntimeSessionState, DispatchGateOutcome}

pub data DraftSessionStatus : Type 0 where
  empty listening drafting ready sent cleared : DraftSessionStatus

abbrev pub draft_session_status_index : DraftSessionStatus → ℕ
draft_session_status_index DraftSessionStatus.empty = 0
draft_session_status_index DraftSessionStatus.listening = 1
draft_session_status_index DraftSessionStatus.drafting = 2
draft_session_status_index DraftSessionStatus.ready = 3
draft_session_status_index DraftSessionStatus.sent = 4
draft_session_status_index DraftSessionStatus.cleared = 5

abbrev pub draft_session_status_is : DraftSessionStatus → DraftSessionStatus → Bool
draft_session_status_is a b = eqb (draft_session_status_index a) (draft_session_status_index b)

pub record AsrTurn : Type 0 where
  pub id : String
  pub raw_text : String
  pub normalized_text : Option String
  pub confidence : Option ℕ
  pub started_at : String
  pub ended_at : String

pub record TaskSpec : Type 0 where
  pub title : String
  pub goal : String
  pub target_agent : String
  pub mode : TaskMode
  pub expected_output : String
  pub constraints : List String
  pub success_criteria : List String
  pub stop_conditions : List String
  pub context : Fields
  pub input_language : String
  pub output_language : String
  pub raw_transcript : Option String
  pub normalized_task_language : String
  pub code_switched : Bool

pub record Draft : Type 0 where
  pub text : String
  pub last_update_summary : String
  pub task_spec : Option TaskSpec
  pub missing_context : List String
  pub revision_id : Option String
  pub revision_number : ℕ
  pub updated_at : Option String

pub record DraftSnapshot : Type 0 where
  pub id : String
  pub draft : Draft
  pub source_asr_turn_ids : List String
  pub created_at : String
  pub draft_revision_id : Option String
  pub draft_revision_number : ℕ
  pub source_boundary : String
  pub transcript_timestamp_ms : Option ℕ

pub record DispatchPlan : Type 0 where
  pub plan_id : String
  pub session_id : String
  pub draft_session_id : String
  pub draft_revision_id : Option String
  pub draft_revision_number : ℕ
  pub intent : String
  pub target_agent : String
  pub task_title : String
  pub task_goal : String
  pub required_context : List String
  pub missing_context : List String
  pub mode : TaskMode
  pub risk_level : String
  pub confidence : ℕ
  pub requires_user_confirmation : Bool
  pub user_confirmed : Bool
  pub output_language : String
  pub task_spec : TaskSpec

pub record DispatchGateResult : Type 0 where
  pub outcome : DispatchGateOutcome
  pub reason : String
  pub question : Option String
  pub plan_id : Option String

pub record DraftSession : Type 0 where
  pub id : String
  pub assigned_bro_id : String
  pub asr_turns : List AsrTurn
  pub current_draft : Option Draft
  pub current_dispatch_plan : Option DispatchPlan
  pub runtime_state : RuntimeSessionState
  pub snapshots : List DraftSnapshot
  pub status : DraftSessionStatus
  pub current_revision_id : Option String
  pub current_revision_number : ℕ
  pub live_classification : Option Fields
  pub live_source_boundary : Option String
  pub live_transcript_timestamp_ms : Option ℕ
  pub created_at : String
  pub updated_at : String
