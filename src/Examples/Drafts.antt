-- ===== src/Examples/Drafts.antt =====
-- Drafts of sample turns.
use Prim.Native.Char.{Char}
use Prim.Native.String as S
use newbro.Prelude.{
  ◌≤◌, String, List, [], ◌∷◌, ◌≡◌, ◌↔◌, refl, none, some, inl, inr, true, not, ◌&&◌, is_empty, ltb,
}
use newbro.Protocol.Enums.{DispatchGateOutcome}
use newbro.Protocol.Drafts.{Draft, DraftSession, DispatchPlan}
use newbro.Runtime.Wording.{title, chars}
use newbro.Runtime.Wording.Titles.{title-bounded}
use newbro.Runtime.Dispatch.{
  dispatch_gate, build_dispatch_plan, spec_of, no_agent, agent_allowed_for_intent,
}
use newbro.Runtime.Dispatch.Gate.{is_clear, dispatch_gate_dispatches}
use newbro.Runtime.Dispatch.Confirmation.{confirmed_draft_dispatches}
use newbro.Runtime.Drafts.{append_asr_turn, update_live_draft, mark_sent}
use newbro.Runtime.Revising.{
  Stamps, Utterance, DraftSessionManager, open_session, new_session, apply_draft_revision,
}
use newbro.Runtime.Drafts.Revisions.{Kept, apply_draft_revision-IsReady}
use newbro.Runtime.Drafts.Steps.{Rewriter, Call, after_calls, calls_keep_ready}
use newbro.Runtime.Drafts.Working.{session_at}
use newbro.Runtime.Drafts.Turns.{Turned, LiveTurned, append_asr_turn_turns, update_live_draft_turns}
use newbro.Prelude.Text.{strip, lstrip, rstrip, is_space}
use newbro.Runtime.Rewriters.{rewrite_deterministic, Drafted, deterministic_turn_drafts}
use newbro.Runtime.Drafts.Sending.{Answer, mark_sent_answers}

abbrev stamps : Stamps
stamps = record {
  now = "1";
  session_id = "draft-1";
  turn_id = "asr-1";
  revision_id = "draft-rev-1";
  created_at = "2";
  snapshot_id = "draft-snap-1";
  plan_id = "plan-1";
}

abbrev speech : Utterance
speech = record {
  raw_text = " tidy up the desk ";
  normalized_text = none;
  confidence = none;
  started_at = none;
  ended_at = none;
  assigned_bro_id = none;
}

abbrev tidy_draft : Draft
tidy_draft = record {
  text = "Tidy up the desk.";
  last_update_summary = "";
  task_spec = none;
  missing_context = [];
  revision_id = none;
  revision_number = 0;
  updated_at = none;
}

abbrev always : Rewriter
always payload = inl tidy_draft

abbrev fails : Rewriter
fails payload = inr "Draft cleaner request failed."

abbrev idle : DraftSessionManager
idle = record { active_session = none }

abbrev fresh_draft : DraftSession
fresh_draft = new_session stamps none

abbrev ready_draft : DraftSession
ready_draft =
    apply_draft_revision stamps (new_session stamps none) tidy_draft [] "asr_turn" (some 5)

title-bounded_example :
    (chars (title "Tidy up the desk.") ≤ 72) × (1 ≤ chars (title "Tidy up the desk."))
title-bounded_example = title-bounded "Tidy up the desk."

abbrev tidy_plan : DispatchPlan
tidy_plan = build_dispatch_plan "plan-1" "draft-1" "" fresh_draft tidy_draft true

dispatch_gate_dispatches_example :
    ((dispatch_gate tidy_plan).outcome ≡ DispatchGateOutcome.dispatch) ↔ (
      (is_clear tidy_plan.task_spec
        && not (ltb tidy_plan.confidence 85)
        && is_empty tidy_plan.missing_context
        && not (no_agent tidy_plan.target_agent)
        && agent_allowed_for_intent tidy_plan.intent tidy_plan.target_agent
        && tidy_plan.user_confirmed)
      ≡ true)
dispatch_gate_dispatches_example = dispatch_gate_dispatches tidy_plan

confirmed_draft_dispatches_example :
    ((dispatch_gate tidy_plan).outcome ≡ DispatchGateOutcome.dispatch) ↔ (
      (is_clear (spec_of fresh_draft tidy_draft)
        && is_empty tidy_draft.missing_context
        && not (no_agent (spec_of fresh_draft tidy_draft).target_agent)
        && agent_allowed_for_intent "repo_investigation"
            (spec_of fresh_draft tidy_draft).target_agent
        && true)
      ≡ true)
confirmed_draft_dispatches_example =
    confirmed_draft_dispatches "plan-1" "draft-1" "" fresh_draft tidy_draft true

abbrev some_calls : List Call
some_calls =
    Call.append always stamps speech
    ∷ Call.append fails stamps speech
    ∷ Call.live always stamps speech "stt.partial" (some 5) none
    ∷ Call.checkpoint stamps "stt.final" (some 7) none
    ∷ []

calls_keep_ready_example : Kept (after_calls some_calls (record { active_session = none }))
calls_keep_ready_example = calls_keep_ready some_calls

append_asr_turn_turns_example :
    Turned always stamps speech
      (session_at stamps none idle)
      idle
      (append_asr_turn always stamps speech idle)
append_asr_turn_turns_example = append_asr_turn_turns always stamps speech idle

update_live_draft_turns_example :
    LiveTurned always stamps speech
      (some 3)
      (session_at stamps none (record { active_session = some ready_draft }))
      (record { active_session = some ready_draft })
      (update_live_draft always stamps speech "stt.partial"
        (some 3)
        none
        (record { active_session = some ready_draft }))
update_live_draft_turns_example =
    update_live_draft_turns always stamps speech "stt.partial" (some 3) none
      (record { active_session = some ready_draft })

mark_sent_answers_example :
    Answer (some "draft-1") (some "draft-rev-1") ready_draft (mark_sent stamps none none) (
      mark_sent stamps
        (some "draft-1")
        (some "draft-rev-1")
        (record { active_session = some ready_draft }))
unfolding new_session apply_draft_revision
mark_sent_answers_example =
    mark_sent_answers stamps stamps (some "draft-1") (some "draft-rev-1") none none ready_draft (
      apply_draft_revision-IsReady stamps (new_session stamps none) tidy_draft [] "asr_turn"
        (some 5) refl)

abbrev same_case : Char → String
same_case c = S.◌∷◌ c ""

deterministic_turn_drafts_example :
    Drafted "codex" (
      append_asr_turn (λ payload. inl (rewrite_deterministic same_case payload)) stamps speech idle)
unfolding new_session strip lstrip rstrip is_space open_session
deterministic_turn_drafts_example = deterministic_turn_drafts same_case stamps speech idle refl
