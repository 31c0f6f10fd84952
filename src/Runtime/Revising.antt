-- ===== src/Runtime/Revising.antt =====
-- runtime/drafts.py: the session that a call works on, a turn of speech, and the next revision of a session.
use newbro.Prelude.{
  ℕ, suc, String, List, [], ◌∷◌, ◌++◌, map, Bool, false, ◌||◌, Option, none, some, if◌then◌else◌,
  ltb,
}
use newbro.Prelude.Text.{truthy, strip, first_text}
use newbro.Protocol.Enums.{RuntimeSessionState}
use newbro.Protocol.Drafts.{
  DraftSessionStatus, draft_session_status_is, AsrTurn, Draft, DraftSnapshot, DraftSession,
}
use newbro.Runtime.Dispatch.{default_bro_id, build_dispatch_plan}

-- What a call makes anew.
pub record Stamps : Type 0 where
  pub now : String
  pub session_id : String
  pub turn_id : String
  pub revision_id : String
  pub created_at : String
  pub snapshot_id : String
  pub plan_id : String

pub record DraftRewriteInput : Type 0 where
  pub previous_draft : Option Draft
  pub asr_turns : List AsrTurn
  pub new_turn : AsrTurn
  pub assigned_bro_id : String

-- An utterance, as the two calls that take one are given it.
pub record Utterance : Type 0 where
  pub raw_text : String
  pub normalized_text : Option String
  pub confidence : Option ℕ
  pub started_at : Option String
  pub ended_at : Option String
  pub assigned_bro_id : Option String

pub record DraftSessionManager : Type 0 where
  pub active_session : Option DraftSession

-- A session that is sent or cleared takes no more turns.
abbrev pub is_closed : DraftSession → Bool
is_closed s =
    draft_session_status_is s.status DraftSessionStatus.sent
    || draft_session_status_is s.status DraftSessionStatus.cleared

unfoldable pub new_session : Stamps → Option String → DraftSession
new_session stamps bro = record {
  id = stamps.session_id;
  assigned_bro_id = first_text bro default_bro_id;
  asr_turns = [];
  current_draft = none;
  current_dispatch_plan = none;
  runtime_state = RuntimeSessionState.idle;
  snapshots = [];
  status = DraftSessionStatus.empty;
  current_revision_id = none;
  current_revision_number = 0;
  live_classification = none;
  live_source_boundary = none;
  live_transcript_timestamp_ms = none;
  created_at = stamps.now;
  updated_at = stamps.now;
}

-- `if assigned_bro_id: session.assigned_bro_id = assigned_bro_id`
unfoldable pub assign_bro : Option String → DraftSession → DraftSession
assign_bro bro s = record s { assigned_bro_id = first_text bro s.assigned_bro_id }

-- The session that a call works on, and the manager with it: the active session is changed in place, a
-- new one is not kept before there is a draft.
unfoldable pub open_session :
    Stamps → Option String → DraftSessionManager → DraftSessionManager × DraftSession
unfolding new_session assign_bro
open_session stamps bro m = elim m.active_session [
  | none ↦ (m, new_session stamps bro)
  | some s ↦
      if is_closed s
      then (m, new_session stamps bro)
      else (record { active_session = some (assign_bro bro s) }, assign_bro bro s)
]

-- `normalized_text.strip() if normalized_text and normalized_text.strip() else None`
normalized : Option String → Option String
normalized none = none
normalized (some t) = if truthy (strip t) then some (strip t) else none

unfoldable pub turn_of : Stamps → Utterance → AsrTurn
unfolding normalized
turn_of stamps u = record {
  id = stamps.turn_id;
  raw_text = strip u.raw_text;
  normalized_text = normalized u.normalized_text;
  confidence = u.confidence;
  started_at = first_text u.started_at stamps.now;
  ended_at = first_text u.ended_at stamps.now;
}

-- `_apply_draft_revision`: the session with the draft as its next revision.
unfoldable pub apply_draft_revision :
    Stamps → DraftSession → Draft → List String → String → Option ℕ → DraftSession
apply_draft_revision stamps session draft turn_ids boundary timestamp =
    let number = suc session.current_revision_number in
    let revised : Draft = record draft {
      revision_id = some stamps.revision_id;
      revision_number = number;
      updated_at = some stamps.created_at;
    } in
    let snapshot : DraftSnapshot = record {
      id = stamps.snapshot_id;
      draft = revised;
      source_asr_turn_ids = turn_ids;
      created_at = stamps.created_at;
      draft_revision_id = some stamps.revision_id;
      draft_revision_number = number;
      source_boundary = boundary;
      transcript_timestamp_ms = timestamp;
    } in
    let current : DraftSession = record session {
      status = DraftSessionStatus.drafting;
      current_draft = some revised;
      current_revision_id = some stamps.revision_id;
      current_revision_number = number;
    } in
    record current {
      current_dispatch_plan =
          some (build_dispatch_plan stamps.plan_id session.id "" current revised false);
      runtime_state = RuntimeSessionState.waiting_for_confirmation;
      snapshots = session.snapshots ++ snapshot ∷ [];
      status = DraftSessionStatus.ready;
      live_source_boundary = some boundary;
      live_transcript_timestamp_ms = elim timestamp [
        | none ↦ session.live_transcript_timestamp_ms
        | some t ↦ some t
      ];
      updated_at = stamps.created_at;
    }

-- A timestamp that is before the session's.
unfoldable pub is_stale : Option ℕ → DraftSession → Bool
is_stale none s = false
is_stale (some t) s = elim s.live_transcript_timestamp_ms [ none ↦ false | some seen ↦ ltb t seen ]

unfoldable pub turn_ids : DraftSession → List String
turn_ids s = map (λ (t : AsrTurn). t.id) s.asr_turns
