-- ===== src/Runtime/Drafts.antt =====
-- runtime/drafts.py: `DraftSessionManager`. The rewriter, which asks a language model, is a parameter that
-- returns a draft or raises; the ids, the plan's id and the times that a call makes are its `Stamps`. No
-- other call is made while one awaits the rewriter.
pub mod Revisions
pub mod Steps
pub mod Working
pub mod Turns
pub mod Sending
use newbro.Prelude.{
  ℕ, suc, String, List, [], ◌∷◌, ◌++◌, map, Bool, true, false, not, ◌&&◌, ◌||◌, Option, none, some,
  if◌then◌else◌, ◌⊎◌, inl, inr, ltb, or_else, is_empty,
}
use newbro.Prelude.Text.{◌==◌, truthy, strip, option_eq, first_text}
use newbro.Prelude.Json.{Fields}
use newbro.Protocol.Enums.{RuntimeSessionState}
use newbro.Protocol.Drafts.{
  DraftSessionStatus, draft_session_status_is, AsrTurn, Draft, DraftSnapshot, DraftSession,
}
use newbro.Runtime.Dispatch.{default_bro_id, build_dispatch_plan}
use newbro.Runtime.Revising.{
  Stamps, DraftRewriteInput, Utterance, DraftSessionManager, is_closed, new_session, assign_bro,
  open_session, turn_of, apply_draft_revision, is_stale, turn_ids,
}

-- A call returns a session, or raises: the text of the exception.
abbrev pub Result : Type 0
Result = DraftSessionManager × (DraftSession ⊎ String)

module _ (rewrite : DraftRewriteInput → Draft ⊎ String) where
  unfoldable pub rewritten : DraftSession → AsrTurn → Draft ⊎ String
  rewritten session turn = rewrite (record {
    previous_draft = session.current_draft;
    asr_turns = session.asr_turns ++ turn ∷ [];
    new_turn = turn;
    assigned_bro_id = session.assigned_bro_id;
  })

  unfoldable pub append_asr_turn : Stamps → Utterance → DraftSessionManager → Result
  unfolding open_session turn_of rewritten apply_draft_revision turn_ids
  append_asr_turn stamps u m =
      let (m', session) = open_session stamps u.assigned_bro_id m in
      let turn = turn_of stamps u in
      let result : Result = elim (rewritten session turn) [
        | inr e ↦ (m', inr e)
        | inl draft ↦
            let heard : DraftSession = record session {
              asr_turns = session.asr_turns ++ turn ∷ [];
            } in
            let revised =
              apply_draft_revision stamps heard draft (turn_ids heard) "asr_turn" none in
            (record { active_session = some revised }, inl revised)
      ] in
      if truthy (strip u.raw_text) then result else (m, inr "ASR turn text must not be empty.")

  -- A stale transcript leaves the session as it is. A new session has seen none, so it is never returned
  -- for one.
  unfoldable pub update_live_draft :
      Stamps → Utterance → String → Option ℕ → Option Fields → DraftSessionManager → Result
  unfolding open_session turn_of rewritten apply_draft_revision turn_ids is_stale
  update_live_draft stamps u boundary timestamp classification m =
      let (m', session) = open_session stamps u.assigned_bro_id m in
      let turn = turn_of stamps u in
      let result : Result = elim (rewritten session turn) [
        | inr e ↦ (m', inr e)
        | inl draft ↦
            let classified : DraftSession = record session {
              live_classification = classification;
            } in
            let revised =
              apply_draft_revision stamps classified draft (turn_ids session) boundary timestamp in
            (record { active_session = some revised }, inl revised)
      ] in
      if not (truthy (strip u.raw_text))
      then (m, inr "Live transcript text must not be empty.")
      else if is_stale timestamp session
      then (m', inl session)
      else result

-- `mark_live_checkpoint`
unfoldable pub checkpointed :
    Stamps → String → Option ℕ → Option Fields → DraftSession → Draft → String → DraftSession
unfolding turn_ids
checkpointed stamps boundary timestamp classification s draft revision_id =
    let snapshot : DraftSnapshot = record {
      id = stamps.snapshot_id;
      draft = draft;
      source_asr_turn_ids = turn_ids s;
      created_at = stamps.now;
      draft_revision_id = some revision_id;
      draft_revision_number = s.current_revision_number;
      source_boundary = boundary;
      transcript_timestamp_ms = timestamp;
    } in
    record s {
      live_classification = elim classification [ none ↦ s.live_classification | some c ↦ some c ];
      live_source_boundary = some boundary;
      live_transcript_timestamp_ms = elim timestamp [
        | none ↦ s.live_transcript_timestamp_ms
        | some t ↦ some t
      ];
      updated_at = stamps.now;
      snapshots = s.snapshots ++ snapshot ∷ [];
    }

unfoldable pub mark_live_checkpoint :
    Stamps
    → String
    → Option ℕ
    → Option Fields
    → DraftSessionManager
    → DraftSessionManager × Option DraftSession
unfolding checkpointed
mark_live_checkpoint stamps boundary timestamp classification m = elim m.active_session [
  | none ↦ (m, none)
  | some s ↦ elim s.current_draft [
    | none ↦ (m, some s)
    | some draft ↦ elim s.current_revision_id [
      | none ↦ (m, some s)
      | some revision_id ↦
          let marked = checkpointed stamps boundary timestamp classification s draft revision_id in
          (record { active_session = some marked }, some marked)
    ]
  ]
]

unfoldable pub clear : Stamps → DraftSessionManager → DraftSessionManager × Option DraftSession
clear stamps m = elim m.active_session [
  | none ↦ (m, none)
  | some s ↦
      let cleared : DraftSession = record s {
        status = DraftSessionStatus.cleared;
        runtime_state = RuntimeSessionState.idle;
        updated_at = stamps.now;
      } in
      (record { active_session = none }, some cleared)
]

-- The session has a draft with a snapshot.
abbrev pub is_sendable : DraftSession → Bool
is_sendable s = elim s.current_draft [ none ↦ false | some d ↦ not (is_empty s.snapshots) ]

-- What the caller names, if it names one, is what there is.
abbrev pub agrees : Option String → Option String → Bool
agrees none there = true
agrees (some k) there = option_eq there (some k)

unfoldable pub mark_sent : Stamps → Option String → Option String → DraftSessionManager → Result
mark_sent stamps session_id revision_id m = elim m.active_session [
  | none ↦ (m, inr "No draft is ready to send.")
  | some s ↦
      let sent : DraftSession = record s {
        status = DraftSessionStatus.sent;
        runtime_state = RuntimeSessionState.task_running;
        updated_at = stamps.now;
      } in
      if not (is_sendable s)
      then (m, inr "No draft is ready to send.")
      else if not (agrees session_id (some s.id))
      then (m, inr "Draft session does not match the active draft.")
      else if not (agrees revision_id s.current_revision_id)
      then (m, inr "Draft revision does not match the active draft.")
      else (record { active_session = none }, inl sent)
]
