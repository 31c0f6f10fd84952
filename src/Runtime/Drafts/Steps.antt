-- ===== src/Runtime/Drafts/Steps.antt =====
-- runtime/drafts.py: sequences of calls on one manager.
use newbro.Prelude.{
  ℕ, String, List, [], ◌∷◌, ◌++◌, Option, none, some, ◌≡◌, refl, ◌⊎◌, inl, inr, Bool-cases,
  Option-cases,
}
use newbro.Prelude.Text.{truthy, strip}
use newbro.Prelude.Json.{Fields}
use newbro.Protocol.Drafts.{Draft, DraftSession}
use newbro.Runtime.Drafts.{
  append_asr_turn, update_live_draft, mark_live_checkpoint, checkpointed, clear, mark_sent,
  is_sendable, agrees, rewritten,
}
use newbro.Runtime.Revising.{
  Stamps, Utterance, DraftRewriteInput, DraftSessionManager, open_session, is_stale, turn_of,
}
use newbro.Runtime.Drafts.Revisions.{
  IsReady, Kept, open_session-Counted, apply_draft_revision-IsReady, Climbs-append,
}

-- A rewriter as one call meets it.
abbrev pub Rewriter : Type 0
Rewriter = DraftRewriteInput → Draft ⊎ String

-- The calls that a manager takes, with what the outside gives to each.
pub data Call : Type 0 where
  append : Rewriter → Stamps → Utterance → Call
  live : Rewriter → Stamps → Utterance → String → Option ℕ → Option Fields → Call
  checkpoint : Stamps → String → Option ℕ → Option Fields → Call
  clearing : Stamps → Call
  sending : Stamps → Option String → Option String → Call

-- The manager after a call.
unfoldable pub after_call : Call → DraftSessionManager → DraftSessionManager
unfolding append_asr_turn update_live_draft mark_live_checkpoint clear mark_sent
after_call (append rewrite stamps u) m = (append_asr_turn rewrite stamps u m).0
after_call (live rewrite stamps u boundary timestamp classification) m =
    (update_live_draft rewrite stamps u boundary timestamp classification m).0
after_call (checkpoint stamps boundary timestamp classification) m =
    (mark_live_checkpoint stamps boundary timestamp classification m).0
after_call (clearing stamps) m = (clear stamps m).0
after_call (sending stamps session_id revision_id) m = (mark_sent stamps session_id revision_id m).0

unfoldable pub after_calls : List Call → DraftSessionManager → DraftSessionManager
unfolding after_call
after_calls [] m = m
after_calls (c ∷ cs) m = after_calls cs (after_call c m)

-- A rewriter returns a draft or raises.
pub rewritten_or_raised :
    (o : Draft ⊎ String) → ((d : Draft) × (o ≡ inl d)) ⊎ ((e : String) × (o ≡ inr e))
rewritten_or_raised (inl d) = inl (d, refl)
rewritten_or_raised (inr e) = inr (e, refl)

append_asr_turn-Kept :
    (rewrite : Rewriter) (stamps : Stamps) (u : Utterance) (m : DraftSessionManager)
    → Kept m
    → Kept (append_asr_turn rewrite stamps u m).0
unfolding append_asr_turn
append_asr_turn-Kept rewrite stamps u m h =
    let opened = open_session-Counted stamps u.assigned_bro_id m h in
    let s = (open_session stamps u.assigned_bro_id m).1 in
    let heard : DraftSession = record s { asr_turns = s.asr_turns ++ turn_of stamps u ∷ [] } in
    elim (Bool-cases (truthy (strip u.raw_text))) [
      | inr t ↦ rw (t, append_asr_turn) h
      | inl t ↦ elim (rewritten_or_raised (rewritten rewrite s (turn_of stamps u))) [
        | inr (e, p) ↦ rw (t, p, append_asr_turn) opened.0
        | inl (d, p) ↦
            rw (t, p, append_asr_turn)
              (apply_draft_revision-IsReady stamps heard d _ "asr_turn" none opened.1)
      ]
    ]

update_live_draft-Kept :
    (rewrite : Rewriter) (stamps : Stamps) (u : Utterance) (boundary : String)
    (timestamp : Option ℕ) (classification : Option Fields) (m : DraftSessionManager)
    → Kept m
    → Kept (update_live_draft rewrite stamps u boundary timestamp classification m).0
unfolding update_live_draft
update_live_draft-Kept rewrite stamps u boundary timestamp classification m h =
    let opened = open_session-Counted stamps u.assigned_bro_id m h in
    let s = (open_session stamps u.assigned_bro_id m).1 in
    let classified : DraftSession = record s { live_classification = classification } in
    elim (Bool-cases (truthy (strip u.raw_text))) [
      | inr t ↦ rw (t, update_live_draft) h
      | inl t ↦ elim (Bool-cases (is_stale timestamp s)) [
        | inl old ↦ rw (t, old, update_live_draft) opened.0
        | inr new ↦ elim (rewritten_or_raised (rewritten rewrite s (turn_of stamps u))) [
          | inr (e, p) ↦ rw (t, new, p, update_live_draft) opened.0
          | inl (d, p) ↦
              rw (t, new, p, update_live_draft)
                (apply_draft_revision-IsReady stamps classified d _ boundary timestamp opened.1)
        ]
      ]
    ]

checkpointed-IsReady :
    (stamps : Stamps) (boundary : String) (timestamp : Option ℕ) (classification : Option Fields)
    (s : DraftSession) (draft : Draft) (k : String)
    → IsReady s
    → IsReady (checkpointed stamps boundary timestamp classification s draft k)
unfolding checkpointed
checkpointed-IsReady stamps boundary timestamp classification s draft k h = record {
  draft = h.draft;
  plan = h.plan;
  ready = h.ready;
  waiting = h.waiting;
  drafted = h.drafted;
  revised = h.revised;
  planned = h.planned;
  for_revision = h.for_revision;
  for_session = h.for_session;
  unconfirmed = h.unconfirmed;
  counted = Climbs-append 0 s.current_revision_number s.snapshots _ h.counted (inl refl);
  numbered = h.numbered;
}

mark_live_checkpoint-Kept :
    (stamps : Stamps) (boundary : String) (timestamp : Option ℕ) (classification : Option Fields)
    (m : DraftSessionManager)
    → Kept m
    → Kept (mark_live_checkpoint stamps boundary timestamp classification m).0
unfolding mark_live_checkpoint
mark_live_checkpoint-Kept stamps boundary timestamp classification m h = go m.active_session h
  where
    go :
        (o : Option DraftSession)
        → Kept (record { active_session = o })
        → Kept
            (mark_live_checkpoint stamps boundary timestamp classification
              (record { active_session = o })).0
    go none h = tt
    go (some s) h = elim (Option-cases s.current_draft) [
      | inl p ↦ rw (p, mark_live_checkpoint) h
      | inr (d, p) ↦ elim (Option-cases s.current_revision_id) [
        | inl q ↦ rw (p, q, mark_live_checkpoint) h
        | inr (k, q) ↦
            rw (p, q, mark_live_checkpoint)
              (checkpointed-IsReady stamps boundary timestamp classification s d k h)
      ]
    ]

clear-Kept : (stamps : Stamps) (m : DraftSessionManager) → Kept m → Kept (clear stamps m).0
unfolding clear
clear-Kept stamps m h = elim (Option-cases m.active_session) [
  | inl p ↦ rw (p, clear) h
  | inr (s, p) ↦ rw (p, clear) tt
]

mark_sent-Kept :
    (stamps : Stamps) (i j : Option String) (m : DraftSessionManager)
    → Kept m
    → Kept (mark_sent stamps i j m).0
unfolding mark_sent
mark_sent-Kept stamps i j m h = go m.active_session h
  where
    go :
        (o : Option DraftSession)
        → Kept (record { active_session = o })
        → Kept (mark_sent stamps i j (record { active_session = o })).0
    go none h = tt
    go (some s) h = elim (Bool-cases (is_sendable s)) [
      | inr a ↦ rw (a, mark_sent) h
      | inl a ↦ elim (Bool-cases (agrees i (some s.id))) [
        | inr b ↦ rw (a, b, mark_sent) h
        | inl b ↦ elim (Bool-cases (agrees j s.current_revision_id)) [
          | inr c ↦ rw (a, b, c, mark_sent) h
          | inl c ↦ rw (a, b, c, mark_sent) tt
        ]
      ]
    ]

after_call-Kept : (c : Call) (m : DraftSessionManager) → Kept m → Kept (after_call c m)
unfolding after_call
after_call-Kept (append rewrite stamps u) m h = append_asr_turn-Kept rewrite stamps u m h
after_call-Kept (live rewrite stamps u boundary timestamp classification) m h =
    update_live_draft-Kept rewrite stamps u boundary timestamp classification m h
after_call-Kept (checkpoint stamps boundary timestamp classification) m h =
    mark_live_checkpoint-Kept stamps boundary timestamp classification m h
after_call-Kept (clearing stamps) m h = clear-Kept stamps m h
after_call-Kept (sending stamps i j) m h = mark_sent-Kept stamps i j m h

after_calls-Kept : (cs : List Call) (m : DraftSessionManager) → Kept m → Kept (after_calls cs m)
unfolding after_calls
after_calls-Kept [] m h = h
after_calls-Kept (c ∷ cs) m h = after_calls-Kept cs (after_call c m) (after_call-Kept c m h)

-- After any calls on a new manager, whatever the rewriters return or raise, there is no active session, or
-- it is ready and waits for a confirmation: it has a revision, its draft has that revision's number and id,
-- its plan is for that revision and that session and is not confirmed, and the revision numbers of
-- its snapshots count up to it from 0 without a gap.
pub calls_keep_ready : (cs : List Call) → Kept (after_calls cs (record { active_session = none }))
calls_keep_ready cs = after_calls-Kept cs (record { active_session = none }) tt
