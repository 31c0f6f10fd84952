-- ===== src/Runtime/Drafts/Working.antt =====
-- runtime/drafts.py: the session that a turn works on, and what the calls for it have in common.
use newbro.Prelude.{
  suc, String, [], ◌∷◌, ◌++◌, true, false, Option, none, some, ◌≡◌, refl, arith, inl, inr,
  Bool-cases, ◌||◌, if◌then◌else◌, ◌≢◌,
}
use newbro.Prelude.Text.{truthy, strip, eq_iff, first_text}
use newbro.Protocol.Drafts.{
  DraftSession, DraftSessionStatus, draft_session_status_is, Draft, DraftSnapshot,
}
use newbro.Runtime.Drafts.{Result, rewritten}
use newbro.Runtime.Revising.{
  Stamps, Utterance, DraftSessionManager, open_session, assign_bro, new_session, is_closed, turn_of,
}
use newbro.Runtime.Drafts.Steps.{Rewriter}

-- The manager with the bro that a turn names, if it names one, for its session that takes turns.
unfoldable pub with_bro : Option String → DraftSessionManager → DraftSessionManager
with_bro bro m = elim m.active_session [
  | none ↦ record { active_session = none }
  | some s ↦ record {
    active_session = some (
        if draft_session_status_is s.status DraftSessionStatus.sent
          || draft_session_status_is s.status DraftSessionStatus.cleared
        then s
        else record s { assigned_bro_id = first_text bro s.assigned_bro_id });
  }
]

pub open_session-with_bro :
    (stamps : Stamps) (bro : Option String) (m : DraftSessionManager)
    → (open_session stamps bro m).0 ≡ with_bro bro m
unfolding open_session with_bro assign_bro
open_session-with_bro stamps bro m = go m.active_session
  where
    go :
        (o : Option DraftSession)
        → (open_session stamps bro (record { active_session = o })).0
          ≡ with_bro bro (record { active_session = o })
    go none = refl
    go (some s) = elim (Bool-cases (is_closed s)) [
      | inl c ↦ rw (c, open_session, with_bro) refl
      | inr c ↦ rw (c, open_session, with_bro) refl
    ]

-- The session that a turn works on: the active one if it takes turns, else a new one.
unfoldable pub session_at : Stamps → Option String → DraftSessionManager → DraftSession
unfolding with_bro new_session
session_at stamps bro m = elim (with_bro bro m).active_session [
  | none ↦ new_session stamps bro
  | some s ↦
      if draft_session_status_is s.status DraftSessionStatus.sent
        || draft_session_status_is s.status DraftSessionStatus.cleared
      then new_session stamps bro
      else s
]

pub open_session-session_at :
    (stamps : Stamps) (bro : Option String) (m : DraftSessionManager)
    → (open_session stamps bro m).1 ≡ session_at stamps bro m
unfolding open_session session_at with_bro assign_bro
open_session-session_at stamps bro m = go m.active_session
  where
    go :
        (o : Option DraftSession)
        → (open_session stamps bro (record { active_session = o })).1
          ≡ session_at stamps bro (record { active_session = o })
    go none = refl
    go (some s) = elim (Bool-cases (is_closed s)) [
      | inl c ↦ rw (c, open_session, session_at, with_bro, c) refl
      | inr c ↦ rw (c, open_session, session_at, with_bro, c) refl
    ]

pub blank : (u : Utterance) → truthy (strip u.raw_text) ≡ false → strip u.raw_text ≡ ""
blank u h = ground (arith, eq_iff (strip u.raw_text) "")

-- The draft of a session's next revision.
abbrev pub revised : Stamps → DraftSession → Draft → Draft
revised stamps s d = record d {
  revision_id = some stamps.revision_id;
  revision_number = suc s.current_revision_number;
  updated_at = some stamps.created_at;
}

-- The call raises and leaves this manager.
abbrev pub Raises : String → DraftSessionManager → Result → Type 0
Raises e n result = (result.1 ≡ inr e) × (result.0 ≡ n)

-- The rewriter raises on the turn, and so does the call, with the manager as it was but for the bro.
abbrev pub RewriterRaises :
    Rewriter → Stamps → Utterance → DraftSession → DraftSessionManager → Result → Type 0
RewriterRaises rewrite stamps u s m result =
    (e : String) × (rewritten rewrite s (turn_of stamps u) ≡ inr e)
    × Raises e (with_bro u.assigned_bro_id m) result

-- The rewriter returns a draft, which is the next revision of the session, with a snapshot of it; the
-- session is returned and is the active one.
abbrev pub Redrafted : Rewriter → Stamps → Utterance → DraftSession → DraftSession → Result → Type 0
Redrafted rewrite stamps u s t result =
    (d : Draft) × (rewritten rewrite s (turn_of stamps u) ≡ inl d)
    × (result ≡ (record { active_session = some t }, inl t))
    × (t.id ≡ s.id)
    × (t.assigned_bro_id ≡ s.assigned_bro_id)
    × (t.current_draft ≡ some (revised stamps s d))
    × (t.current_revision_number ≡ suc s.current_revision_number)
    × ((x : DraftSnapshot) × (t.snapshots ≡ s.snapshots ++ x ∷ [])
        × (x.draft ≡ revised stamps s d)
        × (x.draft_revision_number ≡ t.current_revision_number))

pub not_blank : (u : Utterance) → truthy (strip u.raw_text) ≡ true → strip u.raw_text ≢ ""
not_blank u h e = ground (arith, eq_iff (strip u.raw_text) "")
