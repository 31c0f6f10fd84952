-- ===== src/Runtime/Drafts/Sending.antt =====
-- runtime/drafts.py: when a draft is sent.
use newbro.Prelude.{
  String, List, [], ◌∷◌, true, false, ◌&&◌, Option, some, ◌≡◌, refl, arith, inl, inr, Bool-cases,
}
use mathlib.Core.Path.{subst}
use newbro.Protocol.Drafts.{DraftSession, DraftSessionStatus, DraftSnapshot}
use newbro.Runtime.Drafts.{Result, mark_sent, is_sendable, agrees}
use newbro.Runtime.Revising.{Stamps, DraftSessionManager}
use newbro.Runtime.Drafts.Revisions.{IsReady, Climbs}

-- A ready session has a draft, and a snapshot of it.
sendable : (s : DraftSession) → IsReady s → is_sendable s ≡ true
sendable s h = go s.snapshots refl
  where
    go : (xs : List DraftSnapshot) → s.snapshots ≡ xs → is_sendable s ≡ true
    go [] e = absurd (
        let n : 0 ≡ s.current_revision_number =
          subst (λ xs. Climbs 0 xs s.current_revision_number) e h.counted in
        omega (arith, n, h.numbered))
    go (x ∷ xs) e = ground (arith, h.drafted, e)

-- What the manager answers to a request to send the active session: the session, sent, if what the caller
-- names is what there is, and then no session is active and a later request is refused; otherwise an
-- exception, and nothing changes.
abbrev pub Answer :
    Option String → Option String → DraftSession → (DraftSessionManager → Result) → Result → Type 0
Answer i j s later (m, inl sent) =
    ((agrees i (some s.id) && agrees j s.current_revision_id) ≡ true)
    × (later m ≡ (m, inr "No draft is ready to send."))
    × (sent.status ≡ DraftSessionStatus.sent)
    × (sent.current_draft ≡ s.current_draft)
    × (sent.snapshots ≡ s.snapshots)
Answer i j s later (m, inr e) =
    ((agrees i (some s.id) && agrees j s.current_revision_id) ≡ false) × (m.active_session ≡ some s)

-- A ready session is sent exactly when the session and the revision that the caller names, if it names
-- one, are the active ones. Then it is marked as sent, with its draft and its snapshots as they were, and
-- it is sent once: any later call to send, whatever it names, raises that no draft is ready and changes
-- nothing. If the session is not sent, the call raises and the session stays active.
pub mark_sent_answers :
    (stamps stamps' : Stamps) (i j i' j' : Option String) (s : DraftSession)
    → IsReady s
    → Answer i j s
        (mark_sent stamps' i' j')
        (mark_sent stamps i j (record { active_session = some s }))
unfolding mark_sent
mark_sent_answers stamps stamps' i j i' j' s h =
    let a = sendable s h in
    elim (Bool-cases (agrees i (some s.id))) [
      | inr b ↦ rw (a, b, mark_sent) (ground (arith, b), refl)
      | inl b ↦ elim (Bool-cases (agrees j s.current_revision_id)) [
        | inr c ↦ rw (a, b, c, mark_sent) (ground (arith, b, c), refl)
        | inl c ↦ rw (a, b, c, mark_sent) (ground (arith, b, c), refl, refl, refl, refl)
      ]
    ]
