-- ===== src/Runtime/Drafts/Turns.antt =====
-- runtime/drafts.py: what a turn of speech does to the draft.
use newbro.Prelude.{
  ℕ, ◌≤◌, String, [], ◌∷◌, ◌++◌, true, false, Option, none, some, ◌≡◌, refl, arith, ◌⊎◌, inl, inr,
  Bool-cases, ltb, ap, ◌≢◌, ◌<◌,
}
use newbro.Prelude.Text.{truthy, strip}
use newbro.Prelude.Json.{Fields}
use newbro.Protocol.Drafts.{DraftSession}
use newbro.Runtime.Drafts.{Result, append_asr_turn, update_live_draft, rewritten}
use newbro.Runtime.Revising.{
  Stamps, Utterance, DraftSessionManager, open_session, apply_draft_revision, is_stale, turn_of,
  turn_ids,
}
use newbro.Runtime.Drafts.Steps.{Rewriter, rewritten_or_raised}
use newbro.Runtime.Drafts.Working.{
  session_at, open_session-with_bro, open_session-session_at, with_bro, blank, not_blank, Raises,
  RewriterRaises, Redrafted,
}
use mathlib.Core.Path.{subst}

-- What a turn of speech comes to, for the session that it works on.
abbrev pub Turned :
    Rewriter → Stamps → Utterance → DraftSession → DraftSessionManager → Result → Type 0
Turned rewrite stamps u s m result =
    ((strip u.raw_text ≡ "") × Raises "ASR turn text must not be empty." m result)
    ⊎ ((strip u.raw_text ≢ "")
        × (RewriterRaises rewrite stamps u s m result
            ⊎ ((t : DraftSession) × Redrafted rewrite stamps u s t result
                × (t.asr_turns ≡ s.asr_turns ++ turn_of stamps u ∷ []))))

append_opened :
    (rewrite : Rewriter) (stamps : Stamps) (u : Utterance) (m : DraftSessionManager)
    → Turned rewrite stamps u
        (open_session stamps u.assigned_bro_id m).1
        m
        (append_asr_turn rewrite stamps u m)
unfolding append_asr_turn apply_draft_revision
append_opened rewrite stamps u m =
    let s = (open_session stamps u.assigned_bro_id m).1 in
    elim (Bool-cases (truthy (strip u.raw_text))) [
      | inr t ↦ inl (blank u t, rw (t, append_asr_turn) (refl, refl))
      | inl t ↦ inr (
        not_blank u t,
        elim (rewritten_or_raised (rewritten rewrite s (turn_of stamps u))) [
          | inr (e, p) ↦ inl (
            e,
            p,
            rw (t, p, append_asr_turn) (refl, open_session-with_bro stamps u.assigned_bro_id m),
          )
          | inl (d, p) ↦
              let heard : DraftSession = record s {
                asr_turns = s.asr_turns ++ turn_of stamps u ∷ [];
              } in
              let next = apply_draft_revision stamps heard d (turn_ids heard) "asr_turn" none in
              inr (
                next,
                (
                  d,
                  p,
                  rw (t, p, append_asr_turn) refl,
                  refl,
                  refl,
                  refl,
                  refl,
                  (_, refl, refl, refl),
                ),
                refl,
              )
        ],
      )
    ]

-- A turn of speech on the session that it works on: the active one, with the bro that the turn names, if
-- it takes turns, else a new one. If the text is blank, the call raises and the manager is as it was. If
-- it is not and the rewriter raises, the call raises the same, and the manager is as it was but for the bro, if the turn
-- names one. If the rewriter returns a draft, the turn is added to the session's, the session has that
-- draft as its next revision, with one more snapshot that carries the draft and the revision's number,
-- and it is returned and is the active one.
pub append_asr_turn_turns :
    (rewrite : Rewriter) (stamps : Stamps) (u : Utterance) (m : DraftSessionManager)
    → Turned rewrite stamps u
        (session_at stamps u.assigned_bro_id m)
        m
        (append_asr_turn rewrite stamps u m)
append_asr_turn_turns rewrite stamps u m =
    subst (λ s. Turned rewrite stamps u s m (append_asr_turn rewrite stamps u m))
      (open_session-session_at stamps u.assigned_bro_id m) (append_opened rewrite stamps u m)

-- The time of a transcript is before that of the last one, where both have one.
abbrev pub Older : Option ℕ → Option ℕ → Type 0
Older (some t) (some seen) = t < seen
Older _ _ = ⊥

abbrev pub NotOlder : Option ℕ → Option ℕ → Type 0
NotOlder (some t) (some seen) = seen ≤ t
NotOlder _ _ = Unit {0}

stale-Older :
    (timestamp : Option ℕ) (s : DraftSession)
    → is_stale timestamp s ≡ true
    → Older timestamp s.live_transcript_timestamp_ms
unfolding is_stale
stale-Older none s h = ground arith
stale-Older (some t) s h = go s.live_transcript_timestamp_ms h
  where
    go : (o : Option ℕ) → (elim o [ none ↦ false | some n ↦ ltb t n ]) ≡ true → Older (some t) o
    go none e = ground arith
    go (some n) e = ground (arith, e)

current-NotOlder :
    (timestamp : Option ℕ) (s : DraftSession)
    → is_stale timestamp s ≡ false
    → NotOlder timestamp s.live_transcript_timestamp_ms
unfolding is_stale
current-NotOlder none s h = tt
current-NotOlder (some t) s h = go s.live_transcript_timestamp_ms h
  where
    go : (o : Option ℕ) → (elim o [ none ↦ false | some n ↦ ltb t n ]) ≡ false → NotOlder (some t) o
    go none e = tt
    go (some n) e = ground (arith, e)

-- What a partial transcript comes to, for the session that it works on.
abbrev pub LiveTurned :
    Rewriter → Stamps → Utterance → Option ℕ → DraftSession → DraftSessionManager → Result → Type 0
LiveTurned rewrite stamps u timestamp s m result =
    ((strip u.raw_text ≡ "") × Raises "Live transcript text must not be empty." m result)
    ⊎ ((strip u.raw_text ≢ "")
        × ((Older timestamp s.live_transcript_timestamp_ms
              × (result ≡ (with_bro u.assigned_bro_id m, inl s)))
            ⊎ (NotOlder timestamp s.live_transcript_timestamp_ms
                × (RewriterRaises rewrite stamps u s m result
                    ⊎ ((t : DraftSession) × Redrafted rewrite stamps u s t result
                        × (t.asr_turns ≡ s.asr_turns)
                        × (t.live_transcript_timestamp_ms ≡ elim timestamp [
                          | none ↦ s.live_transcript_timestamp_ms
                          | some n ↦ some n
                        ]))))))

update_opened :
    (rewrite : Rewriter) (stamps : Stamps) (u : Utterance) (boundary : String)
    (timestamp : Option ℕ) (classification : Option Fields) (m : DraftSessionManager)
    → LiveTurned rewrite stamps u timestamp
        (open_session stamps u.assigned_bro_id m).1
        m
        (update_live_draft rewrite stamps u boundary timestamp classification m)
unfolding update_live_draft apply_draft_revision
update_opened rewrite stamps u boundary timestamp classification m =
    let s = (open_session stamps u.assigned_bro_id m).1 in
    let same = open_session-with_bro stamps u.assigned_bro_id m in
    elim (Bool-cases (truthy (strip u.raw_text))) [
      | inr t ↦ inl (blank u t, rw (t, update_live_draft) (refl, refl))
      | inl t ↦ inr (
        not_blank u t,
        elim (Bool-cases (is_stale timestamp s)) [
          | inl old ↦ inl (
            stale-Older timestamp s old,
            rw (t, old, update_live_draft) (ap (λ (n : DraftSessionManager). (n, inl s)) same),
          )
          | inr new ↦ inr (
            current-NotOlder timestamp s new,
            elim (rewritten_or_raised (rewritten rewrite s (turn_of stamps u))) [
              | inr (e, p) ↦ inl (e, p, rw (t, new, p, update_live_draft) (refl, same))
              | inl (d, p) ↦
                  let classified : DraftSession = record s {
                    live_classification = classification;
                  } in
                  let next =
                    apply_draft_revision stamps classified d (turn_ids s) boundary timestamp in
                  inr (
                    next,
                    (
                      d,
                      p,
                      rw (t, new, p, update_live_draft) refl,
                      refl,
                      refl,
                      refl,
                      refl,
                      (_, refl, refl, refl),
                    ),
                    refl,
                    refl,
                  )
            ],
          )
        ],
      )
    ]

-- A partial transcript on the session that it works on, which is the same one as for a turn of speech. If the text is blank, the call raises and the manager
-- is as it was. If it is not and the transcript is older than the last one that the session has seen, the
-- session is returned as it is, and the manager is as it was but for the bro, if the call names one.
-- Otherwise, if the rewriter raises, the call raises the same with that manager; if it returns a draft,
-- the session adds no turn and has that draft as its next revision, with a snapshot of it, it has seen the
-- time of the transcript, if that has one, and it is returned and is the active one.
pub update_live_draft_turns :
    (rewrite : Rewriter) (stamps : Stamps) (u : Utterance) (boundary : String)
    (timestamp : Option ℕ) (classification : Option Fields) (m : DraftSessionManager)
    → LiveTurned rewrite stamps u timestamp
        (session_at stamps u.assigned_bro_id m)
        m
        (update_live_draft rewrite stamps u boundary timestamp classification m)
update_live_draft_turns rewrite stamps u boundary timestamp classification m =
    subst
      (λ s.
        LiveTurned rewrite stamps u timestamp s m
          (update_live_draft rewrite stamps u boundary timestamp classification m))
      (open_session-session_at stamps u.assigned_bro_id m)
      (update_opened rewrite stamps u boundary timestamp classification m)
