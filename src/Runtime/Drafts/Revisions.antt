-- ===== src/Runtime/Drafts/Revisions.antt =====
-- runtime/drafts.py: a session, its current draft and its snapshots over any sequence of calls.
use newbro.Prelude.{
  ℕ, suc, ◌≤◌, String, List, [], ◌∷◌, ◌++◌, false, Option, none, some, ◌≡◌, refl, arith, ◌⊎◌, inl,
  inr, Bool-cases,
}
use newbro.Protocol.Enums.{RuntimeSessionState}
use newbro.Protocol.Drafts.{DraftSessionStatus, Draft, DraftSnapshot, DraftSession, DispatchPlan}
use newbro.Runtime.Dispatch.{build_dispatch_plan}
use newbro.Runtime.Revising.{
  Stamps, DraftSessionManager, open_session, new_session, assign_bro, is_closed,
  apply_draft_revision,
}

-- The revision numbers of the snapshots begin at a number, each repeats the one before or is the next,
-- and they end at a number.
abbrev pub Climbs : ℕ → List DraftSnapshot → ℕ → Type 0
Climbs n [] m = n ≡ m
Climbs n (x ∷ xs) m =
    ((x.draft_revision_number ≡ n) ⊎ (x.draft_revision_number ≡ suc n))
    × Climbs x.draft_revision_number xs m

pub Climbs-append :
    (n m : ℕ) (xs : List DraftSnapshot) (x : DraftSnapshot)
    → Climbs n xs m
    → (x.draft_revision_number ≡ m) ⊎ (x.draft_revision_number ≡ suc m)
    → Climbs n (xs ++ x ∷ []) x.draft_revision_number
Climbs-append n m [] x h s = (ground (arith, h, s), refl)
Climbs-append n m (y ∷ ys) x h s = (h.0, Climbs-append y.draft_revision_number m ys x h.1 s)

-- What is kept between calls: the session is ready, its draft carries its revision, its plan is for that
-- revision and not yet confirmed, and the snapshots count up to it.
pub record IsReady (s : DraftSession) : Type 0 where
  pub draft : Draft
  pub plan : DispatchPlan
  pub ready : s.status ≡ DraftSessionStatus.ready
  pub waiting : s.runtime_state ≡ RuntimeSessionState.waiting_for_confirmation
  pub drafted : s.current_draft ≡ some draft
  pub revised :
      (draft.revision_number ≡ s.current_revision_number)
      × (draft.revision_id ≡ s.current_revision_id)
  pub planned : s.current_dispatch_plan ≡ some plan
  pub for_revision :
      (plan.draft_revision_number ≡ s.current_revision_number)
      × (plan.draft_revision_id ≡ s.current_revision_id)
  pub for_session : plan.draft_session_id ≡ s.id
  pub unconfirmed : plan.user_confirmed ≡ false
  pub counted : Climbs 0 s.snapshots s.current_revision_number
  pub numbered : 1 ≤ s.current_revision_number

abbrev pub Kept : DraftSessionManager → Type 0
Kept m = elim m.active_session [ none ↦ Unit {0} | some s ↦ IsReady s ]

abbrev pub Counted : DraftSession → Type 0
Counted s = Climbs 0 s.snapshots s.current_revision_number

assign_bro-IsReady :
    (bro : Option String) (s : DraftSession) → IsReady s → IsReady (assign_bro bro s)
unfolding assign_bro
assign_bro-IsReady bro s h = record {
  draft = h.draft;
  plan = h.plan;
  ready = h.ready;
  waiting = h.waiting;
  drafted = h.drafted;
  revised = h.revised;
  planned = h.planned;
  for_revision = h.for_revision;
  for_session = h.for_session;
  unconfirmed = h.unconfirmed;
  counted = h.counted;
  numbered = h.numbered;
}

pub open_session-Counted :
    (stamps : Stamps) (bro : Option String) (m : DraftSessionManager)
    → Kept m
    → let (m', s) = open_session stamps bro m in Kept m' × Counted s
unfolding open_session new_session assign_bro
open_session-Counted stamps bro m h = go m.active_session h
  where
    go :
        (o : Option DraftSession)
        → Kept (record { active_session = o })
        → let (m', s) = open_session stamps bro (record { active_session = o }) in
          Kept m' × Counted s
    go none h = (tt, refl)
    go (some s) h = elim (Bool-cases (is_closed s)) [
      | inl c ↦ rw (c, open_session) (h, refl)
      | inr c ↦ rw (c, open_session) (assign_bro-IsReady bro s h, h.counted)
    ]

pub apply_draft_revision-IsReady :
    (stamps : Stamps) (s : DraftSession) (draft : Draft) (ids : List String) (boundary : String)
    (timestamp : Option ℕ)
    → Counted s
    → IsReady (apply_draft_revision stamps s draft ids boundary timestamp)
unfolding apply_draft_revision build_dispatch_plan
apply_draft_revision-IsReady stamps s draft ids boundary timestamp h = record {
  draft = _;
  plan = _;
  ready = refl;
  waiting = refl;
  drafted = refl;
  revised = (refl, refl);
  planned = refl;
  for_revision = (refl, refl);
  for_session = refl;
  unconfirmed = refl;
  counted = Climbs-append 0 s.current_revision_number s.snapshots _ h (inr refl);
  numbered = omega arith;
}
