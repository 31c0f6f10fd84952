-- ===== src/Interaction/Resolution/Finality.antt =====
-- interaction/manager.py: a request is resolved at most once.
use newbro.Prelude.{
  String, [], ◌∷◌, ◌≡◌, refl, true, false, Option, some, arith, if◌then◌else◌, Option-cases, inl,
  inr, ◌∙◌, ap,
}
use newbro.Prelude.Text.{◌==◌, eq_iff}
use newbro.Prelude.Dict as D
use newbro.Prelude.Dict.{Dict, get-put}
use newbro.Prelude.Json.{Value}
use newbro.Prelude.Attempt.{Attempt-cases, returned, raised}
use newbro.Protocol.Enums.{
  InteractionRequestStatus, AttentionItemStatus, interaction_request_status_is,
}
use newbro.Protocol.Records.{InteractionRequest}
use newbro.Blackboard.State.{Blackboard, publish}
use newbro.Blackboard.Table as Table
use newbro.Blackboard.Ordered.{
  put_interaction_request, get_interaction_request, list_attention_items,
}
use newbro.Interaction.Proposals.{Answers}
use newbro.Interaction.Manager.{resolved_status_for_action, mark_attention_for_request}
use newbro.Interaction.Manager.Cancelling.{Keyed, marked_requests}
use newbro.Interaction.Resolution.{
  Resolving, InteractionResolution, resolved_request, proposal_answers, checked_resolution,
  resolve_request,
}

abbrev pub no_longer_pending : String
no_longer_pending = "Interaction request is no longer pending."

resolved_status-closed :
    (action : String) (s : InteractionRequestStatus)
    → resolved_status_for_action action ≡ some s
    → interaction_request_status_is s InteractionRequestStatus.pending ≡ false
unfolding resolved_status_for_action
resolved_status-closed action s h = ground arith

Keyed-get :
    (j : String) (d : Dict InteractionRequest) (r : InteractionRequest)
    → Keyed d
    → D.get j d ≡ some r
    → (r.request_id == j) ≡ true
unfolding D.get
Keyed-get j [] r k h = cc
Keyed-get j ((i, w) ∷ d) r k h = ground (arith, Keyed-get j d r k.1, ap (λ x. x == j) k.0)

module _ (show : Value → String) where
  checked_resolution-closed :
      (r : InteractionRequest) (c : Resolving) (t : Option String) (a : Option Answers)
      (s : InteractionRequestStatus)
      → checked_resolution show r c ≡ returned (t, a, s)
      → interaction_request_status_is s InteractionRequestStatus.pending ≡ false
  unfolding checked_resolution
  checked_resolution-closed r c t a s h = elim (Attempt-cases (proposal_answers show r c)) [
    | inr (e, p) ↦ ground (arith, p)
    | inl ((t', a'), p) ↦ elim (Option-cases (resolved_status_for_action c.action)) [
      | inl q ↦ ground (arith, p, q)
      | inr (s', q) ↦ ground (arith, p, q, resolved_status-closed c.action s' q)
    ]
  ]

  closed_refused :
      (r : InteractionRequest) (c : Resolving)
      → interaction_request_status_is r.status InteractionRequestStatus.pending ≡ false
      → checked_resolution show r c ≡ raised no_longer_pending
  unfolding checked_resolution
  closed_refused r c h = rw h refl

  written_get :
      (u : InteractionRequest) (rid j : String) (b : Blackboard)
      → get_interaction_request j
          (mark_attention_for_request rid AttentionItemStatus.acted (put_interaction_request u b))
        ≡ (if u.request_id == j then some u else get_interaction_request j b)
  unfolding get_interaction_request put_interaction_request publish Table.get Table.put
      mark_attention_for_request
  written_get u rid j b =
      let put = put_interaction_request u b in
      ap (Table.get j)
        (marked_requests rid AttentionItemStatus.acted (list_attention_items put) put)
      ∙ get-put u.request_id j u b.interaction_requests.entries

  -- What a resolution that returns has found, checked and written.
  record Written (at request_id : String) (c : Resolving) (b b' : Blackboard) : Type 0 where
    request : InteractionRequest
    text : Option String
    answers : Option Answers
    status : InteractionRequestStatus
    found : get_interaction_request request_id b ≡ some request
    checked : checked_resolution show request c ≡ returned (text, answers, status)
    left :
        b'
        ≡ mark_attention_for_request request.request_id AttentionItemStatus.acted
            (put_interaction_request (resolved_request request c answers status at) b)

  resolve_request-returned :
      (at request_id : String) (c : Resolving) (b b' : Blackboard) (x : InteractionResolution)
      → resolve_request show at request_id c b ≡ (b', returned x)
      → Written at request_id c b b'
  unfolding resolve_request
  resolve_request-returned at request_id c b b' x h =
      elim (Option-cases (get_interaction_request request_id b)) [
        | inl e ↦ absurd (ground (arith, e))
        | inr (r, e) ↦ elim (Attempt-cases (checked_resolution show r c)) [
          | inr (m, q) ↦ absurd (ground (arith, e, q))
          | inl ((t, a, s), q) ↦ record {
            request = r;
            text = t;
            answers = a;
            status = s;
            found = e;
            checked = q;
            left = ground (arith, e, q);
          }
        ]
      ]

  reopened :
      (at request_id : String) (u : InteractionRequest) (c : Resolving) (b : Blackboard)
      → get_interaction_request request_id b ≡ some u
      → interaction_request_status_is u.status InteractionRequestStatus.pending ≡ false
      → resolve_request show at request_id c b ≡ (b, raised no_longer_pending)
  unfolding resolve_request
  reopened at request_id u c b e closed = rw (e, closed_refused u c closed, resolve_request) refl

  -- Where the requests stand under their ids: if resolving a request returns, every later resolution of
  -- it, by whatever action, raises that it is no longer pending and writes nothing, and every other
  -- request is as it was.
  pub resolve_request_once :
      (at later request_id : String) (c again : Resolving) (b b' : Blackboard)
      (x : InteractionResolution)
      → Keyed b.interaction_requests.entries
      → resolve_request show at request_id c b ≡ (b', returned x)
      → (resolve_request show later request_id again b' ≡ (b', raised no_longer_pending))
        × ((j : String)
            → (request_id == j) ≡ false
            → get_interaction_request j b' ≡ get_interaction_request j b)
  unfolding resolved_request D.get get_interaction_request
  resolve_request_once at later request_id c again b b' x k h =
      let w = resolve_request-returned at request_id c b b' x h in
      let u = resolved_request w.request c w.answers w.status at in
      let same : (u.request_id == request_id) ≡ true =
        Keyed-get request_id b.interaction_requests.entries w.request k w.found in
      let there : get_interaction_request request_id b' ≡ some u =
        ap (get_interaction_request request_id) w.left
        ∙ written_get u w.request.request_id request_id b
        ∙ ground (arith, same) in
      (
        reopened later request_id u again b' there
            (checked_resolution-closed w.request c w.text w.answers w.status w.checked),
        λ j ne.
            ap (get_interaction_request j) w.left
            ∙ written_get u w.request.request_id j b
            ∙ ground (
              arith,
              same,
              ne,
              eq_iff u.request_id request_id,
              eq_iff u.request_id j,
              eq_iff request_id j,
            ),
      )
