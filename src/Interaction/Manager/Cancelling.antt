-- ===== src/Interaction/Manager/Cancelling.antt =====
-- interaction/manager.py: what `cancel_requests_for_task` changes, and that an offered action can be taken.
use newbro.Prelude.{
  String, List, [], ◌∷◌, ◌≡◌, refl, Bool, true, false, ◌&&◌, none, some, arith, if◌then◌else◌, any,
  All, Bool-cases, inl, inr, ◌∙◌, ap, sym,
}
use newbro.Prelude.Text.{◌==◌, eq_iff}
use newbro.Prelude.Dict as D
use newbro.Prelude.Dict.{Dict, values, IsDict, Misses, get-put}
use newbro.Protocol.Enums.{
  InteractionRequestKind, InteractionRequestStatus, AttentionItemStatus,
  interaction_request_status_is,
}
use newbro.Protocol.Records.{InteractionRequest, AttentionItem}
use newbro.Blackboard.State.{Blackboard, publish}
use newbro.Blackboard.Table as Table
use newbro.Blackboard.Table.{list-eq-values}
use newbro.Blackboard.History.Tables.{HasTables}
use newbro.Blackboard.Ordered.{
  put_interaction_request, get_interaction_request, list_interaction_requests, put_attention_item,
  list_attention_items,
}
use newbro.Interaction.Manager.{
  actions_for_kind, resolved_status_for_action, mark_items, mark_attention_for_request, is_open,
  cancelled_request, cancel_all, cancel_requests_for_task,
}

-- Each action that a request of a kind offers leads to a status, and not to that of a request that
-- still waits.
pub offered_action_lem :
    (y : InteractionRequestKind)
    → All
        (λ action.
          (s : InteractionRequestStatus) × (resolved_status_for_action action ≡ some s)
          × (interaction_request_status_is s InteractionRequestStatus.pending ≡ false))
        (actions_for_kind y)
unfolding actions_for_kind resolved_status_for_action
offered_action_lem InteractionRequestKind.permission = ((_, refl, refl), ((_, refl, refl), tt))
offered_action_lem InteractionRequestKind.plan_proposal = ((_, refl, refl), ((_, refl, refl), tt))
offered_action_lem InteractionRequestKind.confirmation = ((_, refl, refl), ((_, refl, refl), tt))
offered_action_lem InteractionRequestKind.question = ((_, refl, refl), tt)

-- The request of an id is the task's and waits.
abbrev pub open_at : String → String → Dict InteractionRequest → Bool
open_at task_id j d = elim (D.get j d) [ none ↦ false | some r ↦ is_open task_id r ]

-- Each request stands under its own id.
abbrev pub Keyed : Dict InteractionRequest → Type 0
Keyed [] = Unit
Keyed ((j, r) ∷ d) = (j ≡ r.request_id) × Keyed d

abbrev names : String → String → InteractionRequest → Bool
names task_id j r = (r.request_id == j) && is_open task_id r

none_named :
    (task_id j : String) (d : Dict InteractionRequest)
    → Keyed d
    → Misses j d
    → any (names task_id j) (values d) ≡ false
unfolding any
none_named task_id j [] k m = refl
none_named task_id j ((i, r) ∷ d) k m =
    ground (arith, none_named task_id j d k.1 m.1, ap (λ x. x == j) k.0)

any-eq-open_at :
    (task_id j : String) (d : Dict InteractionRequest)
    → Keyed d
    → IsDict d
    → any (names task_id j) (values d) ≡ open_at task_id j d
unfolding any D.get
any-eq-open_at task_id j [] k h = refl
any-eq-open_at task_id j ((i, r) ∷ d) k h = elim (Bool-cases (i == j)) [
  | inl e ↦
      let p : i ≡ j = (eq_iff i j).0 e in
      let others : any (names task_id j) (values d) ≡ false =
        rw (← p) (none_named task_id i d k.1 h.0) in
      ground (arith, e, others, ap (λ x. x == j) k.0)
  | inr e ↦ ground (arith, e, any-eq-open_at task_id j d k.1 h.1, ap (λ x. x == j) k.0)
]

pub marked_requests :
    (rid : String) (s : AttentionItemStatus) (is : List AttentionItem) (b : Blackboard)
    → (mark_items rid s is b).interaction_requests ≡ b.interaction_requests
unfolding mark_items put_attention_item publish
marked_requests rid s [] b = refl
marked_requests rid s (i ∷ is) b = ground (
  arith,
  marked_requests rid s is b,
  marked_requests rid s is (put_attention_item (record i { status = s }) b),
)

module _ (now : InteractionRequest → String) (task_id : String) where
  cancelled_get :
      (r : InteractionRequest) (j : String) (b : Blackboard)
      → get_interaction_request j (
          mark_attention_for_request r.request_id AttentionItemStatus.dismissed
            (put_interaction_request (cancelled_request now r) b))
        ≡ (if r.request_id == j
            then some (cancelled_request now r)
            else get_interaction_request j b)
  unfolding get_interaction_request put_interaction_request publish Table.get Table.put
      mark_attention_for_request cancelled_request
  cancelled_get r j b =
      let put = put_interaction_request (cancelled_request now r) b in
      ap (Table.get j)
        (marked_requests r.request_id AttentionItemStatus.dismissed (list_attention_items put) put)
      ∙ get-put r.request_id j (cancelled_request now r) b.interaction_requests.entries

  abbrev waits : String → Blackboard → Bool
  waits j b = elim (get_interaction_request j b) [ none ↦ false | some r ↦ is_open task_id r ]

  cancelled_closed : (r : InteractionRequest) → is_open task_id (cancelled_request now r) ≡ false
  unfolding cancelled_request
  cancelled_closed r = ground arith

  -- What does not wait stays as it does not wait.
  cancel_all-closed :
      (rs : List InteractionRequest) (j : String) (b : Blackboard)
      → waits j b ≡ false
      → waits j (cancel_all now task_id rs b) ≡ false
  unfolding cancel_all
  cancel_all-closed [] j b h = h
  cancel_all-closed (r ∷ rs) j b h =
      let b' =
        mark_attention_for_request r.request_id AttentionItemStatus.dismissed
          (put_interaction_request (cancelled_request now r) b) in
      elim (Bool-cases (is_open task_id r)) [
        | inl o ↦
            rw o
              (cancel_all-closed rs j b' (ground (arith, cancelled_get r j b, cancelled_closed r)))
        | inr c ↦ rw c (cancel_all-closed rs j b h)
      ]

  cancel_all-named :
      (rs : List InteractionRequest) (j : String) (b : Blackboard)
      → any (names task_id j) rs ≡ true
      → waits j (cancel_all now task_id rs b) ≡ false
  unfolding cancel_all any
  cancel_all-named [] j b h = cc
  cancel_all-named (r ∷ rs) j b h =
      let b' =
        mark_attention_for_request r.request_id AttentionItemStatus.dismissed
          (put_interaction_request (cancelled_request now r) b) in
      elim (Bool-cases (is_open task_id r)) [
        | inl o ↦ rw o (elim (Bool-cases (r.request_id == j)) [
          | inl e ↦
              cancel_all-closed rs j b' (ground (arith, cancelled_get r j b, cancelled_closed r, e))
          | inr e ↦ cancel_all-named rs j b' (ground (arith, e))
        ])
        | inr c ↦ rw c (cancel_all-named rs j b (ground (arith, c)))
      ]

  cancel_all-unnamed :
      (rs : List InteractionRequest) (j : String) (b : Blackboard)
      → any (names task_id j) rs ≡ false
      → get_interaction_request j (cancel_all now task_id rs b) ≡ get_interaction_request j b
  unfolding cancel_all any
  cancel_all-unnamed [] j b h = refl
  cancel_all-unnamed (r ∷ rs) j b h =
      let b' =
        mark_attention_for_request r.request_id AttentionItemStatus.dismissed
          (put_interaction_request (cancelled_request now r) b) in
      elim (Bool-cases (is_open task_id r)) [
        | inl o ↦
            rw o
              (cancel_all-unnamed rs j b' (ground arith) ∙ ground (arith, o, cancelled_get r j b))
        | inr c ↦ rw c (cancel_all-unnamed rs j b (ground arith))
      ]

  -- On a blackboard whose tables are well formed and whose requests stand under their ids,
  -- cancelling the requests of a task leaves no request of the task waiting, and every request
  -- that is not a waiting one of the task as it was.
  pub cancel_requests_for_task_lem :
      (j : String) (b : Blackboard)
      → HasTables b
      → Keyed b.interaction_requests.entries
      → let b' = cancel_requests_for_task now task_id b in
        (open_at task_id j b'.interaction_requests.entries ≡ false)
        × (open_at task_id j b.interaction_requests.entries ≡ false
            → get_interaction_request j b' ≡ get_interaction_request j b)
  unfolding cancel_requests_for_task get_interaction_request list_interaction_requests Table.get
  cancel_requests_for_task_lem j b h k =
      let rs = list_interaction_requests b in
      let listed : any (names task_id j) rs ≡ open_at task_id j b.interaction_requests.entries =
        ap (any (names task_id j)) (list-eq-values b.interaction_requests h.requests)
        ∙ any-eq-open_at task_id j b.interaction_requests.entries k h.requests.distinct in
      (
        elim (Bool-cases (any (names task_id j) rs)) [
          | inl e ↦ cancel_all-named rs j b e
          | inr e ↦ cancel_all-closed rs j b (sym listed ∙ e)
        ],
        λ closed. cancel_all-unnamed rs j b (listed ∙ closed),
      )
