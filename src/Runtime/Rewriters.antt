-- ===== src/Runtime/Rewriters.antt =====
-- runtime/drafts.py: the rewriters, as far as they are no call of a language model. `upper` is `str.upper` on a
-- character; `content` is the text that the model's answer came to.
use Prim.Native.Char.{Char}
use newbro.Prelude.{
  String, [], Bool, true, false, Option, none, some, if◌then◌else◌, ◌⊎◌, inl, inr, ◌≡◌, refl,
  Bool-cases,
}
use newbro.Prelude.Text.{◌==◌, truthy, strip, first_text}
use newbro.Protocol.Drafts.{AsrTurn, Draft, TaskSpec}
use newbro.Runtime.Wording.{draft_locale, clean_goal, last_update_summary}
use newbro.Runtime.Dispatch.{formulate_task_spec, default_bro_id}
use newbro.Runtime.Drafts.{Result, append_asr_turn, rewritten}
use newbro.Runtime.Revising.{
  DraftRewriteInput, Stamps, Utterance, DraftSessionManager, open_session, turn_of,
  apply_draft_revision,
}

unfoldable pub turn_text : AsrTurn → String
unfolding strip
turn_text turn = strip (first_text turn.normalized_text turn.raw_text)

-- A draft as a rewriter makes it: it has no revision yet.
abbrev draft_of : String → String → TaskSpec → Draft
draft_of text summary spec = record {
  text = text;
  last_update_summary = summary;
  task_spec = some spec;
  missing_context = [];
  revision_id = none;
  revision_number = 0;
  updated_at = none;
}

-- The text of a draft; a turn that comes to nothing gets a text that asks.
unfoldable pub goal_or_clarify : (Char → String) → String → String → String
unfolding clean_goal strip
goal_or_clarify upper s locale =
    let goal = clean_goal upper s locale in
    if truthy (strip goal)
    then goal
    else if locale == "zh"
    then "执行前先澄清要完成的任务。"
    else "Clarify the requested task before execution."

-- `DeterministicDraftRewriter.rewrite`
unfoldable pub rewrite_deterministic : (Char → String) → DraftRewriteInput → Draft
unfolding turn_text draft_locale last_update_summary formulate_task_spec goal_or_clarify
rewrite_deterministic upper payload =
    let s = turn_text payload.new_turn in
    let locale = draft_locale s in
    let text = goal_or_clarify upper s locale in
    draft_of text (last_update_summary payload.previous_draft text locale)
      (formulate_task_spec text payload.assigned_bro_id)

-- `UnavailableDraftRewriter.rewrite`
unfoldable pub rewrite_unavailable : DraftRewriteInput → Draft ⊎ String
rewrite_unavailable payload = inr "Draft generation requires a configured LLM provider."

unfoldable pub draft_from_plain_text : String → Option Draft → String → Draft ⊎ String
unfolding strip last_update_summary formulate_task_spec
draft_from_plain_text content previous locale =
    let text = strip content in
    if truthy text
    then inl (
        draft_of text (last_update_summary previous text locale)
          (formulate_task_spec text default_bro_id))
    else inr "Draft cleaner returned empty content."

-- `OpenAIDraftRewriter.rewrite` from the model's answer on.
unfoldable pub rewrite_openai : String → DraftRewriteInput → Draft ⊎ String
unfolding draft_from_plain_text turn_text draft_locale
rewrite_openai content payload =
    draft_from_plain_text content payload.previous_draft (draft_locale (turn_text payload.new_turn))

asked :
    (zh : Bool)
    → truthy
        (strip (if zh then "执行前先澄清要完成的任务。" else "Clarify the requested task before execution."))
      ≡ true
unfolding strip
asked true = refl
asked false = refl

goal_or_clarify-truthy :
    (upper : Char → String) (s locale : String)
    → truthy (strip (goal_or_clarify upper s locale)) ≡ true
unfolding goal_or_clarify
goal_or_clarify-truthy upper s locale =
    elim (Bool-cases (truthy (strip (clean_goal upper s locale)))) [
      | inl h ↦ rw (h, goal_or_clarify) h
      | inr h ↦ rw (h, goal_or_clarify) (asked (locale == "zh"))
    ]

-- A call has given a draft whose text is not blank, for this bro, and it is the active session's.
abbrev pub Drafted : String → Result → Type 0
Drafted bro (m, inl t) =
    (m.active_session ≡ some t)
    × ((d : Draft) × (t.current_draft ≡ some d)
        × (truthy (strip d.text) ≡ true)
        × ((spec : TaskSpec) × (d.task_spec ≡ some spec)
            × (spec.target_agent ≡ first_text (some bro) default_bro_id)))
Drafted bro (m, inr e) = ⊥

-- With the deterministic rewriter, speech that is not blank always comes to a draft with a text that
-- is not blank, for the bro of the session that is open, or the default one if it names none, and the
-- session with that draft is the active one.
pub deterministic_turn_drafts :
    (upper : Char → String) (stamps : Stamps) (u : Utterance) (m : DraftSessionManager)
    → truthy (strip u.raw_text) ≡ true
    → Drafted
        (open_session stamps u.assigned_bro_id m).1.assigned_bro_id
        (append_asr_turn (λ payload. inl (rewrite_deterministic upper payload)) stamps u m)
unfolding append_asr_turn apply_draft_revision rewrite_deterministic formulate_task_spec rewritten
deterministic_turn_drafts upper stamps u m h =
    let s = turn_text (turn_of stamps u) in
    rw (h, append_asr_turn)
      (refl, (_, refl, goal_or_clarify-truthy upper s (draft_locale s), (_, refl, refl)))
