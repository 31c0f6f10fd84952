-- ===== src/Nodes/Checks/Shape.antt =====
-- executors/node/registry.py: what a stored record is like after the checks of `create_node` and
-- `update_node`.
use newbro.Prelude.{
  String, List, [], ◌∷◌, ◌≡◌, Bool, true, false, not, ◌&&◌, ◌||◌, Option, none, some, arith, All,
  any, inl, inr,
}
use newbro.Prelude.Text.{present, truthy, strip}
use newbro.Nodes.Records.{StoredExecutorNodeRecord}
use newbro.Prelude.Attempt.{Attempt-cases, returned}
use newbro.Nodes.Checks.{
  unseen, normalize_executor_list, one_executor, required_name, required_executors,
  normalize_optional_text, has_acpx, optional_name, optional_executors, with_agent, updated_record,
}

abbrev pub is_one : List String → Bool
is_one [] = false
is_one (x ∷ []) = truthy x
is_one (x ∷ y ∷ ys) = false

-- A name, one executor, and an agent where the executor is `acpx`.
abbrev pub is_shaped : StoredExecutorNodeRecord → Bool
is_shaped r =
    truthy r.name
    && is_one r.enabled_executors
    && (not (has_acpx r.enabled_executors) || present r.acpx_agent)

pub required_name-truthy : (s n : String) → required_name s ≡ returned n → truthy n ≡ true
unfolding required_name
required_name-truthy s n h = ground arith

unseen-truthy : (seen vs : List String) → All (λ x. truthy x ≡ true) (unseen seen vs)
unfolding unseen any
unseen-truthy seen [] = tt
unseen-truthy seen (v ∷ vs) =
    ground (arith, unseen-truthy seen vs, unseen-truthy (strip v ∷ seen) vs)

one_executor-is_one :
    (vs xs : List String)
    → All (λ x. truthy x ≡ true) vs
    → one_executor vs ≡ returned xs
    → is_one xs ≡ true
unfolding one_executor
one_executor-is_one [] xs a h = ground arith
one_executor-is_one (v ∷ []) xs a h = ground arith
one_executor-is_one (v ∷ w ∷ vs) xs a h = ground arith

pub required_executors-is_one :
    (vs xs : List String) → required_executors vs ≡ returned xs → is_one xs ≡ true
unfolding required_executors normalize_executor_list
required_executors-is_one vs xs h = one_executor-is_one (unseen [] vs) xs (unseen-truthy [] vs) h

optional_name-truthy :
    (o : Option String) (s n : String)
    → truthy s ≡ true
    → optional_name o s ≡ returned n
    → truthy n ≡ true
unfolding optional_name
optional_name-truthy none s n t h = ground arith
optional_name-truthy (some o) s n t h = required_name-truthy o n h

optional_executors-is_one :
    (o : Option (List String)) (old xs : List String)
    → is_one old ≡ true
    → optional_executors o old ≡ returned xs
    → is_one xs ≡ true
unfolding optional_executors
optional_executors-is_one none old xs t h = ground arith
optional_executors-is_one (some o) old xs t h = required_executors-is_one o xs h

with_agent-is_shaped :
    (r : StoredExecutorNodeRecord)
    → truthy r.name ≡ true
    → is_one r.enabled_executors ≡ true
    → is_shaped (with_agent r) ≡ true
unfolding with_agent
with_agent-is_shaped r t o = ground arith

-- What an update makes of a shaped record is shaped.
pub updated_record-is_shaped :
    (r u : StoredExecutorNodeRecord) (name : Option String) (executors : Option (List String))
    (agent : Option String)
    → is_shaped r ≡ true
    → updated_record r name executors agent ≡ returned u
    → is_shaped u ≡ true
unfolding updated_record
updated_record-is_shaped r u name executors agent s h =
    elim (Attempt-cases (optional_name name r.name)) [
      | inr (e, p) ↦ ground (arith, p)
      | inl (n, p) ↦ elim (Attempt-cases (optional_executors executors r.enabled_executors)) [
        | inr (e, q) ↦ ground (arith, p, q)
        | inl (xs, q) ↦
            let named = optional_name-truthy name r.name n (ground arith) p in
            let one = optional_executors-is_one executors r.enabled_executors xs (ground arith) q in
            ground (
              arith,
              p,
              q,
              with_agent-is_shaped
                  (record r {
                    name = n;
                    enabled_executors = xs;
                    acpx_agent = elim agent [
                      | none ↦ r.acpx_agent
                      | some a ↦ normalize_optional_text (some a)
                    ];
                  })
                  named one,
            )
      ]
    ]
