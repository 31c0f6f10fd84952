-- ===== src/Nodes/Registry/Credentials.antt =====
-- executors/node/registry.py: the operations of the registry and the access table.
use newbro.Nodes.Registry.Access.{
  AccessTable, revoke, permit, permit_all, Agrees, grant-Agrees, kept-Agrees, revoke-Agrees,
  unknown-Agrees,
}
use newbro.Prelude.{
  String, List, [], ◌∷◌, ◌≡◌, refl, Bool, true, false, ◌&&◌, Option, arith, Option-cases, inl, inr,
}
use newbro.Prelude.Text.{truthy, strip}
use newbro.Prelude.Dict as D
use newbro.Prelude.Dict.{Dict, IsDict, get-put, get-pop}
use newbro.Nodes.Records.{StoredExecutorNodeRecord}
use newbro.Prelude.Attempt.{Attempt-cases, returned, raised}
use newbro.Nodes.Checks.{
  required_name, required_executors, normalize_executor_list, one_executor, normalize_optional_text,
  updated_record, with_agent,
}
use newbro.Nodes.Checks.Shape.{is_one, required_executors-is_one}
use newbro.Nodes.Registry.{
  ExecutorNodeRegistry, create_node, update_node, rotate_credentials, delete_node, note_connected,
  note_seen, stored, new_record, with_token, has_node,
}
use newbro.Nodes.Registry.Operations.{
  Operation, create, update, rotate, delete, connected_at, seen_at, step, perform,
}
use newbro.Nodes.Registry.Soundness.{Sound, step-Sound}

module _ (lower hash_token : String → String) where
  new_record-token_hash :
      (suffix token name : String) (xs : List String) (agent : Option String)
      → (new_record lower hash_token suffix token name xs agent).token_hash ≡ hash_token token
  unfolding new_record
  new_record-token_hash suffix token name xs agent = refl

  updated_record-token_hash :
      (r u : StoredExecutorNodeRecord) (name : Option String) (xs : Option (List String))
      (agent : Option String)
      → updated_record r name xs agent ≡ returned u
      → u.token_hash ≡ r.token_hash
  unfolding updated_record with_agent
  updated_record-token_hash r u name xs agent h = ground arith

  one_executor-raised :
      (vs : List String) (e : String) → one_executor vs ≡ raised e → is_one vs ≡ false
  unfolding one_executor
  one_executor-raised [] e h = refl
  one_executor-raised (x ∷ []) e h = ground arith
  one_executor-raised (x ∷ y ∷ ys) e h = refl

  -- A name that is not blank and one executor.
  abbrev creatable : String → List String → Bool
  creatable name xs = truthy (strip name) && is_one (normalize_executor_list xs)

  nameless :
      (name e : String) (xs : List String)
      → required_name name ≡ raised e
      → creatable name xs ≡ false
  unfolding required_name
  nameless name e xs p = ground arith

  not_one :
      (name e : String) (xs : List String)
      → required_executors xs ≡ raised e
      → creatable name xs ≡ false
  unfolding required_executors
  not_one name e xs q = ground (arith, one_executor-raised (normalize_executor_list xs) e q)

  one_executor-returned :
      (vs xs : List String) → one_executor vs ≡ returned xs → is_one vs ≡ is_one xs
  unfolding one_executor
  one_executor-returned [] xs h = ground arith
  one_executor-returned (x ∷ []) xs h = ground arith
  one_executor-returned (x ∷ y ∷ ys) xs h = ground arith

  created :
      (name n : String) (xs ys : List String)
      → required_name name ≡ returned n
      → required_executors xs ≡ returned ys
      → creatable name xs ≡ true
  unfolding required_name required_executors
  created name n xs ys p q = ground (
    arith,
    one_executor-returned (normalize_executor_list xs) ys q,
    required_executors-is_one xs ys q,
  )

  create-Agrees :
      (suffix token name : String) (xs : List String) (agent : Option String) (A : AccessTable)
      (g : ExecutorNodeRegistry)
      → Agrees lower hash_token A g
      → Agrees lower hash_token
          (permit lower hash_token (create suffix token name xs agent) A)
          (step lower hash_token (create suffix token name xs agent) g)
  unfolding step stored create_node
  create-Agrees suffix token name xs agent A g a = elim (Attempt-cases (required_name name)) [
    | inr (e, p) ↦ rw (nameless name e xs p, p, create_node) a
    | inl (n, p) ↦ elim (Attempt-cases (required_executors xs)) [
      | inr (e, q) ↦ rw (not_one name e xs q, p, q, create_node) a
      | inl (ys, q) ↦
          let r = new_record lower hash_token suffix token n ys (normalize_optional_text agent) in
          rw (created name n xs ys p q, p, q, create_node)
            (grant-Agrees lower hash_token A g _ token r a
              (new_record-token_hash suffix token n ys (normalize_optional_text agent)))
    ]
  ]

  update-Agrees :
      (k : String) (name : Option String) (xs : Option (List String)) (agent : Option String)
      (A : AccessTable) (g : ExecutorNodeRegistry)
      → Agrees lower hash_token A g
      → Agrees lower hash_token A (step lower hash_token (update k name xs agent) g)
  unfolding step update_node
  update-Agrees k name xs agent A g a = elim (Option-cases (D.get k g.records)) [
    | inl p ↦ rw (p, update_node) a
    | inr (r, p) ↦ elim (Attempt-cases (updated_record r name xs agent)) [
      | inr (e, q) ↦ rw (p, q, update_node) a
      | inl (u, q) ↦
          rw (p, q, update_node)
            (kept-Agrees lower hash_token A g k r u a p
              (updated_record-token_hash r u name xs agent q))
    ]
  ]

  rotate-Agrees :
      (token k : String) (A : AccessTable) (g : ExecutorNodeRegistry)
      → Agrees lower hash_token A g
      → Agrees lower hash_token
          (permit lower hash_token (rotate token k) A)
          (step lower hash_token (rotate token k) g)
  unfolding step rotate_credentials with_token has_node
  rotate-Agrees token k A g a = elim (Option-cases (D.get k g.records)) [
    | inl p ↦
        let unknown : A.known k ≡ false = ground (arith, p, a.known k) in
        rw (p, unknown, rotate_credentials) a
    | inr (r, p) ↦
        let is_known : A.known k ≡ true = ground (arith, p, a.known k) in
        rw (p, is_known, rotate_credentials)
          (grant-Agrees lower hash_token A g k token (with_token lower hash_token token r) a refl)
  ]

  delete-Agrees :
      (k : String) (A : AccessTable) (g : ExecutorNodeRegistry)
      → IsDict g.records
      → Agrees lower hash_token A g
      → Agrees lower hash_token (revoke lower hash_token k A) (step lower hash_token (delete k) g)
  unfolding step delete_node
  delete-Agrees k A g d a = elim (Option-cases (D.get k g.records)) [
    | inl p ↦ rw (p, step, delete_node) (unknown-Agrees lower hash_token A g k a p)
    | inr (r, p) ↦ rw (p, step, delete_node) (revoke-Agrees lower hash_token A g k d a)
  ]

  connected-Agrees :
      (t k : String) (A : AccessTable) (g : ExecutorNodeRegistry)
      → Agrees lower hash_token A g
      → Agrees lower hash_token A (step lower hash_token (connected_at t k) g)
  unfolding step note_connected
  connected-Agrees t k A g a = elim (Option-cases (D.get k g.records)) [
    | inl p ↦ rw (p, note_connected) a
    | inr (r, p) ↦ rw (p, note_connected) (kept-Agrees lower hash_token A g k r _ a p refl)
  ]

  seen-Agrees :
      (t k : String) (A : AccessTable) (g : ExecutorNodeRegistry)
      → Agrees lower hash_token A g
      → Agrees lower hash_token A (step lower hash_token (seen_at t k) g)
  unfolding step note_seen
  seen-Agrees t k A g a = elim (Option-cases (D.get k g.records)) [
    | inl p ↦ rw (p, note_seen) a
    | inr (r, p) ↦ rw (p, note_seen) (kept-Agrees lower hash_token A g k r _ a p refl)
  ]

  step-Agrees :
      (o : Operation) (A : AccessTable) (g : ExecutorNodeRegistry)
      → IsDict g.records
      → Agrees lower hash_token A g
      → Agrees lower hash_token (permit lower hash_token o A) (step lower hash_token o g)
  step-Agrees (create suffix token name xs agent) A g d a =
      create-Agrees suffix token name xs agent A g a
  step-Agrees (update k name xs agent) A g d a = update-Agrees k name xs agent A g a
  step-Agrees (rotate token k) A g d a = rotate-Agrees token k A g a
  step-Agrees (delete k) A g d a = delete-Agrees k A g d a
  step-Agrees (connected_at t k) A g d a = connected-Agrees t k A g a
  step-Agrees (seen_at t k) A g d a = seen-Agrees t k A g a

  -- Sequences of operations on a sound registry implement the access table: when the table is what
  -- the registry answers at first, `has_node` and `verify_credentials` answer afterwards as the
  -- table does that a creation with a name and one executor and a rotation for a known node grant
  -- their token, and no earlier one, that a deletion revokes, and that nothing else changes.
  pub perform-Agrees :
      (os : List Operation) (A : AccessTable) (g : ExecutorNodeRegistry)
      → Sound lower hash_token g
      → Agrees lower hash_token A g
      → Agrees lower hash_token (permit_all lower hash_token os A) (perform lower hash_token os g)
  unfolding perform
  perform-Agrees [] A g s a = a
  perform-Agrees (o ∷ os) A g s a =
      perform-Agrees os (permit lower hash_token o A) (step lower hash_token o g)
        (step-Sound lower hash_token o g s) (step-Agrees o A g s.distinct a)
