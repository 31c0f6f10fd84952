-- ===== src/Nodes/Registry/Soundness.antt =====
-- executors/node/registry.py: what the operations of the registry keep true of its records and its file.
use newbro.Prelude.{
  Bool, ◌&&◌, String, List, [], ◌∷◌, ◌≡◌, refl, true, Option, none, some, arith, All, Option-cases,
  Bool-cases, inl, inr,
}
use newbro.Prelude.Text.{◌==◌, truthy, eq_refl}
use newbro.Prelude.Dict as D
use newbro.Prelude.Dict.{Dict, values, IsDict}
use newbro.Nodes.Records.{StoredExecutorNodeRecord}
use newbro.Nodes.Rendering.{write_records}
use newbro.Prelude.Attempt.{Attempt-cases, returned}
use newbro.Nodes.Checks.{
  with_agent, required_name, required_executors, normalize_optional_text, updated_record,
}
use newbro.Nodes.Checks.Shape.{
  is_shaped, is_one, required_name-truthy, required_executors-is_one, updated_record-is_shaped,
}
use newbro.Nodes.Registry.{
  ExecutorNodeRegistry, create_node, update_node, rotate_credentials, delete_node, note_connected,
  note_seen, stored, persisted, new_record, with_token,
}
use newbro.Nodes.Registry.Operations.{
  Operation, create, update, rotate, delete, connected_at, seen_at, step, perform,
}

module _ (lower hash_token : String → String) where
  -- The file, once written, holds what the records are written as.
  abbrev pub Current : Option String → Dict StoredExecutorNodeRecord → Type 0
  Current none records = records ≡ []
  Current (some s) records = s ≡ write_records lower (values records)

  -- A token that is kept is the one whose digest is kept.
  abbrev pub is_matching : StoredExecutorNodeRecord → Bool
  is_matching r = elim r.raw_token [ none ↦ true | some token ↦ r.token_hash == hash_token token ]

  abbrev pub is_kept : StoredExecutorNodeRecord → Bool
  is_kept r = is_shaped r && is_matching r

  pub record Sound (g : ExecutorNodeRegistry) : Type 0 where
    pub distinct : IsDict g.records
    pub kept : All (λ r. is_kept r ≡ true) (values g.records)
    pub current : Current g.file g.records

  All-put :
      (k : String) (r : StoredExecutorNodeRecord) (d : Dict StoredExecutorNodeRecord)
      → is_kept r ≡ true
      → All (λ r. is_kept r ≡ true) (values d)
      → All (λ r. is_kept r ≡ true) (values (D.put k r d))
  unfolding D.put
  All-put k r [] h a = (h, tt)
  All-put k r ((j, w) ∷ d) h a = elim (Bool-cases (j == k)) [
    | inl e ↦ rw e (h, a.1)
    | inr e ↦ rw e (a.0, All-put k r d h a.1)
  ]

  All-pop :
      (k : String) (d : Dict StoredExecutorNodeRecord)
      → All (λ r. is_kept r ≡ true) (values d)
      → All (λ r. is_kept r ≡ true) (values (D.pop k d))
  unfolding D.pop
  All-pop k [] a = tt
  All-pop k ((j, w) ∷ d) a = elim (Bool-cases (j == k)) [
    | inl e ↦ rw e a.1
    | inr e ↦ rw e (a.0, All-pop k d a.1)
  ]

  All-get :
      (k : String) (d : Dict StoredExecutorNodeRecord) (r : StoredExecutorNodeRecord)
      → All (λ r. is_kept r ≡ true) (values d)
      → D.get k d ≡ some r
      → is_kept r ≡ true
  unfolding D.get
  All-get k [] r a h = ground arith
  All-get k ((j, w) ∷ d) r a h = ground (arith, All-get k d r a.1)

  persisted-Sound :
      (d : Dict StoredExecutorNodeRecord)
      → IsDict d
      → All (λ r. is_kept r ≡ true) (values d)
      → Sound (persisted lower hash_token d)
  unfolding persisted
  persisted-Sound d h a = record { distinct = h; kept = a; current = refl }

  put-Sound :
      (k : String) (r : StoredExecutorNodeRecord) (g : ExecutorNodeRegistry)
      → is_kept r ≡ true
      → Sound g
      → Sound (persisted lower hash_token (D.put k r g.records))
  put-Sound k r g h s =
      persisted-Sound (D.put k r g.records) (D.put-IsDict k r g.records s.distinct)
        (All-put k r g.records h s.kept)

  new_record-is_kept :
      (suffix token name : String) (xs : List String) (agent : Option String)
      → truthy name ≡ true
      → is_one xs ≡ true
      → is_kept (new_record lower hash_token suffix token name xs agent) ≡ true
  unfolding new_record
  new_record-is_kept suffix token name xs agent t o = ground (arith, eq_refl (hash_token token))

  with_token-is_kept :
      (token : String) (r : StoredExecutorNodeRecord)
      → is_kept r ≡ true
      → is_kept (with_token lower hash_token token r) ≡ true
  unfolding with_token
  with_token-is_kept token r h = ground (arith, eq_refl (hash_token token))

  pub updated_record-is_matching :
      (r u : StoredExecutorNodeRecord) (name : Option String) (xs : Option (List String))
      (agent : Option String)
      → updated_record r name xs agent ≡ returned u
      → (u.raw_token ≡ r.raw_token) × (u.token_hash ≡ r.token_hash)
  unfolding updated_record with_agent
  updated_record-is_matching r u name xs agent h = (ground arith, ground arith)

  updated_record-is_kept :
      (r u : StoredExecutorNodeRecord) (name : Option String) (xs : Option (List String))
      (agent : Option String)
      → is_kept r ≡ true
      → updated_record r name xs agent ≡ returned u
      → is_kept u ≡ true
  updated_record-is_kept r u name xs agent k h =
      let shaped = updated_record-is_shaped r u name xs agent (ground arith) h in
      let same = updated_record-is_matching r u name xs agent h in
      ground (arith, shaped, same.0, same.1)

  create-Sound :
      (suffix token name : String) (xs : List String) (agent : Option String)
      (g : ExecutorNodeRegistry)
      → Sound g
      → Sound (step lower hash_token (create suffix token name xs agent) g)
  unfolding step create_node stored
  create-Sound suffix token name xs agent g s = elim (Attempt-cases (required_name name)) [
    | inr (e, p) ↦ rw (p, create_node) s
    | inl (n, p) ↦ elim (Attempt-cases (required_executors xs)) [
      | inr (e, q) ↦ rw (p, q, create_node) s
      | inl (ys, q) ↦
          let r = new_record lower hash_token suffix token n ys (normalize_optional_text agent) in
          let shaped =
            new_record-is_kept suffix token n ys (normalize_optional_text agent)
              (required_name-truthy name n p) (required_executors-is_one xs ys q) in
          rw (p, q, create_node) (put-Sound _ r g shaped s)
    ]
  ]

  update-Sound :
      (k : String) (name : Option String) (xs : Option (List String)) (agent : Option String)
      (g : ExecutorNodeRegistry)
      → Sound g
      → Sound (step lower hash_token (update k name xs agent) g)
  unfolding step update_node
  update-Sound k name xs agent g s = elim (Option-cases (D.get k g.records)) [
    | inl p ↦ rw (p, update_node) s
    | inr (r, p) ↦ elim (Attempt-cases (updated_record r name xs agent)) [
      | inr (e, q) ↦ rw (p, q, update_node) s
      | inl (u, q) ↦
          let shaped =
            updated_record-is_kept r u name xs agent (All-get k g.records r s.kept p) q in
          rw (p, q, update_node) (put-Sound k u g shaped s)
    ]
  ]

  rotate-Sound :
      (token k : String) (g : ExecutorNodeRegistry)
      → Sound g
      → Sound (step lower hash_token (rotate token k) g)
  unfolding step rotate_credentials with_token
  rotate-Sound token k g s = elim (Option-cases (D.get k g.records)) [
    | inl p ↦ rw (p, rotate_credentials) s
    | inr (r, p) ↦
        rw (p, rotate_credentials)
          (put-Sound k (with_token lower hash_token token r) g
            (with_token-is_kept token r (All-get k g.records r s.kept p)) s)
  ]

  delete-Sound :
      (k : String) (g : ExecutorNodeRegistry) → Sound g → Sound (step lower hash_token (delete k) g)
  unfolding step delete_node
  delete-Sound k g s = elim (Option-cases (D.get k g.records)) [
    | inl p ↦ rw (p, step, delete_node) s
    | inr (r, p) ↦
        rw (p, step, delete_node)
          (persisted-Sound (D.pop k g.records) (D.pop-IsDict k g.records s.distinct)
            (All-pop k g.records s.kept))
  ]

  connected-Sound :
      (t k : String) (g : ExecutorNodeRegistry)
      → Sound g
      → Sound (step lower hash_token (connected_at t k) g)
  unfolding step note_connected
  connected-Sound t k g s = elim (Option-cases (D.get k g.records)) [
    | inl p ↦ rw (p, note_connected) s
    | inr (r, p) ↦ rw (p, note_connected) (put-Sound k _ g (All-get k g.records r s.kept p) s)
  ]

  seen-Sound :
      (t k : String) (g : ExecutorNodeRegistry)
      → Sound g
      → Sound (step lower hash_token (seen_at t k) g)
  unfolding step note_seen
  seen-Sound t k g s = elim (Option-cases (D.get k g.records)) [
    | inl p ↦ rw (p, note_seen) s
    | inr (r, p) ↦ rw (p, note_seen) (put-Sound k _ g (All-get k g.records r s.kept p) s)
  ]

  pub step-Sound :
      (o : Operation) (g : ExecutorNodeRegistry) → Sound g → Sound (step lower hash_token o g)
  step-Sound (create suffix token name xs agent) g s = create-Sound suffix token name xs agent g s
  step-Sound (update k name xs agent) g s = update-Sound k name xs agent g s
  step-Sound (rotate token k) g s = rotate-Sound token k g s
  step-Sound (delete k) g s = delete-Sound k g s
  step-Sound (connected_at t k) g s = connected-Sound t k g s
  step-Sound (seen_at t k) g s = seen-Sound t k g s

  -- From a registry that is sound, every sequence of operations leads to one that is: no node id has
  -- two records, each record has a name, one executor and, if that is `acpx`, an agent, a token
  -- that a record keeps is the one whose digest it keeps, and the file, once written, holds the
  -- records as they are then.
  pub perform-Sound :
      (os : List Operation) (g : ExecutorNodeRegistry)
      → Sound g
      → Sound (perform lower hash_token os g)
  unfolding perform
  perform-Sound [] g s = s
  perform-Sound (o ∷ os) g s = perform-Sound os (step lower hash_token o g) (step-Sound o g s)
