-- ===== src/Nodes/Registry/Tokens.antt =====
-- executors/node/registry.py: an issued token over the operations that come after.
use newbro.Prelude.{
  String, List, [], ◌∷◌, ◌≡◌, refl, ap, Bool, true, false, not, Option, none, some, arith, All,
  is_some, Option-cases, Bool-cases, inl, inr, ◌⊎◌, sym,
}
use mathlib.Core.Path.{subst}
use newbro.Prelude.Text.{◌==◌, eq_iff, eq_refl, truthy, fstring}
use newbro.Prelude.Dict as D
use newbro.Prelude.Dict.{IsDict, get-put, get-pop}
use newbro.Nodes.Records.{
  StoredExecutorNodeRecord, ExecutorNodeCredentialIssue, ExecutorNodeConnectionView,
}
use newbro.Prelude.Attempt.{Attempt-cases, returned}
use newbro.Nodes.Checks.{required_name, required_executors, normalize_optional_text, updated_record}
use newbro.Nodes.Registry.{
  ExecutorNodeRegistry, create_node, update_node, rotate_credentials, delete_node, note_connected,
  note_seen, stored, persisted, new_record, with_token, reveal_token, verify_credentials,
  public_record,
}
use newbro.Nodes.Registry.Operations.{
  Operation, create, update, rotate, delete, connected_at, seen_at, after, step, perform,
}
use newbro.Nodes.Registry.Soundness.{Sound, step-Sound, updated_record-is_matching}

-- The operation neither creates, nor rotates, nor deletes this node.
abbrev pub leaves : String → Operation → Bool
leaves k (create suffix token name xs agent) = not (fstring ("node-" ∷ suffix ∷ []) == k)
leaves k (rotate token j) = not (j == k)
leaves k (delete j) = not (j == k)
leaves k _ = true

module _ (lower hash_token : String → String) where
  -- The credentials of a node came from its creation or from a rotation.
  abbrev pub Issued :
      String → ExecutorNodeRegistry → ExecutorNodeRegistry → ExecutorNodeCredentialIssue → Type 0
  Issued k g h issue =
      ((suffix : String) × (token : String) × (name : String) × (xs : List String) × (agent : Option
          String)
        × (k ≡ fstring ("node-" ∷ suffix ∷ []))
        × (create_node lower hash_token suffix token name xs agent g ≡ returned (h, issue)))
      ⊎ ((token : String) × (connection : Option ExecutorNodeConnectionView) × (rotate_credentials
              lower hash_token token k connection g
            ≡ returned (h, issue)))

  -- The node has the token and its digest.
  Carries : String → String → ExecutorNodeRegistry → Type 0
  Carries k token g =
      (r : StoredExecutorNodeRecord) × (D.get k g.records ≡ some r)
      × (r.raw_token ≡ some token)
      × (r.token_hash ≡ hash_token token)

  other-Carries :
      (k j token : String) (u : StoredExecutorNodeRecord) (g : ExecutorNodeRegistry)
      → (j == k) ≡ false
      → Carries k token g
      → Carries k token (persisted lower hash_token (D.put j u g.records))
  unfolding Carries persisted
  other-Carries k j token u g n (r, p, q, f) =
      (r, ground (arith, get-put j k u g.records, p, n), q, f)

  same-Carries :
      (k j token : String) (r u : StoredExecutorNodeRecord) (g : ExecutorNodeRegistry)
      → D.get j g.records ≡ some r
      → u.raw_token ≡ r.raw_token
      → u.token_hash ≡ r.token_hash
      → Carries k token g
      → Carries k token (persisted lower hash_token (D.put j u g.records))
  unfolding Carries persisted
  same-Carries k j token r u g p e f (r', p', q', f') = elim (Bool-cases (j == k)) [
    | inr n ↦ other-Carries k j token u g n (r', p', q', f')
    | inl y ↦ (
      u,
      ground (arith, get-put j k u g.records, y),
      ground (arith, e, p, p', q', eq_iff j k, y),
      ground (arith, f, p, p', f', eq_iff j k, y),
    )
  ]

  step-Carries :
      (o : Operation) (k token : String) (g : ExecutorNodeRegistry)
      → IsDict g.records
      → leaves k o ≡ true
      → Carries k token g
      → Carries k token (step lower hash_token o g)
  unfolding Carries step create_node update_node rotate_credentials delete_node note_connected
      note_seen
  step-Carries (create suffix new name xs agent) k token g d l c =
      elim (Attempt-cases (required_name name)) [
        | inr (e, p) ↦ rw (p, step, create_node) c
        | inl (n, p) ↦ elim (Attempt-cases (required_executors xs)) [
          | inr (e, q) ↦ rw (p, q, step, create_node) c
          | inl (ys, q) ↦
              rw (p, q, step, create_node)
                (unfold stored new_record in
                  other-Carries k _ token
                    (new_record lower hash_token suffix new n ys (normalize_optional_text agent)) g
                    (ground arith) c)
        ]
      ]
  step-Carries (update j name xs agent) k token g d l c = elim (Option-cases (D.get j g.records)) [
    | inl p ↦ rw (p, step, update_node) c
    | inr (r, p) ↦ elim (Attempt-cases (updated_record r name xs agent)) [
      | inr (e, q) ↦ rw (p, q, step, update_node) c
      | inl (u, q) ↦
          let same = updated_record-is_matching lower hash_token r u name xs agent q in
          rw (p, q, step, update_node) (same-Carries k j token r u g p same.0 same.1 c)
    ]
  ]
  step-Carries (rotate new j) k token g d l c = elim (Option-cases (D.get j g.records)) [
    | inl p ↦ rw (p, step, rotate_credentials) c
    | inr (r, p) ↦
        rw (p, step, rotate_credentials)
          (other-Carries k j token (with_token lower hash_token new r) g (ground arith) c)
  ]
  step-Carries (delete j) k token g d l (r, p, q, f) = elim (Option-cases (D.get j g.records)) [
    | inl none_there ↦ rw (none_there, step, delete_node) (r, p, q, f)
    | inr (u, there) ↦
        rw (there, step, delete_node)
          (unfold persisted in (r, ground (arith, get-pop j k g.records d, p, l), q, f))
  ]
  step-Carries (connected_at t j) k token g d l c = elim (Option-cases (D.get j g.records)) [
    | inl p ↦ rw (p, step, note_connected) c
    | inr (r, p) ↦ rw (p, step, note_connected) (same-Carries k j token r _ g p refl refl c)
  ]
  step-Carries (seen_at t j) k token g d l c = elim (Option-cases (D.get j g.records)) [
    | inl p ↦ rw (p, step, note_seen) c
    | inr (r, p) ↦ rw (p, step, note_seen) (same-Carries k j token r _ g p refl refl c)
  ]

  perform-Carries :
      (os : List Operation) (k token : String) (g : ExecutorNodeRegistry)
      → Sound lower hash_token g
      → All (λ o. leaves k o ≡ true) os
      → Carries k token g
      → Carries k token (perform lower hash_token os g)
  unfolding perform
  perform-Carries [] k token g s l c = c
  perform-Carries (o ∷ os) k token g s l c =
      perform-Carries os k token (step lower hash_token o g) (step-Sound lower hash_token o g s) l.1
        (step-Carries o k token g s.distinct l.0 c)

  created-step :
      (suffix token name : String) (xs : List String) (agent : Option String)
      (g h : ExecutorNodeRegistry) (issue : ExecutorNodeCredentialIssue)
      → create_node lower hash_token suffix token name xs agent g ≡ returned (h, issue)
      → step lower hash_token (create suffix token name xs agent) g ≡ h
  unfolding step
  created-step suffix token name xs agent g h issue e = ap (after g) e

  rotated-step :
      (token k : String) (connection : Option ExecutorNodeConnectionView)
      (g h : ExecutorNodeRegistry) (issue : ExecutorNodeCredentialIssue)
      → rotate_credentials lower hash_token token k connection g ≡ returned (h, issue)
      → step lower hash_token (rotate token k) g ≡ h
  unfolding step rotate_credentials
  rotated-step token k connection g h issue e = elim (Option-cases (D.get k g.records)) [
    | inl p ↦ ground (arith, p, e)
    | inr (r, p) ↦ ground (arith, p, e)
  ]

  put-Carries :
      (k token : String) (u : StoredExecutorNodeRecord) (g : ExecutorNodeRegistry)
      → u.raw_token ≡ some token
      → u.token_hash ≡ hash_token token
      → Carries k token (persisted lower hash_token (D.put k u g.records))
  unfolding Carries persisted
  put-Carries k token u g p q = (u, ground (arith, get-put k k u g.records, eq_refl k), p, q)

  created-Carries :
      (suffix token name : String) (xs : List String) (agent : Option String)
      (g h : ExecutorNodeRegistry) (issue : ExecutorNodeCredentialIssue)
      → create_node lower hash_token suffix token name xs agent g ≡ returned (h, issue)
      → Carries (fstring ("node-" ∷ suffix ∷ [])) issue.token h
  unfolding create_node stored new_record
  created-Carries suffix token name xs agent g h issue e =
      elim (Attempt-cases (required_name name)) [
        | inr (m, p) ↦ ground (arith, p, e)
        | inl (n, p) ↦ elim (Attempt-cases (required_executors xs)) [
          | inr (m, q) ↦ ground (arith, p, q, e)
          | inl (ys, q) ↦
              let r =
                new_record lower hash_token suffix token n ys (normalize_optional_text agent) in
              let stored_there : stored lower hash_token r g ≡ h = ground (arith, p, q, e) in
              let shown : token ≡ issue.token = ground (arith, p, q, e) in
              subst (λ x. Carries r.node_id x h) shown
                (subst (Carries r.node_id token) stored_there
                  (put-Carries r.node_id token r g refl refl))
        ]
      ]

  rotated-Carries :
      (token k : String) (connection : Option ExecutorNodeConnectionView)
      (g h : ExecutorNodeRegistry) (issue : ExecutorNodeCredentialIssue)
      → rotate_credentials lower hash_token token k connection g ≡ returned (h, issue)
      → Carries k issue.token h
  unfolding rotate_credentials with_token
  rotated-Carries token k connection g h issue e = elim (Option-cases (D.get k g.records)) [
    | inl p ↦ ground (arith, p, e)
    | inr (r, p) ↦
        let u = with_token lower hash_token token r in
        let stored_there : persisted lower hash_token (D.put k u g.records) ≡ h =
          ground (arith, p, e) in
        let shown : token ≡ issue.token = ground (arith, p, e) in
        subst (λ x. Carries k x h) shown
          (subst (Carries k token) stored_there (put-Carries k token u g refl refl))
  ]

  Issued-Carries :
      (k : String) (g h : ExecutorNodeRegistry) (issue : ExecutorNodeCredentialIssue)
      → Sound lower hash_token g
      → Issued k g h issue
      → Sound lower hash_token h × Carries k issue.token h
  Issued-Carries k g h issue s (inl (suffix, token, name, xs, agent, p, e)) = (
    subst (Sound lower hash_token) (created-step suffix token name xs agent g h issue e)
        (step-Sound lower hash_token (create suffix token name xs agent) g s),
    subst (λ j. Carries j issue.token h) (sym p)
        (created-Carries suffix token name xs agent g h issue e),
  )
  Issued-Carries k g h issue s (inr (token, connection, e)) = (
    subst (Sound lower hash_token) (rotated-step token k connection g h issue e)
        (step-Sound lower hash_token (rotate token k) g s),
    rotated-Carries token k connection g h issue e,
  )

  Carries-shown :
      (k token : String) (g : ExecutorNodeRegistry)
      → truthy token ≡ true
      → Carries k token g
      → ((shown : ExecutorNodeCredentialIssue) × (reveal_token k g ≡ returned shown)
          × (shown.token ≡ token))
        × ((t : String)
            → is_some (verify_credentials lower hash_token k t g)
              ≡ (hash_token token == hash_token t))
  unfolding Carries reveal_token verify_credentials
  Carries-shown k token g e (r, p, q, f) = (
    (record { node = public_record r none; token = token }, ground (arith, p, q, e), refl),
    λ t. ground (arith, p, f),
  )

  -- A token that was issued for a node, at its creation or by a rotation, and is not empty, is what
  -- `reveal_token` returns for the node after any later operations on a sound registry that do not
  -- create, rotate or delete the node again; and `verify_credentials` then accepts for it exactly the
  -- tokens that have this one's digest.
  pub issued_token_lem :
      (os : List Operation) (k : String) (g h : ExecutorNodeRegistry)
      (issue : ExecutorNodeCredentialIssue)
      → Sound lower hash_token g
      → truthy issue.token ≡ true
      → Issued k g h issue
      → All (λ o. leaves k o ≡ true) os
      → let later = perform lower hash_token os h in
        ((shown : ExecutorNodeCredentialIssue) × (reveal_token k later ≡ returned shown)
          × (shown.token ≡ issue.token))
        × ((t : String)
            → is_some (verify_credentials lower hash_token k t later)
              ≡ (hash_token issue.token == hash_token t))
  issued_token_lem os k g h issue s e i l =
      let (sound, carries) = Issued-Carries k g h issue s i in
      Carries-shown k issue.token _ e (perform-Carries os k issue.token h sound l carries)
