-- ===== src/Nodes/Registry/Access.antt =====
-- executors/node/registry.py: which credentials the registry accepts, as an access table that knows
-- nothing of records, hints and files.
use newbro.Prelude.{
  String, List, [], ◌∷◌, ◌≡◌, Bool, true, false, ◌&&◌, none, some, arith, if◌then◌else◌, is_some,
}
use newbro.Prelude.Text.{◌==◌, eq_iff, truthy, strip, fstring}
use newbro.Prelude.Dict as D
use newbro.Prelude.Dict.{Dict, IsDict, get-put, get-pop}
use newbro.Nodes.Records.{StoredExecutorNodeRecord}
use newbro.Nodes.Checks.{normalize_executor_list}
use newbro.Nodes.Checks.Shape.{is_one}
use newbro.Nodes.Registry.{ExecutorNodeRegistry, verify_credentials, persisted, has_node}
use newbro.Nodes.Registry.Operations.{Operation, create, rotate, delete}

-- The nodes there are, and the credentials that each accepts.
pub record AccessTable : Type 0 where
  pub known : String → Bool
  pub accepts : String → String → Bool

module _ (lower hash_token : String → String) where
  abbrev pub grant : String → String → AccessTable → AccessTable
  grant k token A = record {
    known = λ j. if k == j then true else A.known j;
    accepts = λ j t. if k == j then hash_token token == hash_token t else A.accepts j t;
  }

  abbrev pub revoke : String → AccessTable → AccessTable
  revoke k A = record {
    known = λ j. if k == j then false else A.known j;
    accepts = λ j t. if k == j then false else A.accepts j t;
  }

  -- A creation with a name and one executor and a rotation for a known node grant the new token and
  -- no other; a deletion revokes; nothing else changes who gets in.
  abbrev pub permit : Operation → AccessTable → AccessTable
  permit (create suffix token name xs agent) A =
      if truthy (strip name) && is_one (normalize_executor_list xs)
      then grant (fstring ("node-" ∷ suffix ∷ [])) token A
      else A
  permit (rotate token k) A = if A.known k then grant k token A else A
  permit (delete k) A = revoke k A
  permit _ A = A

  abbrev pub permit_all : List Operation → AccessTable → AccessTable
  permit_all [] A = A
  permit_all (o ∷ os) A = permit_all os (permit o A)

  -- The table is what `has_node` and `verify_credentials` answer.
  pub record Agrees (A : AccessTable) (g : ExecutorNodeRegistry) : Type 0 where
    pub known : (j : String) → has_node j g ≡ A.known j
    pub accepts :
        (j t : String) → is_some (verify_credentials lower hash_token j t g) ≡ A.accepts j t

  pub grant-Agrees :
      (A : AccessTable) (g : ExecutorNodeRegistry) (k token : String) (r : StoredExecutorNodeRecord)
      → Agrees A g
      → r.token_hash ≡ hash_token token
      → Agrees (grant k token A) (persisted lower hash_token (D.put k r g.records))
  unfolding persisted has_node verify_credentials
  grant-Agrees A g k token r a h = record {
    known = λ j. ground (arith, get-put k j r g.records, a.known j);
    accepts = λ j t. ground (arith, get-put k j r g.records, a.accepts j t);
  }

  pub kept-Agrees :
      (A : AccessTable) (g : ExecutorNodeRegistry) (k : String) (r u : StoredExecutorNodeRecord)
      → Agrees A g
      → D.get k g.records ≡ some r
      → u.token_hash ≡ r.token_hash
      → Agrees A (persisted lower hash_token (D.put k u g.records))
  unfolding persisted has_node verify_credentials
  kept-Agrees A g k r u a p h = record {
    known = λ j. ground (arith, get-put k j u g.records, a.known j, eq_iff k j);
    accepts = λ j t. ground (arith, get-put k j u g.records, a.accepts j t, eq_iff k j);
  }

  pub revoke-Agrees :
      (A : AccessTable) (g : ExecutorNodeRegistry) (k : String)
      → IsDict g.records
      → Agrees A g
      → Agrees (revoke k A) (persisted lower hash_token (D.pop k g.records))
  unfolding persisted has_node verify_credentials
  revoke-Agrees A g k d a = record {
    known = λ j. ground (arith, get-pop k j g.records d, a.known j);
    accepts = λ j t. ground (arith, get-pop k j g.records d, a.accepts j t);
  }

  pub unknown-Agrees :
      (A : AccessTable) (g : ExecutorNodeRegistry) (k : String)
      → Agrees A g
      → D.get k g.records ≡ none
      → Agrees (revoke k A) g
  unfolding has_node verify_credentials
  unknown-Agrees A g k a p = record {
    known = λ j. ground (arith, a.known j, eq_iff k j);
    accepts = λ j t. ground (arith, a.accepts j t, eq_iff k j);
  }
