-- ===== src/Nodes/Registry/Operations.antt =====
-- executors/node/registry.py: sequences of operations on the registry. An operation that raises
-- leaves the registry as it is.
use newbro.Prelude.{String, List, [], ◌∷◌, Option, none}
use newbro.Prelude.Attempt.{Attempt, returned, raised}
use newbro.Nodes.Registry.{
  ExecutorNodeRegistry, create_node, rotate_credentials, delete_node, note_connected, note_seen,
  update_node,
}

pub data Operation : Type 0 where
  create : (suffix token name : String) → List String → Option String → Operation
  update : (node_id : String) → Option String → Option (List String) → Option String → Operation
  rotate : (token node_id : String) → Operation
  delete : (node_id : String) → Operation
  connected_at seen_at : (timestamp node_id : String) → Operation

-- The registry after an attempt on it.
abbrev pub after {ℓ} :
    {A : Type ℓ} → ExecutorNodeRegistry → Attempt (ExecutorNodeRegistry × A) → ExecutorNodeRegistry
after g (returned (h, a)) = h
after g (raised e) = g

module _ (lower hash_token : String → String) where
  unfoldable pub step : Operation → ExecutorNodeRegistry → ExecutorNodeRegistry
  step (create suffix token name xs agent) g =
      after g (create_node lower hash_token suffix token name xs agent g)
  step (update k name xs agent) g = after g (update_node lower hash_token k name xs agent none g)
  step (rotate token k) g = after g (rotate_credentials lower hash_token token k none g)
  step (delete k) g = (delete_node lower hash_token k g).0
  step (connected_at t k) g = note_connected lower hash_token t k g
  step (seen_at t k) g = note_seen lower hash_token t k g

  unfoldable pub perform : List Operation → ExecutorNodeRegistry → ExecutorNodeRegistry
  perform [] g = g
  perform (o ∷ os) g = perform os (step o g)
