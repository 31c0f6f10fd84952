-- ===== src/Nodes/Registry.antt =====
-- executors/node/registry.py: the registry of executor nodes, their records and credentials. The
-- file at `_path` is the text last written to it. Fresh ids, tokens and the time are arguments, so are
-- the SHA-256 digest and `str.lower`. A `RegistryError` is its message.
pub mod Operations
pub mod Soundness
pub mod Access
pub mod Credentials
pub mod Tokens
use newbro.Prelude.{
  String, List, [], ◌∷◌, map, Bool, true, false, not, ◌&&◌, ◌||◌, Option, none, some, if◌then◌else◌,
  any, is_some,
}
use newbro.Prelude.Text.{◌==◌, fstring, present, truthy, strip}
use newbro.Prelude.Dict as D
use newbro.Prelude.Dict.{Dict, values}
use newbro.Prelude.Sort.{sorted}
use newbro.Nodes.Records.{
  ConnectionStatus, ExecutorNodeRecord, ExecutorNodeCredentialIssue, StoredExecutorNodeRecord,
  ExecutorNodeConnectionView,
}
use newbro.Prelude.Attempt.{Attempt, returned, raised}
use newbro.Nodes.Checks.{
  required_name, required_executors, normalize_optional_text, has_acpx, updated_record,
}
use newbro.Nodes.Rendering.{hint, listed_before, write_records}

pub record ExecutorNodeRegistry : Type 0 where
  pub records : Dict StoredExecutorNodeRecord
  pub file : Option String

not_found : String → String
unfolding fstring
not_found node_id = fstring ("Executor node '" ∷ node_id ∷ "' not found." ∷ [])

-- The record as the API shows it.
unfoldable pub public_record :
    StoredExecutorNodeRecord → Option ExecutorNodeConnectionView → ExecutorNodeRecord
public_record r connection = record {
  node_id = r.node_id;
  name = r.name;
  enabled_executors = r.enabled_executors;
  acpx_agent = r.acpx_agent;
  connected_executors = elim connection [ none ↦ [] | some c ↦ c.executors ];
  connection_status = elim connection [
    | none ↦ ConnectionStatus.disconnected
    | some c ↦ if c.is_connected then ConnectionStatus.connected else ConnectionStatus.disconnected
  ];
  token_hint = some r.token_hint;
  last_connected_at = r.last_connected_at;
  last_seen_at = r.last_seen_at;
  connected_executor_capabilities = elim connection [
    | none ↦ []
    | some c ↦ c.executor_capabilities
  ];
}

unfoldable pub get_record : String → ExecutorNodeRegistry → Option StoredExecutorNodeRecord
unfolding D.get
get_record node_id g = D.get node_id g.records

unfoldable pub has_node : String → ExecutorNodeRegistry → Bool
unfolding D.get
has_node node_id g = is_some (D.get node_id g.records)

unfoldable pub reveal_token : String → ExecutorNodeRegistry → Attempt ExecutorNodeCredentialIssue
unfolding D.get not_found fstring public_record
reveal_token node_id g = elim (D.get node_id g.records) [
  | none ↦ raised (not_found node_id)
  | some r ↦ elim r.raw_token [
    | none ↦ raised (
        fstring (
          "Executor node '" ∷ node_id
          ∷ "' uses legacy non-retrievable credentials. Rotate credentials first." ∷ []))
    | some token ↦
        if truthy token
        then returned (record { node = public_record r none; token = token })
        else raised (
            fstring (
              "Executor node '" ∷ node_id
              ∷ "' uses legacy non-retrievable credentials. Rotate credentials first." ∷ []))
  ]
]

module _ (lower hash_token : String → String) where
  unfoldable pub list_records :
      Dict ExecutorNodeConnectionView → ExecutorNodeRegistry → List ExecutorNodeRecord
  unfolding sorted listed_before D.get public_record
  list_records connections g =
      map (λ r. public_record r (D.get r.node_id connections))
        (sorted (listed_before lower) (values g.records))

  -- `_persist_locked`, after the records changed
  unfoldable pub persisted : Dict StoredExecutorNodeRecord → ExecutorNodeRegistry
  unfolding write_records
  persisted records = record {
    records = records;
    file = some (write_records lower (values records));
  }

  unfoldable pub stored : StoredExecutorNodeRecord → ExecutorNodeRegistry → ExecutorNodeRegistry
  unfolding persisted D.put
  stored r g = persisted (D.put r.node_id r g.records)

  unfoldable pub new_record :
      String → String → String → List String → Option String → StoredExecutorNodeRecord
  unfolding hint any fstring
  new_record suffix token name executors agent = record {
    node_id = fstring ("node-" ∷ suffix ∷ []);
    name = name;
    enabled_executors = executors;
    acpx_agent = if has_acpx executors && not (present agent) then some "codex" else agent;
    raw_token = some token;
    token_hash = hash_token token;
    token_hint = hint token;
    last_connected_at = none;
    last_seen_at = none;
  }

  unfoldable pub create_node :
      String
      → String
      → String
      → List String
      → Option String
      → ExecutorNodeRegistry
      → Attempt (ExecutorNodeRegistry × ExecutorNodeCredentialIssue)
  unfolding required_name required_executors normalize_optional_text new_record public_record stored
  create_node suffix token name enabled_executors acpx_agent g = elim (required_name name) [
    | raised e ↦ raised e
    | returned n ↦ elim (required_executors enabled_executors) [
      | raised e ↦ raised e
      | returned xs ↦
          let r = new_record suffix token n xs (normalize_optional_text acpx_agent) in
          returned (stored r g, record { node = public_record r none; token = token })
    ]
  ]

  unfoldable pub update_node :
      String
      → Option String
      → Option (List String)
      → Option String
      → Option ExecutorNodeConnectionView
      → ExecutorNodeRegistry
      → Attempt (ExecutorNodeRegistry × ExecutorNodeRecord)
  unfolding D.get D.put not_found updated_record persisted public_record
  update_node node_id name enabled_executors acpx_agent connection g =
      elim (D.get node_id g.records) [
        | none ↦ raised (not_found node_id)
        | some r ↦ elim (updated_record r name enabled_executors acpx_agent) [
          | raised e ↦ raised e
          | returned u ↦
              returned (persisted (D.put node_id u g.records), public_record u connection)
        ]
      ]

  unfoldable pub with_token : String → StoredExecutorNodeRecord → StoredExecutorNodeRecord
  unfolding hint
  with_token token r = record r {
    raw_token = some token;
    token_hash = hash_token token;
    token_hint = hint token;
  }

  unfoldable pub rotate_credentials :
      String
      → String
      → Option ExecutorNodeConnectionView
      → ExecutorNodeRegistry
      → Attempt (ExecutorNodeRegistry × ExecutorNodeCredentialIssue)
  unfolding D.get D.put not_found with_token persisted public_record
  rotate_credentials token node_id connection g = elim (D.get node_id g.records) [
    | none ↦ raised (not_found node_id)
    | some r ↦
        let u = with_token token r in
        returned (
          persisted (D.put node_id u g.records),
          record { node = public_record u connection; token = token },
        )
  ]

  unfoldable pub delete_node : String → ExecutorNodeRegistry → ExecutorNodeRegistry × Bool
  unfolding D.get D.pop persisted
  delete_node node_id g = elim (D.get node_id g.records) [
    | none ↦ (g, false)
    | some r ↦ (persisted (D.pop node_id g.records), true)
  ]

  -- `hmac.compare_digest` is equality of the two texts.
  unfoldable pub verify_credentials :
      String → String → ExecutorNodeRegistry → Option StoredExecutorNodeRecord
  unfolding D.get
  verify_credentials node_id token g = elim (D.get node_id g.records) [
    | none ↦ none
    | some r ↦ if r.token_hash == hash_token token then some r else none
  ]

  unfoldable pub note_connected : String → String → ExecutorNodeRegistry → ExecutorNodeRegistry
  unfolding D.get D.put persisted
  note_connected timestamp node_id g = elim (D.get node_id g.records) [
    | none ↦ g
    | some r ↦ persisted (
        D.put node_id
          (record r { last_connected_at = some timestamp; last_seen_at = some timestamp })
          g.records)
  ]

  unfoldable pub note_seen : String → String → ExecutorNodeRegistry → ExecutorNodeRegistry
  unfolding D.get D.put persisted
  note_seen timestamp node_id g = elim (D.get node_id g.records) [
    | none ↦ g
    | some r ↦ persisted (D.put node_id (record r { last_seen_at = some timestamp }) g.records)
  ]
