-- ===== src/Examples/Registry.antt =====
-- The registry of executor nodes on a sample file. The digest of the sample marks its text.
use newbro.Prelude.{
  ◌≡◌, is_some, String, List, [], ◌∷◌, refl, false, none, some, inr, if◌then◌else◌, arith, any,
}
use newbro.Prelude.Text.{◌==◌, fstring}
use newbro.Prelude.Dict as D
use newbro.Nodes.Records.{StoredExecutorNodeRecord, ExecutorNodeCredentialIssue}
use newbro.Prelude.Attempt.{returned}
use newbro.Nodes.Rendering.{write_records}
use newbro.Nodes.Registry.{
  ExecutorNodeRegistry, has_node, verify_credentials, reveal_token, public_record,
  rotate_credentials, with_token, persisted,
}
use newbro.Nodes.Registry.Operations.{
  Operation, create, update, rotate, delete, connected_at, perform,
}
use newbro.Nodes.Registry.Soundness.{Sound, perform-Sound}
use newbro.Nodes.Registry.Access.{AccessTable, Agrees, permit_all}
use newbro.Nodes.Registry.Credentials.{perform-Agrees}
use newbro.Nodes.Registry.Tokens.{issued_token_lem}

abbrev same_text : String → String
same_text s = s

abbrev digest : String → String
digest s = fstring ("#" ∷ s ∷ [])

abbrev first_node : StoredExecutorNodeRecord
first_node = record {
  node_id = "node-1";
  name = "desk";
  enabled_executors = "codex" ∷ [];
  acpx_agent = none;
  raw_token = some "old";
  token_hash = digest "old";
  token_hint = "old";
  last_connected_at = none;
  last_seen_at = none;
}

abbrev one_node : ExecutorNodeRegistry
one_node = record {
  records = ("node-1", first_node) ∷ [];
  file = some (write_records same_text (first_node ∷ []));
}

abbrev operations : List Operation
operations =
    rotate "new" "node-1"
    ∷ create "2" "token" " shelf " ("acpx" ∷ "acpx" ∷ []) none
    ∷ delete "node-1"
    ∷ []

one_node-Sound : Sound same_text digest one_node
unfolding any fstring
one_node-Sound = record { distinct = (tt, tt); kept = (refl, tt); current = refl }

perform-Sound_example : Sound same_text digest (perform same_text digest operations one_node)
perform-Sound_example = perform-Sound same_text digest operations one_node one_node-Sound

abbrev first_table : AccessTable
first_table = record {
  known = λ j. "node-1" == j;
  accepts = λ j t. if "node-1" == j then digest "old" == digest t else false;
}

one_node-Agrees : Agrees same_text digest first_table one_node
unfolding has_node verify_credentials D.get
one_node-Agrees = record { known = λ j. ground arith; accepts = λ j t. ground arith }

perform-Agrees_example :
    Agrees same_text digest
      (permit_all same_text digest operations first_table)
      (perform same_text digest operations one_node)
perform-Agrees_example =
    perform-Agrees same_text digest operations first_table one_node one_node-Sound one_node-Agrees

abbrev rotated : ExecutorNodeRegistry × ExecutorNodeCredentialIssue
rotated =
    let u = with_token same_text digest "new" first_node in
    (
      persisted same_text digest (("node-1", u) ∷ []),
      record { node = public_record u none; token = "new" },
    )

rotates : rotate_credentials same_text digest "new" "node-1" none one_node ≡ returned rotated
unfolding rotate_credentials D.get D.put
rotates = refl

abbrev later : List Operation
later =
    create "2" "token" " shelf " ("acpx" ∷ []) none
    ∷ update "node-1" (some "bench") none none
    ∷ connected_at "noon" "node-1"
    ∷ delete "node-2"
    ∷ []

issued_token_lem_example :
    let g = perform same_text digest later rotated.0 in
    ((shown : ExecutorNodeCredentialIssue) × (reveal_token "node-1" g ≡ returned shown)
      × (shown.token ≡ "new"))
    × ((t : String)
        → is_some (verify_credentials same_text digest "node-1" t g) ≡ (digest "new" == digest t))
unfolding fstring
issued_token_lem_example =
    issued_token_lem same_text digest later "node-1" one_node rotated.0 rotated.1 one_node-Sound
      refl (inr ("new", none, rotates)) (refl, (refl, (refl, (refl, tt))))
