-- ===== src/Blackboard/Runs.antt =====
-- blackboard/backends/memory.py: runs.
use newbro.Prelude.{String, List, Option, none, some}
use newbro.Prelude.Dict as D
use newbro.Prelude.Dict.{values}
use newbro.Protocol.Records.{ExecutionRun}
use newbro.Blackboard.Events.{BlackboardWriteKind}
use newbro.Blackboard.State.{Blackboard, publish}
use newbro.Blackboard.Payloads.{run_write_payload}

unfoldable pub put_run : ExecutionRun → Blackboard → Blackboard
unfolding publish D.put D.get
put_run r b =
    let previous = D.get r.run_id b.run_snapshots in
    publish
      (record b {
        runs = D.put r.run_id r b.runs;
        run_snapshots = D.put r.run_id r b.run_snapshots;
      })
      (record {
        kind = BlackboardWriteKind.run;
        entity_id = some r.run_id;
        task_id = some r.task_id;
        request_id = none;
        payload = run_write_payload previous r;
      })

unfoldable pub get_run : String → Blackboard → Option ExecutionRun
unfolding D.get
get_run k b = D.get k b.runs

unfoldable pub list_runs : Blackboard → List ExecutionRun
list_runs b = values b.runs
