-- ===== src/Broker/Recovery.antt =====
-- `recover` and `New` of broker/broker.go: the state that a replay of the log rebuilds.
use distqueue.Base.{false, none, some, List, [], ◌∷◌, ◌++◌, ◌==◌, if◌then◌else◌, Bytes}
use distqueue.Base.Int.{increment}
use distqueue.Base.Maps.{get, insert, delete, values}
use distqueue.Task
use distqueue.Task.{Task, pending, dead}
use distqueue.Wal.{Codec, LogEntry, op_enqueue, op_ack, op_nack, op_dead, replay}
use distqueue.Journal.{Swap, open_journal}
use distqueue.Broker.{Broker, Config, Result, ok, err, compact_error, compact}

-- The two variables of the loop: the live tasks by id, and the dead letters.
pub record Replayed : Type 0 where
  pub live : List (Bytes × Task)
  pub letters : List Task

abbrev pub nothing : Replayed
nothing = record { live = []; letters = [] }

abbrev pub as_pending : Task → Task
as_pending t = record t { status = pending; deadline = 0 }

-- One turn of the loop over the entries. An entry to enqueue always holds its task.
unfoldable pub apply_entry : Replayed → LogEntry → Replayed
apply_entry r e =
    if e.op == op_enqueue
    then elim e.task [ none ↦ r | some t ↦ record r { live = insert r.live t.id (as_pending t) } ]
    else if e.op == op_ack
    then record r { live = delete r.live e.task_id }
    else elim (get r.live e.task_id) [
      | none ↦ r
      | some t ↦
          if e.op == op_nack
          then record r {
            live = insert r.live e.task_id (record t { retry_count = increment t.retry_count });
          }
          else if e.op == op_dead
          then record {
            live = delete r.live e.task_id;
            letters = r.letters ++ record t { status = dead } ∷ [];
          }
          else r
    ]

unfoldable pub apply_entries : Replayed → List LogEntry → Replayed
apply_entries r [] = r
apply_entries r (e ∷ es) = apply_entries (apply_entry r e) es

-- The loop that pushes the live tasks.
unfoldable pub push_all : List Task → List Task → List Task
push_all q [] = q
push_all q (t ∷ ts) = push_all (Task.push q t) ts

module _ (c : Codec) where
  -- The broker that `recover` fills in, before it compacts the log.
  unfoldable pub restored : Config → Bytes → Broker
  restored cfg disk =
      let (es, kept) = replay c disk in
      let r = apply_entries nothing es in
      record {
        pq = push_all [] (values r.live);
        tracker = [];
        dlq = r.letters;
        wal = open_journal kept;
        cfg = cfg;
        acked = 0;
        nacked = 0;
        closed = false;
      }

  -- `New`, on a file that can be opened and read.
  unfoldable pub open_broker : Config → Bytes → Swap → Result Broker
  open_broker cfg disk swap =
      let b = restored cfg disk in
      elim (replay c disk).0 [
        | [] ↦ ok b
        | _ ∷ _ ↦
            let (b', compacted) = compact c b swap in if compacted then ok b' else err compact_error
      ]
