-- ===== src/Examples/Brokers.antt =====
-- The broker's theorems on runs from a fresh broker.
use distqueue.Tracker.{remove, track}
use distqueue.Base.{
  none, ◌≢◌, ◌≡◌, ◌≢◌, refl, false, [], ◌∷◌, ◌++◌, arith, take, codes, inl, bytes_discrete,
  ℕ_discrete,
}
use distqueue.Base.Maps.{get, insert, delete, values}
use distqueue.Heap
use distqueue.Task
use distqueue.Task.{Task}
use distqueue.Wal.{
  encode_record, encode_entries, entry_payload, op_ack, be32, replay, replay_loop, read_record,
  read_full, read_body, read_entry, from_be32,
}
use distqueue.Wal.Crc.{crc32}
use distqueue.Wal.Replay.{IsCanonical}
use distqueue.Journal.{
  append_no_sync, wait_sync, rewrite, open_journal, refused, swapped, lost_handle,
}
use distqueue.Broker.{
  Broker, ok, id_entry, completed, dequeue, enqueue, ack, nack, tick, settle, compact,
  maybe_compact, compact_entries, dead_entries,
}
use distqueue.Broker.Recovery.{push_all, nothing, apply_entries, apply_entry, restored, open_broker}
use distqueue.Broker.Agrees.{Agrees}
use distqueue.Broker.Live.{IsKeyed}
use distqueue.Broker.Logged.{Logged}
use distqueue.Broker.Preserved.{IsNew, enqueue-Logged, dequeue-Logged}
use distqueue.Broker.Requeued.{ack-Logged}
use distqueue.Broker.Timeouts.{NeverCompacts, nack-Logged, tick-Logged}
use distqueue.Broker.Crash.{Recovers, crash-Recovers, reopen-Logged}
use distqueue.Broker.Outcomes.{SurvivesCrash, enqueue-survives, ack-survives}
use distqueue.Examples.{plain, a_task, b_task, calm, fresh}

nothing-Agrees : Agrees nothing [] [] [] []
unfolding IsKeyed values
nothing-Agrees = record { keyed = tt; tracked = tt; same = λ p. refl; letters = refl; apart = tt }

fresh-Logged : Logged plain fresh []
unfolding open_journal apply_entries values encode_entries
fresh-Logged = record {
  log = [];
  written = tt;
  coded = refl;
  attached = refl;
  agrees = nothing-Agrees;
  small = refl;
  small_letters = tt;
}

a_task-IsNew : IsNew fresh (completed a_task calm).id
unfolding get
a_task-IsNew = record { not_pending = refl; not_tracked = refl; not_lettered = tt }

kept : refused ≢ lost_handle
kept = ground arith

-- A broker to which the first task has been given.
one : Broker
one = (enqueue plain fresh a_task calm).0

one-Logged : Logged plain one []
unfolding one completed bytes_discrete
one-Logged = enqueue-Logged plain fresh a_task calm fresh-Logged (omega arith) a_task-IsNew tt kept

-- That broker once a worker has the task.
held : Broker
unfolding one
held = (dequeue one calm).0

held-Logged : Logged plain held []
unfolding held one
held-Logged = dequeue-Logged plain one calm one-Logged

enqueue-Logged_example : Logged plain (enqueue plain fresh b_task calm).0 []
unfolding completed bytes_discrete get
enqueue-Logged_example =
    enqueue-Logged plain fresh b_task calm fresh-Logged (omega arith)
      (record { not_pending = refl; not_tracked = refl; not_lettered = tt }) tt kept

ack-Logged_example : Logged plain (ack plain held (codes "a") calm).0 []
ack-Logged_example = ack-Logged plain held (codes "a") calm held-Logged tt kept

nack-Logged_example : Logged plain (nack plain held (codes "a") calm).0 []
nack-Logged_example = nack-Logged plain held (codes "a") calm held-Logged refl kept

held-ready : (held.closed ≡ false) × NeverCompacts held
unfolding held one dequeue enqueue completed append_no_sync Task.pop maybe_compact settle compact
    wait_sync Task.push Heap.push Heap.up Heap.up_loop
held-ready = (refl, refl)

tick-Logged_example : Logged plain (tick plain held (record calm { now = 1000 })) []
tick-Logged_example =
    tick-Logged plain held (record calm { now = 1000 }) held-Logged held-ready.0 refl kept
      held-ready.1

crash-Recovers_example :
    Recovers plain held []
      (restored plain held.cfg (held.wal.disk ++ take 6 (encode_record op_ack (codes "a"))))
unfolding id_entry entry_payload IsCanonical encode_record be32
crash-Recovers_example =
    crash-Recovers plain held [] (id_entry op_ack (codes "a")) 6 held.cfg
      (record { payload = codes "a"; coded = refl; capped = omega arith; canonical = refl })
      held-Logged (omega arith)

-- A broker whose log has just one record, of an ack.
stale : Broker
unfolding encode_record be32
stale = record fresh { wal = open_journal (encode_record op_ack (codes "a")) }

stale-Logged : Logged plain stale []
unfolding stale encode_record be32 encode_entries entry_payload id_entry IsCanonical open_journal
    apply_entries apply_entry values delete IsKeyed
stale-Logged = record {
  log = id_entry op_ack (codes "a") ∷ [];
  written =
      (record { payload = codes "a"; coded = refl; capped = omega arith; canonical = refl }, tt);
  coded = refl;
  attached = refl;
  agrees = record { keyed = tt; tracked = tt; same = λ p. refl; letters = refl; apart = tt };
  small = refl;
  small_letters = tt;
}

again : Broker
unfolding stale
again = (compact plain (restored plain stale.cfg (stale.wal.disk ++ [])) swapped).0

stale-opened : open_broker plain stale.cfg (stale.wal.disk ++ []) swapped ≡ ok again
unfolding again stale open_broker restored compact replay replay_loop read_record read_full
    read_body from_be32 be32 encode_record open_journal rewrite crc32 read_entry bytes_discrete
    ℕ_discrete apply_entries apply_entry delete values push_all compact_entries dead_entries
    encode_entries
stale-opened = refl

reopen-Logged_example : Logged plain again []
unfolding read_record
reopen-Logged_example =
    reopen-Logged plain stale again [] [] stale.cfg swapped stale-Logged (inl refl) (ground arith)
      stale-opened

enqueue-survives_example :
    let r = enqueue plain fresh a_task calm in
    (codes "a" ≡ (completed a_task calm).id)
    × (r.0 ≡ record fresh { wal = r.0.wal; pq = Task.push [] (completed a_task calm) })
    × SurvivesCrash plain r.0 fresh.cfg
unfolding completed bytes_discrete enqueue append_no_sync maybe_compact settle compact wait_sync
    open_journal
enqueue-survives_example =
    enqueue-survives plain fresh a_task calm fresh.cfg (codes "a") fresh-Logged (omega arith)
      (omega arith) a_task-IsNew kept refl

ack-survives_example :
    let r = ack plain held (codes "a") calm in
    (get held.tracker (codes "a") ≢ none)
    × (r.0 ≡ record held { wal = r.0.wal; tracker = delete held.tracker (codes "a"); acked = 1 })
    × SurvivesCrash plain r.0 fresh.cfg
unfolding held one dequeue enqueue completed append_no_sync Task.pop maybe_compact settle compact
    wait_sync Task.push Heap.push Heap.up Heap.up_loop open_journal ack remove get track insert
    bytes_discrete Heap.pop Heap.sifted Heap.down Heap.down_loop Heap.swap
ack-survives_example =
    ack-survives plain held (codes "a") calm fresh.cfg held-Logged (omega arith) kept refl
