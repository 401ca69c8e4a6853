-- ===== src/Broker.antt =====
-- The single-node broker, broker/broker.go. A method runs under the broker's lock, one at a time;
-- what it asks of the clock, the id generator and the operating system is its argument `io`.
pub mod Control
pub mod Recovery
pub mod Live
pub mod Agrees
pub mod Compaction
pub mod Logged
pub mod Preserved
pub mod Requeued
pub mod Timeouts
pub mod Crash
pub mod Settled
pub mod Outcomes
use distqueue.Base.{
  ℕ, ◌+◌, ◌-◌, Bool, true, false, ◌||◌, Option, none, some, List, [], ◌∷◌, ◌++◌, map, ◌==◌,
  if◌then◌else◌, Bytes, bytes_discrete, ite,
}
use distqueue.Base.Int.{ℤ, pos, increment, ltb_ℤ, leb_ℤ, pos_part, neg_part}
use distqueue.Base.Maps.{values}
use distqueue.Task
use distqueue.Task.{Task, pending, in_flight, dead}
use distqueue.Tracker.{Tracker, track, remove, expired}
use distqueue.Wal.{Codec, LogEntry, op_enqueue, op_ack, op_nack, op_dead}
use distqueue.Journal.{Journal, Write, Swap, append_no_sync, wait_sync, rewrite}

-- The fields of `Config` that the methods read. A duration is in nanoseconds.
pub record Config : Type 0 where
  pub max_retries : ℤ
  pub task_timeout : ℤ
  pub compact_every : ℤ

pub record Broker : Type 0 where
  pub pq : List Task
  pub tracker : Tracker
  pub dlq : List Task
  pub wal : Journal
  pub cfg : Config
  pub acked : ℕ
  pub nacked : ℕ
  pub closed : Bool

-- The errors that a method returns: its own three, and those of the log.
pub data Error : Type 0 where
  empty unknown_task closed_error encode_error write_error compact_error sync_error : Error

pub data Result (A : Type 0) : Type 0 where
  ok : A → Result A
  err : Error → Result A

pub record Io : Type 0 where
  pub now : ℕ
  pub uuid : Bytes
  pub write : Write
  pub synced : Bool
  pub swap : Swap

-- `time.Now().Add(d)`
abbrev pub add_duration : ℕ → ℤ → ℕ
add_duration now d = now + pos_part d - neg_part d

-- The entries of `compactLocked`.
unfoldable pub enqueue_entry : Task → LogEntry
enqueue_entry t = record { op = op_enqueue; task_id = t.id; task = some t }

unfoldable pub id_entry : ℕ → Bytes → LogEntry
id_entry op id = record { op = op; task_id = id; task = none }

unfoldable pub dead_entries : List Task → List LogEntry
dead_entries [] = []
dead_entries (t ∷ ts) = enqueue_entry t ∷ id_entry op_dead t.id ∷ dead_entries ts

unfoldable pub compact_entries : Broker → List LogEntry
compact_entries b =
    map enqueue_entry b.pq ++ (map enqueue_entry (values b.tracker) ++ dead_entries b.dlq)

-- The test of `maybeCompactLocked` that leaves the log alone.
abbrev pub idle : Broker → Bool
idle b = leb_ℤ b.cfg.compact_every (pos 0) || ltb_ℤ (pos b.wal.entries) b.cfg.compact_every

-- The end of a mutation: return the error of the compaction, or wait for the record `seq`.
unfoldable pub settle : {A : Type 0} → Broker × Bool → ℕ → Bool → A → Broker × Result A
settle (b, false) seq synced a = (b, err compact_error)
settle (b, true) seq synced a =
    let (w, durable) = wait_sync b.wal seq synced in
    (record b { wal = w }, if durable then ok a else err sync_error)

-- The retry limit is reached.
abbrev pub dying : Broker → Task → Bool
dying b t = leb_ℤ b.cfg.max_retries (increment t.retry_count)

-- The state that `requeueLocked` reaches once the record is in the log `w`.
unfoldable pub requeued : Broker → Task → Journal → Broker
requeued b t w =
    if dying b t
    then record b {
      wal = w;
      nacked = b.nacked + 1;
      dlq = b.dlq ++ record t { retry_count = increment t.retry_count; status = dead } ∷ [];
    }
    else record b {
      wal = w;
      nacked = b.nacked + 1;
      pq =
          Task.push b.pq
            (record t { retry_count = increment t.retry_count; status = pending; deadline = 0 });
    }

-- The end of a nack, which has no more to do if its record was not written.
unfoldable pub settle_requeue : Broker × Option (ℕ × Bool) → Bool → Broker × Result (Unit {0})
settle_requeue (b, none) synced = (b, err write_error)
settle_requeue (b, some (n, compacted)) synced = settle (b, compacted) n synced tt

-- The task as `Enqueue` completes it.
unfoldable pub completed : Task → Io → Task
completed t io = record t {
  id = ite (bytes_discrete t.id []) io.uuid t.id;
  created_at = if t.created_at == 0 then io.now else t.created_at;
  status = pending;
}

-- `Dequeue`
unfoldable pub dequeue : Broker → Io → Broker × Result Task
dequeue b io = if b.closed then (b, err closed_error) else elim (Task.pop b.pq) [
  | none ↦ (b, err empty)
  | some (t, rest) ↦
      let t' = record t { status = in_flight; deadline = add_duration io.now b.cfg.task_timeout } in
      (record b { pq = rest; tracker = track b.tracker t' }, ok t')
]

module _ (c : Codec) where
  -- `compactLocked`, and whether it returned no error
  unfoldable pub compact : Broker → Swap → Broker × Bool
  compact b swap =
      let (w, rewritten) = rewrite c b.wal (compact_entries b) swap in
      (record b { wal = w }, rewritten)

  -- `maybeCompactLocked`
  unfoldable pub maybe_compact : Broker → Swap → Broker × Bool
  maybe_compact b swap = if idle b then (b, true) else compact b swap

  -- `Enqueue`; its caller finds the id in the task, which is the result here where there is no error.
  unfoldable pub enqueue : Broker → Task → Io → Broker × Result Bytes
  enqueue b t io =
      let t' = completed t io in
      if b.closed then (b, err closed_error) else elim (c.encode_task t') [
        | none ↦ (b, err encode_error)
        | some payload ↦
            let (w, seq) = append_no_sync b.wal op_enqueue payload io.write in
            elim seq [
              | none ↦ (record b { wal = w }, err write_error)
              | some n ↦
                  settle (maybe_compact (record b { wal = w; pq = Task.push b.pq t' }) io.swap) n
                    io.synced t'.id
            ]
      ]

  -- `Ack`
  unfoldable pub ack : Broker → Bytes → Io → Broker × Result (Unit {0})
  ack b id io = if b.closed then (b, err closed_error) else elim (remove b.tracker id) [
    | none ↦ (b, err unknown_task)
    | some (t, rest) ↦
        let (w, seq) = append_no_sync b.wal op_ack id io.write in
        elim seq [
          | none ↦ (record b { wal = w; tracker = track rest t }, err write_error)
          | some n ↦
              settle
                (maybe_compact (record b { wal = w; tracker = rest; acked = b.acked + 1 }) io.swap)
                n io.synced tt
        ]
  ]

  -- `requeueLocked`, for a task that is not in the tracker any more; it ends in the sequence number
  -- to wait for and whether the compaction went well, or `none` where the record was not written.
  unfoldable pub requeue : Broker → Task → Io → Broker × Option (ℕ × Bool)
  requeue b t io =
      let t' = record t { retry_count = increment t.retry_count } in
      let (w, seq) = append_no_sync b.wal (if dying b t then op_dead else op_nack) t.id io.write in
      elim seq [
        | none ↦ (record b { wal = w; nacked = b.nacked + 1; tracker = track b.tracker t' }, none)
        | some n ↦
            let (b', compacted) = maybe_compact (requeued b t w) io.swap in
            (b', some (n, compacted))
      ]

  -- `Nack`
  unfoldable pub nack : Broker → Bytes → Io → Broker × Result (Unit {0})
  nack b id io = if b.closed then (b, err closed_error) else elim (remove b.tracker id) [
    | none ↦ (b, err unknown_task)
    | some (t, rest) ↦ settle_requeue (requeue (record b { tracker = rest }) t io) io.synced
  ]

  -- `onTimeout`
  unfoldable pub on_timeout : Broker → Task → Io → Broker
  on_timeout b t io = if b.closed then b else (settle_requeue (requeue b t io) io.synced).0

  -- One tick of the tracker's loop: all expired tasks leave the tracker, then each is requeued.
  unfoldable pub requeue_all : Broker → List Task → Io → Broker
  requeue_all b [] io = b
  requeue_all b (t ∷ ts) io = requeue_all (on_timeout b t io) ts io

  unfoldable pub tick : Broker → Io → Broker
  tick b io =
      let (out, rest) = expired b.tracker io.now in requeue_all (record b { tracker = rest }) out io
