-- ===== src/Broker/Preserved.antt =====
-- Every method of the broker keeps the log in agreement with what the broker holds.
use distqueue.Base.{
  ℕ, ◌+◌, ◌≡◌, ◌≢◌, ◌⊎◌, inl, inr, refl, ap, true, none, some, List, [], ◌++◌, arith, Bytes, count,
  All, append-nil, if-intro, option-intro,
}
use distqueue.Base.Maps.{get, values}
use distqueue.Task
use distqueue.Task.{Task, in_flight}
use distqueue.Tracker.{track}
use distqueue.Wal.Replay.{IsWritable, IsCanonical}
use distqueue.Wal.{Codec, encode_record, entry_payload, op_enqueue}
use distqueue.Journal.{Journal, Write, written, cut, lost_handle, append_no_sync}
use distqueue.Broker.{Broker, Io, completed, enqueue, dequeue, enqueue_entry, maybe_compact, settle}
use distqueue.Broker.Recovery.{nothing, as_pending, apply_entry, apply_entries}
use distqueue.Broker.Live.{has_id, count-insert_new, count-has_id}
use distqueue.Broker.Agrees.{IsFresh, redelivered, Agrees-dequeue, Agrees-enqueue}
use distqueue.Broker.Logged.{
  Logged, is_large, IsSmall, Logged-append, Logged-wal, maybe_compact-Logged, settle-Logged,
}

-- A write that fails leaves no byte behind.
abbrev pub IsClean : Write → Type 0
IsClean written = Unit
IsClean (cut n) = n ≡ 0

-- No task that the broker holds has the id.
pub record IsNew (b : Broker) (id : Bytes) : Type 0 where
  pub not_pending : count (has_id id) b.pq ≡ 0
  pub not_tracked : get b.tracker id ≡ none
  pub not_lettered : All (λ d. d.id ≢ id) b.dlq

pub IsClean-cases : (w : Write) → IsClean w → (w ≡ written) ⊎ (w ≡ cut 0)
IsClean-cases written h = inl refl
IsClean-cases (cut n) h = inr (ap cut h)

pub append-seq :
    (w : Journal) (op : ℕ) (payload : Bytes)
    → (append_no_sync w op payload written).1 ≡ some (w.write_seq + 1)
unfolding append_no_sync
append-seq w op payload = refl

pub append-disk :
    (w : Journal) (op : ℕ) (payload : Bytes)
    → w.attached ≡ true
    → ((append_no_sync w op payload written).0.disk ≡ w.disk ++ encode_record op payload)
      × ((append_no_sync w op payload written).0.attached ≡ true)
unfolding append_no_sync
append-disk w op payload h = ground arith

pub append-failed :
    (w : Journal) (op : ℕ) (payload : Bytes)
    → w.attached ≡ true
    → ((append_no_sync w op payload (cut 0)).0.disk ≡ w.disk)
      × ((append_no_sync w op payload (cut 0)).0.attached ≡ true)
unfolding append_no_sync
append-failed w op payload h = ground (arith, append-nil w.disk)

pub append-failed_seq :
    (w : Journal) (op : ℕ) (payload : Bytes) → (append_no_sync w op payload (cut 0)).1 ≡ none
unfolding append_no_sync
append-failed_seq w op payload = refl

module _ (c : Codec) where
  -- The broker that a method leaves agrees with its log, and holds no task back.
  abbrev pub Keeps : {A : Type 0} → Broker × A → Type 0
  Keeps r = Logged c r.0 []

  -- A record has been written and the state moved on: the method may compact, and then it waits.
  pub written-Logged :
      {A : Type 0} (b : Broker) (io : Io) (seq : ℕ) (a : A)
      → Logged c b []
      → io.swap ≢ lost_handle
      → Logged c (settle (maybe_compact c b io.swap) seq io.synced a).0 []
  written-Logged b io seq a l ok =
      settle-Logged c (maybe_compact c b io.swap).0 (maybe_compact c b io.swap).1 seq io.synced a []
        (maybe_compact-Logged c b io.swap l ok)

  new-IsFresh :
      (b : Broker) (id : Bytes) (l : Logged c b [])
      → IsNew b id
      → IsFresh (apply_entries nothing l.log) b.dlq id
  unfolding has_id
  new-IsFresh b id l n =
      let none_pending : redelivered (has_id id) b.pq ≡ 0 = n.not_pending in
      let none_tracked : redelivered (has_id id) (values b.tracker) ≡ 0 =
        ground (arith, count-has_id b.tracker id l.agrees.tracked, n.not_tracked) in
      let live = (apply_entries nothing l.log).live in
      record {
        unlogged = ground (
          arith,
          l.agrees.same (has_id id),
          count-has_id live id l.agrees.keyed,
          none_pending,
          none_tracked,
        );
        unlettered = n.not_lettered;
      }

  -- `Dequeue` keeps the agreement of the log file with the broker, though it writes nothing.
  pub dequeue-Logged : (b : Broker) (io : Io) → Logged c b [] → Logged c (dequeue b io).0 []
  unfolding dequeue track
  dequeue-Logged b io l =
      if-intro Keeps b.closed (λ _. l)
        λ _.
          option-intro Keeps (Task.pop b.pq) (λ _. l)
            λ (t, rest) popped. record {
              log = l.log;
              written = l.written;
              coded = l.coded;
              attached = l.attached;
              agrees =
                  Agrees-dequeue (apply_entries nothing l.log) b.pq b.tracker b.dlq [] l.agrees rest
                    t _ popped refl;
              small = l.small;
              small_letters = l.small_letters;
            }

  live-small :
      {b : Broker} {limbo : List Task} (l : Logged c b limbo) (t : Task)
      → IsSmall c t
      → IsFresh (apply_entries nothing l.log) b.dlq t.id
      → count
          (is_large c)
          (values (apply_entry (apply_entries nothing l.log) (enqueue_entry t)).live)
        ≡ 0
  unfolding apply_entry enqueue_entry
  live-small l t small fresh =
      let live = (apply_entries nothing l.log).live in
      ground (arith, l.small, count-insert_new (is_large c) live t.id (as_pending t) fresh.unlogged)

  -- The state that `Enqueue` reaches when its record is written.
  enqueued :
      (b : Broker) (t : Task) (payload : Bytes) (l : Logged c b [])
      → IsSmall c t
      → c.encode_task t ≡ some payload
      → IsNew b t.id
      → Logged c
          (record b {
            wal = (append_no_sync b.wal op_enqueue payload written).0;
            pq = Task.push b.pq t;
          })
          []
  unfolding enqueue_entry entry_payload IsCanonical
  enqueued b t payload l small coded new =
      let (p, same, le) = c.encode-fits t small in
      let disk = append-disk b.wal op_enqueue payload l.attached in
      let fresh = new-IsFresh b t.id l new in
      let w : IsWritable c (enqueue_entry t) = record {
        payload = payload;
        coded = coded;
        capped = ground arith;
        canonical = (t, refl, refl);
      } in
      Logged-append c b _ [] [] (enqueue_entry t) w l disk.0 disk.1
        (Agrees-enqueue (apply_entries nothing l.log) b.pq b.tracker b.dlq [] t l.agrees fresh)
        (live-small l t small fresh) l.small_letters

  -- `Enqueue` keeps the agreement of the log file with the broker, on its error paths too, for a
  -- task whose id no held task has and whose id and payload are small enough to be coded, where the
  -- write of the record succeeds or writes nothing, and a compaction does not lose the file handle.
  pub enqueue-Logged :
      (b : Broker) (t : Task) (io : Io)
      → Logged c b []
      → IsSmall c (completed t io)
      → IsNew b (completed t io).id
      → IsClean io.write
      → io.swap ≢ lost_handle
      → Logged c (enqueue c b t io).0 []
  unfolding enqueue
  enqueue-Logged b t io l small new clean ok =
      if-intro Keeps b.closed (λ _. l)
        λ _.
          option-intro Keeps (c.encode_task (completed t io)) (λ _. l)
            λ payload coded. elim (IsClean-cases io.write clean) [
              | inr failed ↦
                  let same = append-failed b.wal op_enqueue payload l.attached in
                  simp (failed, append-failed_seq b.wal op_enqueue payload)
                    (Logged-wal c b _ [] l same.0 same.1)
              | inl fine ↦
                  simp (fine, append-seq b.wal op_enqueue payload)
                    (written-Logged _ io _ (completed t io).id
                      (enqueued b (completed t io) payload l small coded new) ok)
            ]
