-- ===== src/Broker/Crash.antt =====
-- What a restart recovers from the log, whole or with a torn last record.
use distqueue.Base.{
  ℕ, ◌+◌, ◌≤◌, ◌<◌, ◌≡◌, ◌≢◌, refl, sym, subst, Bool, true, false, none, List, [], ◌∷◌, ◌++◌, map,
  arith, if◌then◌else◌, Bytes, length, take, count, All,
}
use distqueue.Base.Maps.{get, values}
use distqueue.Broker.Live.{IsKeyed}
use distqueue.Heap.Order.{IsHeap}
use distqueue.Heap.Queue.{push-IsHeap, push-SameElements}
use distqueue.Task
use distqueue.Task.{Task, less, no_task, less-IsOrder}
use distqueue.Wal.{Codec, LogEntry, encode_record, replay}
use distqueue.Wal.Replay.{IsWritable, Stops, replay-entries, replay-torn}
use distqueue.Journal.{Swap, lost_handle, open_journal}
use distqueue.Broker.{Broker, Config, ok, err, compact, compact_error}
use distqueue.Broker.Recovery.{nothing, as_pending, apply_entries, push_all, restored, open_broker}
use distqueue.Broker.Agrees.{redelivered, letter}
use distqueue.Broker.Logged.{Logged, compact-Logged}

count-push_all :
    (q ts : List Task) (p : Task → Bool) → count p (push_all q ts) ≡ count p q + count p ts
unfolding push_all Task.push
count-push_all q [] p = omega arith
count-push_all q (t ∷ ts) p =
    omega (arith, count-push_all (Task.push q t) ts p, push-SameElements less no_task q t p)

push_all-IsHeap : (q ts : List Task) → IsHeap less no_task q → IsHeap less no_task (push_all q ts)
unfolding push_all Task.push
push_all-IsHeap q [] h = h
push_all-IsHeap q (t ∷ ts) h =
    push_all-IsHeap (Task.push q t) ts (push-IsHeap less no_task less-IsOrder q t h)

-- What holds of the ids and payloads of the letters holds of those of any letters that are the same
-- up to their retry counts.
All-letters :
    (P : Bytes → Bytes → Type 0) (xs ys : List Task)
    → map letter xs ≡ map letter ys
    → All (λ d. P d.id d.payload) xs
    → All (λ d. P d.id d.payload) ys
All-letters P [] [] e h = tt
All-letters P [] (y ∷ ys) e h = absurd (cc)
All-letters P (x ∷ xs) [] e h = absurd (cc)
All-letters P (x ∷ xs) (y ∷ ys) e h =
    let id : x.id ≡ y.id = ground arith in
    let payload : x.payload ≡ y.payload = ground arith in
    (
      subst (λ k. P k y.payload) id (subst (P x.id) payload h.0),
      All-letters P xs ys (ground arith) h.1,
    )

module _ (c : Codec) where
  -- `b'` is a broker that has lost nothing of `b`: every task that was pending, in flight or in
  -- limbo is pending, and the dead letters are there, but for their retry counts.
  pub record Recovers (b : Broker) (limbo : List Task) (b' : Broker) : Type 0 where
    pub pending :
        (p : Task → Bool)
        → count p b'.pq
          ≡ redelivered p b.pq + redelivered p (values b.tracker) + redelivered p limbo
    pub letters : map letter b'.dlq ≡ map letter b.dlq
    pub untracked : b'.tracker ≡ []
    pub ordered : IsHeap less no_task b'.pq
    pub cut : b'.wal.disk ≡ b.wal.disk

  restored_lem :
      (cfg : Config) (disk : Bytes) (es : List LogEntry) (kept : Bytes)
      → replay c disk ≡ (es, kept)
      → restored c cfg disk ≡ record {
        pq = push_all [] (values (apply_entries nothing es).live);
        tracker = [];
        dlq = (apply_entries nothing es).letters;
        wal = open_journal kept;
        cfg = cfg;
        acked = 0;
        nacked = 0;
        closed = false;
      }
  unfolding restored
  restored_lem cfg disk es kept h = rw h

  pub restored-Recovers :
      (b : Broker) (limbo : List Task) (tail : Bytes) (cfg : Config) (l : Logged c b limbo)
      → replay c (b.wal.disk ++ tail) ≡ (l.log, b.wal.disk)
      → Recovers b limbo (restored c cfg (b.wal.disk ++ tail))
  unfolding open_journal
  restored-Recovers b limbo tail cfg l h =
      let r = apply_entries nothing l.log in
      rw (restored_lem cfg (b.wal.disk ++ tail) l.log b.wal.disk h) (record {
        pending = λ p. omega (arith, count-push_all [] (values r.live) p, l.agrees.same p);
        letters = sym l.agrees.letters;
        untracked = refl;
        ordered = push_all-IsHeap [] (values r.live) (λ c' p q. absurd (omega arith));
        cut = refl;
      })

  -- For a broker whose log file agrees with it (`Logged`), and a file that goes on behind that log
  -- with the first bytes, but not all, of one more writable record: the broker that `recover` fills
  -- in, before it compacts, has as pending just the tasks that were pending, in flight or in limbo,
  -- each as a pending task without a deadline; it has the same dead letters up to their retry
  -- counts; its queue is a heap, its tracker empty, and the file is cut back to the log.
  pub crash-Recovers :
      (b : Broker) (limbo : List Task) (e : LogEntry) (k : ℕ) (cfg : Config) (w : IsWritable c e)
      → Logged c b limbo
      → k < length (encode_record e.op w.payload)
      → Recovers b limbo (restored c cfg (b.wal.disk ++ take k (encode_record e.op w.payload)))
  crash-Recovers b limbo e k cfg w l lt =
      restored-Recovers b limbo (take k (encode_record e.op w.payload)) cfg l
        (replay-torn c l.log b.wal.disk e k w l.written l.coded lt)

  -- The broker that `New` returns agrees with its log.
  restored-Logged :
      (b : Broker) (limbo : List Task) (tail : Bytes) (cfg : Config) (l : Logged c b limbo)
      → replay c (b.wal.disk ++ tail) ≡ (l.log, b.wal.disk)
      → Logged c (restored c cfg (b.wal.disk ++ tail)) []
  unfolding open_journal IsKeyed values
  restored-Logged b limbo tail cfg l h =
      let r = apply_entries nothing l.log in
      rw (restored_lem cfg (b.wal.disk ++ tail) l.log b.wal.disk h) (record {
        log = l.log;
        written = l.written;
        coded = l.coded;
        attached = refl;
        agrees = record {
          keyed = l.agrees.keyed;
          tracked = tt;
          same = λ p. omega (
            arith,
            count-push_all [] (values r.live) (λ t. p (as_pending t)),
            l.agrees.same p,
            l.agrees.same (λ t. p (as_pending t)),
          );
          letters = refl;
          apart =
              All-letters (λ id _. get r.live id ≡ none) b.dlq r.letters l.agrees.letters
                l.agrees.apart;
        };
        small = l.small;
        small_letters =
            All-letters (λ id payload. length id + length payload ≤ c.room) b.dlq r.letters
              l.agrees.letters l.small_letters;
      })

  opened-Logged :
      (es : List LogEntry) (b b' : Broker) (r : Broker × Bool)
      → Logged c b []
      → Logged c r.0 []
      → elim es [ [] ↦ ok b | _ ∷ _ ↦ if r.1 then ok r.0 else err compact_error ] ≡ ok b'
      → Logged c b' []
  opened-Logged [] b b' r l m h = subst (λ x. Logged c x []) (cc) l
  opened-Logged (e ∷ es) b b' (r, true) l m h = subst (λ x. Logged c x []) (cc) m
  opened-Logged (e ∷ es) b b' (r, false) l m h = absurd (cc)

  -- On the log of a broker that agrees with it, followed by bytes of which no record can be read,
  -- any broker that `New` returns agrees with its own log, unless the compaction loses the file
  -- handle.
  pub reopen-Logged :
      (b b' : Broker) (limbo : List Task) (tail : Bytes) (cfg : Config) (swap : Swap)
      → Logged c b limbo
      → Stops c tail
      → swap ≢ lost_handle
      → open_broker c cfg (b.wal.disk ++ tail) swap ≡ ok b'
      → Logged c b' []
  unfolding open_broker
  reopen-Logged b b' limbo tail cfg swap l stops fine h =
      let disk = b.wal.disk ++ tail in
      let read = replay-entries c l.log b.wal.disk tail l.written l.coded stops in
      let fresh = restored-Logged b limbo tail cfg l read in
      opened-Logged (replay c disk).0 (restored c cfg disk) b'
        (compact c (restored c cfg disk) swap) fresh
        (compact-Logged c (restored c cfg disk) swap fresh fine) h
