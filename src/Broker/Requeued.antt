-- ===== src/Broker/Requeued.antt =====
-- Acks, nacks and timeouts keep the log in agreement with what the broker holds.
use distqueue.Base.{
  ℕ, ◌+◌, ◌≡◌, ◌≢◌, ◌⊎◌, inl, inr, refl, sym, ap, subst, ◌∙◌, true, false, some, List, [], ◌∷◌,
  ◌++◌, arith, if◌then◌else◌, ◌==◌, Bytes, count, All, All-append, if-intro, option-intro,
}
use distqueue.Base.Int.{pos, increment, leb_ℤ}
use distqueue.Base.Maps.{get, delete, values}
use distqueue.Task
use distqueue.Task.{Task, pending, dead}
use distqueue.Tracker.{Tracker, track, remove}
use distqueue.Wal.{Codec, op_enqueue, op_ack, op_nack, op_dead}
use distqueue.Wal.Replay.{IsWritable}
use distqueue.Journal.{Journal, written, cut, lost_handle, append_no_sync}
use distqueue.Broker.{Broker, Io, dying, ack, requeue, requeued, id_entry, maybe_compact}
use distqueue.Broker.Recovery.{nothing, as_pending, apply_entry, apply_entries}
use distqueue.Broker.Live.{get-IsKeyed, count-insert_old, count-delete}
use distqueue.Broker.Agrees.{
  Agrees, letter, retried, limbo_live, Agrees-remove, Agrees-ack, Agrees-nack, Agrees-dead,
  Agrees-track,
}
use distqueue.Broker.Logged.{
  Logged, is_large, IsSmall, id_entry-coded, Logged-append, maybe_compact-Logged,
}
use distqueue.Broker.Preserved.{
  Keeps, IsClean, IsClean-cases, append-seq, append-disk, append-failed, append-failed_seq,
  written-Logged,
}

pub remove-inv :
    (tr : Tracker) (id : Bytes) (t : Task) (rest : Tracker)
    → remove tr id ≡ some (t, rest)
    → (get tr id ≡ some t) × (rest ≡ delete tr id)
unfolding remove
remove-inv tr id t rest h = ground arith

module _ (c : Codec) where
  -- A task leaves the tracker.
  pub removed :
      (b : Broker) (id : Bytes) (t : Task) (rest : Tracker) (limbo : List Task)
      → Logged c b limbo
      → remove b.tracker id ≡ some (t, rest)
      → Logged c (record b { tracker = rest }) (t ∷ limbo)
  removed b id t rest limbo l h =
      let (held, left) = remove-inv b.tracker id t rest h in
      record {
        log = l.log;
        written = l.written;
        coded = l.coded;
        attached = l.attached;
        agrees = rw left (
            Agrees-remove (apply_entries nothing l.log) b.pq b.tracker b.dlq limbo l.agrees id t
              held);
        small = l.small;
        small_letters = l.small_letters;
      }

  -- A task in limbo is small, as all live tasks are.
  limbo-IsSmall : (b : Broker) (t : Task) (limbo : List Task) → Logged c b (t ∷ limbo) → IsSmall c t
  limbo-IsSmall b t limbo l = ground (arith, l.agrees.same (is_large c), l.small)

  -- An entry about the task in limbo has been written.
  recorded :
      (b b' : Broker) (t : Task) (limbo : List Task) (op : ℕ) (l : Logged c b (t ∷ limbo))
      → (op == op_enqueue) ≡ false
      → b'.wal ≡ (append_no_sync b.wal op t.id written).0
      → Agrees
          (apply_entry (apply_entries nothing l.log) (id_entry op t.id))
          b'.pq
          b'.tracker
          b'.dlq
          limbo
      → count
          (is_large c)
          (values (apply_entry (apply_entries nothing l.log) (id_entry op t.id)).live)
        ≡ 0
      → All (IsSmall c) b'.dlq
      → Logged c b' limbo
  unfolding id_entry
  recorded b b' t limbo op l e wal agrees small letters =
      let fits = limbo-IsSmall b t limbo l in
      let disk = append-disk b.wal op t.id l.attached in
      let (coded, canonical) = id_entry-coded c op t.id e in
      let w : IsWritable c (id_entry op t.id) = record {
        payload = t.id;
        coded = coded;
        capped = omega (arith, fits, c.room-le);
        canonical = canonical;
      } in
      Logged-append c b b' (t ∷ limbo) limbo (id_entry op t.id) w l
        (ap (λ (w : Journal). w.disk) wal ∙ disk.0) (ap (λ (w : Journal). w.attached) wal ∙ disk.1)
        agrees small letters

  module _ (b : Broker) (t : Task) (limbo : List Task) (l : Logged c b (t ∷ limbo)) where
    deleted-small :
        (op : ℕ)
        → (op ≡ op_ack) ⊎ (op ≡ op_dead)
        → count
            (is_large c)
            (values (apply_entry (apply_entries nothing l.log) (id_entry op t.id)).live)
          ≡ 0
    unfolding apply_entry id_entry
    deleted-small op h =
        let live = (apply_entries nothing l.log).live in
        let held = limbo_live (apply_entries nothing l.log) b.pq b.tracker b.dlq limbo t l.agrees in
        ground (
          arith,
          held,
          l.small,
          count-delete (is_large c) live t.id (as_pending t) l.agrees.keyed held,
        )

    retried-small :
        count
          (is_large c)
          (values (apply_entry (apply_entries nothing l.log) (id_entry op_nack t.id)).live)
        ≡ 0
    unfolding apply_entry id_entry
    retried-small =
        let r = apply_entries nothing l.log in
        let held = limbo_live r b.pq b.tracker b.dlq limbo t l.agrees in
        ground (
          arith,
          held,
          l.small,
          limbo-IsSmall b t limbo l,
          count-insert_old (is_large c) r.live t.id
              (retried r b.pq b.tracker b.dlq limbo t l.agrees) (as_pending t) l.agrees.keyed held,
        )

  removed-id :
      (b : Broker) (id : Bytes) (t : Task) (rest : Tracker)
      → Logged c b []
      → remove b.tracker id ≡ some (t, rest)
      → t.id ≡ id
  removed-id b id t rest l h =
      get-IsKeyed b.tracker id t l.agrees.tracked (remove-inv b.tracker id t rest h).0

  module _ (b : Broker) (t : Task) (rest : Tracker) (id : Bytes) where
    tracked_again :
        Logged c (record b { tracker = rest }) (t ∷ [])
        → Logged c
            (record b { wal = (append_no_sync b.wal op_ack id (cut 0)).0; tracker = track rest t })
            []
    unfolding track
    tracked_again l =
        let same = append-failed b.wal op_ack id l.attached in
        record {
          log = l.log;
          written = l.written;
          coded = l.coded ∙ ap some (sym same.0);
          attached = same.1;
          agrees = Agrees-track (apply_entries nothing l.log) b.pq rest b.dlq [] t l.agrees;
          small = l.small;
          small_letters = l.small_letters;
        }

    acked_state :
        t.id ≡ id
        → Logged c (record b { tracker = rest }) (t ∷ [])
        → Logged c
            (record b {
              wal = (append_no_sync b.wal op_ack id written).0;
              tracker = rest;
              acked = b.acked + 1;
            })
            []
    acked_state own l =
        recorded (record b { tracker = rest }) _ t [] op_ack l refl
          (ap (λ k. (append_no_sync b.wal op_ack k written).0) (sym own))
          (Agrees-ack (apply_entries nothing l.log) b.pq rest b.dlq [] t l.agrees)
          (deleted-small (record b { tracker = rest }) t [] l op_ack (inl refl)) l.small_letters

  -- `Ack` of any id keeps the agreement of the log file with the broker, on its error paths too,
  -- where the write of the record succeeds or writes nothing, and a compaction does not lose the
  -- file handle.
  pub ack-Logged :
      (b : Broker) (id : Bytes) (io : Io)
      → Logged c b []
      → IsClean io.write
      → io.swap ≢ lost_handle
      → Logged c (ack c b id io).0 []
  unfolding ack
  ack-Logged b id io l clean ok =
      if-intro (Keeps c) b.closed (λ _. l)
        λ _.
          option-intro (Keeps c) (remove b.tracker id) (λ _. l)
            λ (t, rest) taken.
              let own = removed-id b id t rest l taken in
              let l' = removed b id t rest [] l taken in
              elim (IsClean-cases io.write clean) [
                | inr failed ↦
                    simp (failed, append-failed_seq b.wal op_ack id) (tracked_again b t rest id l')
                | inl fine ↦
                    simp (fine, append-seq b.wal op_ack id)
                      (written-Logged c _ io _ tt (acked_state b t rest id own l') ok)
              ]

  -- Where other tasks are still in limbo, the broker must not be one that compacts.
  abbrev pub MayCompact : Broker → List Task → Type 0
  MayCompact b limbo = (limbo ≡ []) ⊎ (leb_ℤ b.cfg.compact_every (pos 0) ≡ true)

  compacted-Logged :
      (b : Broker) (limbo : List Task) (io : Io)
      → Logged c b limbo
      → io.swap ≢ lost_handle
      → MayCompact b limbo
      → Logged c (maybe_compact c b io.swap).0 limbo
  unfolding maybe_compact
  compacted-Logged b limbo io l ok (inl none_left) =
      subst (λ ts. Logged c (maybe_compact c b io.swap).0 ts) (sym none_left)
        (maybe_compact-Logged c b io.swap (subst (Logged c b) none_left l) ok)
  compacted-Logged b limbo io l ok (inr never) = simp never l

  module _ (b : Broker) (t : Task) (limbo : List Task) (io : Io) (l : Logged c b (t ∷ limbo))
      (fine : io.write ≡ written) (ok : io.swap ≢ lost_handle) (may : MayCompact b limbo) where
    abbrev written_log : Journal
    written_log = (append_no_sync b.wal (if dying b t then op_dead else op_nack) t.id written).0

    dead_state :
        dying b t ≡ true
        → (d : Task) → letter d ≡ letter t
        → IsSmall c d
        → Logged c
            (record b { wal = written_log; nacked = b.nacked + 1; dlq = b.dlq ++ d ∷ [] })
            limbo
    dead_state yes_dead d same small =
        recorded b _ t limbo op_dead l refl
          (ap (λ op. (append_no_sync b.wal op t.id written).0) (ground arith))
          (Agrees-dead (apply_entries nothing l.log) b.pq b.tracker b.dlq limbo t l.agrees d same)
          (deleted-small b t limbo l op_dead (inr refl))
          (All-append (IsSmall c) b.dlq (d ∷ []) l.small_letters (small, tt))

    nacked_state :
        dying b t ≡ false
        → Logged c
            (record b {
              wal = written_log;
              nacked = b.nacked + 1;
              pq = Task.push b.pq (record t {
                retry_count = increment t.retry_count;
                status = pending;
                deadline = 0;
              });
            })
            limbo
    nacked_state not_dead =
        recorded b _ t limbo op_nack l refl
          (ap (λ op. (append_no_sync b.wal op t.id written).0) (ground arith))
          (Agrees-nack (apply_entries nothing l.log) b.pq b.tracker b.dlq limbo t l.agrees)
          (retried-small b t limbo l) l.small_letters

    pub requeue-Logged : Logged c (requeue c b t io).0 limbo
    unfolding requeue requeued
    requeue-Logged =
        simp (requeue, fine, append-seq b.wal (if dying b t then op_dead else op_nack) t.id)
          (if-intro (λ b'. Logged c (maybe_compact c b' io.swap).0 limbo) (dying b t)
            (λ yes_dead.
              compacted-Logged _ limbo io
                (dead_state yes_dead
                  (record t { retry_count = increment t.retry_count; status = dead }) refl
                  (limbo-IsSmall b t limbo l))
                ok may)
            (λ not_dead. compacted-Logged _ limbo io (nacked_state not_dead) ok may))
