-- ===== src/Broker/Outcomes.antt =====
-- What a method of the broker has done, on disk too, when it returns no error.
use distqueue.Base.{
  ℕ, ◌+◌, ◌<◌, ◌≤◌, ◌≡◌, ◌≢◌, inl, refl, sym, ap, subst, ◌∙◌, Option, none, some, [], ◌++◌, arith,
  Bytes, length, take, append-nil, if-intro, option-intro,
}
use distqueue.Base.Maps.{delete, get}
use distqueue.Task
use distqueue.Task.{Task, in_flight, dead, pending}
use distqueue.Tracker.{Tracker, remove, track}
use distqueue.Wal.{Codec, read_record, op_enqueue, op_ack}
use distqueue.Journal.{Journal, Write, written, cut, lost_handle, append_no_sync}
use distqueue.Broker.{
  Broker, Config, Io, Result, ok, write_error, settle, completed, maybe_compact, enqueue, ack, err,
}
use distqueue.Broker.Recovery.{restored}
use distqueue.Broker.Logged.{Logged, IsSmall}
use distqueue.Wal.Record.{take-append}
use distqueue.Wal.Replay.{replay-entries}
use distqueue.Broker.Preserved.{IsNew, IsClean, enqueue-Logged}
use distqueue.Broker.Requeued.{ack-Logged}
use distqueue.Broker.Crash.{Recovers, restored-Recovers}
use distqueue.Broker.Settled.{IsDone, compacted-IsDone}

remove-cases :
    (tr : Tracker) (id : Bytes) (t : Task) (rest : Tracker)
    → remove tr id ≡ some (t, rest)
    → (get tr id ≢ none) × (rest ≡ delete tr id)
unfolding remove
remove-cases tr id t rest =
    option-intro
      (λ (o : Option (Task × Tracker)).
        o ≡ some (t, rest) → (get tr id ≢ none) × (rest ≡ delete tr id))
      (get tr id) (λ _ e. absurd (cc (e)))
      (λ u is e. (λ gone. absurd (cc (is, gone)), ground (arith, e)))

module _ (c : Codec) where
  -- No fsync has covered more records than are written.
  abbrev pub IsOrdered : Broker → Type 0
  IsOrdered b = b.wal.synced_seq ≤ b.wal.write_seq

  -- A crash that leaves just the bytes that an fsync has covered loses nothing of the broker.
  abbrev pub SurvivesCrash : Broker → Config → Type 0
  SurvivesCrash b cfg = Recovers c b [] (restored c cfg (take b.wal.durable b.wal.disk))

  done-SurvivesCrash :
      (b : Broker) (cfg : Config)
      → Logged c b []
      → b.wal.durable ≡ length b.wal.disk
      → SurvivesCrash b cfg
  unfolding read_record
  done-SurvivesCrash b cfg l d =
      let whole : take b.wal.durable b.wal.disk ≡ b.wal.disk ++ [] =
        ap (λ n. take n b.wal.disk) d
        ∙ ap (take (length b.wal.disk)) (sym (append-nil b.wal.disk))
        ∙ take-append b.wal.disk []
        ∙ sym (append-nil b.wal.disk) in
      subst (λ file. Recovers c b [] (restored c cfg file)) (sym whole)
        (restored-Recovers c b [] [] cfg l
          (replay-entries c l.log b.wal.disk [] l.written l.coded (inl refl)))

  -- A method appends its record and settles: where it has no error, the record was written.
  append-IsDone :
      {A : Type 0} (b : Broker) (w : Journal) (op : ℕ) (payload : Bytes) (write : Write) (io : Io)
      (a x : A) (failed : Journal → Broker)
      → w.synced_seq ≤ w.write_seq
      → let p = append_no_sync w op payload write in
        let r : Broker × Result A = elim p.1 [
          | none ↦ (failed p.0, err write_error)
          | some n ↦ settle (maybe_compact c (record b { wal = p.0 }) io.swap) n io.synced a
        ] in
        r.1 ≡ ok x → IsClean write × IsDone b a r x
  unfolding append_no_sync
  append-IsDone b w op payload written io a x failed ord e =
      let w' = (append_no_sync w op payload written).0 in
      let new : w'.synced_seq < w.write_seq + 1 =
        if-intro (λ (y : Journal). y.synced_seq < w.write_seq + 1) w.attached (λ _. omega arith)
          (λ _. omega arith) in
      let d = compacted-IsDone c (record b { wal = w' }) io (w.write_seq + 1) a x new e in
      (tt, record { result = d.result; same = d.same; durable = d.durable })
  append-IsDone b w op payload (cut n) io a x failed ord e = absurd (cc (e))

  enqueue-IsDone :
      (b : Broker) (t : Task) (io : Io) (id : Bytes)
      → IsOrdered b
      → (enqueue c b t io).1 ≡ ok id
      → IsClean io.write
        × IsDone
            (record b { pq = Task.push b.pq (completed t io) })
            (completed t io).id
            (enqueue c b t io)
            id
  unfolding enqueue
  enqueue-IsDone b t io id ord =
      let b' = record b { pq = Task.push b.pq (completed t io) } in
      let Goal : Broker × Result Bytes → Type 0 =
        λ r. r.1 ≡ ok id → IsClean io.write × IsDone b' (completed t io).id r id in
      if-intro Goal b.closed (λ _ e. absurd (cc (e)))
        (λ _.
          option-intro Goal (c.encode_task (completed t io)) (λ _ e. absurd (cc (e)))
            (λ payload _.
              append-IsDone b' b.wal op_enqueue payload io.write io (completed t io).id id
                (λ w. record b { wal = w }) ord))

  -- The broker once a task is acked, but for its log.
  abbrev acked : Broker → Bytes → Broker
  acked b id = record b { tracker = delete b.tracker id; acked = b.acked + 1 }

  ack-IsDone :
      (b : Broker) (id : Bytes) (io : Io)
      → IsOrdered b
      → (ack c b id io).1 ≡ ok tt
      → (get b.tracker id ≢ none) × IsClean io.write × IsDone (acked b id) tt (ack c b id io) tt
  unfolding ack
  ack-IsDone b id io ord =
      let Goal : Broker × Result (Unit {0}) → Type 0 = λ r.
        r.1 ≡ ok tt → (get b.tracker id ≢ none) × IsClean io.write × IsDone (acked b id) tt r tt in
      if-intro Goal b.closed (λ _ e. absurd (cc (e)))
        (λ _.
          option-intro Goal (remove b.tracker id) (λ _ e. absurd (cc (e)))
            (λ (t, rest) taken e.
              let (held, same) = remove-cases b.tracker id t rest taken in
              let (clean, d) =
                append-IsDone (record b { tracker = rest; acked = b.acked + 1 }) b.wal op_ack id
                  io.write io tt tt (λ w. record b { wal = w; tracker = track rest t }) ord e in
              (
                held,
                clean,
                record {
                  result = d.result;
                  same =
                      d.same
                      ∙ ap
                          (λ (tr : Tracker). record b {
                            wal = (after t rest).0.wal;
                            tracker = tr;
                            acked = b.acked + 1;
                          })
                          same;
                  durable = d.durable;
                },
              )))
    where
      after : Task → Tracker → Broker × Result (Unit {0})
      after t rest = elim (append_no_sync b.wal op_ack id io.write).1 [
        | none ↦ (
          record b { wal = (append_no_sync b.wal op_ack id io.write).0; tracker = track rest t },
          err write_error,
        )
        | some n ↦
            settle
              (maybe_compact c
                (record b {
                  wal = (append_no_sync b.wal op_ack id io.write).0;
                  tracker = rest;
                  acked = b.acked + 1;
                })
                io.swap)
              n io.synced tt
      ]

  -- For a broker whose log file agrees with it (`Logged`), with no more records fsynced than
  -- written, and a task whose id no held task has and whose id and payload are small enough to be
  -- coded, where a compaction does not lose the file handle: if `Enqueue` returns no error, with an
  -- id, that is the id of the task as it is completed; the task is pushed and nothing else but the
  -- log is changed; and on the bytes of the file that an fsync has covered by then, the broker that
  -- `recover` fills in has as pending just the tasks that are pending or in flight behind the call,
  -- the new one among them, each as a pending task without a deadline, and the same dead letters up
  -- to their retry counts.
  pub enqueue-survives :
      (b : Broker) (t : Task) (io : Io) (cfg : Config) (id : Bytes)
      → Logged c b []
      → IsOrdered b
      → IsSmall c (completed t io)
      → IsNew b (completed t io).id
      → io.swap ≢ lost_handle
      → (enqueue c b t io).1 ≡ ok id
      → let b' = (enqueue c b t io).0 in
        (id ≡ (completed t io).id)
        × (b' ≡ record b { wal = b'.wal; pq = Task.push b.pq (completed t io) })
        × SurvivesCrash b' cfg
  enqueue-survives b t io cfg id l ord small new kept h =
      let (clean, d) = enqueue-IsDone b t io id ord h in
      let l' = enqueue-Logged c b t io l small new clean kept in
      (d.result, d.same, done-SurvivesCrash (enqueue c b t io).0 cfg l' d.durable)

  -- For a broker whose log file agrees with it (`Logged`), with no more records fsynced than
  -- written, where a compaction does not lose the file handle: if `Ack` returns no error, the task
  -- was tracked; it is taken out of the tracker, the ack counted, and nothing else but the log is
  -- changed; and on the bytes of the file that an fsync has covered by then, the broker that
  -- `recover` fills in has as pending just the tasks that are pending or in flight behind the call,
  -- each as a pending task without a deadline, and the same dead letters up to their retry counts.
  pub ack-survives :
      (b : Broker) (id : Bytes) (io : Io) (cfg : Config)
      → Logged c b []
      → IsOrdered b
      → io.swap ≢ lost_handle
      → (ack c b id io).1 ≡ ok tt
      → let b' = (ack c b id io).0 in
        (get b.tracker id ≢ none)
        × (b' ≡ record b { wal = b'.wal; tracker = delete b.tracker id; acked = b.acked + 1 })
        × SurvivesCrash b' cfg
  ack-survives b id io cfg l ord kept h =
      let (held, clean, d) = ack-IsDone b id io ord h in
      let l' = ack-Logged c b id io l clean kept in
      (held, d.same, done-SurvivesCrash (ack c b id io).0 cfg l' d.durable)
