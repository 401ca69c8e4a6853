-- ===== src/Server/Deadlines.antt =====
-- A delivery and its deadline, server/cluster.go, through the turns that come between `Dequeue` and
-- a tick of the timeout loop.
use distqueue.Base.{
  ℕ, ◌+◌, ◌≡◌, ◌≢◌, refl, sym, ap, subst, ◌∙◌, false, not, ◌&&◌, some, List, [], ◌∷◌, arith, ltb,
  leb, if◌then◌else◌, Bytes, count, if-intro, option-intro,
}
use distqueue.Base.Maps.{get, insert, get-insert, get-delete, IsMap, insert-IsMap, delete-IsMap}
use distqueue.Task.{Task}
use distqueue.Broker.{add_duration}
use distqueue.Machine.{QueueOp}
use distqueue.Machine
use distqueue.Raft.{is_leader}
use distqueue.Server.{
  Codec, ClusterServer, ApplyMsg, restores, commits, nothing, wake, apply_command, count_applied,
  apply_message, register, time_out, end_finish, dequeue, scan, watch, stop, Reply, ok,
}
use distqueue.Server.Runs.{
  Act, hears, registers, gives_up, proposes, dequeues, finishes, scans, watches, stops, moves,
  World, perform, run, Then, Then-some, Then-map,
}
use distqueue.Server.Scans.{
  is_id, due, scan-splits, propose-inflight, scan_each-IsMap, dequeue-deadline,
}

-- The server has that deadline for the id, and one deadline for each id.
record Tracks (id : Bytes) (d : ℕ) (s : ClusterServer) : Type 0 where
  keyed : IsMap s.inflight
  held : get s.inflight id ≡ some d

-- The act is neither the end of an ack or nack of the id, nor another delivery of it, nor a scan
-- behind the deadline, nor the loss of the leadership.
abbrev pub Spares : Bytes → ℕ → World → Act → Type 0
Spares id d w (hears m) = Unit {0}
Spares id d w (registers i) = Unit {0}
Spares id d w (gives_up i) = Unit {0}
Spares id d w (proposes op) = Unit {0}
Spares id d w (dequeues now) = (u : Task) → (dequeue w.server now).1 ≡ ok u → u.id ≢ id
Spares id d w (finishes j) = j ≢ id
Spares id d w (scans now) = ltb d now ≡ false
Spares id d w watches = (w.server.was_leader && not (is_leader w.server.node.state)) ≡ false
Spares id d w stops = Unit {0}
Spares id d w (moves n) = Unit {0}

-- Every act of a run is one of those, in the state in which it is taken.
abbrev pub SparesAll : Codec → Bytes → ℕ → World → List Act → Type 0
SparesAll c id d w [] = Unit {0}
SparesAll c id d w (a ∷ acts) =
    Spares id d w a × Then (λ w'. SparesAll c id d w' acts) (perform c w a)

module _ (c : Codec) where
  count_applied-inflight :
      (s : ClusterServer) (index : ℕ)
      → Then (λ x. x.inflight ≡ s.inflight) (count_applied c s index)
  unfolding count_applied
  count_applied-inflight s index =
      if-intro (Then (λ x. x.inflight ≡ s.inflight))
        (ltb 0 s.cfg.snapshot_threshold && leb s.cfg.snapshot_threshold (s.applied_since_snap + 1))
        (λ _.
          option-intro (Then (λ x. x.inflight ≡ s.inflight)) (c.encode_state _) (λ _. tt)
            (λ _ _. refl))
        (λ _. refl)

  wake-inflight : (s : ClusterServer) (index term : ℕ) → (wake s index term).inflight ≡ s.inflight
  unfolding wake
  wake-inflight s index term =
      option-intro (λ (x : ClusterServer). x.inflight ≡ s.inflight) (s.waiters index) (λ _. refl)
        (λ _ _. refl)

  apply_message-inflight :
      (s : ClusterServer) (m : ApplyMsg) → Then (λ x. x.inflight ≡ s.inflight) (apply_message c s m)
  unfolding apply_message
  apply_message-inflight s (restores contents) =
      option-intro (Then (λ x. x.inflight ≡ s.inflight)) (c.decode_state contents) (λ _. tt)
        (λ _ _. refl)
  apply_message-inflight s (commits command index term) =
      option-intro (Then (λ x. x.inflight ≡ s.inflight)) (apply_command c s.sm command) (λ _. tt)
        (λ sm _.
          let woken = wake (record s { sm = sm }) index term in
          Then-map _ _ (count_applied c woken index)
            (λ x same. same ∙ wake-inflight (record s { sm = sm }) index term)
            (count_applied-inflight woken index))
  apply_message-inflight s nothing = refl

  module _ (id : Bytes) (d : ℕ) where
    same-Tracks : (s s' : ClusterServer) → s'.inflight ≡ s.inflight → Tracks id d s → Tracks id d s'
    same-Tracks s s' same h = record {
      keyed = subst IsMap (sym same) h.keyed;
      held = ap (λ m. get m id) same ∙ h.held;
    }

    dequeue-Tracks :
        (s : ClusterServer) (now : ℕ)
        → ((u : Task) → (dequeue s now).1 ≡ ok u → u.id ≢ id)
        → Tracks id d s
        → Tracks id d (dequeue s now).0
    unfolding dequeue
    dequeue-Tracks s now =
        let Goal : ClusterServer × Reply Task → Type 0 =
          λ r. ((u : Task) → r.1 ≡ ok u → u.id ≢ id) → Tracks id d s → Tracks id d r.0 in
        if-intro Goal (not (is_leader s.node.state)) (λ _ _ h. h)
          (λ _.
            option-intro Goal (Machine.dequeue s.sm now s.cfg.task_timeout).1
              (λ _ _ h. record { keyed = h.keyed; held = h.held })
              (λ t _ other h. record {
                keyed = insert-IsMap s.inflight t.id t.deadline h.keyed;
                held =
                    ground (arith, get-insert s.inflight t.id t.deadline id, other t refl, h.held);
              }))

    perform-Tracks :
        (w : World) (a : Act)
        → Spares id d w a
        → Tracks id d w.server
        → Then (λ x. Tracks id d x.server) (perform c w a)
    unfolding perform register time_out end_finish scan watch stop
    perform-Tracks w (hears m) l h =
        option-intro (Then (λ x. Tracks id d x.server)) (apply_message c w.server m) (λ _. tt)
          (λ s e.
            same-Tracks w.server s
              (Then-some (λ x. x.inflight ≡ w.server.inflight) _ s
                (apply_message-inflight w.server m) e)
              h)
    perform-Tracks w (registers i) l h = record { keyed = h.keyed; held = h.held }
    perform-Tracks w (gives_up i) l h = record { keyed = h.keyed; held = h.held }
    perform-Tracks w (proposes op) l h = same-Tracks w.server _ (propose-inflight c w.server op) h
    perform-Tracks w (dequeues now) l h = dequeue-Tracks w.server now l h
    perform-Tracks w (finishes j) l h = record {
      keyed = delete-IsMap w.server.inflight j h.keyed;
      held = ground (arith, get-delete w.server.inflight j id, h.held);
    }
    perform-Tracks w (scans now) l h = record {
      keyed = scan_each-IsMap w.server.inflight now h.keyed;
      held = ground (arith, (scan-splits w.server now id h.keyed).0, h.held, l);
    }
    perform-Tracks w watches l h =
        if-intro (λ x. Tracks id d x) (w.server.was_leader && not (is_leader w.server.node.state))
          (λ lost. absurd (cc (l, lost))) (λ _. record { keyed = h.keyed; held = h.held })
    perform-Tracks w stops l h = record { keyed = h.keyed; held = h.held }
    perform-Tracks w (moves n) l h = record { keyed = h.keyed; held = h.held }

    run-Tracks :
        (acts : List Act) (w : World)
        → SparesAll c id d w acts
        → Tracks id d w.server
        → Then (λ x. Tracks id d x.server) (run c w acts)
    unfolding run
    run-Tracks [] w l h = h
    run-Tracks (a ∷ acts) w l h =
        option-intro (Then (λ x. Tracks id d x.server)) (perform c w a) (λ _. tt)
          (λ w' e.
            run-Tracks acts w' (Then-some (λ x. SparesAll c id d x acts) _ w' l.1 e)
              (Then-some (λ x. Tracks id d x.server) _ w' (perform-Tracks w a l.0 h) e))

delivered-Tracks :
    (s : ClusterServer) (now : ℕ) (t : Task)
    → IsMap s.inflight
    → (dequeue s now).1 ≡ ok t
    → Tracks t.id (add_duration now s.cfg.task_timeout) (dequeue s now).0
unfolding dequeue
delivered-Tracks s now t keyed =
    let d = add_duration now s.cfg.task_timeout in
    let Goal : ClusterServer × Reply Task → Type 0 = λ r. r.1 ≡ ok t → Tracks t.id d r.0 in
    if-intro Goal (not (is_leader s.node.state)) (λ _ e. absurd (cc (e)))
      (λ _.
        option-intro Goal (Machine.dequeue s.sm now s.cfg.task_timeout).1 (λ _ e. absurd (cc (e)))
          (λ u is e.
            let same : u ≡ t = cc (e) in
            let deadline = dequeue-deadline s.sm now s.cfg.task_timeout u is in
            record {
              keyed = insert-IsMap s.inflight u.id u.deadline keyed;
              held =
                  subst (λ (x : Task). get (insert s.inflight u.id u.deadline) x.id ≡ some d) same
                    (ground (arith, get-insert s.inflight u.id u.deadline u.id, deadline));
            }))

-- If `Dequeue` hands out a task, in a server with one deadline for each id, and a run of turns
-- follows in which no ack or nack of its id is finished, it is not handed out again, no scan comes
-- behind its deadline, which is the time of the delivery plus the task timeout, and the leadership
-- is not lost, then a scan at the end of that run lists the id, once, if it comes behind that
-- deadline, and not if it comes before or then.
pub run-expires :
    (c : Codec) (w w' : World) (acts : List Act) (now later : ℕ) (t : Task)
    → IsMap w.server.inflight
    → (dequeue w.server now).1 ≡ ok t
    → SparesAll c t.id
        (add_duration now w.server.cfg.task_timeout)
        (record w { server = (dequeue w.server now).0 })
        acts
    → run c (record w { server = (dequeue w.server now).0 }) acts ≡ some w'
    → count (is_id t.id) (scan w'.server later).1
      ≡ (if ltb (add_duration now w.server.cfg.task_timeout) later then 1 else 0)
run-expires c w w' acts now later t keyed handed spares ran =
    let d = add_duration now w.server.cfg.task_timeout in
    let first = delivered-Tracks w.server now t keyed handed in
    let last =
      Then-some (λ (x : World). Tracks t.id d x.server) _ w'
        (run-Tracks c t.id d acts (record w { server = (dequeue w.server now).0 }) spares first)
        ran in
    (scan-splits w'.server later t.id last.keyed).1
    ∙ ap (λ o. if due o later then 1 else 0) last.held
