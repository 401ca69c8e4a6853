-- ===== src/Server/Runs.antt =====
-- Runs of the parts of server/cluster.go in any order, with what each leaves of the waits.
use distqueue.Base.{
  ℕ, ◌+◌, ◌≡◌, ◌⊎◌, refl, subst, not, ◌&&◌, Option, none, some, List, [], ◌∷◌, ltb, leb, Bytes,
  ℕ_discrete, ite, if-intro, option-intro,
}
use distqueue.Machine.{Machine, QueueOp}
use distqueue.Machine
use distqueue.Raft
use distqueue.Raft.{Node, is_leader}
use distqueue.Task.{Task}
use distqueue.Server.{
  Codec, ClusterServer, ClusterConfig, ApplyMsg, restores, commits, nothing, count_applied,
  apply_message, propose, register, time_out, end_finish, dequeue, scan, watch, stop,
  new_cluster_server, Reply,
}

-- One turn of a goroutine; `moves` is anything that the Raft node does.
pub data Act : Type 0 where
  hears : ApplyMsg → Act
  registers : ℕ → Act
  gives_up : ℕ → Act
  proposes : QueueOp → Act
  dequeues : ℕ → Act
  finishes : Bytes → Act
  scans : ℕ → Act
  watches stops : Act
  moves : Node → Act

-- The server, the index that each channel was made for, and the indices and terms of the entries
-- that were applied.
pub record World : Type 0 where
  pub server : ClusterServer
  pub owner : ℕ → ℕ
  pub applied : List (ℕ × ℕ)

abbrev pub entry_of : ApplyMsg → List (ℕ × ℕ) → List (ℕ × ℕ)
entry_of (commits command index term) es = (index, term) ∷ es
entry_of (restores contents) es = es
entry_of nothing es = es

-- None is a panic.
unfoldable pub perform : Codec → World → Act → Option World
perform c w (hears m) = elim (apply_message c w.server m) [
  | none ↦ none
  | some s ↦ some (record w { server = s; applied = entry_of m w.applied })
]
perform c w (registers index) = some (record w {
  server = (register w.server index).0;
  owner = λ ch. ite (ℕ_discrete w.server.made ch) index (w.owner ch);
})
perform c w (gives_up index) = some (record w { server = (time_out w.server index).0 })
perform c w (proposes op) = some (record w { server = (propose c w.server op).0 })
perform c w (dequeues now) = some (record w { server = (dequeue w.server now).0 })
perform c w (finishes id) = some (record w { server = end_finish w.server id })
perform c w (scans now) = some (record w { server = (scan w.server now).0 })
perform c w watches = some (record w { server = watch w.server })
perform c w stops = some (record w { server = stop w.server })
perform c w (moves n) = some (record w { server = record w.server { node = n } })

unfoldable pub run : Codec → World → List Act → Option World
run c w [] = some w
run c w (a ∷ acts) = elim (perform c w a) [ none ↦ none | some w' ↦ run c w' acts ]

unfoldable pub new_world : Node → Machine → ClusterConfig → World
new_world node sm cfg = record {
  server = new_cluster_server node sm cfg;
  owner = λ _. 0;
  applied = [];
}

abbrev pub IsApplied : ℕ → ℕ → List (ℕ × ℕ) → Type 0
IsApplied index term [] = ⊥
IsApplied index term ((i, t) ∷ es) = ((i ≡ index) × (t ≡ term)) ⊎ IsApplied index term es

-- What holds of a result, if there is one.
abbrev pub Then {ℓ} : {A : Type ℓ} → (A → Type 0) → Option A → Type 0
Then P none = Unit {0}
Then P (some x) = P x

pub Then-some {ℓ} :
    {A : Type ℓ} (P : A → Type 0) (o : Option A) (x : A) → Then P o → o ≡ some x → P x
Then-some P o x h e = subst (Then P) e h

pub Then-map {ℓ} :
    {A : Type ℓ} (P Q : A → Type 0) (o : Option A) → ((x : A) → P x → Q x) → Then P o → Then Q o
Then-map P Q none f h = tt
Then-map P Q (some x) f h = f x h

-- The waits are left alone.
pub record SameWaits (s s' : ClusterServer) : Type 0 where
  pub waiters : s'.waiters ≡ s.waiters
  pub channels : s'.channels ≡ s.channels
  pub made : s'.made ≡ s.made

pub SameWaits-refl : (s : ClusterServer) → SameWaits s s
SameWaits-refl s = record { waiters = refl; channels = refl; made = refl }

module _ (c : Codec) where
  pub count_applied-SameWaits :
      (s : ClusterServer) (index : ℕ) → Then (SameWaits s) (count_applied c s index)
  unfolding count_applied
  count_applied-SameWaits s index =
      if-intro (Then (SameWaits s))
        (ltb 0 s.cfg.snapshot_threshold && leb s.cfg.snapshot_threshold (s.applied_since_snap + 1))
        (λ _.
          option-intro (Then (SameWaits s)) (c.encode_state _) (λ _. tt)
            (λ _ _. record { waiters = refl; channels = refl; made = refl }))
        (λ _. record { waiters = refl; channels = refl; made = refl })

  pub propose-SameWaits : (s : ClusterServer) (op : QueueOp) → SameWaits s (propose c s op).0
  unfolding propose
  propose-SameWaits s op =
      option-intro (λ (r : ClusterServer × Reply (ℕ × ℕ)). SameWaits s r.0) (c.encode_op op)
        (λ _. SameWaits-refl s)
        (λ cmd _.
          if-intro (λ (r : ClusterServer × Reply (ℕ × ℕ)). SameWaits s r.0)
            (Raft.propose s.node cmd).3
            (λ _. record { waiters = refl; channels = refl; made = refl }) (λ _. SameWaits-refl s))

pub dequeue-SameWaits : (s : ClusterServer) (now : ℕ) → SameWaits s (dequeue s now).0
unfolding dequeue
dequeue-SameWaits s now =
    if-intro (λ (r : ClusterServer × Reply Task). SameWaits s r.0) (not (is_leader s.node.state))
      (λ _. SameWaits-refl s)
      (λ _.
        option-intro (λ (r : ClusterServer × Reply Task). SameWaits s r.0)
          (Machine.dequeue s.sm now s.cfg.task_timeout).1
          (λ _. record { waiters = refl; channels = refl; made = refl })
          (λ _ _. record { waiters = refl; channels = refl; made = refl }))

pub watch-SameWaits : (s : ClusterServer) → SameWaits s (watch s)
unfolding watch
watch-SameWaits s =
    if-intro (SameWaits s) (s.was_leader && not (is_leader s.node.state))
      (λ _. record { waiters = refl; channels = refl; made = refl })
      (λ _. record { waiters = refl; channels = refl; made = refl })
