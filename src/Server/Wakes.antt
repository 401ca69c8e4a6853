-- ===== src/Server/Wakes.antt =====
-- Which calls learn that their entry was applied, server/cluster.go: runs of the server's parts in
-- any order.
use distqueue.Base.{
  ℕ, ◌<◌, ◌≡◌, inr, Option, some, List, [], ◌∷◌, arith, ◌==◌, ℕ_discrete, ite, if-intro,
  option-intro,
}
use distqueue.Machine.{Machine}
use distqueue.Raft.{Node}
use distqueue.Server.{
  Codec, ClusterServer, ClusterConfig, ApplyMsg, restores, commits, nothing, wake, apply_command,
  count_applied, apply_message, register, collect, time_out, end_finish, scan, stop,
  new_cluster_server, Reply, ok,
}
use distqueue.Server.Runs.{
  Act, hears, registers, gives_up, proposes, dequeues, finishes, scans, watches, stops, moves,
  World, entry_of, perform, run, new_world, IsApplied, Then, Then-some, Then-map, SameWaits,
  count_applied-SameWaits, propose-SameWaits, dequeue-SameWaits, watch-SameWaits,
}

pub record IsSound (s : ClusterServer) (owner : ℕ → ℕ) (es : List (ℕ × ℕ)) : Type 0 where
  pub waits : (index ch : ℕ) → s.waiters index ≡ some ch → (owner ch ≡ index) × (ch < s.made)
  pub told :
      (ch term : ℕ) → s.channels ch ≡ some term → IsApplied (owner ch) term es × (ch < s.made)

SameWaits-IsSound :
    (s s' : ClusterServer) (owner : ℕ → ℕ) (es : List (ℕ × ℕ))
    → SameWaits s s'
    → IsSound s owner es
    → IsSound s' owner es
SameWaits-IsSound s s' owner es same w = record {
  waits = λ index ch h.
      let (mine, made) = w.waits index ch (cc (same.waiters, h)) in
      (mine, omega (arith, same.made, made));
  told = λ ch term h.
      let (seen, made) = w.told ch term (cc (same.channels, h)) in
      (seen, omega (arith, same.made, made));
}

wake-IsSound :
    (s : ClusterServer) (index term : ℕ) (owner : ℕ → ℕ) (es : List (ℕ × ℕ))
    → IsSound s owner es
    → IsSound (wake s index term) owner ((index, term) ∷ es)
unfolding wake
wake-IsSound s index term owner es w =
    option-intro (λ x. IsSound x owner ((index, term) ∷ es)) (s.waiters index)
      (λ _. record { waits = w.waits; told = λ ch t h. let (a, b) = w.told ch t h in (inr a, b) })
      (λ ch is. record {
        waits = λ i d h. ground (arith, w.waits i d);
        told = λ d t h.
            let (mine, made) = w.waits index ch is in ground (arith, w.told d t, mine, made);
      })

register-IsSound :
    (s : ClusterServer) (index : ℕ) (owner : ℕ → ℕ) (es : List (ℕ × ℕ))
    → IsSound s owner es
    → IsSound (register s index).0 (λ ch. ite (ℕ_discrete s.made ch) index (owner ch)) es
unfolding register
register-IsSound s index owner es w = record {
  waits = λ i d h. ground (arith, w.waits i d);
  told = λ d t h. ground (arith, w.told d t);
}

time_out-IsSound :
    (s : ClusterServer) (index : ℕ) (owner : ℕ → ℕ) (es : List (ℕ × ℕ))
    → IsSound s owner es
    → IsSound (time_out s index).0 owner es
unfolding time_out
time_out-IsSound s index owner es w = record {
  waits = λ i d h. ground (arith, w.waits i d);
  told = w.told;
}

module _ (c : Codec) where
  apply_message-IsSound :
      (s : ClusterServer) (m : ApplyMsg) (owner : ℕ → ℕ) (es : List (ℕ × ℕ))
      → IsSound s owner es
      → Then (λ x. IsSound x owner (entry_of m es)) (apply_message c s m)
  unfolding apply_message
  apply_message-IsSound s (restores contents) owner es w =
      option-intro (Then (λ x. IsSound x owner es)) (c.decode_state contents) (λ _. tt)
        (λ st _. record { waits = w.waits; told = w.told })
  apply_message-IsSound s (commits command index term) owner es w =
      option-intro (Then (λ x. IsSound x owner ((index, term) ∷ es))) (apply_command c s.sm command)
        (λ _. tt)
        (λ sm _.
          let woken = wake (record s { sm = sm }) index term in
          Then-map _ _ (count_applied c woken index)
            (λ x same. SameWaits-IsSound woken x owner ((index, term) ∷ es) same (
              wake-IsSound (record s { sm = sm }) index term owner es
                (record { waits = w.waits; told = w.told })))
            (count_applied-SameWaits c woken index))
  apply_message-IsSound s nothing owner es w = w

  perform-IsSound :
      (w : World) (a : Act)
      → IsSound w.server w.owner w.applied
      → Then (λ x. IsSound x.server x.owner x.applied) (perform c w a)
  unfolding perform end_finish scan stop
  perform-IsSound w (hears m) h =
      option-intro (Then (λ x. IsSound x.server x.owner x.applied)) (apply_message c w.server m)
        (λ _. tt)
        (λ s e.
          Then-some (λ x. IsSound x w.owner (entry_of m w.applied)) _ s
            (apply_message-IsSound w.server m w.owner w.applied h) e)
  perform-IsSound w (registers index) h = register-IsSound w.server index w.owner w.applied h
  perform-IsSound w (gives_up index) h = time_out-IsSound w.server index w.owner w.applied h
  perform-IsSound w (proposes op) h =
      SameWaits-IsSound w.server _ w.owner w.applied (propose-SameWaits c w.server op) h
  perform-IsSound w (dequeues now) h =
      SameWaits-IsSound w.server _ w.owner w.applied (dequeue-SameWaits w.server now) h
  perform-IsSound w (finishes id) h = record { waits = h.waits; told = h.told }
  perform-IsSound w (scans now) h = record { waits = h.waits; told = h.told }
  perform-IsSound w watches h =
      SameWaits-IsSound w.server _ w.owner w.applied (watch-SameWaits w.server) h
  perform-IsSound w stops h = record { waits = h.waits; told = h.told }
  perform-IsSound w (moves n) h = record { waits = h.waits; told = h.told }

  pub run-IsSound :
      (acts : List Act) (w : World)
      → IsSound w.server w.owner w.applied
      → Then (λ x. IsSound x.server x.owner x.applied) (run c w acts)
  unfolding run
  run-IsSound [] w h = h
  run-IsSound (a ∷ acts) w h =
      option-intro (Then (λ x. IsSound x.server x.owner x.applied)) (perform c w a) (λ _. tt)
        (λ w' e.
          run-IsSound acts w'
            (Then-some (λ x. IsSound x.server x.owner x.applied) _ w' (perform-IsSound w a h) e))

pub new_world-IsSound :
    (node : Node) (sm : Machine) (cfg : ClusterConfig)
    → IsSound
        (new_world node sm cfg).server
        (new_world node sm cfg).owner
        (new_world node sm cfg).applied
unfolding new_world new_cluster_server
new_world-IsSound node sm cfg = record { waits = λ i d h. absurd (cc); told = λ d t h. absurd (cc) }

collect-told :
    (s : ClusterServer) (ch term : ℕ) → collect s ch term ≡ some (ok tt) → s.channels ch ≡ some term
unfolding collect
collect-told s ch term h =
    option-intro (λ (r : Option (Reply (Unit {0}))). r ≡ some (ok tt) → s.channels ch ≡ some term)
      (s.channels ch) (λ _ e. absurd (cc))
      (λ landed is e.
        if-intro (λ (x : Reply (Unit {0})). some x ≡ some (ok tt) → s.channels ch ≡ some term)
          (landed == term) (λ same _. ground (arith, is)) (λ _ f. absurd (cc)) e)
      h

-- After any run of the parts of a new server in any order, if a waiting call finds at its channel
-- the term that it proposed in, then an entry of that term was applied at the index that the call
-- registered for.
pub collect-IsApplied :
    (c : Codec) (node : Node) (sm : Machine) (cfg : ClusterConfig) (acts : List Act) (w : World)
    (ch term : ℕ)
    → run c (new_world node sm cfg) acts ≡ some w
    → collect w.server ch term ≡ some (ok tt)
    → IsApplied (w.owner ch) term w.applied
collect-IsApplied c node sm cfg acts w ch term r h =
    let sound =
      Then-some (λ (x : World). IsSound x.server x.owner x.applied) _ w
        (run-IsSound c acts _ (new_world-IsSound node sm cfg)) r in
    (sound.told ch term (collect-told w.server ch term h)).0
