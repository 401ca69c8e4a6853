-- ===== src/Server/Answers.antt =====
-- The answer to a call that waits for its entry, server/cluster.go.
use distqueue.Base.{
  ℕ, ◌+◌, ◌≡◌, refl, ◌∙◌, none, some, List, ◌∷◌, arith, Bytes, option-intro, option-intro₂, All,
}
use distqueue.Machine.{Machine}
use distqueue.Raft.{Node}
use distqueue.Server.{
  Codec, ClusterServer, ClusterConfig, commits, wake, apply_command, count_applied, apply_message,
  register, collect, time_out, ok,
}
use distqueue.Server.Runs.{
  Act, registers, World, perform, run, new_world, Then, Then-some, Then-map, SameWaits,
  count_applied-SameWaits,
}
use distqueue.Server.Wakes.{IsSound, run-IsSound, new_world-IsSound}
use distqueue.Server.Awaits.{Leaves, IsAwaited, run-IsAwaited, registered-IsAwaited, wake-collect}

collect-ok :
    (s : ClusterServer) (ch term : ℕ) → s.channels ch ≡ some term → collect s ch term ≡ some (ok tt)
unfolding collect
collect-ok s ch term h = ground (arith, h)

collect-none : (s : ClusterServer) (ch term : ℕ) → s.channels ch ≡ none → collect s ch term ≡ none
unfolding collect
collect-none s ch term h = ground (arith, h)

wake-sm :
    (s : ClusterServer) (sm : Machine) (index term : ℕ)
    → SameWaits (wake s index term) (wake (record s { sm = sm }) index term)
unfolding wake
wake-sm s sm index term =
    option-intro₂ (λ x y. SameWaits x y) (s.waiters index)
      (λ _. record { waiters = refl; channels = refl; made = refl })
      (λ ch _. record { waiters = refl; channels = refl; made = refl })

-- An entry without a panic leaves the waits as `wake` does.
commits-SameWaits :
    (c : Codec) (s : ClusterServer) (command : Bytes) (index term : ℕ)
    → Then (SameWaits (wake s index term)) (apply_message c s (commits command index term))
unfolding apply_message
commits-SameWaits c s command index term =
    option-intro (Then (SameWaits (wake s index term))) (apply_command c s.sm command) (λ _. tt)
      (λ sm _.
        let woken = wake (record s { sm = sm }) index term in
        Then-map _ _ (count_applied c woken index)
          (λ x same. record {
            waiters = same.waiters ∙ (wake-sm s sm index term).waiters;
            channels = same.channels ∙ (wake-sm s sm index term).channels;
            made = same.made ∙ (wake-sm s sm index term).made;
          })
          (count_applied-SameWaits c woken index))

-- After any run, a call that registers for an index has no answer as long as no entry is applied at
-- that index and no call registers for it or gives up on it, whatever else happens; and then the
-- entry that is applied there, unless that panics, answers the call with success if it has the term
-- of the call.
pub register-answered :
    (c : Codec) (node : Node) (sm : Machine) (cfg : ClusterConfig) (before during : List Act)
    (w v : World) (s : ClusterServer) (command : Bytes) (index term : ℕ)
    → run c (new_world node sm cfg) before ≡ some w
    → run c w (registers index ∷ during) ≡ some v
    → All (Leaves index) during
    → apply_message c v.server (commits command index term) ≡ some s
    → (collect v.server w.server.made term ≡ none) × (collect s w.server.made term ≡ some (ok tt))
unfolding run perform
register-answered c node sm cfg before during w v s command index term r r' leaves h =
    let sound =
      Then-some (λ (x : World). IsSound x.server x.owner x.applied) _ w
        (run-IsSound c before _ (new_world-IsSound node sm cfg)) r in
    let ch = w.server.made in
    let waiting =
      Then-some (λ (x : World). IsAwaited index ch x.server) _ v
        (run-IsAwaited index ch c during _ leaves
          (registered-IsAwaited w.server index w.owner w.applied sound))
        r' in
    let woken =
      Then-some (SameWaits (wake v.server index term)) _ s
        (commits-SameWaits c v.server command index term) h in
    (
      collect-none v.server ch term waiting.silent,
      collect-ok s ch term (cc (woken.channels, wake-collect v.server index ch term waiting)),
    )

-- The waiters and channels once a second call has registered for an index and the first times out.
stolen : ClusterServer → ℕ → ClusterServer
stolen s index = (time_out (register (register s index).0 index).0 index).0

stolen-lem :
    (s : ClusterServer) (index term : ℕ)
    → (wake (stolen s index) index term).channels (s.made + 1) ≡ none
unfolding wake stolen time_out register
stolen-lem s index term = ground arith

-- If two calls register for one index and one then times out, the later call has no answer when an
-- entry is applied there without a panic.
pub time_out-steals :
    (c : Codec) (s s' : ClusterServer) (command : Bytes) (index term : ℕ)
    → apply_message c
        (time_out (register (register s index).0 index).0 index).0
        (commits command index term)
      ≡ some s'
    → collect s' (register (register s index).0 index).1 term ≡ none
unfolding stolen register
time_out-steals c s s' command index term h =
    let woken =
      Then-some (SameWaits (wake (stolen s index) index term)) _ s'
        (commits-SameWaits c (stolen s index) command index term) h in
    collect-none s' (s.made + 1) term (cc (woken.channels, stolen-lem s index term))
