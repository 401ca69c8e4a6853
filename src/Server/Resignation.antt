-- ===== src/Server/Resignation.antt =====
-- What the leadership watch of server/cluster.go does to deliveries.
use distqueue.Base.{
  ℕ, ◌≡◌, refl, sym, ◌∙◌, subst, true, false, not, ◌&&◌, List, [], ◌∷◌, arith, All, if-intro,
}
use distqueue.Base.Maps.{values}
use distqueue.Task.{Task, in_flight, is_status}
use distqueue.Machine.{
  Machine, push_locked, requeue_one, requeue_each, requeue_in_flight, tally, stats,
}
use distqueue.Raft.{is_leader}
use distqueue.Server.{ClusterServer, watch}

push_locked-cells : (m : Machine) (p : ℕ) → (push_locked m p).cells ≡ m.cells
unfolding push_locked
push_locked-cells m p = ground arith

push_locked-tasks : (m : Machine) (p : ℕ) → (push_locked m p).tasks ≡ m.tasks
unfolding push_locked
push_locked-tasks m p = ground arith

-- The object is not in flight.
abbrev Lands : (ℕ → Task) → ℕ → Type 0
Lands cells p = is_status (cells p).status in_flight ≡ false

requeue_one-Lands :
    (m : Machine) (p q : ℕ)
    → (Lands (requeue_one m p).cells p) × (Lands m.cells q → Lands (requeue_one m p).cells q)
unfolding requeue_one push_locked
requeue_one-Lands m p q = (ground arith, λ h. ground (arith, h))

requeue_one-tasks : (m : Machine) (p : ℕ) → (requeue_one m p).tasks ≡ m.tasks
unfolding requeue_one push_locked
requeue_one-tasks m p = ground arith

requeue_each-tasks : (ps : List ℕ) (m : Machine) → (requeue_each m ps).tasks ≡ m.tasks
unfolding requeue_each
requeue_each-tasks [] m = refl
requeue_each-tasks (p ∷ ps) m = requeue_each-tasks ps (requeue_one m p) ∙ requeue_one-tasks m p

requeue_each-stays :
    (ps : List ℕ) (m : Machine) (q : ℕ) → Lands m.cells q → Lands (requeue_each m ps).cells q
unfolding requeue_each
requeue_each-stays [] m q h = h
requeue_each-stays (p ∷ ps) m q h = requeue_each-stays ps _ q ((requeue_one-Lands m p q).1 h)

requeue_each-Lands : (ps : List ℕ) (m : Machine) → All (Lands (requeue_each m ps).cells) ps
unfolding requeue_each
requeue_each-Lands [] m = tt
requeue_each-Lands (p ∷ ps) m =
    (requeue_each-stays ps _ p (requeue_one-Lands m p p).0, requeue_each-Lands ps (requeue_one m p))

tally-Lands : (cells : ℕ → Task) (ps : List ℕ) → All (Lands cells) ps → (tally cells ps).1 ≡ 0
unfolding tally
tally-Lands cells [] h = refl
tally-Lands cells (p ∷ ps) h = ground (arith, tally-Lands cells ps h.1, h.0)

-- On the loss of the leadership nothing is tracked and no task of the replica is in flight.
pub watch-lands :
    (s : ClusterServer)
    → s.was_leader ≡ true
    → is_leader s.node.state ≡ false
    → ((watch s).inflight ≡ []) × ((stats (watch s).sm).in_flight ≡ 0)
unfolding watch stats requeue_in_flight
watch-lands s was h =
    if-intro (λ (x : ClusterServer). (x.inflight ≡ []) × ((stats x.sm).in_flight ≡ 0))
      (s.was_leader && not (is_leader s.node.state))
      (λ _. (
        refl,
        subst (λ ts. (tally (requeue_each s.sm (values s.sm.tasks)).cells (values ts)).1 ≡ 0)
            (sym (requeue_each-tasks (values s.sm.tasks) s.sm))
            (tally-Lands _ (values s.sm.tasks) (requeue_each-Lands (values s.sm.tasks) s.sm)),
      ))
      (λ f. absurd (ground (arith, f, was, h)))
