-- ===== src/Raft/Applying.antt =====
-- What the loop of `applier` leaves as it is, raft/replication.go.
use distqueue.Base.{◌≡◌, refl, ap, leb, if-intro, option-intro}
use distqueue.Raft.{Node}
use distqueue.Raft.Lifecycle.{Delivery, Applying, takes, notes, applier, applied}
use distqueue.Raft.Safety.{Keeps, same-Keeps}
use distqueue.Raft.Roles.{Stays, same-Stays}

-- Only the last applied index and the snapshot that waits may differ.
abbrev pub IsFed : Node → Node → Type 0
IsFed n n' =
    n' ≡ record n { last_applied = n'.last_applied; pending_snapshot = n'.pending_snapshot }

pub Applying-IsFed : (n n' : Node) → Applying n n' → IsFed n n'
unfolding applier applied
Applying-IsFed n _ (takes _) =
    option-intro (λ (r : Node × Delivery). IsFed n r.0) n.pending_snapshot
      (λ _.
        if-intro (λ (r : Node × Delivery). IsFed n r.0) (leb n.commit_index n.last_applied)
          (λ _. refl) (λ _. refl))
      (λ _ _. refl)
Applying-IsFed n _ (notes _ e) = refl

pub IsFed-Keeps : (n n' : Node) → IsFed n n' → Keeps n n'
IsFed-Keeps n n' f =
    same-Keeps n n' (ap (λ (x : Node). x.current_term) f) (ap (λ (x : Node). x.voted_for) f)
      (ap (λ (x : Node). x.log) f) (ap (λ (x : Node). x.disk) f)

pub IsFed-Stays : (n n' : Node) → IsFed n n' → Stays n n'
IsFed-Stays n n' f =
    same-Stays n n' (ap (λ (x : Node). x.id) f) (ap (λ (x : Node). x.peers) f)
      (ap (λ (x : Node). x.state) f) (ap (λ (x : Node). x.current_term) f)
