-- ===== src/Raft/Consensus/Sharing.antt =====
-- Up to which index the nodes have had the logs of the leaders, raft/replication.go.
use distqueue.Base.{
  ℕ, ◌≤◌, ◌<◌, ◌≡◌, ◌≢◌, ◌⊎◌, inl, inr, refl, subst, ap, ◌∙◌, arith, Bytes, max, bytes_discrete,
  ℕ_discrete,
}
use distqueue.Raft.Cluster.{update}
use distqueue.Raft.Cluster.Moves.{update-here, update-there}
use distqueue.Raft.Consensus.{at_term}
use distqueue.Raft.Consensus.Histories.{at_term-here, at_term-there}

-- The index that `i` has of the log of the leader of `t` becomes at least `k`.
abbrev pub shared_to : (Bytes → ℕ → ℕ) → Bytes → ℕ → ℕ → Bytes → ℕ → ℕ
shared_to f i t k = update f i (at_term (f i) t (max (f i t) k))

pub shared_to-cases :
    (f : Bytes → ℕ → ℕ) (i : Bytes) (t k : ℕ) (v : Bytes) (u : ℕ)
    → ((i ≡ v) × (t ≡ u) × (shared_to f i t k v u ≡ max (f v u) k))
      ⊎ (((i ≢ v) ⊎ (t ≢ u)) × (shared_to f i t k v u ≡ f v u))
shared_to-cases f i t k v u = elim (bytes_discrete i v) [
  | no other ↦ inr (inl other, ap (λ g. g u) (update-there f i _ v other))
  | yes same ↦ elim (ℕ_discrete t u) [
    | no later ↦ inr (
      inr later,
      ap (λ g. g u)
            (subst (λ x. shared_to f i t k x ≡ at_term (f i) t (max (f i t) k)) same
              (update-here f i _))
          ∙ at_term-there (f i) t _ u later
          ∙ ap (λ x. f x u) same,
    )
    | yes now ↦ inl (
      same,
      now,
      subst (λ x. shared_to f i t k x u ≡ max (f x u) k) same
          (subst (λ x. shared_to f i t k i x ≡ max (f i x) k) now
            (ap (λ g. g t) (update-here f i _) ∙ at_term-here (f i) t _)),
    )
  ]
]

pub shared_to-here : (f : Bytes → ℕ → ℕ) (i : Bytes) (t k : ℕ) → k ≤ shared_to f i t k i t
shared_to-here f i t k = elim (shared_to-cases f i t k i t) [
  | inl (_, _, e) ↦ omega (arith, e)
  | inr (apart, _) ↦ elim apart [
    | inl other ↦ absurd (other refl)
    | inr later ↦ absurd (later refl)
  ]
]

pub shared_to-up :
    (f : Bytes → ℕ → ℕ) (i : Bytes) (t k : ℕ) (v : Bytes) (u : ℕ) → f v u ≤ shared_to f i t k v u
shared_to-up f i t k v u = elim (shared_to-cases f i t k v u) [
  | inl (_, _, e) ↦ omega (arith, e)
  | inr (_, e) ↦ omega (arith, e)
]

pub shared_to-same :
    (f : Bytes → ℕ → ℕ) (i : Bytes) (t k : ℕ) (v : Bytes) (u : ℕ)
    → (i ≢ v) ⊎ (u < t)
    → shared_to f i t k v u ≡ f v u
shared_to-same f i t k v u when = elim (shared_to-cases f i t k v u) [
  | inr (_, e) ↦ e
  | inl (same, now, _) ↦ elim when [
    | inl other ↦ absurd (other same)
    | inr before ↦ absurd (omega arith)
  ]
]
