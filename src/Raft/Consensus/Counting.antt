-- ===== src/Raft/Consensus/Counting.antt =====
-- How a leader counts the copies of an entry, `advanceCommitLocked` of raft/replication.go.
use distqueue.Base.{
  ℕ, ◌≤◌, ◌<◌, ◌≡◌, ◌≢◌, inl, inr, refl, sym, subst, ap, ◌∙◌, Bool, true, not, ◌&&◌, Option, none,
  some, List, [], ◌∷◌, arith, leb, Bytes, bytes_discrete, count, Bool-cases, count-disjoint, ite,
  ite-intro, if_pos, if_neg,
}
use distqueue.Base.Maps.{get, insert, values, IsMap, get-insert}
use distqueue.Raft.Replication.{index_of}
use distqueue.Raft.Cluster.{IsMember, same, same-lem}

cons-index_of :
    (k : Bytes) (v : ℕ) (m : List (Bytes × ℕ)) (p : Bytes)
    → index_of ((k, v) ∷ m) p ≡ ite (bytes_discrete k p) v (index_of m p)
unfolding get
cons-index_of k v m p = elim (bytes_discrete k p) [ yes e ↦ ground arith | no ne ↦ ground arith ]

none-index_of : (m : List (Bytes × ℕ)) (p : Bytes) → get m p ≡ none → index_of m p ≡ 0
none-index_of m p h = ap (λ (o : Option ℕ). elim o [ none ↦ 0 | some i ↦ i ]) h

insert-index_of :
    (m : List (Bytes × ℕ)) (k : Bytes) (v : ℕ) (p : Bytes)
    → index_of (insert m k v) p ≡ ite (bytes_discrete k p) v (index_of m p)
insert-index_of m k v p = elim (bytes_discrete k p) [
  | yes e ↦ ground (arith, get-insert m k v p)
  | no ne ↦ ground (arith, get-insert m k v p)
]

-- What an index is once the one of `k` is `v`.
pub insert-intro :
    (P : ℕ → Type 0) (m : List (Bytes × ℕ)) (k : Bytes) (v : ℕ) (p : Bytes)
    → (k ≡ p → P v)
    → (k ≢ p → P (index_of m p))
    → P (index_of (insert m k v) p)
insert-intro P m k v p here there =
    subst P (sym (insert-index_of m k v p)) (ite-intro P (bytes_discrete k p) here there)

others : (q : Bytes → Bool) (k p : Bytes) → k ≢ p → q p ≡ true → (q p && not (same p k)) ≡ true
others q k p apart h = ground (arith, λ (e : p ≡ k). apart (sym e))

-- A map of indices has no more indices from `n` on than there are members that pass a test.
pub count-values :
    (n : ℕ) (ms : List Bytes) (m : List (Bytes × ℕ)) (q : Bytes → Bool)
    → 0 < n
    → IsMap m
    → ((p : Bytes) → n ≤ index_of m p → (q p ≡ true) × IsMember ms p)
    → count (λ v. leb n v) (values m) ≤ count q ms
unfolding values IsMap
count-values n ms [] q positive map known = omega arith
count-values n ms ((k, v) ∷ m) q positive map known =
    let apart : (p : Bytes) → n ≤ index_of m p → k ≢ p = λ p far e.
      absurd
        (omega (arith, far, positive, none-index_of m p (subst (λ x. get m x ≡ none) e map.0))) in
    let tail : (p : Bytes) → n ≤ index_of m p → (q p ≡ true) × IsMember ms p = λ p far. known p (
      subst (λ x. n ≤ x)
        (sym (cons-index_of k v m p ∙ if_neg (bytes_discrete k p) (apart p far) v (index_of m p)))
        far) in
    elim (Bool-cases (leb n v)) [
      | inr short ↦ ground (arith, count-values n ms m q positive map.1 tail)
      | inl far ↦
          let q' : Bytes → Bool = λ p. q p && not (same p k) in
          let rest : count (λ v. leb n v) (values m) ≤ count q' ms =
            count-values n ms m q' positive map.1
              (λ p far. (others q k p (apart p far) (tail p far).0, (tail p far).1)) in
          let (passes, member) = known k (
            subst (λ x. n ≤ x)
              (sym (cons-index_of k v m k ∙ if_pos (bytes_discrete k k) refl v (index_of m k)))
              (ground arith)) in
          let sum =
            count-disjoint (λ p. same p k) q' q ms
              (λ p is. (ground arith, subst (λ x. q x ≡ true) (sym (same-lem p k is)) passes))
              (λ p h. ground arith) in
          ground (arith, rest, sum, member)
    ]
