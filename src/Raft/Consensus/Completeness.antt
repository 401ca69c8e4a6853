-- ===== src/Raft/Consensus/Completeness.antt =====
-- The votes and the copies that meet in a member, raft/election.go and raft/replication.go.
use distqueue.Base.{
  ℕ, zero, suc, ◌+◌, ◌≤◌, ◌<◌, ◌≡◌, inl, inr, sym, subst, ap, ◌∙◌, Bool, true, List, [], ◌∷◌, leb,
  arith, Bytes, length, count, dec_lt, ℕ_discrete, Bool-cases,
}
use distqueue.Raft.{LogEntry}
use distqueue.Raft.Consensus.{History}
use distqueue.Raft.Consensus.Logs.{at, Agree, Agree-refl}
use distqueue.Raft.Consensus.Histories.{IsHistory}
use distqueue.Raft.Consensus.Facts.{IsCommitted, Covers, near, over, IsCounted}

-- Two tests that pass for more than half of a list each pass for the same element.
pub count-meet :
    {A : Type 0} (p q : A → Bool) (xs : List A)
    → length xs < count p xs + count q xs
    → (x : A) × (p x ≡ true) × (q x ≡ true)
count-meet p q [] h = absurd (omega arith)
count-meet p q (x ∷ xs) h = elim (Bool-cases (p x)) [
  | inl px ↦ elim (Bool-cases (q x)) [
    | inl qx ↦ (x, px, qx)
    | inr qx ↦ count-meet p q xs (ground arith)
  ]
  | inr px ↦ count-meet p q xs (ground arith)
]

module _ (ms : List Bytes) (h : History) (a : IsHistory h.log_of) (c : IsCounted ms h) where
  -- The leader of `t` has the entry `k` of the term `s`, and had it from the start.
  abbrev pub HasFrom : ℕ → ℕ → ℕ → Type 0
  HasFrom t s k = (k < h.start_of t) × ((at (h.log_of t) k).term ≡ s)

  -- A later leader whose voter has had the entry, if the leaders between have it.
  covered :
      (t k t' : ℕ)
      → 0 < t'
      → 0 < length (h.log_of t')
      → ((u : ℕ) → t < u → u < t' → 0 < length (h.log_of u) → HasFrom u t k)
      → Covers h t' (h.ran (h.leader_of t') t') t k
      → HasFrom t' t k
  covered t k t' some_term led between (over u after before lacks) =
      let (has, term) = between u after before lacks.0 in absurd (lacks.1 has term)
  covered t k t' some_term led between (near u l far inside here own term later) =
      let r = h.ran (h.leader_of t') t' in
      let (starts, grown, last) = c.starts t' some_term led in
      let whole : Agree (h.log_of t') r.0 (h.log_of r.1) =
        subst (λ v. Agree (h.log_of t') r.0 (h.log_of v)) last
          ((a.told t').told r.0 (omega arith)) in
      elim far [
        | inr (same_term, further) ↦
            let same = whole.same k (omega arith) in
            (
              omega arith,
              ap (λ (e : LogEntry). e.term) same
                  ∙ subst (λ v. (at (h.log_of v) k).term ≡ t) same_term term,
            )
        | inl earlier ↦
            let before : r.1 < t' = omega (arith, last, c.old t' r.0 (omega arith) (omega arith)) in
            let (has, term') = between r.1 (omega arith) before (omega (arith, whole.right)) in
            let last' : (at (h.log_of r.1) r.0).term ≡ r.1 =
              ap (λ (e : LogEntry). e.term) (sym (whole.same r.0 (omega arith))) ∙ last in
            elim (dec_lt r.0 (h.start_of r.1)) [
              | yes short ↦ absurd (omega (arith, last', c.old r.1 r.0 whole.right short))
              | no far ↦ (
                omega (arith, has),
                ap (λ (e : LogEntry). e.term) (whole.same k (omega (arith, has))) ∙ term',
              )
            ]
      ]

  -- Of the terms below `n`.
  complete_below :
      (n t k t' : ℕ)
      → t' < n
      → IsCommitted ms h k t
      → t < t'
      → 0 < length (h.log_of t')
      → HasFrom t' t k
  complete_below zero t k t' below committed after led = absurd (omega arith)
  complete_below (suc n) t k t' below committed after led =
      let some_term : 0 < t' = omega arith in
      let (v, had, voted) =
        count-meet (λ v. leb k (h.shared v t)) (h.backers t') ms
          (omega (arith, committed.most, c.most t' some_term led)) in
      covered t k t' some_term led
        (λ u after_u before_u led_u. complete_below n t k u (omega arith) committed after_u led_u)
        (c.backs t' v some_term led voted t k after
          (committed.positive, committed.own, ground arith))

  -- The leader of any later term has had a committed entry from the start.
  pub complete :
      (t k t' : ℕ) → IsCommitted ms h k t → t < t' → 0 < length (h.log_of t') → HasFrom t' t k
  complete t k t' committed after led =
      complete_below (t' + 1) t k t' (omega arith) committed after led

  -- The index of a committed entry is in the log of its leader.
  pub IsCommitted-inside : (t k : ℕ) → IsCommitted ms h k t → k < length (h.log_of t)
  IsCommitted-inside t k committed =
      let (v, had, _) =
        count-meet (λ v. leb k (h.shared v t)) (λ v. leb k (h.shared v t)) ms
          (omega (arith, committed.most)) in
      let positive = committed.positive in
      elim (c.bound v t) [ inl none_had ↦ absurd (ground arith) | inr inside ↦ ground arith ]

  -- The log of a leader of the same or a later term agrees up to a committed entry.
  pub complete-Agree :
      (t k t' : ℕ)
      → IsCommitted ms h k t
      → t ≤ t'
      → 0 < length (h.log_of t')
      → Agree (h.log_of t') k (h.log_of t)
  complete-Agree t k t' committed later led = elim (ℕ_discrete t t') [
    | yes same ↦
        subst (λ u. Agree (h.log_of u) k (h.log_of t)) same
          (Agree-refl (h.log_of t) k (IsCommitted-inside t k committed))
    | no other ↦
        let (has, term) = complete t k t' committed (omega arith) led in
        let (_, grown, _) = c.starts t' (omega arith) led in
        subst (λ u. Agree (h.log_of t') k (h.log_of u)) term ((a.told t').told k (omega arith))
  ]
