-- ===== src/Raft/Consensus/Histories.antt =====
-- The logs of the leaders of all terms, raft/replication.go and raft/election.go.
use distqueue.Base.{
  ℕ, suc, ◌+◌, ◌≤◌, ◌<◌, ◌≡◌, ◌≢◌, ◌⊎◌, inl, inr, sym, subst, ap, ◌∙◌, List, [], ◌∷◌, ◌++◌, arith,
  length, ℕ_discrete, length-append, get_or-append, get_or-append_last,
}
use distqueue.Raft.{LogEntry, no_entry}
use distqueue.Raft.Replication.{AppendEntriesArgs}
use distqueue.Raft.Consensus.{at_term}
use distqueue.Raft.Consensus.Logs.{
  at, Agree, Agree-refl, Agree-trans, Agree-append, IsTold, IsTold-snoc, IsPart,
}
use distqueue.Raft.Consensus.Handling.{Fits}

pub at_term-here {ℓ} : {A : Type ℓ} (f : ℕ → A) (t : ℕ) (v : A) → at_term f t v t ≡ v
unfolding at_term
at_term-here f t v = ground arith

pub at_term-there {ℓ} :
    {A : Type ℓ} (f : ℕ → A) (t : ℕ) (v : A) (u : ℕ) → t ≢ u → at_term f t v u ≡ f u
unfolding at_term
at_term-there f t v u other = ground arith

-- `ys` has all of `xs`, at the same indices.
abbrev pub Extends : List LogEntry → List LogEntry → Type 0
Extends xs ys = (k : ℕ) → k < length xs → Agree xs k ys

abbrev pub Grows : (ℕ → List LogEntry) → (ℕ → List LogEntry) → Type 0
Grows logs logs' = (t : ℕ) → Extends (logs t) (logs' t)

pub IsTold-Grows :
    (logs logs' : ℕ → List LogEntry) (xs : List LogEntry)
    → Grows logs logs'
    → IsTold logs xs
    → IsTold logs' xs
IsTold-Grows logs logs' xs g a = record {
  index = a.index;
  told = λ k h.
      let t = (at xs k).term in
      Agree-trans xs (logs t) (logs' t) k (a.told k h) (g t k (a.told k h).right);
}

pub IsPart-Extends :
    (xs ys es : List LogEntry) (i : ℕ) → Extends xs ys → IsPart xs i es → IsPart ys i es
IsPart-Extends xs ys [] i g p = tt
IsPart-Extends xs ys (e ∷ es) i g p =
    let a = g i p.0 in
    (a.right, p.1 ∙ a.same i (omega arith), IsPart-Extends xs ys es (suc i) g p.2)

pub Fits-Extends :
    (xs ys : List LogEntry) (args : AppendEntriesArgs) → Extends xs ys → Fits xs args → Fits ys args
Fits-Extends xs ys args g (inl (h, term, part)) =
    let a = g args.prev_log_index h in
    inl (
      a.right,
      term ∙ ap (λ (e : LogEntry). e.term) (a.same args.prev_log_index (omega arith)),
      IsPart-Extends xs ys args.entries (args.prev_log_index + 1) g part,
    )
Fits-Extends xs ys args g (inr h) = inr h

-- What the logs of the leaders are like.
pub record IsHistory (logs : ℕ → List LogEntry) : Type 0 where
  pub early : logs 0 ≡ no_entry ∷ []
  pub told : (t : ℕ) → IsTold logs (logs t)
  pub terms : (t k : ℕ) → k < length (logs t) → (at (logs t) k).term ≤ t

-- The leader of the term `t` has one more entry than `xs`, and has had no log or that one.
module _ (logs : ℕ → List LogEntry) (t : ℕ) (xs : List LogEntry) (e : LogEntry)
    (was : (logs t ≡ []) ⊎ (logs t ≡ xs)) (some_term : 0 < t) (term : e.term ≡ t) where
  abbrev longer : ℕ → List LogEntry
  longer = at_term logs t (xs ++ e ∷ [])

  here : longer t ≡ xs ++ e ∷ []
  here = at_term-here logs t (xs ++ e ∷ [])

  pub longer-Grows : Grows logs (at_term logs t (xs ++ e ∷ []))
  longer-Grows u k h = elim (ℕ_discrete t u) [
    | no other ↦
        subst (λ zs. Agree (logs u) k zs) (sym (at_term-there logs t (xs ++ e ∷ []) u other))
          (Agree-refl (logs u) k h)
    | yes same ↦
        subst (λ v. Agree (logs v) k (longer v)) same
          (subst (λ zs. Agree (logs t) k zs) (sym here)
            (elim was [
              | inl none_yet ↦
                  absurd (omega (arith, h, ap length none_yet, ap (λ v. length (logs v)) same))
              | inr before ↦
                  subst (λ zs. Agree zs k (xs ++ e ∷ [])) (sym before)
                    (Agree-append xs (e ∷ []) k
                      (omega (arith, h, ap length before, ap (λ v. length (logs v)) same)))
            ]))
  ]

  -- The new log is told of by the new logs.
  pub longer-IsTold :
      IsTold logs xs → e.index ≡ length xs → IsTold (at_term logs t (xs ++ e ∷ [])) (xs ++ e ∷ [])
  longer-IsTold a i = IsTold-snoc longer xs e (IsTold-Grows logs longer xs longer-Grows a) i (
      subst (λ u. Agree (xs ++ e ∷ []) (length xs) (longer u)) (sym term)
        (subst (λ zs. Agree (xs ++ e ∷ []) (length xs) zs) (sym here)
          (Agree-refl (xs ++ e ∷ []) (length xs) (omega (arith, length-append xs (e ∷ []))))))

  pub longer-terms :
      ((k : ℕ) → k < length xs → (at xs k).term ≤ t)
      → (k : ℕ) → k < length (xs ++ e ∷ [])
      → (at (xs ++ e ∷ []) k).term ≤ t
  longer-terms below k h = elim (ℕ_discrete k (length xs)) [
    | yes last ↦
        subst (λ j. (at (xs ++ e ∷ []) j).term ≤ t) (sym last)
          (subst (λ x. x.term ≤ t) (sym (get_or-append_last xs e no_entry)) (omega (arith, term)))
    | no other ↦
        let inside : k < length xs = omega (arith, length-append xs (e ∷ [])) in
        subst (λ x. x.term ≤ t) (sym (get_or-append xs (e ∷ []) k no_entry inside)) (below k inside)
  ]

  pub longer-IsHistory :
      IsHistory logs
      → IsTold logs xs
      → e.index ≡ length xs
      → ((k : ℕ) → k < length xs → (at xs k).term ≤ t)
      → IsHistory (at_term logs t (xs ++ e ∷ []))
  longer-IsHistory h a i below = record {
    early = at_term-there logs t (xs ++ e ∷ []) 0 (λ z. absurd (omega arith)) ∙ h.early;
    told = λ u. elim (ℕ_discrete t u) [
      | yes same ↦
          subst (λ v. IsTold longer (longer v)) same
            (subst (IsTold longer) (sym here) (longer-IsTold a i))
      | no other ↦
          subst (IsTold longer) (sym (at_term-there logs t (xs ++ e ∷ []) u other))
            (IsTold-Grows logs longer (logs u) longer-Grows (h.told u))
    ];
    terms = λ u. elim (ℕ_discrete t u) [
      | yes same ↦
          subst (λ v. (k : ℕ) → k < length (longer v) → (at (longer v) k).term ≤ v) same
            (subst (λ zs. (k : ℕ) → k < length zs → (at zs k).term ≤ t) (sym here)
              (longer-terms below))
      | no other ↦
          subst (λ zs. (k : ℕ) → k < length zs → (at zs k).term ≤ u)
            (sym (at_term-there logs t (xs ++ e ∷ []) u other)) (h.terms u)
    ];
  }
