-- ===== src/Raft/Consensus/Appending.antt =====
-- What a request does to the log of a follower that it fits, `HandleAppendEntries` of
-- raft/replication.go.
use distqueue.Base.{
  ℕ, zero, suc, ◌+◌, ◌≤◌, ◌<◌, ◌≡◌, ◌≢◌, ◌⊎◌, inl, inr, refl, sym, subst, ap, ◌∙◌, Bool, true,
  false, List, [], ◌∷◌, ◌++◌, arith, ltb, leb, ◌==◌, if◌then◌else◌, if-intro, length, take,
  length-take_of_le, get_or-take, dec_lt,
}
use distqueue.Raft.{Node, LogEntry, last_index, term_at, no_entry, persist}
use distqueue.Raft.Replication.{append_each, accept}
use distqueue.Raft.Indices.{persist_if-log}
use distqueue.Raft.Consensus.Logs.{
  at, Agree, Agree-refl, Agree-sym, Agree-trans, Agree-lower, Agree-append, IsTold, IsTold-Agree,
  last-IsTold, IsPart, IsPart-Agree,
}

-- The log `xs` has become `zs`, which agrees with the leader's log `ys` up to `r`: nothing is lost
-- that agreed with it.
pub record Follows (xs ys zs : List LogEntry) (r : ℕ) : Type 0 where
  pub agrees : Agree zs r ys
  pub keeps : (k : ℕ) → Agree xs k ys → Agree xs k zs
  pub whole : (zs ≡ xs) ⊎ (length zs ≡ r + 1)

same-Follows : (xs ys : List LogEntry) (r : ℕ) → Agree xs r ys → Follows xs ys xs r
same-Follows xs ys r a = record {
  agrees = a;
  keeps = λ k b. Agree-refl xs k b.left;
  whole = inl refl;
}

take-Agree : (xs : List LogEntry) (j k : ℕ) → k < j → j ≤ length xs → Agree (take j xs) k xs
take-Agree xs j k h p = record {
  left = omega (arith, length-take_of_le j xs p);
  right = omega arith;
  same = λ i q. get_or-take j xs i no_entry (omega arith);
}

-- The tail from `q + 1` on is replaced, as the logs are apart there.
cut-Follows :
    (xs ys es : List LogEntry) (q : ℕ)
    → Agree xs q ys
    → IsPart ys (q + 1) es
    → ((k : ℕ) → q < k → Agree xs k ys → ⊥)
    → Follows xs ys (take (q + 1) xs ++ es) (q + length es)
cut-Follows xs ys es q a p apart =
    let base = take (q + 1) xs in
    let part : Agree base q xs = take-Agree xs (q + 1) q (omega arith) (omega (arith, a.left)) in
    let (size, agrees) =
      IsPart-Agree base ys es q (length-take_of_le (q + 1) xs (omega (arith, a.left)))
        (Agree-trans base xs ys q part a) p in
    record {
      agrees = agrees;
      keeps = λ k b. elim (dec_lt q k) [
        | yes beyond ↦ absurd (apart k beyond b)
        | no within ↦ Agree-sym (base ++ es) xs k (
            Agree-trans (base ++ es) base xs k
              (Agree-sym base (base ++ es) k (Agree-append base es k (omega (arith, part.left))))
              (Agree-lower base xs q k (omega arith) part))
      ];
      whole = inr size;
    }

take-all : (xs : List LogEntry) (k : ℕ) → length xs ≡ k → take k xs ≡ xs
take-all [] zero h = refl
take-all [] (suc k) h = refl
take-all (x ∷ xs) zero h = absurd (omega arith)
take-all (x ∷ xs) (suc k) h = ap (λ ys. x ∷ ys) (take-all xs k (omega arith))

pub eq-lem : (a b : ℕ) → (a == b) ≡ true → a ≡ b
eq-lem a b h = ground arith

ne-lem : (a b : ℕ) → (a == b) ≡ false → a ≢ b
ne-lem a b h = ground arith

module _ (logs : ℕ → List LogEntry) (n : Node) (ys : List LogEntry) (some_entry : 0 < length n.log)
    (a : IsTold logs n.log) (b : IsTold logs ys) where
  append_each-Follows :
      (q : ℕ) (es : List LogEntry)
      → Agree n.log q ys
      → IsPart ys (q + 1) es
      → Follows n.log ys (append_each n es).0.log (q + length es)
  unfolding append_each
  append_each-Follows q [] s p =
      same-Follows n.log ys (q + 0) (subst (λ r. Agree n.log r ys) (omega arith) s)
  append_each-Follows q (e ∷ es) s p =
      let (last, first) = last-IsTold logs n some_entry a in
      let here : e.index ≡ q + 1 = ap (λ (x : LogEntry). x.index) p.1 ∙ b.index (q + 1) p.0 in
      let P : Node × Bool → Type 0 = λ r. Follows n.log ys r.0.log (q + length (e ∷ es)) in
      let cut = cut-Follows n.log ys (e ∷ es) q s p in
      if-intro P (leb e.index (last_index n))
        (λ inside.
          let has : q + 1 < length n.log = ground arith in
          let there : term_at n e.index ≡ (at n.log (q + 1)).term =
            ap (λ j. (at n.log j).term) (omega arith) in
          if-intro P (term_at n e.index == e.term)
            (λ same.
              let both : (at n.log (q + 1)).term ≡ (at ys (q + 1)).term =
                sym there ∙ eq-lem _ _ same ∙ ap (λ (x : LogEntry). x.term) p.1 in
              subst (λ r. Follows n.log ys (append_each n es).0.log r) (omega arith)
                (append_each-Follows (q + 1) es
                  (IsTold-Agree logs n.log ys (q + 1) a b has p.0 both)
                  (subst (λ i. IsPart ys i es) (omega arith) p.2)))
            (λ other.
              subst (λ j. Follows n.log ys (take j n.log ++ e ∷ es) (q + length (e ∷ es)))
                (omega arith)
                (cut (λ k beyond c. ne-lem _ _ other (
                  there
                  ∙ ap (λ (x : LogEntry). x.term) (c.same (q + 1) (omega arith) ∙ sym p.1))))))
        (λ outside.
          subst (λ zs. Follows n.log ys (zs ++ e ∷ es) (q + length (e ∷ es)))
            (take-all n.log (q + 1) (ground (arith, s.left)))
            (cut (λ k beyond c. absurd (ground (arith, c.left, s.left)))))

  pub accept-Follows :
      (q : ℕ) (es : List LogEntry) (c : ℕ)
      → Agree n.log q ys
      → IsPart ys (q + 1) es
      → Follows n.log ys (accept n q es c).log (q + length es)
  unfolding accept
  accept-Follows q es c s p =
      let r = append_each n es in
      let saved : Follows n.log ys (if r.1 then persist r.0 else r.0).log (q + length es) =
        subst (λ zs. Follows n.log ys zs (q + length es)) (sym (persist_if-log r.1 r.0))
          (append_each-Follows q es s p) in
      if-intro (λ (x : Node). Follows n.log ys x.log (q + length es))
        (ltb (if r.1 then persist r.0 else r.0).commit_index c) (λ _. saved) (λ _. saved)
