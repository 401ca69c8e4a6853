-- ===== src/Raft/Consensus/Logs.antt =====
-- Logs that agree up to an index, and what appending entries makes of a log, `HandleAppendEntries`
-- of raft/replication.go.
use distqueue.Base.{
  ℕ, suc, ◌+◌, ◌-◌, ◌≤◌, ◌<◌, ◌≡◌, refl, sym, subst, ap, ◌∙◌, List, [], ◌∷◌, ◌++◌, arith, length,
  get_or, length-append, get_or-append, get_or-append_last, append_assoc, append-nil, ℕ_discrete,
}
use distqueue.Raft.{Node, LogEntry, first_index, last_index, no_entry}

-- The entry at an index of a whole log.
abbrev pub at : List LogEntry → ℕ → LogEntry
at log k = get_or log k no_entry

-- Two logs have the index `k` and agree up to it.
pub record Agree (xs : List LogEntry) (k : ℕ) (ys : List LogEntry) : Type 0 where
  pub left : k < length xs
  pub right : k < length ys
  pub same : (j : ℕ) → j ≤ k → at xs j ≡ at ys j

pub Agree-refl : (xs : List LogEntry) (k : ℕ) → k < length xs → Agree xs k xs
Agree-refl xs k h = record { left = h; right = h; same = λ j _. refl }

pub Agree-sym : (xs ys : List LogEntry) (k : ℕ) → Agree xs k ys → Agree ys k xs
Agree-sym xs ys k a = record { left = a.right; right = a.left; same = λ j h. sym (a.same j h) }

pub Agree-trans : (xs ys zs : List LogEntry) (k : ℕ) → Agree xs k ys → Agree ys k zs → Agree xs k zs
Agree-trans xs ys zs k a b = record {
  left = a.left;
  right = b.right;
  same = λ j h. a.same j h ∙ b.same j h;
}

pub Agree-lower : (xs ys : List LogEntry) (k l : ℕ) → l ≤ k → Agree xs k ys → Agree xs l ys
Agree-lower xs ys k l h a = record {
  left = omega (arith, a.left);
  right = omega (arith, a.right);
  same = λ j p. a.same j (omega arith);
}

pub Agree-append : (xs es : List LogEntry) (k : ℕ) → k < length xs → Agree xs k (xs ++ es)
Agree-append xs es k h = record {
  left = h;
  right = omega (arith, length-append xs es);
  same = λ j p. sym (get_or-append xs es j no_entry (omega arith));
}

-- A log of which each entry has its own index, and agrees up to there with the log of its term.
pub record IsTold (logs : ℕ → List LogEntry) (log : List LogEntry) : Type 0 where
  pub index : (k : ℕ) → k < length log → (at log k).index ≡ k
  pub told : (k : ℕ) → k < length log → Agree log k (logs (at log k).term)

-- Two such logs that have an entry of the same term at an index agree up to it.
pub IsTold-Agree :
    (logs : ℕ → List LogEntry) (xs ys : List LogEntry) (k : ℕ)
    → IsTold logs xs
    → IsTold logs ys
    → k < length xs
    → k < length ys
    → (at xs k).term ≡ (at ys k).term
    → Agree xs k ys
IsTold-Agree logs xs ys k a b p q e =
    Agree-trans xs (logs (at ys k).term) ys k (subst (λ t. Agree xs k (logs t)) e (a.told k p))
      (Agree-sym ys (logs (at ys k).term) k (b.told k q))

-- A log that is a beginning of such a log.
pub IsTold-Agree_whole :
    (logs : ℕ → List LogEntry) (xs ys : List LogEntry) (k : ℕ)
    → IsTold logs ys
    → length xs ≡ k + 1
    → Agree xs k ys
    → IsTold logs xs
IsTold-Agree_whole logs xs ys k b size a = record {
  index = λ j h.
      ap (λ (e : LogEntry). e.index) (a.same j (omega arith)) ∙ b.index j (omega (arith, a.right));
  told = λ j h.
      subst (λ (e : LogEntry). Agree xs j (logs e.term)) (sym (a.same j (omega arith)))
        (Agree-trans xs ys (logs (at ys j).term) j (Agree-lower xs ys k j (omega arith) a)
          (b.told j (omega (arith, a.right))));
}

-- A log with one more entry.
pub IsTold-snoc :
    (logs : ℕ → List LogEntry) (xs : List LogEntry) (e : LogEntry)
    → IsTold logs xs
    → e.index ≡ length xs
    → Agree (xs ++ e ∷ []) (length xs) (logs e.term)
    → IsTold logs (xs ++ e ∷ [])
IsTold-snoc logs xs e a i s =
    let Good : LogEntry → ℕ → Type 0 =
      λ x k. (x.index ≡ k) × Agree (xs ++ e ∷ []) k (logs x.term) in
    let good : (k : ℕ) → k < length (xs ++ e ∷ []) → Good (at (xs ++ e ∷ []) k) k = λ k h.
      elim (ℕ_discrete k (length xs)) [
        | yes last ↦
            subst (λ j. Good (at (xs ++ e ∷ []) j) j) (sym last)
              (subst (λ x. Good x (length xs)) (sym (get_or-append_last xs e no_entry)) (i, s))
        | no other ↦
            let inside : k < length xs = omega (arith, length-append xs (e ∷ [])) in
            subst (λ x. Good x k) (sym (get_or-append xs (e ∷ []) k no_entry inside))
              (
                a.index k inside,
                Agree-trans (xs ++ e ∷ []) xs (logs (at xs k).term) k
                    (Agree-sym xs (xs ++ e ∷ []) k (Agree-append xs (e ∷ []) k inside))
                    (a.told k inside),
              )
      ] in
    record { index = λ k h. (good k h).0; told = λ k h. (good k h).1 }

-- The last index and term, and the first index, of such a log.
pub last-IsTold :
    (logs : ℕ → List LogEntry) (n : Node)
    → 0 < length n.log
    → IsTold logs n.log
    → (last_index n + 1 ≡ length n.log) × (first_index n ≡ 0)
last-IsTold logs n some_entry a =
    (omega (arith, a.index (length n.log - 1) (omega arith)), a.index 0 some_entry)

-- The entries stand in the log from the index `i` on.
abbrev pub IsPart : List LogEntry → ℕ → List LogEntry → Type 0
IsPart log i [] = Unit
IsPart log i (e ∷ es) = (i < length log) × (e ≡ at log i) × IsPart log (suc i) es

-- Behind a beginning of the log `ys` come further entries of it.
pub IsPart-Agree :
    (xs ys es : List LogEntry) (k : ℕ)
    → length xs ≡ k + 1
    → Agree xs k ys
    → IsPart ys (k + 1) es
    → (length (xs ++ es) ≡ k + length es + 1) × Agree (xs ++ es) (k + length es) ys
IsPart-Agree xs ys [] k size a p =
    subst (λ zs. (length zs ≡ k + 0 + 1) × Agree zs (k + 0) ys) (sym (append-nil xs))
      (omega arith, subst (λ j. Agree xs j ys) (omega arith) a)
IsPart-Agree xs ys (e ∷ es) k size a p =
    let longer : Agree (xs ++ e ∷ []) (k + 1) ys = record {
      left = omega (arith, length-append xs (e ∷ []));
      right = p.0;
      same = λ j h. elim (ℕ_discrete j (k + 1)) [
        | yes last ↦
            subst (λ i. at (xs ++ e ∷ []) i ≡ at ys i) (size ∙ sym last)
              (get_or-append_last xs e no_entry ∙ p.1 ∙ ap (at ys) (sym size))
        | no other ↦ get_or-append xs (e ∷ []) j no_entry (omega arith) ∙ a.same j (omega arith)
      ];
    } in
    let rest =
      IsPart-Agree (xs ++ e ∷ []) ys es (k + 1) (omega (arith, length-append xs (e ∷ []))) longer
        (subst (λ i. IsPart ys i es) (omega arith) p.2) in
    subst (λ zs. (length zs ≡ k + suc (length es) + 1) × Agree zs (k + suc (length es)) ys)
      (append_assoc xs (e ∷ []) es)
      (omega (arith, rest.0), subst (λ j. Agree ((xs ++ e ∷ []) ++ es) j ys) (omega arith) rest.1)
