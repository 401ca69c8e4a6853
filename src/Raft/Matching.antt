-- ===== src/Raft/Matching.antt =====
-- The log of a follower that accepts entries, `HandleAppendEntries` of raft/replication.go.
use distqueue.Base.{
  ℕ, zero, suc, ◌+◌, ◌-◌, ◌≤◌, ◌<◌, ◌≡◌, refl, sym, subst, ap, ◌∙◌, Bool, true, false, not, List,
  [], ◌∷◌, ◌++◌, arith, ltb, leb, ◌==◌, if◌then◌else◌, if-intro, length, take, drop, get_or,
  length-append, get_or-append, get_or-append_last, length-take_of_le, get_or-take, All,
  append_assoc,
}
use distqueue.Raft.{Node, LogEntry, first_index, last_index, term_at, no_entry, persist}
use distqueue.Raft.Replication.{
  AppendEntriesArgs, AppendEntriesReply, append_each, accept, check_append, follow,
  handle_append_entries,
}
use distqueue.Raft.Indices.{
  IsFrom, IsLog, last_index_lem, follow-log, persist_if-log, next_of, drop-IsFrom,
}

-- The log, whose boundary has the index `first`, has the entry's term at the entry's index.
abbrev pub Has : ℕ → List LogEntry → LogEntry → Type 0
Has first log e = (get_or log (e.index - first) no_entry).term ≡ e.term

-- The entries that are put behind a log are in it.
behind-Has :
    (first j : ℕ) (xs es : List LogEntry)
    → IsFrom j es
    → first ≤ j
    → length xs ≡ j - first
    → All (Has first (xs ++ es)) es
behind-Has first j xs [] h p size = tt
behind-Has first j xs (e ∷ es) h p size =
    let at_end : get_or (xs ++ e ∷ []) (length xs) no_entry ≡ e =
      get_or-append_last xs e no_entry in
    let whole : (xs ++ e ∷ []) ++ es ≡ xs ++ e ∷ es = append_assoc xs (e ∷ []) es in
    let there : get_or (xs ++ e ∷ es) (length xs) no_entry ≡ e =
      subst (λ log. get_or log (length xs) no_entry ≡ e) whole
        (get_or-append (xs ++ e ∷ []) es (length xs) no_entry
            (omega (arith, length-append xs (e ∷ [])))
          ∙ at_end) in
    let place : length xs ≡ e.index - first = omega (arith, h.0) in
    (
      subst (λ k. (get_or (xs ++ e ∷ es) k no_entry).term ≡ e.term) place
          (ap (λ (x : LogEntry). x.term) there),
      subst (λ log. All (Has first log) es) whole
          (behind-Has first (suc j) (xs ++ e ∷ []) es h.1 (omega arith)
            (omega (arith, length-append xs (e ∷ [])))),
    )

module _ (n : Node) (l : IsLog n.log) where
  -- What appending leaves of the log before the entries, and that it has them.
  record Appended (j : ℕ) (es : List LogEntry) (n' : Node) : Type 0 where
    kept : (k : ℕ) → k < j - first_index n → get_or n'.log k no_entry ≡ get_or n.log k no_entry
    has : All (Has (first_index n) n'.log) es

  append_each-Appended :
      (j : ℕ) (es : List LogEntry)
      → IsFrom j es
      → first_index n < j
      → j ≤ last_index n + 1
      → Appended j es (append_each n es).0
  unfolding append_each
  append_each-Appended j [] h p q = record { kept = λ k _. refl; has = tt }
  append_each-Appended j (e ∷ es) h p q =
      let first = first_index n in
      if-intro (λ (r : Node × Bool). Appended j (e ∷ es) r.0) (leb e.index (last_index n))
        (λ inside.
          if-intro (λ (r : Node × Bool). Appended j (e ∷ es) r.0) (term_at n e.index == e.term)
            (λ same.
              let ih = append_each-Appended (suc j) es h.1 (omega arith) (ground (arith, h.0)) in
              record {
                kept = λ k below. ih.kept k (omega arith);
                has = (
                  ap (λ (x : LogEntry). x.term) (ih.kept (e.index - first) (omega (arith, h.0)))
                      ∙ ground (arith, same),
                  ih.has,
                );
              })
            (λ _.
              let k = e.index - first in
              let short : length (take k n.log) ≡ k =
                length-take_of_le k n.log (ground (arith, last_index_lem n l, h.0)) in
              record {
                kept = λ i below.
                    get_or-append (take k n.log) (e ∷ es) i no_entry (omega (arith, short, h.0))
                    ∙ get_or-take k n.log i no_entry (omega (arith, h.0));
                has =
                    behind-Has first j (take k n.log) (e ∷ es) h (omega arith)
                      (omega (arith, short, h.0));
              }))
        (λ outside.
          let size : length n.log ≡ j - first = ground (arith, last_index_lem n l, h.0) in
          record {
            kept = λ i below. get_or-append n.log (e ∷ es) i no_entry (omega arith);
            has = behind-Has first j n.log (e ∷ es) h (omega arith) size;
          })

accept-Has :
    (n : Node) (prev : ℕ) (es : List LogEntry) (c : ℕ)
    → IsLog n.log
    → IsFrom (prev + 1) es
    → first_index n ≤ prev
    → prev ≤ last_index n
    → All (Has (first_index n) (accept n prev es c).log) es
unfolding accept
accept-Has n prev es c l h p q =
    let r = append_each n es in
    let grown = append_each-Appended n l (prev + 1) es h (omega arith) (omega arith) in
    let saved : All (Has (first_index n) (if r.1 then persist r.0 else r.0).log) es =
      subst (λ log. All (Has (first_index n) log) es) (sym (persist_if-log r.1 r.0)) grown.has in
    if-intro (λ (x : Node). All (Has (first_index n) x.log) es)
      (ltb (if r.1 then persist r.0 else r.0).commit_index c) (λ _. saved) (λ _. saved)

check_append-Has :
    (n : Node) (prev term : ℕ) (es : List LogEntry) (c : ℕ)
    → IsLog n.log
    → IsFrom (prev + 1) es
    → first_index n ≤ prev
    → (check_append n prev term es c).1.success ≡ true
    → All (Has (first_index n) (check_append n prev term es c).0.log) es
unfolding check_append
check_append-Has n prev term es c l h p =
    let P : Node × AppendEntriesReply → Type 0 = λ (r : Node × AppendEntriesReply).
      r.1.success ≡ true → All (Has (first_index n) r.0.log) es in
    if-intro P (ltb (last_index n) prev) (λ _ s. absurd (cc))
      (λ inside.
        if-intro P (not (term_at n prev == term)) (λ _ s. absurd (cc))
          (λ _ s. accept-Has n prev es c l h p (ground arith)))

drop-past : (k : ℕ) (es : List LogEntry) → length es < k → drop k es ≡ []
drop-past zero es h = absurd (omega arith)
drop-past (suc k) [] h = refl
drop-past (suc k) (e ∷ es) h = drop-past k es (omega arith)

none_below : (a b : ℕ) → ltb b a ≡ false → 0 ≡ a - b
none_below a b h = ground arith

-- The same of the node that has followed the leader.
followed-Has :
    (n n' : Node) (args : AppendEntriesArgs) (out : List LogEntry)
    → n'.log ≡ n.log
    → All (Has (first_index n') out) (drop (first_index n' - args.prev_log_index) args.entries)
    → All (Has (first_index n) out) (drop (first_index n - args.prev_log_index) args.entries)
followed-Has n n' args out same h =
    subst
      (λ log.
        All (Has (get_or log 0 no_entry).index out)
          (drop ((get_or log 0 no_entry).index - args.prev_log_index) args.entries))
      same h

-- If `HandleAppendEntries` answers success, for a follower whose log has consecutive indices and a
-- request whose entries have the indices behind the previous one, then the new log has, at the
-- index of each entry that lies behind the snapshot boundary, an entry of its term.
pub handle_append_entries-Has :
    (n : Node) (args : AppendEntriesArgs)
    → IsLog n.log
    → IsFrom (args.prev_log_index + 1) args.entries
    → (handle_append_entries n args).1.success ≡ true
    → All
        (Has (first_index n) (handle_append_entries n args).0.log)
        (drop (first_index n - args.prev_log_index) args.entries)
unfolding handle_append_entries
handle_append_entries-Has n args l h =
    let n' = follow n args.term args.leader_id in
    let same = follow-log n args.term args.leader_id in
    let l' : IsLog n'.log = subst IsLog (sym same) l in
    let first = first_index n' in
    let P : Node × AppendEntriesReply → Type 0 = λ (r : Node × AppendEntriesReply).
      r.1.success ≡ true
      → All (Has (first_index n) r.0.log)
          (drop (first_index n - args.prev_log_index) args.entries) in
    if-intro P (ltb args.term n.current_term) (λ _ s. absurd (cc))
      (λ _.
        if-intro P (ltb args.prev_log_index first)
          (λ below.
            if-intro P (ltb (length args.entries) (first - args.prev_log_index))
              (λ short s. followed-Has n n' args n'.log same (
                subst (All (Has first n'.log))
                  (sym (drop-past (first - args.prev_log_index) args.entries (ground arith))) tt))
              (λ _ s. followed-Has n n' args _ same (
                check_append-Has n' first _ _ _ l'
                  (subst (λ i. IsFrom i (drop (first - args.prev_log_index) args.entries))
                    (next_of args.prev_log_index first below)
                    (drop-IsFrom (args.prev_log_index + 1) (first - args.prev_log_index)
                      args.entries h))
                  (omega arith) s)))
          (λ above s. followed-Has n n' args _ same (
            subst
              (λ k.
                All
                  (Has first
                    (check_append n' args.prev_log_index args.prev_log_term args.entries
                      args.leader_commit).0.log)
                  (drop k args.entries))
              (none_below first args.prev_log_index above)
              (check_append-Has n' args.prev_log_index _ _ _ l' h (ground arith) s))))
