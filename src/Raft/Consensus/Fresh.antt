-- ===== src/Raft/Consensus/Fresh.antt =====
-- The indices that a new leader starts with, `becomeLeaderLocked` of raft/election.go.
use distqueue.Base.{
  ℕ, ◌+◌, ◌≤◌, ◌<◌, ◌≡◌, ◌≢◌, ◌⊎◌, inl, inr, refl, sym, subst, ap, ◌∙◌, List, [], ◌∷◌, ◌++◌, arith,
  Bytes, length-append, get_or, get_or-append_last,
}
use distqueue.Base.Maps.{IsMap, insert, insert-IsMap}
use distqueue.Raft.{Node, LogEntry, leader, last_index, last_entry, no_entry, persist}
use distqueue.Raft.Election.{become_leader, reset_peers}
use distqueue.Raft.Replication.{index_of}
use distqueue.Raft.Cluster.{IsMember, same}
use distqueue.Raft.Consensus.Grown.{Leads}
use distqueue.Raft.Consensus.Counting.{insert-intro}

tail_member :
    (q : Bytes) (ps : List Bytes) (p : Bytes) → q ≢ p → IsMember (q ∷ ps) p → IsMember ps p
tail_member q ps p apart h = ground arith

none_left : (x : ℕ) → (0 < x → ⊥) → x ≡ 0
none_left x h = ground arith

-- The indices of the peers once they are reset.
record IsReset (n n' : Node) (ps : List Bytes) : Type 0 where
  pub peers : n'.peers ≡ n.peers
  pub commit : n'.commit_index ≡ n.commit_index
  pub id : n'.id ≡ n.id
  pub map : IsMap n.match_index → IsMap n'.match_index
  pub index :
      (p : Bytes)
      → (index_of n'.match_index p ≡ 0)
        ⊎ ((index_of n'.match_index p ≡ index_of n.match_index p) × (IsMember ps p → ⊥))

reset_peers-IsReset : (ps : List Bytes) (n : Node) → IsReset n (reset_peers n ps) ps
unfolding reset_peers
reset_peers-IsReset [] n = record {
  peers = refl;
  commit = refl;
  id = refl;
  map = λ h. h;
  index = λ p. inr (refl, λ h. omega arith);
}
reset_peers-IsReset (q ∷ ps) n =
    let n1 : Node = record n {
      next_index = insert n.next_index q (last_index n + 1);
      match_index = insert n.match_index q 0;
    } in
    let r : IsReset n1 (reset_peers n1 ps) ps = reset_peers-IsReset ps n1 in
    record {
      peers = r.peers;
      commit = r.commit;
      id = r.id;
      map = λ h. r.map (insert-IsMap n.match_index q 0 h);
      index = λ p.
          let x = index_of (reset_peers n1 ps).match_index p in
          elim (r.index p) [
            | inl reset ↦ inl reset
            | inr (kept, no_member) ↦
                insert-intro
                  (λ y.
                    x ≡ y → (x ≡ 0) ⊎ ((x ≡ index_of n.match_index p) × (IsMember (q ∷ ps) p → ⊥)))
                  n.match_index q 0 p (λ _ e. inl e)
                  (λ apart e. inr (e, λ h. no_member (tail_member q ps p apart h))) kept
          ];
    }

-- The indices that a new leader starts with.
pub record IsFresh (i : Bytes) (n n' : Node) : Type 0 where
  pub peers : n'.peers ≡ n.peers
  pub commit : n'.commit_index ≡ n.commit_index
  pub map : IsMap n.match_index → IsMap n'.match_index
  pub index :
      ((p : Bytes) → 0 < index_of n.match_index p → (p ≡ i) ⊎ IsMember n.peers p)
      → (p : Bytes)
      → (index_of n'.match_index p ≡ 0) ⊎ ((p ≡ i) × (index_of n'.match_index p ≤ last_index n'))

pub become_leader-IsFresh : (i : Bytes) (n : Node) → n.id ≡ i → IsFresh i n (become_leader n)
unfolding become_leader persist
become_leader-IsFresh i n own =
    let n1 : Node = record n { state = leader; leader_id = n.id } in
    let m = reset_peers n1 n.peers in
    let r : IsReset n1 m n.peers = reset_peers-IsReset n.peers n1 in
    let n' = become_leader n in
    record {
      peers = r.peers;
      commit = r.commit;
      map = λ h. insert-IsMap m.match_index m.id (last_index n') (r.map h);
      index = λ known p.
          insert-intro (λ y. (y ≡ 0) ⊎ ((p ≡ i) × (y ≤ last_index n'))) m.match_index m.id
            (last_index n') p (λ e. inr (sym e ∙ r.id ∙ own, omega arith))
            (λ apart. elim (r.index p) [
              | inl reset ↦ inl reset
              | inr (kept, no_member) ↦ inl (
                  none_left (index_of m.match_index p) (λ far.
                    elim (known p (omega (arith, kept))) [
                      | inl same ↦ apart (r.id ∙ own ∙ sym same)
                      | inr member ↦ no_member member
                    ]))
            ]);
    }

pub last_index-Leads : (n n' : Node) (leads : Leads n n') → last_index n' ≡ last_index n + 1
last_index-Leads n n' leads =
    ap (λ xs. (last_entry xs).index) leads.log
    ∙ subst (λ k. (get_or (n.log ++ leads.entry ∷ []) k no_entry).index ≡ leads.entry.index)
        (omega (arith, length-append n.log (leads.entry ∷ [])))
        (ap (λ (e : LogEntry). e.index) (get_or-append_last n.log leads.entry no_entry))
    ∙ leads.next
