-- ===== src/Broker/Compaction.antt =====
-- The compacted log says the same as the log that it replaces.
use distqueue.Base.{
  ◌+◌, ◌≤◌, ◌≡◌, refl, sym, ◌∙◌, Bool, none, List, [], ◌∷◌, ◌++◌, map, arith, Bytes, count, All,
  append_assoc, append-nil,
}
use mathlib.Core.List.{map-append}
use distqueue.Base.Maps.{get, insert, delete, values, get-insert}
use distqueue.Task.{Task, dead}
use distqueue.Wal.{LogEntry, op_dead}
use distqueue.Broker.{Broker, enqueue_entry, id_entry, dead_entries, compact_entries}
use distqueue.Broker.Recovery.{Replayed, nothing, as_pending, apply_entry, apply_entries}
use distqueue.Broker.Live.{
  IsKeyed, has_id, insert-IsKeyed, delete-IsKeyed, count-insert_new, count-delete, count-has_id,
}
use distqueue.Broker.Agrees.{Agrees, redelivered, letter, ids_once}

pub apply_entries-append :
    (r : Replayed) (xs ys : List LogEntry)
    → apply_entries r (xs ++ ys) ≡ apply_entries (apply_entries r xs) ys
unfolding apply_entries
apply_entries-append r [] ys = refl
apply_entries-append r (e ∷ xs) ys = apply_entries-append (apply_entry r e) xs ys

none_of_count :
    (m : List (Bytes × Task)) (k : Bytes)
    → IsKeyed m
    → count (has_id k) (values m) ≡ 0
    → get m k ≡ none
none_of_count m k h e = ground (arith, count-has_id m k h)

-- The tasks `xs` have been added to what `r` holds.
record Loaded (r r' : Replayed) (xs : List Task) : Type 0 where
  keyed : IsKeyed r'.live
  added : (p : Task → Bool) → count p (values r'.live) ≡ count p (values r.live) + redelivered p xs
  letters : r'.letters ≡ r.letters

apply-enqueue_entries :
    (r : Replayed) (xs : List Task)
    → IsKeyed r.live
    → ((k : Bytes) → count (has_id k) (values r.live) + redelivered (has_id k) xs ≤ 1)
    → Loaded r (apply_entries r (map enqueue_entry xs)) xs
unfolding apply_entries apply_entry enqueue_entry has_id
apply-enqueue_entries r [] h once = record { keyed = h; added = λ p. omega arith; letters = refl }
apply-enqueue_entries r (x ∷ xs) h once =
    let free : get r.live x.id ≡ none = none_of_count r.live x.id h (ground (arith, once x.id)) in
    let r' = record r { live = insert r.live x.id (as_pending x) } in
    let rest =
      apply-enqueue_entries r' xs (insert-IsKeyed r.live x.id (as_pending x) h refl) (λ k.
        ground (arith, once k, count-insert_new (has_id k) r.live x.id (as_pending x) free)) in
    record {
      keyed = rest.keyed;
      added = λ p. omega (arith, rest.added p, count-insert_new p r.live x.id (as_pending x) free);
      letters = rest.letters;
    }

-- The dead letters `ds` have been added, and the live tasks are the same.
record Lettered (r r' : Replayed) (ds : List Task) : Type 0 where
  keyed : IsKeyed r'.live
  kept : (p : Task → Bool) → count p (values r'.live) ≡ count p (values r.live)
  letters : map letter r'.letters ≡ map letter r.letters ++ map letter ds

-- What the two entries of a dead letter do.
after : Replayed → Task → Replayed
after r d = record {
  live = delete (insert r.live d.id (as_pending d)) d.id;
  letters = r.letters ++ record (as_pending d) { status = dead } ∷ [];
}

apply_entry-enqueue_dead :
    (r : Replayed) (d : Task)
    → apply_entry (apply_entry r (enqueue_entry d)) (id_entry op_dead d.id) ≡ after r d
unfolding apply_entry enqueue_entry id_entry after
apply_entry-enqueue_dead r d = ground (arith, get-insert r.live d.id (as_pending d) d.id)

module _ (r : Replayed) (d : Task) where
  module _ (h : IsKeyed r.live) (free : get r.live d.id ≡ none) where
    after-IsKeyed : IsKeyed (after r d).live
    unfolding after
    after-IsKeyed = delete-IsKeyed _ d.id (insert-IsKeyed r.live d.id (as_pending d) h refl)

    after-kept : (p : Task → Bool) → count p (values (after r d).live) ≡ count p (values r.live)
    unfolding after
    after-kept p = omega (
      arith,
      count-delete p (insert r.live d.id (as_pending d)) d.id (as_pending d)
          (insert-IsKeyed r.live d.id (as_pending d) h refl)
          (ground (arith, get-insert r.live d.id (as_pending d) d.id)),
      count-insert_new p r.live d.id (as_pending d) free,
    )

    after-apart : (k : Bytes) → get r.live k ≡ none → get (after r d).live k ≡ none
    after-apart k e =
        none_of_count (after r d).live k after-IsKeyed
          (ground (arith, after-kept (has_id k), count-has_id r.live k h))

after-letters :
    (r : Replayed) (d : Task) (ls : List Task)
    → map letter (after r d).letters ++ ls ≡ map letter r.letters ++ letter d ∷ ls
unfolding after
after-letters r d ls = rw (
  map-append letter r.letters (record (as_pending d) { status = dead } ∷ []),
  append_assoc (map letter r.letters) (letter d ∷ []) ls,
)

after-All :
    (r : Replayed) (d : Task) (ds : List Task)
    → IsKeyed r.live
    → get r.live d.id ≡ none
    → All (λ x. get r.live x.id ≡ none) ds
    → All (λ x. get (after r d).live x.id ≡ none) ds
after-All r d [] h f a = tt
after-All r d (x ∷ ds) h f a = (after-apart r d h f x.id a.0, after-All r d ds h f a.1)

apply-dead_entries :
    (r : Replayed) (ds : List Task)
    → IsKeyed r.live
    → All (λ d. get r.live d.id ≡ none) ds
    → Lettered r (apply_entries r (dead_entries ds)) ds
unfolding apply_entries dead_entries
apply-dead_entries r [] h a = record {
  keyed = h;
  kept = λ p. refl;
  letters = sym (append-nil (map letter r.letters));
}
apply-dead_entries r (d ∷ ds) h a =
    let rest =
      apply-dead_entries (after r d) ds (after-IsKeyed r d h a.0) (after-All r d ds h a.0 a.1) in
    rw (apply_entries, apply_entry-enqueue_dead r d)
      (record {
        keyed = rest.keyed;
        kept = λ p. rest.kept p ∙ after-kept r d h a.0 p;
        letters = rest.letters ∙ after-letters r d (map letter ds);
      })

module _ (r : Replayed) (b : Broker) (a : Agrees r b.pq b.tracker b.dlq []) where
  with_pq : Replayed
  with_pq = apply_entries nothing (map enqueue_entry b.pq)

  with_tracker : Replayed
  with_tracker = apply_entries with_pq (map enqueue_entry (values b.tracker))

  with_pq-Loaded : Loaded nothing with_pq b.pq
  unfolding with_pq IsKeyed values
  with_pq-Loaded =
      apply-enqueue_entries nothing b.pq tt
        (λ k. omega (arith, ids_once r b.pq b.tracker b.dlq [] a k))

  with_tracker-Loaded : Loaded with_pq with_tracker (values b.tracker)
  unfolding with_tracker values
  with_tracker-Loaded =
      apply-enqueue_entries with_pq (values b.tracker) with_pq-Loaded.keyed (λ k.
        omega (arith, ids_once r b.pq b.tracker b.dlq [] a k, with_pq-Loaded.added (has_id k)))

  with_tracker-same :
      (p : Task → Bool) → count p (values with_tracker.live) ≡ count p (values r.live)
  unfolding values
  with_tracker-same p = omega (arith, a.same p, with_pq-Loaded.added p, with_tracker-Loaded.added p)

  apart-with_tracker :
      (ds : List Task)
      → All (λ d. get r.live d.id ≡ none) ds
      → All (λ d. get with_tracker.live d.id ≡ none) ds
  apart-with_tracker [] h = tt
  apart-with_tracker (d ∷ ds) h = (
    none_of_count with_tracker.live d.id with_tracker-Loaded.keyed
        (ground (arith, with_tracker-same (has_id d.id), count-has_id r.live d.id a.keyed, h.0)),
    apart-with_tracker ds h.1,
  )

  compacted : Replayed
  compacted = apply_entries with_tracker (dead_entries b.dlq)

  compacted-Lettered : Lettered with_tracker compacted b.dlq
  unfolding compacted
  compacted-Lettered =
      apply-dead_entries with_tracker b.dlq with_tracker-Loaded.keyed
        (apart-with_tracker b.dlq a.apart)

  apart-compacted :
      (ds : List Task)
      → All (λ d. get r.live d.id ≡ none) ds
      → All (λ d. get compacted.live d.id ≡ none) ds
  apart-compacted [] h = tt
  apart-compacted (d ∷ ds) h = (
    none_of_count compacted.live d.id compacted-Lettered.keyed (
        ground (
          arith,
          compacted-Lettered.kept (has_id d.id),
          with_tracker-same (has_id d.id),
          count-has_id r.live d.id a.keyed,
          h.0,
        )),
    apart-compacted ds h.1,
  )

  compacted-Agrees : Agrees compacted b.pq b.tracker b.dlq []
  compacted-Agrees = record {
    keyed = compacted-Lettered.keyed;
    tracked = a.tracked;
    same = λ p. omega (arith, a.same p, compacted-Lettered.kept p, with_tracker-same p);
    letters = sym (
        compacted-Lettered.letters ∙ rw (with_tracker-Loaded.letters, with_pq-Loaded.letters) refl);
    apart = apart-compacted b.dlq a.apart;
  }

  -- A broker with no task in limbo may compact its log at any time.
  pub Agrees-compact : Agrees (apply_entries nothing (compact_entries b)) b.pq b.tracker b.dlq []
  unfolding compact_entries compacted with_tracker with_pq
  Agrees-compact =
      rw
        (
          apply_entries-append nothing (map enqueue_entry b.pq)
              (map enqueue_entry (values b.tracker) ++ dead_entries b.dlq),
          apply_entries-append (apply_entries nothing (map enqueue_entry b.pq))
              (map enqueue_entry (values b.tracker)) (dead_entries b.dlq),
        )
        compacted-Agrees
