-- ===== src/Broker/Agrees.antt =====
-- What the log says and what the broker holds: one agreement, and the moves that keep it. `limbo`
-- is a list of tasks that have left the tracker and have not been requeued yet.
use distqueue.Base.{
  ℕ, ◌+◌, ◌≤◌, ◌≡◌, ◌≢◌, refl, sym, ap, subst, ◌∙◌, Bool, none, some, List, [], ◌∷◌, ◌++◌, map,
  arith, Bytes, count, All, Option-cases, inl, inr, length, All-append,
}
use mathlib.Core.List.{map-append}
use mathlib.Core.Path.{ap₂}
use distqueue.Base.Int.{pos, increment}
use distqueue.Base.Maps.{get, insert, delete, values, get-insert, get-delete}
use distqueue.Heap.Queue.{push-SameElements, pop-SameElements}
use distqueue.Task
use distqueue.Task.{Task, no_task, less, pending, dead}
use distqueue.Tracker.{Tracker}
use distqueue.Broker.{enqueue_entry, id_entry}
use distqueue.Broker.Recovery.{Replayed, as_pending, apply_entry}
use distqueue.Broker.Live.{
  IsKeyed, has_id, is_task, get-IsKeyed, insert-IsKeyed, delete-IsKeyed, count-insert_new,
  count-insert_old, count-delete, count-has_id, get_of_count, count_of_get,
}
use distqueue.Wal.{op_ack, op_nack, op_dead}

-- How many tasks of the list pass the test once they are pending again.
abbrev pub redelivered : (Task → Bool) → List Task → ℕ
redelivered p ts = count (λ t. p (as_pending t)) ts

-- A dead letter up to its retry count.
abbrev pub letter : Task → Task
letter t = record t { status = dead; deadline = 0; retry_count = pos 0 }

pub record Agrees (r : Replayed) (pq : List Task) (tr : Tracker) (dlq limbo : List Task)
    : Type 0 where
  pub keyed : IsKeyed r.live
  pub tracked : IsKeyed tr
  pub same :
      (p : Task → Bool)
      → redelivered p pq + redelivered p (values tr) + redelivered p limbo ≡ count p (values r.live)
  pub letters : map letter dlq ≡ map letter r.letters
  pub apart : All (λ d. get r.live d.id ≡ none) dlq

pub count-push :
    (q : List Task) (t : Task) (p : Task → Bool)
    → redelivered p (Task.push q t) ≡ redelivered p (t ∷ q)
unfolding Task.push
count-push q t p = push-SameElements less no_task q t (λ u. p (as_pending u))

pub count-pop :
    (q rest : List Task) (t : Task) (p : Task → Bool)
    → Task.pop q ≡ some (t, rest)
    → redelivered p (t ∷ rest) ≡ redelivered p q
unfolding Task.pop
count-pop [] rest t p e = cc
count-pop (u ∷ q) rest t p e =
    ground (arith, pop-SameElements less no_task (u ∷ q) (length q) refl (λ u. p (as_pending u)))

module _ (r : Replayed) (pq : List Task) (tr : Tracker) (dlq limbo : List Task) where
  module _ (a : Agrees r pq tr dlq limbo) where
    -- A task that the tracker holds is live, and the log knows it as it is but for its delivery.
    pub tracked_live :
        (k : Bytes) (t : Task) → get tr k ≡ some t → get r.live k ≡ some (as_pending t)
    unfolding is_task
    tracked_live k t e =
        let one =
          count_of_get tr k t (λ u. is_task (as_pending t) (as_pending u)) e (ground arith) in
        let known =
          get_of_count r.live (as_pending t) a.keyed
            (omega (arith, one, a.same (is_task (as_pending t)))) in
        subst (λ j. get r.live j ≡ some (as_pending t)) (get-IsKeyed tr k t a.tracked e) known

    -- No id occurs twice among the tasks that the broker holds.
    pub ids_once :
        (k : Bytes)
        → redelivered (has_id k) pq
            + redelivered (has_id k) (values tr)
            + redelivered (has_id k) limbo
          ≤ 1
    ids_once k = ground (arith, a.same (has_id k), count-has_id r.live k a.keyed)

    untracked : (rest : List Task) (t : Task) → Task.pop pq ≡ some (t, rest) → get tr t.id ≡ none
    unfolding has_id
    untracked rest t e = elim (Option-cases (get tr t.id)) [
      | inl free ↦ free
      | inr (u, held) ↦
          let own = get-IsKeyed tr t.id u a.tracked held in
          absurd (
            ground (
              arith,
              ids_once t.id,
              count-pop pq rest t (has_id t.id) e,
              count_of_get tr t.id u (λ v. has_id t.id (as_pending v)) held,
            ))
    ]

    -- The move of `Dequeue`.
    pub Agrees-dequeue :
        (rest : List Task) (t t' : Task)
        → Task.pop pq ≡ some (t, rest)
        → as_pending t' ≡ as_pending t
        → Agrees r rest (insert tr t'.id t') dlq limbo
    Agrees-dequeue rest t t' e same' =
        let own : t'.id ≡ t.id = ap (λ (u : Task). u.id) same' in
        let free : get tr t'.id ≡ none = rw own (untracked rest t e) in
        record {
          keyed = a.keyed;
          tracked = insert-IsKeyed tr t'.id t' a.tracked refl;
          same = λ p. ground (
            arith,
            a.same p,
            ap p same',
            count-pop pq rest t p e,
            count-insert_new (λ u. p (as_pending u)) tr t'.id t' free,
          );
          letters = a.letters;
          apart = a.apart;
        }

    -- The move of `Remove`.
    pub Agrees-remove :
        (k : Bytes) (t : Task) → get tr k ≡ some t → Agrees r pq (delete tr k) dlq (t ∷ limbo)
    Agrees-remove k t e = record {
      keyed = a.keyed;
      tracked = delete-IsKeyed tr k a.tracked;
      same = λ p. omega (arith, a.same p, count-delete (λ u. p (as_pending u)) tr k t a.tracked e);
      letters = a.letters;
      apart = a.apart;
    }

module _ (r : Replayed) (pq : List Task) (tr : Tracker) (dlq limbo : List Task) (t : Task)
    (a : Agrees r pq tr dlq (t ∷ limbo)) where
  pub limbo_live : get r.live t.id ≡ some (as_pending t)
  unfolding is_task
  limbo_live =
      get_of_count r.live (as_pending t) a.keyed (ground (arith, a.same (is_task (as_pending t))))

  limbo_untracked : get tr t.id ≡ none
  unfolding has_id
  limbo_untracked = elim (Option-cases (get tr t.id)) [
    | inl free ↦ free
    | inr (u, held) ↦
        let own = get-IsKeyed tr t.id u a.tracked held in
        absurd (
          ground (
            arith,
            ids_once r pq tr dlq (t ∷ limbo) a t.id,
            count_of_get tr t.id u (λ v. has_id t.id (as_pending v)) held,
          ))
  ]

  -- The move back, where the record could not be written.
  pub Agrees-track : Agrees r pq (insert tr t.id t) dlq limbo
  Agrees-track = record {
    keyed = a.keyed;
    tracked = insert-IsKeyed tr t.id t a.tracked refl;
    same = λ p.
        omega (arith, a.same p, count-insert_new (λ u. p (as_pending u)) tr t.id t limbo_untracked);
    letters = a.letters;
    apart = a.apart;
  }

  apart-delete :
      (ds : List Task)
      → All (λ d. get r.live d.id ≡ none) ds
      → All (λ d. get (delete r.live t.id) d.id ≡ none) ds
  apart-delete [] h = tt
  apart-delete (d ∷ ds) h = (ground (arith, h.0, get-delete r.live t.id d.id), apart-delete ds h.1)

  apart-insert :
      (u : Task) (ds : List Task)
      → All (λ d. get r.live d.id ≡ none) ds
      → All (λ d. get (insert r.live t.id u) d.id ≡ none) ds
  apart-insert u [] h = tt
  apart-insert u (d ∷ ds) h =
      (ground (arith, h.0, limbo_live, get-insert r.live t.id u d.id), apart-insert u ds h.1)

  -- The move of `Ack`, on a task that has left the tracker.
  pub Agrees-ack : Agrees (apply_entry r (id_entry op_ack t.id)) pq tr dlq limbo
  unfolding apply_entry id_entry
  Agrees-ack = record {
    keyed = delete-IsKeyed r.live t.id a.keyed;
    tracked = a.tracked;
    same =
        λ p. ground (arith, a.same p, count-delete p r.live t.id (as_pending t) a.keyed limbo_live);
    letters = a.letters;
    apart = apart-delete dlq a.apart;
  }

  -- The task as `requeueLocked` gives it back to the queue.
  abbrev pub retried : Task
  retried = record t { retry_count = increment t.retry_count; status = pending; deadline = 0 }

  -- The move of a nack below the retry limit.
  pub Agrees-nack :
      Agrees (apply_entry r (id_entry op_nack t.id)) (Task.push pq retried) tr dlq limbo
  unfolding apply_entry id_entry
  Agrees-nack = rw limbo_live (record {
    keyed = insert-IsKeyed r.live t.id retried a.keyed refl;
    tracked = a.tracked;
    same = λ p. ground (
      arith,
      a.same p,
      count-push pq retried p,
      count-insert_old p r.live t.id retried (as_pending t) a.keyed limbo_live,
    );
    letters = a.letters;
    apart = apart-insert retried dlq a.apart;
  })

  -- The move of a nack at the retry limit.
  pub Agrees-dead :
      (d : Task)
      → letter d ≡ letter t
      → Agrees (apply_entry r (id_entry op_dead t.id)) pq tr (dlq ++ d ∷ []) limbo
  unfolding apply_entry id_entry
  Agrees-dead d e = rw limbo_live (record {
    keyed = delete-IsKeyed r.live t.id a.keyed;
    tracked = a.tracked;
    same =
        λ p. ground (arith, a.same p, count-delete p r.live t.id (as_pending t) a.keyed limbo_live);
    letters =
        map-append letter dlq (d ∷ [])
        ∙ ap₂ (λ xs (x : Task). xs ++ x ∷ []) a.letters e
        ∙ sym (map-append letter r.letters (record (as_pending t) { status = dead } ∷ []));
    apart =
        All-append (λ d. get (delete r.live t.id) d.id ≡ none) dlq (d ∷ [])
          (apart-delete dlq a.apart)
          (ground (arith, ap (λ (u : Task). u.id) e, get-delete r.live t.id d.id), tt);
  })

-- An id that the broker knows nothing of: not live in the log, and no dead letter's.
pub record IsFresh (r : Replayed) (dlq : List Task) (id : Bytes) : Type 0 where
  pub unlogged : get r.live id ≡ none
  pub unlettered : All (λ d. d.id ≢ id) dlq

apart-fresh :
    (r : Replayed) (u : Task) (ds : List Task)
    → All (λ d. get r.live d.id ≡ none) ds
    → All (λ d. d.id ≢ u.id) ds
    → All (λ d. get (insert r.live u.id (as_pending u)) d.id ≡ none) ds
apart-fresh r u [] h k = tt
apart-fresh r u (d ∷ ds) h k = (
  ground (arith, h.0, k.0, get-insert r.live u.id (as_pending u) d.id),
  apart-fresh r u ds h.1 k.1,
)

-- The move of `Enqueue`.
pub Agrees-enqueue :
    (r : Replayed) (pq : List Task) (tr : Tracker) (dlq limbo : List Task) (u : Task)
    → Agrees r pq tr dlq limbo
    → IsFresh r dlq u.id
    → Agrees (apply_entry r (enqueue_entry u)) (Task.push pq u) tr dlq limbo
unfolding apply_entry enqueue_entry
Agrees-enqueue r pq tr dlq limbo u a f = record {
  keyed = insert-IsKeyed r.live u.id (as_pending u) a.keyed refl;
  tracked = a.tracked;
  same = λ p. ground (
    arith,
    a.same p,
    count-push pq u p,
    count-insert_new p r.live u.id (as_pending u) f.unlogged,
  );
  letters = a.letters;
  apart = apart-fresh r u dlq a.apart f.unlettered;
}
