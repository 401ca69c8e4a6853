-- ===== src/Broker/Timeouts.antt =====
-- Nacks, and the scan that requeues every expired task, keep the log in agreement.
use distqueue.Base.{
  ℕ, ◌+◌, ◌≡◌, ◌≢◌, ◌⊎◌, inl, inr, refl, ap, ◌∙◌, Bool, true, false, Option, none, some, List, [],
  ◌∷◌, arith, if◌then◌else◌, Bytes, if-intro, option-intro,
}
use distqueue.Base.Int.{pos, leb_ℤ}
use distqueue.Base.Maps.{get, values}
use distqueue.Task.{Task}
use distqueue.Tracker.{Tracker, remove, expired}
use distqueue.Wal.{Codec, op_nack, op_dead}
use distqueue.Journal.{Journal, append_no_sync, written, lost_handle}
use distqueue.Broker.{
  Broker, Config, Io, nack, requeue, settle_requeue, on_timeout, requeue_all, tick, settle,
  maybe_compact, compact, requeued, dying,
}
use distqueue.Broker.Live.{IsKeyed}
use distqueue.Broker.Agrees.{redelivered}
use distqueue.Broker.Logged.{Logged, settle-Logged}
use distqueue.Broker.Preserved.{Keeps}
use distqueue.Broker.Requeued.{removed, requeue-Logged}

-- The broker never compacts by itself: `CompactEvery` is 0.
abbrev pub NeverCompacts : Broker → Type 0
NeverCompacts b = leb_ℤ b.cfg.compact_every (pos 0) ≡ true

-- A method leaves the configuration alone, and the broker open.
abbrev Same : Broker → Broker → Type 0
Same b b' = (b'.cfg ≡ b.cfg) × (b'.closed ≡ b.closed)

requeued-Same : (b : Broker) (t : Task) (w : Journal) → Same b (requeued b t w)
unfolding requeued
requeued-Same b t w = ground arith

settle-Same :
    (b : Broker) (compacted : Bool) (n : ℕ) (synced : Bool)
    → Same b (settle (b, compacted) n synced tt).0
unfolding settle
settle-Same b false n synced = (refl, refl)
settle-Same b true n synced = (refl, refl)

settle_requeue-Same :
    (r : Broker × Option (ℕ × Bool)) (synced : Bool) → Same r.0 (settle_requeue r synced).0
unfolding settle_requeue
settle_requeue-Same (b, none) synced = (refl, refl)
settle_requeue-Same (b, some (n, compacted)) synced = settle-Same b compacted n synced

module _ (c : Codec) where
  settle_requeue-Logged :
      (r : Broker × Option (ℕ × Bool)) (synced : Bool) (limbo : List Task)
      → Logged c r.0 limbo
      → Logged c (settle_requeue r synced).0 limbo
  unfolding settle_requeue
  settle_requeue-Logged (b, none) synced limbo l = l
  settle_requeue-Logged (b, some (n, compacted)) synced limbo l =
      settle-Logged c b compacted n synced tt limbo l

  -- `Nack` of any id keeps the agreement of the log file with the broker, whether the task is
  -- queued again or dead-lettered, where the write of the record succeeds, and a compaction does
  -- not lose the file handle.
  pub nack-Logged :
      (b : Broker) (id : Bytes) (io : Io)
      → Logged c b []
      → io.write ≡ written
      → io.swap ≢ lost_handle
      → Logged c (nack c b id io).0 []
  unfolding nack
  nack-Logged b id io l fine ok =
      if-intro (Keeps c) b.closed (λ _. l)
        λ _.
          option-intro (Keeps c) (remove b.tracker id) (λ _. l)
            λ (t, rest) taken.
              settle_requeue-Logged (requeue c (record b { tracker = rest }) t io) io.synced [] (
                requeue-Logged c (record b { tracker = rest }) t [] io
                  (removed c b id t rest [] l taken) fine ok (inl refl))

  maybe_compact-Same : (b : Broker) (io : Io) → Same b (maybe_compact c b io.swap).0
  unfolding maybe_compact compact
  maybe_compact-Same b io = ground arith

  requeue-Same : (b : Broker) (t : Task) (io : Io) → Same b (requeue c b t io).0
  unfolding requeue
  requeue-Same b t io =
      let (w, seq) = append_no_sync b.wal (if dying b t then op_dead else op_nack) t.id io.write in
      ground (arith, maybe_compact-Same (requeued b t w) io, requeued-Same b t w)

  on_timeout-Same : (b : Broker) (t : Task) (io : Io) → Same b (on_timeout c b t io)
  unfolding on_timeout
  on_timeout-Same b t io =
      if-intro (Same b) b.closed (λ _. (refl, refl))
        λ _.
          let (cfg, closed) = settle_requeue-Same (requeue c b t io) io.synced in
          let (cfg', closed') = requeue-Same b t io in (cfg ∙ cfg', closed ∙ closed')

  on_timeout-Logged :
      (b : Broker) (t : Task) (limbo : List Task) (io : Io)
      → Logged c b (t ∷ limbo)
      → b.closed ≡ false
      → io.write ≡ written
      → io.swap ≢ lost_handle
      → (limbo ≡ []) ⊎ NeverCompacts b
      → Logged c (on_timeout c b t io) limbo
  unfolding on_timeout
  on_timeout-Logged b t limbo io l running fine ok may =
      if-intro (λ b'. Logged c b' limbo) b.closed (λ shut. absurd (cc))
        λ _.
          settle_requeue-Logged (requeue c b t io) io.synced limbo
            (requeue-Logged c b t limbo io l fine ok may)

  -- Requeueing the tasks in limbo one after the other; where there are several, the broker must not
  -- compact in between.
  requeue_all-Logged :
      (b : Broker) (ts : List Task) (io : Io)
      → Logged c b ts
      → b.closed ≡ false
      → io.write ≡ written
      → io.swap ≢ lost_handle
      → NeverCompacts b
      → Logged c (requeue_all c b ts io) []
  unfolding requeue_all
  requeue_all-Logged b [] io l running fine ok never = l
  requeue_all-Logged b (t ∷ ts) io l running fine ok never =
      let (cfg, closed) = on_timeout-Same b t io in
      requeue_all-Logged (on_timeout c b t io) ts io
        (on_timeout-Logged b t ts io l running fine ok (inr never)) (closed ∙ running) fine ok
        (ap (λ (g : Config). leb_ℤ g.compact_every (pos 0)) cfg ∙ never)

-- The tracker's map, split by the scan, holds the same tasks.
expired-same :
    (tr : Tracker) (now : ℕ) (p : Task → Bool)
    → redelivered p (values (expired tr now).1) + redelivered p (expired tr now).0
      ≡ redelivered p (values tr)
unfolding expired values
expired-same [] now p = refl
expired-same ((k, t) ∷ tr) now p = ground (arith, expired-same tr now p)

get-expired :
    (tr : Tracker) (now : ℕ) (k : Bytes) → get tr k ≡ none → get (expired tr now).1 k ≡ none
unfolding expired get
get-expired [] now k e = refl
get-expired ((j, t) ∷ tr) now k e = ground (arith, get-expired tr now k)

expired-IsKeyed : (tr : Tracker) (now : ℕ) → IsKeyed tr → IsKeyed (expired tr now).1
unfolding expired IsKeyed
expired-IsKeyed [] now h = tt
expired-IsKeyed ((j, t) ∷ tr) now h =
    ground (arith, expired-IsKeyed tr now h.2, get-expired tr now j h.1)

module _ (c : Codec) where
  scanned :
      (b : Broker) (now : ℕ)
      → Logged c b []
      → Logged c (record b { tracker = (expired b.tracker now).1 }) (expired b.tracker now).0
  scanned b now l = record {
    log = l.log;
    written = l.written;
    coded = l.coded;
    attached = l.attached;
    agrees = record {
      keyed = l.agrees.keyed;
      tracked = expired-IsKeyed b.tracker now l.agrees.tracked;
      same = λ p. omega (arith, l.agrees.same p, expired-same b.tracker now p);
      letters = l.agrees.letters;
      apart = l.agrees.apart;
    };
    small = l.small;
    small_letters = l.small_letters;
  }

  -- A scan that requeues all expired tasks keeps the agreement of the log file with the broker, in
  -- an open broker that never compacts by itself, where the writes succeed, and a rewrite of the
  -- log would not lose the file handle.
  pub tick-Logged :
      (b : Broker) (io : Io)
      → Logged c b []
      → b.closed ≡ false
      → io.write ≡ written
      → io.swap ≢ lost_handle
      → NeverCompacts b
      → Logged c (tick c b io) []
  unfolding tick
  tick-Logged b io l running fine ok never =
      requeue_all-Logged c _ (expired b.tracker io.now).0 io (scanned b io.now l) running fine ok
        never
