-- ===== src/Gateway/Codes.antt =====
-- What survives the wire, and when a caller is told that something is not there, server/grpc.go.
use distqueue.Base.{
  ℕ, ◌^◌, ◌<◌, ◌≡◌, ◌↔◌, refl, Bool, true, false, Option, none, some, Bytes, arith, if-intro,
  option-intro,
}
use distqueue.Base.Int.{ℤ, pos, negsuc}
use distqueue.Task
use distqueue.Task.{Task, pending}
use distqueue.Tracker.{remove}
use distqueue.Wal.{Codec, op_ack}
use distqueue.Broker
use distqueue.Broker.{Broker, Io, Result, ok, err, dequeue, settle, settle_requeue}
use distqueue.Journal.{wait_sync, append_no_sync}
use distqueue.Gateway.{
  signed, to_int32, WireTask, Clock, Response, answer, status, not_found, to_status, respond,
  from_proto, to_proto,
}
use distqueue.Gateway

abbrev IsInt32 : ℤ → Type 0
IsInt32 (pos n) = n < 2 ^ 31
IsInt32 (negsuc n) = n < 2 ^ 31

to_int32-lem : (z : ℤ) → IsInt32 z → to_int32 z ≡ z
unfolding to_int32
to_int32-lem (pos n) h = ground (arith, h)
to_int32-lem (negsuc n) h = ground (arith, h)

-- Over the wire a task keeps all but its status and deadline, if its numbers have 32 bits.
pub from_proto-to_proto :
    {T : Type 0} (clock : Clock T) (t : Task)
    → ((n : ℕ) → clock.time_of (clock.stamp n) ≡ n)
    → IsInt32 t.priority
    → IsInt32 t.retry_count
    → from_proto clock (to_proto clock t) ≡ record t { status = pending; deadline = 0 }
unfolding from_proto to_proto
from_proto-to_proto clock t h p r = λ i. record t {
  priority = to_int32-lem t.priority p i;
  retry_count = to_int32-lem t.retry_count r i;
  created_at = h t.created_at i;
  status = pending;
  deadline = 0;
}

-- The call says that there is no such thing exactly if `P` holds.
Says : {A B : Type 0} → (A → B) → Broker × Result A → Type 0 → Type 0
Says f r P = (respond f r.1 ≡ status not_found) ↔ P

says-yes :
    {A B : Type 0} (f : A → B) (r : Broker × Result A) (P : Type 0)
    → P
    → respond f r.1 ≡ status not_found
    → Says f r P
unfolding Says
says-yes f r P p h = (λ _. p, λ _. h)

says-no :
    {A B : Type 0} (f : A → B) (r : Broker × Result A) (P : Type 0)
    → (P → ⊥)
    → (respond f r.1 ≡ status not_found → ⊥)
    → Says f r P
unfolding Says
says-no f r P p h = (λ e. absurd (h e), λ q. absurd (p q))

dequeue-says :
    {T : Type 0} (clock : Clock T) (b : Broker) (io : Io)
    → Says (to_proto clock) (Broker.dequeue b io) ((b.closed ≡ false) × (Task.pop b.pq ≡ none))
unfolding Broker.dequeue respond to_status
dequeue-says clock b io =
    let P = (b.closed ≡ false) × (Task.pop b.pq ≡ none) in
    if-intro (λ (r : Broker × Result Task). Says (to_proto clock) r P) b.closed
      (λ shut. says-no _ _ P (λ p. absurd (cc (p.0, shut))) (λ e. absurd (cc)))
      (λ runs.
        option-intro (λ (r : Broker × Result Task). Says (to_proto clock) r P) (Task.pop b.pq)
          (λ is. says-yes _ _ P (runs, is) refl)
          (λ x is. says-no _ _ P (λ p. absurd (cc (p.1, is))) (λ e. absurd (cc))))

settle-known :
    (x : Broker × Bool) (seq : ℕ) (synced : Bool)
    → respond {B = Unit {0}} (λ u. u) (settle x seq synced tt).1 ≡ status not_found
    → ⊥
unfolding settle respond to_status
settle-known (b, false) seq synced h = absurd (cc)
settle-known (b, true) seq synced h =
    if-intro (λ (r : Result (Unit {0})). respond {B = Unit {0}} (λ u. u) r ≡ status not_found → ⊥)
      (wait_sync b.wal seq synced).1 (λ _ e. absurd (cc)) (λ _ e. absurd (cc)) h

settle_requeue-known :
    (x : Broker × Option (ℕ × Bool)) (synced : Bool)
    → respond {B = Unit {0}} (λ u. u) (settle_requeue x synced).1 ≡ status not_found
    → ⊥
unfolding settle_requeue respond to_status
settle_requeue-known (b, none) synced h = absurd (cc)
settle_requeue-known (b, some (n, compacted)) synced h = settle-known (b, compacted) n synced h

module _ (c : Codec) (b : Broker) (id : Bytes) (io : Io) where
  Unknown : Type 0
  Unknown = (b.closed ≡ false) × (remove b.tracker id ≡ none)

  ack-says : Says {B = Unit {0}} (λ u. u) (Broker.ack c b id io) Unknown
  unfolding Broker.ack respond to_status Unknown
  ack-says =
      if-intro (λ (r : Broker × Result (Unit {0})). Says {B = Unit {0}} (λ u. u) r Unknown) b.closed
        (λ shut. says-no _ _ Unknown (λ p. absurd (cc (p.0, shut))) (λ e. absurd (cc)))
        (λ runs.
          option-intro (λ (r : Broker × Result (Unit {0})). Says {B = Unit {0}} (λ u. u) r Unknown)
            (remove b.tracker id) (λ is. says-yes _ _ Unknown (runs, is) refl)
            (λ x is.
              says-no _ _ Unknown (λ p. absurd (cc (p.1, is)))
                (option-intro
                  (λ (r : Broker × Result (Unit {0})).
                    respond {B = Unit {0}} (λ u. u) r.1 ≡ status not_found → ⊥)
                  (append_no_sync b.wal op_ack id io.write).1 (λ _ e. absurd (cc))
                  (λ n _. settle-known _ n io.synced))))

  nack-says : Says {B = Unit {0}} (λ u. u) (Broker.nack c b id io) Unknown
  unfolding Broker.nack respond to_status Unknown
  nack-says =
      if-intro (λ (r : Broker × Result (Unit {0})). Says {B = Unit {0}} (λ u. u) r Unknown) b.closed
        (λ shut. says-no _ _ Unknown (λ p. absurd (cc (p.0, shut))) (λ e. absurd (cc)))
        (λ runs.
          option-intro (λ (r : Broker × Result (Unit {0})). Says {B = Unit {0}} (λ u. u) r Unknown)
            (remove b.tracker id) (λ is. says-yes _ _ Unknown (runs, is) refl)
            (λ x is.
              says-no _ _ Unknown (λ p. absurd (cc (p.1, is))) (settle_requeue-known _ io.synced)))

-- The handler of `Dequeue` answers NotFound exactly if the broker is open and its queue is empty,
-- and the handlers of `Ack` and `Nack` exactly if the broker is open and does not track the task:
-- no failed write, compaction or sync is reported so.
pub calls-not_found :
    {T : Type 0} (clock : Clock T) (c : Codec) (b : Broker) (id : Bytes) (io : Io)
    → (((Gateway.dequeue clock b io).1 ≡ status not_found)
        ↔ ((b.closed ≡ false) × (Task.pop b.pq ≡ none)))
      × (((Gateway.ack clock c b id io).1 ≡ status not_found)
          ↔ ((b.closed ≡ false) × (remove b.tracker id ≡ none)))
      × (((Gateway.nack clock c b id io).1 ≡ status not_found)
          ↔ ((b.closed ≡ false) × (remove b.tracker id ≡ none)))
unfolding Gateway.dequeue Gateway.ack Gateway.nack Says Unknown
calls-not_found clock c b id io = (dequeue-says clock b io, ack-says c b id io, nack-says c b id io)
