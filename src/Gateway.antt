-- ===== src/Gateway.antt =====
-- The single-node server, server/grpc.go: the broker's methods over gRPC. Times on the wire are an
-- argument: the protobuf timestamp of a time, and the time of a timestamp.
pub mod Codes
use distqueue.Base.{
  ℕ, ◌+◌, ◌-◌, ◌^◌, ◌%◌, ◌<◌, ◌≡◌, refl, ap, ◌∙◌, Option, none, some, List, map, if◌then◌else◌, ltb,
  Bytes, arith,
}
use distqueue.Base.Int.{ℤ, pos, negsuc}
use distqueue.Task.{Task, pending}
use distqueue.Wal.{Codec}
use distqueue.Broker
use distqueue.Broker.{
  Broker, Io, Error, empty, unknown_task, closed_error, encode_error, write_error, compact_error,
  sync_error, Result, ok, err,
}
use distqueue.Broker.Control
use distqueue.Broker.Control.{Stats}

-- The number of a residue of 32 bits in two's complement.
abbrev pub signed : ℕ → ℤ
signed r = if ltb r (2 ^ 31) then pos r else negsuc (2 ^ 32 - 1 - r)

-- `int32(x)` of an `int`
unfoldable pub to_int32 : ℤ → ℤ
to_int32 (pos n) = signed (n % 2 ^ 32)
to_int32 (negsuc n) = signed (2 ^ 32 - 1 - n % 2 ^ 32)

-- `queuepb.Task`; `T` are its timestamps.
pub record WireTask (T : Type 0) : Type 0 where
  pub id : Bytes
  pub payload : Bytes
  pub priority : ℤ
  pub retry_count : ℤ
  pub created_at : Option T

pub record Clock (T : Type 0) : Type 0 where
  pub stamp : ℕ → T
  pub time_of : T → ℕ

-- The gRPC codes of the server.
pub data Code : Type 0 where
  invalid_argument not_found unavailable internal : Code

pub data Response (A : Type 0) : Type 0 where
  answer : A → Response A
  status : Code → Response A

-- `toStatus`
unfoldable pub to_status : Error → Code
to_status empty = not_found
to_status unknown_task = not_found
to_status closed_error = unavailable
to_status encode_error = internal
to_status write_error = internal
to_status compact_error = internal
to_status sync_error = internal

-- A result of the broker as a response.
unfoldable pub respond : {A B : Type 0} → (A → B) → Result A → Response B
respond f (ok a) = answer (f a)
respond f (err e) = status (to_status e)

pub record StatsResponse : Type 0 where
  pub pending : ℕ
  pub in_flight : ℕ
  pub dlq : ℕ
  pub acked : ℕ

module _ {T : Type 0} (clock : Clock T) where
  -- `fromProto`
  unfoldable pub from_proto : WireTask T → Task
  from_proto p = record {
    id = p.id;
    payload = p.payload;
    priority = p.priority;
    status = pending;
    retry_count = p.retry_count;
    created_at = elim p.created_at [ none ↦ 0 | some t ↦ clock.time_of t ];
    deadline = 0;
  }

  -- `toProto`
  unfoldable pub to_proto : Task → WireTask T
  to_proto t = record {
    id = t.id;
    payload = t.payload;
    priority = to_int32 t.priority;
    retry_count = to_int32 t.retry_count;
    created_at = some (clock.stamp t.created_at);
  }

  module _ (c : Codec) where
    -- `Enqueue`
    unfoldable pub enqueue : Broker → Option (WireTask T) → Io → Broker × Response Bytes
    enqueue b none io = (b, status invalid_argument)
    enqueue b (some p) io =
        let (b', r) = Broker.enqueue c b (from_proto p) io in (b', respond (λ id. id) r)

    -- `Ack` and `Nack`
    unfoldable pub ack : Broker → Bytes → Io → Broker × Response (Unit {0})
    ack b id io = let (b', r) = Broker.ack c b id io in (b', respond (λ u. u) r)

    unfoldable pub nack : Broker → Bytes → Io → Broker × Response (Unit {0})
    nack b id io = let (b', r) = Broker.nack c b id io in (b', respond (λ u. u) r)

  -- `Dequeue`
  unfoldable pub dequeue : Broker → Io → Broker × Response (WireTask T)
  dequeue b io = let (b', r) = Broker.dequeue b io in (b', respond to_proto r)

  -- `ListDLQ`
  unfoldable pub list_dlq : Broker → List (WireTask T)
  list_dlq b = map to_proto (Control.list_dlq b)

-- `Stats`
unfoldable pub stats : Broker → StatsResponse
stats b =
    let st = Control.stats b in
    record { pending = st.pending; in_flight = st.in_flight; dlq = st.dlq; acked = st.acked }
