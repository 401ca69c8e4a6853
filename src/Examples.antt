-- ===== src/Examples.antt =====
-- Concrete values: a coding of tasks with the properties of gob that the log relies on, and a
-- broker that has just been started on an empty log.
mod Queues
mod Logs
mod Brokers
mod Replicas
mod Rafts
mod Clients
mod Elections
mod Consensus
mod Servers
mod Deliveries
mod Journals
mod Edges
use distqueue.Base.{
  ℕ, zero, suc, ◌+◌, ◌≤◌, ◌≡◌, refl, sym, ap, subst, ◌∙◌, Bool, true, false, Option, none, some,
  List, [], ◌∷◌, ◌++◌, arith, Bytes, length, take, drop, length-append, codes,
}
use distqueue.Base.Int.{ℤ, pos, negsuc}
use distqueue.Task.{Task, Status, pending, in_flight, done, dead, no_task}
use distqueue.Wal.{Codec}
use distqueue.Wal.Record.{take-append, drop-append}
use distqueue.Journal.{open_journal, written, refused}
use distqueue.Broker.{Broker, Io}

abbrev pub sign : ℤ → ℕ
sign (pos n) = 0
sign (negsuc n) = 1

abbrev pub size : ℤ → ℕ
size (pos n) = n
size (negsuc n) = n

abbrev signed : ℕ → ℕ → ℤ
signed zero n = pos n
signed (suc _) n = negsuc n

abbrev pub status_code : Status → ℕ
status_code pending = 0
status_code in_flight = 1
status_code done = 2
status_code dead = 3

abbrev status_of : ℕ → Status
status_of zero = pending
status_of (suc zero) = in_flight
status_of (suc (suc zero)) = done
status_of (suc (suc (suc _))) = dead

signed-sign : (z : ℤ) → signed (sign z) (size z) ≡ z
signed-sign (pos n) = refl
signed-sign (negsuc n) = refl

status_of-status_code : (s : Status) → status_of (status_code s) ≡ s
status_of-status_code pending = refl
status_of-status_code in_flight = refl
status_of-status_code done = refl
status_of-status_code dead = refl

abbrev pub flat : Task → Bytes
flat t =
    length t.id
    ∷ sign t.priority
    ∷ size t.priority
    ∷ status_code t.status
    ∷ sign t.retry_count
    ∷ size t.retry_count
    ∷ t.created_at
    ∷ t.deadline
    ∷ (t.id ++ t.payload)

abbrev unflat : Bytes → Option Task
unflat (k ∷ ps ∷ pn ∷ st ∷ rs ∷ rn ∷ made ∷ limit ∷ rest) = some (record {
  id = take k rest;
  payload = drop k rest;
  priority = signed ps pn;
  status = status_of st;
  retry_count = signed rs rn;
  created_at = made;
  deadline = limit;
})
unflat _ = none

pub unflat-flat : (t : Task) → unflat (flat t) ≡ some t
unflat-flat t = λ i. some (record {
  id = take-append t.id t.payload i;
  payload = drop-append t.id t.payload i;
  priority = signed-sign t.priority i;
  status = status_of-status_code t.status i;
  retry_count = signed-sign t.retry_count i;
  created_at = t.created_at;
  deadline = t.deadline;
})

abbrev pub plain : Codec
plain = record {
  encode_task = λ t. some (flat t);
  decode_task = unflat;
  room = 1000;
  decode-encode =
      λ t b e. subst (λ o. elim o [ none ↦ none | some x ↦ unflat x ] ≡ some t) e (unflat-flat t);
  room-le = omega arith;
  encode-fits = λ t h. (flat t, refl, omega (arith, length-append t.id t.payload));
}

abbrev pub a_task : Task
a_task = record no_task { id = codes "a"; payload = 7 ∷ []; priority = pos 2 }

abbrev pub b_task : Task
b_task = record no_task { id = codes "b"; payload = 8 ∷ 9 ∷ []; priority = pos 1; created_at = 5 }

abbrev pub calm : Io
calm = record { now = 100; uuid = codes "u"; write = written; synced = true; swap = refused }

abbrev pub fresh : Broker
fresh = record {
  pq = [];
  tracker = [];
  dlq = [];
  wal = open_journal [];
  cfg = record { max_retries = pos 3; task_timeout = pos 30; compact_every = pos 0 };
  acked = 0;
  nacked = 0;
  closed = false;
}
