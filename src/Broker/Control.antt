-- ===== src/Broker/Control.antt =====
-- The broker's other methods: tuning, statistics, the list of dead letters, closing.
use distqueue.Base.{ℕ, true, List, if◌then◌else◌, length}
use distqueue.Base.Int.{ℤ, pos, ltb_ℤ}
use distqueue.Task.{Task}
use distqueue.Broker.{Broker}

-- `ApplyTuning`
unfoldable pub apply_tuning : Broker → ℤ → ℤ → Broker
apply_tuning b task_timeout max_retries = record b {
  cfg = record b.cfg {
    task_timeout = if ltb_ℤ (pos 0) task_timeout then task_timeout else b.cfg.task_timeout;
    max_retries = if ltb_ℤ (pos 0) max_retries then max_retries else b.cfg.max_retries;
  };
}

pub record Stats : Type 0 where
  pub pending : ℕ
  pub in_flight : ℕ
  pub dlq : ℕ
  pub acked : ℕ
  pub nacked : ℕ

-- `Stats`
unfoldable pub stats : Broker → Stats
stats b = record {
  pending = length b.pq;
  in_flight = length b.tracker;
  dlq = length b.dlq;
  acked = b.acked;
  nacked = b.nacked;
}

-- `ListDLQ`; a copy of a task is the same value.
unfoldable pub list_dlq : Broker → List Task
list_dlq b = b.dlq

-- `Close`. The log's file is closed too, which no later call reaches.
unfoldable pub close : Broker → Broker
close b = if b.closed then b else record b { closed = true }
