-- ===== src/Journal.antt =====
-- The open write-ahead log of broker/wal.go: appending, waiting for an fsync, rewriting. Whether a
-- call of the operating system succeeds is an argument. One call runs at a time.
pub mod Group
use distqueue.Base.{
  ℕ, ◌+◌, Bool, true, false, Option, none, some, List, ◌++◌, leb, if◌then◌else◌, Bytes, length,
  take, max,
}
use distqueue.Task.{Task}
use distqueue.Wal.{Codec, LogEntry, encode_record, encode_entries}

-- `durable` is not a field of the source: it is how many bytes of the file an fsync has covered, so
-- that they survive a crash. `attached` says that the open handle is still the file at the path.
pub record Journal : Type 0 where
  pub disk : Bytes
  pub attached : Bool
  pub entries : ℕ
  pub write_seq : ℕ
  pub synced_seq : ℕ
  pub sync_err : Bool
  pub durable : ℕ

-- How `file.Write` ends: with all bytes written, or with an error behind some of them.
pub data Write : Type 0 where
  written : Write
  cut : ℕ → Write

-- How the file operations of `Rewrite` end: all done, an error before the rename, or an error when
-- the renamed file is opened again.
pub data Swap : Type 0 where
  swapped refused lost_handle : Swap

-- `OpenWAL`
unfoldable pub open_journal : Bytes → Journal
open_journal disk = record {
  disk = disk;
  attached = true;
  entries = 0;
  write_seq = 0;
  synced_seq = 0;
  sync_err = false;
  durable = length disk;
}

-- Bytes that reach the handle are in the file at the path only while that is the same file.
abbrev pub extend : Journal → Bytes → Journal
extend w bs = if w.attached then record w { disk = w.disk ++ bs } else w

-- `appendNoSync`
unfoldable pub append_no_sync : Journal → ℕ → Bytes → Write → Journal × Option ℕ
append_no_sync w op payload written = (
  record (extend w (encode_record op payload)) {
    entries = w.entries + 1;
    write_seq = w.write_seq + 1;
  },
  some (w.write_seq + 1),
)
append_no_sync w op payload (cut n) = (extend w (take n (encode_record op payload)), none)

-- `WaitSync` with no other caller: the caller leads the sync, which covers all that is written.
unfoldable pub wait_sync : Journal → ℕ → Bool → Journal × Bool
wait_sync w seq synced =
    if w.sync_err
    then (w, false)
    else if leb seq w.synced_seq
    then (w, true)
    else if synced
    then (record w { synced_seq = max w.write_seq w.synced_seq; durable = length w.disk }, true)
    else (record w { sync_err = true }, false)

-- `Rewrite`
unfoldable pub rewrite : Codec → Journal → List LogEntry → Swap → Journal × Bool
rewrite c w es swap = elim (encode_entries c es) [
  | none ↦ (w, false)
  | some b ↦ elim swap [
    | refused ↦ (w, false)
    | lost_handle ↦ (record w { disk = b; durable = length b; attached = false }, false)
    | swapped ↦ (
      record w {
        disk = b;
        durable = length b;
        attached = true;
        entries = 0;
        synced_seq = w.write_seq;
      },
      true,
    )
  ]
]

-- `AppendTask` and `AppendID`: whether they return no error.
unfoldable pub append_and_wait : Journal × Option ℕ → Bool → Journal × Bool
append_and_wait (w, none) synced = (w, false)
append_and_wait (w, some n) synced = wait_sync w n synced

unfoldable pub append_task : Codec → Journal → ℕ → Task → Write → Bool → Journal × Bool
append_task c w op t write synced = elim (c.encode_task t) [
  | none ↦ (w, false)
  | some payload ↦ append_and_wait (append_no_sync w op payload write) synced
]

unfoldable pub append_id : Journal → ℕ → Bytes → Write → Bool → Journal × Bool
append_id w op id write synced = append_and_wait (append_no_sync w op id write) synced
