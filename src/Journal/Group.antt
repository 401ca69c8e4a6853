-- ===== src/Journal/Group.antt =====
-- Group commit, `WaitSync` of broker/wal.go: several callers append and wait at once. A lock is held
-- for one step, and the sync itself runs between two steps, while others append.
pub mod Durable
use distqueue.Base.{
  ℕ, ◌+◌, ◌≤◌, ◌≡◌, ◌≢◌, refl, subst, Bool, true, false, Option, none, some, List, ◌++◌, arith, leb,
  if◌then◌else◌, ite, ℕ_discrete, Bytes, length, length-append, max, take, if-intro, option-intro,
}
use distqueue.Wal.{Codec, LogEntry, encode_record, encode_entries}
use distqueue.Journal.{
  Journal, Write, written, cut, Swap, swapped, refused, lost_handle, open_journal, extend,
  append_no_sync, rewrite,
}

-- What the leader has read before it calls Sync: the sequence number that it covers, and the bytes
-- that are in the file by then.
pub record Cover : Type 0 where
  pub covered : ℕ
  pub bytes : ℕ

-- `syncing` is the flag, `cover` what its leader has read. `ends` is no field of the source: where in
-- the file the record of a sequence number ends, or 0 once a rewrite has taken it up.
pub record Group : Type 0 where
  pub wal : Journal
  pub syncing : Bool
  pub cover : Option Cover
  pub ends : ℕ → ℕ

unfoldable pub open_group : Bytes → Group
open_group disk = record { wal = open_journal disk; syncing = false; cover = none; ends = λ n. 0 }

-- How a turn of the loop of `WaitSync` goes: it returns nil or the error, it waits, or it leads.
pub data Turn : Type 0 where
  synced failed waits leads : Turn

unfoldable pub wait_turn : Group → ℕ → Turn
wait_turn g seq =
    if g.wal.sync_err
    then failed
    else if leb seq g.wal.synced_seq
    then synced
    else if g.syncing
    then waits
    else leads

-- The steps of a leader: it sets the flag, reads what there is, and ends with the result of Sync.
unfoldable pub lead : Group → Group
lead g = record g { syncing = true }

unfoldable pub read_cover : Group → Group
read_cover g = record g {
  cover = some (record { covered = g.wal.write_seq; bytes = length g.wal.disk });
}

unfoldable pub end_sync : Group → Cover → Bool → Group
end_sync g c fine =
    if fine
    then record g {
      syncing = false;
      cover = none;
      wal = record g.wal {
        synced_seq = max c.covered g.wal.synced_seq;
        durable = max c.bytes g.wal.durable;
      };
    }
    else record g { syncing = false; cover = none; wal = record g.wal { sync_err = true } }

-- `appendNoSync` by some caller.
unfoldable pub append : Group → ℕ → Bytes → Write → Group
append g op payload write =
    let (w, seq) = append_no_sync g.wal op payload write in
    elim seq [
      | none ↦ record g { wal = w }
      | some n ↦ record g { wal = w; ends = λ k. ite (ℕ_discrete n k) (length w.disk) (g.ends k) }
    ]

-- `Rewrite`, which waits until no sync runs; what it has taken up ends nowhere.
unfoldable pub rewrite_group : Codec → Group → List LogEntry → Swap → Group
rewrite_group c g es swap =
    let (w, done) = rewrite c g.wal es swap in
    record g { wal = w; ends = if done then (λ k. 0) else g.ends }

pub data Step (c : Codec) : Group → Group → Type 0 where
  leads_sync : (g : Group) → g.syncing ≡ false → Step c g (lead g)
  reads : (g : Group) → g.syncing ≡ true → g.cover ≡ none → Step c g (read_cover g)
  ends_sync :
      (g : Group) (cov : Cover) (fine : Bool) → g.cover ≡ some cov → Step c g (end_sync g cov fine)
  appends :
      (g : Group) (op : ℕ) (payload : Bytes) (write : Write) → Step c g (append g op payload write)
  rewrites :
      (g : Group) (es : List LogEntry) (swap : Swap)
      → g.syncing ≡ false
      → swap ≢ lost_handle
      → Step c g (rewrite_group c g es swap)

pub data Run (c : Codec) (disk : Bytes) : Group → Type 0 where
  opened : Run c disk (open_group disk)
  next : {g h : Group} → Run c disk g → Step c g h → Run c disk h
