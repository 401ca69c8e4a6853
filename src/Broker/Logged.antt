-- ===== src/Broker/Logged.antt =====
-- The log file on disk codes a list of entries that agrees with what the broker holds.
use distqueue.Base.{
  ℕ, ◌+◌, ◌≤◌, ◌≡◌, ◌≢◌, refl, sym, ap, ◌∙◌, Bool, true, false, not, some, List, [], ◌∷◌, ◌++◌, map,
  arith, ◌==◌, leb, Bytes, length, count, All, All-append, Option-cases, Bool-cases, inl, inr,
  append_assoc, append-nil,
}
use distqueue.Base.Maps.{values}
use distqueue.Task.{Task}
use distqueue.Wal.{
  Codec, LogEntry, encode_record, entry_payload, encode_entries, op_enqueue, op_dead,
}
use distqueue.Wal.Replay.{IsWritable, IsCanonical, encode_entries-cons}
use distqueue.Journal.{Journal, Swap, swapped, refused, lost_handle, wait_sync, rewrite}
use distqueue.Broker.{
  Broker, settle, idle, enqueue_entry, id_entry, dead_entries, compact_entries, compact,
  maybe_compact,
}
use distqueue.Broker.Recovery.{nothing, apply_entry, apply_entries}
use distqueue.Broker.Agrees.{Agrees, redelivered}
use distqueue.Broker.Compaction.{apply_entries-append, Agrees-compact}

wait_sync-disk :
    (w : Journal) (seq : ℕ) (synced : Bool)
    → ((wait_sync w seq synced).0.disk ≡ w.disk)
      × ((wait_sync w seq synced).0.attached ≡ w.attached)
unfolding wait_sync
wait_sync-disk w seq synced = ground arith

module _ (c : Codec) where
  abbrev pub is_large : Task → Bool
  is_large t = not (leb (length t.id + length t.payload) c.room)

  abbrev pub IsSmall : Task → Type 0
  IsSmall t = length t.id + length t.payload ≤ c.room

  pub enqueue_entry-IsWritable : (t : Task) → IsSmall t → IsWritable c (enqueue_entry t)
  unfolding enqueue_entry entry_payload IsCanonical
  enqueue_entry-IsWritable t h =
      let (b, e, le) = c.encode-fits t h in
      record { payload = b; coded = e; capped = le; canonical = (t, refl, refl) }

  pub id_entry-coded :
      (op : ℕ) (id : Bytes)
      → (op == op_enqueue) ≡ false
      → (entry_payload c (id_entry op id) ≡ some id) × IsCanonical (id_entry op id)
  unfolding id_entry entry_payload IsCanonical
  id_entry-coded op id e = (ground arith, rw e refl)

  pub id_entry-IsWritable :
      (op : ℕ) (id : Bytes)
      → (op == op_enqueue) ≡ false
      → length id ≤ c.room
      → IsWritable c (id_entry op id)
  id_entry-IsWritable op id e h =
      let (coded, canonical) = id_entry-coded op id e in
      record {
        payload = id;
        coded = coded;
        capped = omega (arith, c.room-le);
        canonical = canonical;
      }

  encode_entries-total :
      (es : List LogEntry) → All (IsWritable c) es → (b : Bytes) × (encode_entries c es ≡ some b)
  unfolding encode_entries
  encode_entries-total [] w = ([], refl)
  encode_entries-total (e ∷ es) w =
      let (b, h) = encode_entries-total es w.1 in
      (encode_record e.op w.0.payload ++ b, ground (arith, w.0.coded))

  encode_entries-append :
      (es : List LogEntry) (e : LogEntry) (b : Bytes) (w : IsWritable c e)
      → encode_entries c es ≡ some b
      → encode_entries c (es ++ e ∷ []) ≡ some (b ++ encode_record e.op w.payload)
  unfolding encode_entries
  encode_entries-append [] e b w h =
      ground (arith, w.coded, append-nil (encode_record e.op w.payload))
  encode_entries-append (x ∷ es) e b w h = elim (Option-cases (entry_payload c x)) [
    | inl bad ↦ ground arith
    | inr (payload, coded) ↦
        let (b', rest, whole) = encode_entries-cons c x es payload b coded h in
        ground (
          arith,
          encode_entries-append es e b' w rest,
          append_assoc (encode_record x.op payload) b' (encode_record e.op w.payload),
        )
  ]

  -- What a broker's methods keep true of its log.
  pub record Logged (b : Broker) (limbo : List Task) : Type 0 where
    pub log : List LogEntry
    pub written : All (IsWritable c) log
    pub coded : encode_entries c log ≡ some b.wal.disk
    pub attached : b.wal.attached ≡ true
    pub agrees : Agrees (apply_entries nothing log) b.pq b.tracker b.dlq limbo
    pub small : count is_large (values (apply_entries nothing log).live) ≡ 0
    pub small_letters : All IsSmall b.dlq

  -- An entry written behind the log, with the state that it leads to.
  pub Logged-append :
      (b b' : Broker) (limbo limbo' : List Task) (e : LogEntry) (w : IsWritable c e)
      (l : Logged b limbo)
      → b'.wal.disk ≡ b.wal.disk ++ encode_record e.op w.payload
      → b'.wal.attached ≡ true
      → Agrees (apply_entry (apply_entries nothing l.log) e) b'.pq b'.tracker b'.dlq limbo'
      → count is_large (values (apply_entry (apply_entries nothing l.log) e).live) ≡ 0
      → All IsSmall b'.dlq
      → Logged b' limbo'
  unfolding apply_entries
  Logged-append b b' limbo limbo' e w l disk attached agrees small small_letters =
      let same = apply_entries-append nothing l.log (e ∷ []) in
      record {
        log = l.log ++ e ∷ [];
        written = All-append (IsWritable c) l.log (e ∷ []) l.written (w, tt);
        coded = encode_entries-append l.log e b.wal.disk w l.coded ∙ ap some (sym disk);
        attached = attached;
        agrees = rw same agrees;
        small = rw same small;
        small_letters = small_letters;
      }

  IsSmall-of_count : (ts : List Task) → redelivered is_large ts ≡ 0 → All IsSmall ts
  IsSmall-of_count [] h = tt
  IsSmall-of_count (t ∷ ts) h = (ground arith, IsSmall-of_count ts (ground arith))

  All-enqueue_entry : (ts : List Task) → All IsSmall ts → All (IsWritable c) (map enqueue_entry ts)
  All-enqueue_entry [] h = tt
  All-enqueue_entry (t ∷ ts) h = (enqueue_entry-IsWritable t h.0, All-enqueue_entry ts h.1)

  All-dead_entries : (ts : List Task) → All IsSmall ts → All (IsWritable c) (dead_entries ts)
  unfolding dead_entries
  All-dead_entries [] h = tt
  All-dead_entries (t ∷ ts) h = (
    enqueue_entry-IsWritable t h.0,
    (id_entry-IsWritable op_dead t.id refl (omega (arith, h.0)), All-dead_entries ts h.1),
  )

  compact_entries-IsWritable : (b : Broker) → Logged b [] → All (IsWritable c) (compact_entries b)
  unfolding compact_entries
  compact_entries-IsWritable b l =
      let held = l.agrees.same is_large in
      All-append (IsWritable c) (map enqueue_entry b.pq) _
        (All-enqueue_entry b.pq (IsSmall-of_count b.pq (omega (arith, held, l.small))))
        (All-append (IsWritable c) (map enqueue_entry (values b.tracker)) _
          (All-enqueue_entry (values b.tracker)
            (IsSmall-of_count (values b.tracker) (omega (arith, held, l.small))))
          (All-dead_entries b.dlq l.small_letters))

  -- A successful rewrite replaces the log by the compact one.
  rewritten-Logged :
      (b : Broker) (d : Bytes) (w : Journal)
      → Logged b []
      → encode_entries c (compact_entries b) ≡ some d
      → w.disk ≡ d
      → w.attached ≡ true
      → Logged (record b { wal = w }) []
  rewritten-Logged b d w l e disk attached =
      let agrees = Agrees-compact (apply_entries nothing l.log) b l.agrees in
      record {
        log = compact_entries b;
        written = compact_entries-IsWritable b l;
        coded = e ∙ ap some (sym disk);
        attached = attached;
        agrees = agrees;
        small = omega (arith, agrees.same is_large, l.agrees.same is_large, l.small);
        small_letters = l.small_letters;
      }

  pub compact-Logged :
      (b : Broker) (swap : Swap) → Logged b [] → swap ≢ lost_handle → Logged (compact c b swap).0 []
  unfolding compact rewrite
  compact-Logged b lost_handle l ok = absurd (ok refl)
  compact-Logged b refused l ok =
      let (d, e) = encode_entries-total (compact_entries b) (compact_entries-IsWritable b l) in
      rw (rewrite, e) l
  compact-Logged b swapped l ok =
      let (d, e) = encode_entries-total (compact_entries b) (compact_entries-IsWritable b l) in
      rw (rewrite, e) (rewritten-Logged b d _ l e refl refl)

  -- Compaction keeps the log in agreement, also where it fails before the rename.
  pub maybe_compact-Logged :
      (b : Broker) (swap : Swap)
      → Logged b []
      → swap ≢ lost_handle
      → Logged (maybe_compact c b swap).0 []
  unfolding maybe_compact
  maybe_compact-Logged b swap l ok = elim (Bool-cases (idle b)) [
    | inl skip ↦ rw skip l
    | inr due ↦ rw due (compact-Logged b swap l ok)
  ]

  -- What changes in the log's counters alone changes nothing.
  pub Logged-wal :
      (b : Broker) (w : Journal) (limbo : List Task)
      → Logged b limbo
      → w.disk ≡ b.wal.disk
      → w.attached ≡ true
      → Logged (record b { wal = w }) limbo
  Logged-wal b w limbo l disk attached = record {
    log = l.log;
    written = l.written;
    coded = l.coded ∙ ap some (sym disk);
    attached = attached;
    agrees = l.agrees;
    small = l.small;
    small_letters = l.small_letters;
  }

  -- Waiting for an fsync writes nothing.
  pub settle-Logged :
      {A : Type 0} (b : Broker) (compacted : Bool) (seq : ℕ) (synced : Bool) (a : A)
      (limbo : List Task)
      → Logged b limbo
      → Logged (settle (b, compacted) seq synced a).0 limbo
  unfolding settle
  settle-Logged b false seq synced a limbo l = l
  settle-Logged b true seq synced a limbo l =
      let kept = wait_sync-disk b.wal seq synced in
      Logged-wal b (wait_sync b.wal seq synced).0 limbo l kept.0 (kept.1 ∙ l.attached)
