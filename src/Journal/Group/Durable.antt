-- ===== src/Journal/Group/Durable.antt =====
-- What a sync of the group commit covers, `WaitSync` of broker/wal.go.
use distqueue.Base.{
  ℕ, ◌+◌, ◌≤◌, ◌≡◌, ◌≢◌, refl, subst, Bool, true, false, none, some, List, ◌++◌, arith,
  if◌then◌else◌, ite, ℕ_discrete, Bytes, length, length-append, take, if-intro, option-intro,
}
use distqueue.Wal.{Codec, LogEntry, encode_record, encode_entries}
use distqueue.Journal.{
  Journal, Write, written, cut, Swap, swapped, refused, lost_handle, open_journal, extend,
  append_no_sync, rewrite,
}
use distqueue.Journal.Group.{
  Cover, Group, open_group, synced, wait_turn, lead, read_cover, end_sync, append, rewrite_group,
  Step, leads_sync, reads, ends_sync, appends, rewrites, Run, opened, next,
}

-- Every record that a sync covers lies in the bytes that survive a crash.
pub record IsDurable (g : Group) : Type 0 where
  pub attached : g.wal.attached ≡ true
  pub inside : (n : ℕ) → n ≤ g.wal.write_seq → g.ends n ≤ length g.wal.disk
  pub kept : (n : ℕ) → n ≤ g.wal.synced_seq → g.ends n ≤ g.wal.durable
  pub behind : g.wal.synced_seq ≤ g.wal.write_seq
  pub on_disk : g.wal.durable ≤ length g.wal.disk
  pub idle : g.syncing ≡ false → g.cover ≡ none
  pub covering :
      (c : Cover)
      → g.cover ≡ some c
      → (c.covered ≤ g.wal.write_seq)
        × (c.bytes ≤ length g.wal.disk)
        × ((n : ℕ) → n ≤ c.covered → g.ends n ≤ c.bytes)

extend_lem :
    (w : Journal) (bs : Bytes) → w.attached ≡ true → extend w bs ≡ record w { disk = w.disk ++ bs }
extend_lem w bs h =
    if-intro (λ (x : Journal). x ≡ record w { disk = w.disk ++ bs }) w.attached (λ _. refl)
      (λ e. absurd (cc))

-- The file grows behind all that a sync covers.
grown-IsDurable :
    (g : Group) (bs : Bytes)
    → IsDurable g
    → IsDurable (record g { wal = record g.wal { disk = g.wal.disk ++ bs } })
grown-IsDurable g bs d =
    let more = length-append g.wal.disk bs in
    record {
      attached = d.attached;
      inside = λ n h. omega (arith, more, d.inside n h);
      kept = d.kept;
      behind = d.behind;
      on_disk = omega (arith, more, d.on_disk);
      idle = d.idle;
      covering = λ c h. let (seq, bytes, all) = d.covering c h in (seq, omega (arith, more), all);
    }

numbered-IsDurable :
    (g : Group)
    → IsDurable g
    → IsDurable (record g {
      wal = record g.wal { entries = g.wal.entries + 1; write_seq = g.wal.write_seq + 1 };
      ends = λ k. ite (ℕ_discrete (g.wal.write_seq + 1) k) (length g.wal.disk) (g.ends k);
    })
numbered-IsDurable g d = record {
  attached = d.attached;
  inside = λ n h. ground (arith, d.inside n);
  kept = λ n h. ground (arith, d.kept n, d.behind);
  behind = omega (arith, d.behind);
  on_disk = d.on_disk;
  idle = d.idle;
  covering = λ c h.
      let (seq, bytes, all) = d.covering c h in (omega arith, bytes, λ n le. ground (arith, all n));
}

append-IsDurable :
    (g : Group) (op : ℕ) (payload : Bytes) (write : Write)
    → IsDurable g
    → IsDurable (append g op payload write)
unfolding append append_no_sync
append-IsDurable g op payload written d =
    let rec = encode_record op payload in
    rw (extend_lem g.wal rec d.attached) (numbered-IsDurable _ (grown-IsDurable g rec d))
append-IsDurable g op payload (cut n) d =
    let rec = take n (encode_record op payload) in
    rw (extend_lem g.wal rec d.attached) (grown-IsDurable g rec d)

end_sync-IsDurable :
    (g : Group) (c : Cover) (fine : Bool)
    → g.cover ≡ some c
    → IsDurable g
    → IsDurable (end_sync g c fine)
unfolding end_sync
end_sync-IsDurable g c true h d =
    let (seq, bytes, all) = d.covering c h in
    record {
      attached = d.attached;
      inside = d.inside;
      kept = λ n le. grind (arith, all n, d.kept n);
      behind = ground (arith, d.behind);
      on_disk = ground (arith, d.on_disk);
      idle = λ _. refl;
      covering = λ c' e. absurd (cc);
    }
end_sync-IsDurable g c false h d = record {
  attached = d.attached;
  inside = d.inside;
  kept = d.kept;
  behind = d.behind;
  on_disk = d.on_disk;
  idle = λ _. refl;
  covering = λ c' e. absurd (cc);
}

rewrite_group-IsDurable :
    (c : Codec) (g : Group) (es : List LogEntry) (swap : Swap)
    → g.syncing ≡ false
    → swap ≢ lost_handle
    → IsDurable g
    → IsDurable (rewrite_group c g es swap)
unfolding rewrite_group rewrite
rewrite_group-IsDurable c g es refused still fine d =
    option-intro
      (λ (r : Journal × Bool).
        IsDurable (record g { wal = r.0; ends = if r.1 then (λ k. 0) else g.ends }))
      (encode_entries c es) (λ _. d) (λ b coded. d)
rewrite_group-IsDurable c g es lost_handle still fine d = absurd (fine refl)
rewrite_group-IsDurable c g es swapped still fine d =
    option-intro
      (λ (r : Journal × Bool).
        IsDurable (record g { wal = r.0; ends = if r.1 then (λ k. 0) else g.ends }))
      (encode_entries c es) (λ _. d)
      (λ b coded. record {
        attached = refl;
        inside = λ n h. omega arith;
        kept = λ n h. omega arith;
        behind = omega arith;
        on_disk = omega arith;
        idle = d.idle;
        covering = λ c' e. absurd (let none_left = d.idle still in cc);
      })

Step-IsDurable : {c : Codec} {g h : Group} → Step c g h → IsDurable g → IsDurable h
unfolding lead read_cover
Step-IsDurable (leads_sync g still) d = record {
  attached = d.attached;
  inside = d.inside;
  kept = d.kept;
  behind = d.behind;
  on_disk = d.on_disk;
  idle = λ e. absurd (cc);
  covering = d.covering;
}
Step-IsDurable (reads g busy unread) d = record {
  attached = d.attached;
  inside = d.inside;
  kept = d.kept;
  behind = d.behind;
  on_disk = d.on_disk;
  idle = λ e. absurd (cc);
  covering = λ c e.
      let now : Cover = record { covered = g.wal.write_seq; bytes = length g.wal.disk } in
      let same : now ≡ c = cc in
      subst
        (λ (x : Cover).
          (x.covered ≤ g.wal.write_seq)
          × (x.bytes ≤ length g.wal.disk)
          × ((n : ℕ) → n ≤ x.covered → g.ends n ≤ x.bytes))
        same (omega arith, omega arith, d.inside);
}
Step-IsDurable (ends_sync g cov fine e) d = end_sync-IsDurable g cov fine e d
Step-IsDurable (appends g op payload write) d = append-IsDurable g op payload write d
Step-IsDurable {c = c} (rewrites g es swap still fine) d =
    rewrite_group-IsDurable c g es swap still fine d

pub Run-IsDurable : {c : Codec} {disk : Bytes} {g : Group} → Run c disk g → IsDurable g
unfolding open_group open_journal
Run-IsDurable opened = record {
  attached = refl;
  inside = λ n h. omega arith;
  kept = λ n h. omega arith;
  behind = omega arith;
  on_disk = omega arith;
  idle = λ _. refl;
  covering = λ c e. absurd (cc);
}
Run-IsDurable (next r s) = Step-IsDurable s (Run-IsDurable r)

synced_seq_lem : (g : Group) (seq : ℕ) → wait_turn g seq ≡ synced → seq ≤ g.wal.synced_seq
unfolding wait_turn
synced_seq_lem g seq h = ground arith

-- In any interleaving of appends, syncs and rewrites that keep a file handle, from an opened log:
-- when a turn of `WaitSync` returns nil for a record, the record ends within the bytes that a crash
-- leaves, or was taken up by a rewrite, and those bytes are of the file.
pub wait_turn-durable :
    (c : Codec) (disk : Bytes) (g : Group) (seq : ℕ)
    → Run c disk g
    → wait_turn g seq ≡ synced
    → (g.ends seq ≤ g.wal.durable) × (g.wal.durable ≤ length g.wal.disk)
wait_turn-durable c disk g seq r h =
    let d = Run-IsDurable r in (d.kept seq (synced_seq_lem g seq h), d.on_disk)
