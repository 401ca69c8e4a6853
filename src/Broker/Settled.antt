-- ===== src/Broker/Settled.antt =====
-- How the methods of broker/broker.go end that wait for their record: with an error, or with the log
-- file on disk.
use distqueue.Base.{
  ℕ, ◌<◌, ◌≡◌, ◌⊎◌, inl, inr, refl, ap, Bool, true, false, List, arith, leb, Bytes, length,
  if◌then◌else◌, if-intro, option-intro,
}
use distqueue.Wal.{Codec, LogEntry, encode_entries}
use distqueue.Journal.{Journal, Swap, swapped, refused, lost_handle, wait_sync, rewrite}
use distqueue.Broker.{
  Broker, Io, Result, ok, settle, idle, compact, maybe_compact, compact_entries, compact, err,
  sync_error,
}

-- The record of that number is covered by an fsync: the file is, or the number is still to come.
abbrev IsCovered : ℕ → Journal → Type 0
IsCovered n w = (w.durable ≡ length w.disk) ⊎ (w.synced_seq < n)

wait_sync-durable :
    (w : Journal) (n : ℕ) (synced : Bool)
    → IsCovered n w
    → (wait_sync w n synced).1 ≡ true
    → (wait_sync w n synced).0.durable ≡ length (wait_sync w n synced).0.disk
unfolding wait_sync
wait_sync-durable w n synced h =
    let Goal : Journal × Bool → Type 0 = λ r. r.1 ≡ true → r.0.durable ≡ length r.0.disk in
    if-intro Goal w.sync_err (λ _ e. absurd (cc (e)))
      (λ _.
        if-intro Goal (leb n w.synced_seq)
          (λ old _. elim h [ inl covered ↦ covered | inr new ↦ absurd (ground (arith, old, new)) ])
          (λ _. if-intro Goal synced (λ _ _. refl) (λ _ e. absurd (cc (e)))))

-- What has happened where a method that ends in that state and with that result has no error.
pub record IsDone {A : Type 0} (b : Broker) (a : A) (r : Broker × Result A) (x : A) : Type 0 where
  pub result : x ≡ a
  pub same : r.0 ≡ record b { wal = r.0.wal }
  pub durable : r.0.wal.durable ≡ length r.0.wal.disk

module _ (c : Codec) where
  rewrite-IsCovered :
      (w : Journal) (es : List LogEntry) (swap : Swap) (n : ℕ)
      → (rewrite c w es swap).1 ≡ true
      → IsCovered n (rewrite c w es swap).0
  unfolding rewrite
  rewrite-IsCovered w es swap n =
      option-intro (λ (r : Journal × Bool). r.1 ≡ true → IsCovered n r.0) (encode_entries c es)
        (λ _ e. absurd (cc (e))) (λ b _. ended b swap)
    where
      ended :
          (b : Bytes) (swap : Swap)
          → let r : Journal × Bool = elim swap [
            | refused ↦ (w, false)
            | lost_handle ↦ (record w { disk = b; durable = length b; attached = false }, false)
            | swapped ↦ (
              record w {
                disk = b;
                durable = length b;
                attached = true;
                entries = 0;
                synced_seq = w.write_seq;
              },
              true,
            )
          ] in
            r.1 ≡ true → IsCovered n r.0
      ended b swapped e = inl refl
      ended b refused e = absurd (cc (e))
      ended b lost_handle e = absurd (cc (e))

  settle-IsDone :
      {A : Type 0} (b : Broker) (p : Broker × Bool) (n : ℕ) (synced : Bool) (a x : A)
      → p.0 ≡ record b { wal = p.0.wal }
      → (p.1 ≡ true → IsCovered n p.0.wal)
      → (settle p n synced a).1 ≡ ok x
      → IsDone b a (settle p n synced a) x
  unfolding settle
  settle-IsDone b (b', false) n synced a x same h e = absurd (cc (e))
  settle-IsDone {A = A} b (b', true) n synced a x same h e =
      finish (wait_sync b'.wal n synced) (wait_sync-durable b'.wal n synced (h refl)) e
    where
      finish :
          (r : Journal × Bool)
          → (r.1 ≡ true → r.0.durable ≡ length r.0.disk)
          → Path (Result A) (if r.1 then ok a else err sync_error) (ok x)
          → IsDone b a (record b' { wal = r.0 }, if r.1 then ok a else err sync_error) x
      finish (w, true) covered f = record {
        result = cc (f);
        same = ap (λ (y : Broker). record y { wal = w }) same;
        durable = covered refl;
      }
      finish (w, false) covered f = absurd (cc (f))

  pub compacted-IsDone :
      {A : Type 0} (b : Broker) (io : Io) (n : ℕ) (a x : A)
      → b.wal.synced_seq < n
      → let r = settle (maybe_compact c b io.swap) n io.synced a in r.1 ≡ ok x → IsDone b a r x
  unfolding maybe_compact compact
  compacted-IsDone {A = A} b io n a x new =
      if-intro
        (λ (p : Broker × Bool).
          (settle p n io.synced a).1 ≡ ok x → IsDone b a (settle p n io.synced a) x)
        (idle b) (λ _. settle-IsDone b (b, true) n io.synced a x refl (λ _. inr new))
        (λ _.
          settle-IsDone b (record b { wal = (rewrite c b.wal (compact_entries b) io.swap).0 }, _) n
            io.synced a x refl (rewrite-IsCovered b.wal (compact_entries b) io.swap n))
