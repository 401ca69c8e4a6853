-- ===== src/Worker/Rounds.antt =====
-- The back-off and the verdicts of a worker's loop, worker/worker.go.
use distqueue.Base.{
  ℕ, zero, suc, ◌*◌, ◌/◌, ◌^◌, ◌<◌, ◌≤◌, ◌≡◌, sym, ◌∙◌, ap, Bool, true, false, not, List, [], ◌∷◌,
  ◌++◌, min, arith, if-intro, All, All-append, append_assoc, append-nil,
}
use native.Mathlib.Nat.{mul_assoc, pow-suc, pow-succ'}
use distqueue.Worker.{
  Settings, finishes, fails, panics, Round, cancelled, refused, received, Call, acks, nacks, Loop,
  jitter, begin, loop_round, loop,
}

-- A sleep between half the least and the whole of the longest back-off.
abbrev IsNap : Settings → ℕ → Type 0
IsNap cfg d = (cfg.min_backoff / 2 ≤ d) × (d < cfg.max_backoff)

pub record IsBounded (cfg : Settings) (w : Loop) : Type 0 where
  pub low : cfg.min_backoff ≤ w.backoff
  pub high : w.backoff ≤ cfg.max_backoff
  pub naps : All (IsNap cfg) w.sleeps

-- The random number of a round is in the range that was asked for.
abbrev Drawn : Loop → Round → Type 0
Drawn w (refused empty done random woken) = random < w.backoff / 2
Drawn w cancelled = Unit {0}
Drawn w (received id handled answered) = Unit {0}

-- The random numbers are in the range that was asked for: `rand.Int63n(n)` is below `n`.
unfoldable pub IsRandom : Settings → Loop → List Round → Type 0
IsRandom cfg w [] = Unit {0}
IsRandom cfg w (r ∷ rs) = Drawn w r × IsRandom cfg (loop_round cfg w r).0 rs

loop_round-IsBounded :
    (cfg : Settings) (w : Loop) (r : Round)
    → cfg.min_backoff ≤ cfg.max_backoff
    → Drawn w r
    → IsBounded cfg w
    → IsBounded cfg (loop_round cfg w r).0
unfolding loop_round
loop_round-IsBounded cfg w cancelled h d b = b
loop_round-IsBounded cfg w (refused empty done random woken) h d b =
    let naps =
      All-append (IsNap cfg) w.sleeps (jitter w.backoff random ∷ []) b.naps
        ((omega (arith, b.low), omega (arith, b.high, d)), tt) in
    if-intro (λ (x : Loop × Bool). IsBounded cfg x.0) done (λ _. b)
      (λ _.
        if-intro (λ (x : Loop × Bool). IsBounded cfg x.0) (not woken)
          (λ _. record { low = b.low; high = b.high; naps = naps })
          (λ _. record { low = omega (arith, h, b.low); high = omega arith; naps = naps }))
loop_round-IsBounded cfg w (received id handled answered) h d b = record {
  low = omega arith;
  high = h;
  naps = b.naps;
}

loop-IsBounded_from :
    (cfg : Settings) (rs : List Round) (w : Loop)
    → cfg.min_backoff ≤ cfg.max_backoff
    → IsRandom cfg w rs
    → IsBounded cfg w
    → IsBounded cfg (loop cfg w rs)
unfolding loop IsRandom
loop-IsBounded_from cfg [] w h d b = b
loop-IsBounded_from cfg (r ∷ rs) w h d b =
    let now = loop_round-IsBounded cfg w r h d.0 b in
    if-intro (IsBounded cfg) (loop_round cfg w r).1 (λ _. loop-IsBounded_from cfg rs _ h d.1 now)
      (λ _. now)

-- In any rounds of a loop whose least back-off is not above its longest, and whose random numbers
-- are below half the back-off that they were drawn for, the back-off stays between the two, and
-- each sleep takes at least half the least one and less than the longest.
pub loop-IsBounded :
    (cfg : Settings) (rs : List Round)
    → cfg.min_backoff ≤ cfg.max_backoff
    → IsRandom cfg (begin cfg) rs
    → IsBounded cfg (loop cfg (begin cfg) rs)
loop-IsBounded cfg rs h d =
    loop-IsBounded_from cfg rs (begin cfg) h d (record { low = omega arith; high = h; naps = tt })

-- The verdict on each task that the rounds bring, up to the one that ends the loop.
unfoldable pub verdicts : List Round → List Call
verdicts [] = []
verdicts (cancelled ∷ rs) = []
verdicts (refused empty true random woken ∷ rs) = []
verdicts (refused empty false random false ∷ rs) = []
verdicts (refused empty false random true ∷ rs) = verdicts rs
verdicts (received id finishes answered ∷ rs) = acks id ∷ verdicts rs
verdicts (received id fails answered ∷ rs) = nacks id ∷ verdicts rs
verdicts (received id panics answered ∷ rs) = nacks id ∷ verdicts rs

-- The loop of a worker calls the broker back just once for each task that it has received before it
-- ends, in their order: with an ack if the handler returned nil, and with a nack if it failed or
-- panicked.
pub loop-verdicts :
    (cfg : Settings) (rs : List Round) (w : Loop) → (loop cfg w rs).calls ≡ w.calls ++ verdicts rs
unfolding loop loop_round verdicts
loop-verdicts cfg [] w = sym (append-nil w.calls)
loop-verdicts cfg (cancelled ∷ rs) w = sym (append-nil w.calls)
loop-verdicts cfg (refused empty true random woken ∷ rs) w = sym (append-nil w.calls)
loop-verdicts cfg (refused empty false random false ∷ rs) w = sym (append-nil w.calls)
loop-verdicts cfg (refused empty false random true ∷ rs) w = loop-verdicts cfg rs _
loop-verdicts cfg (received id finishes answered ∷ rs) w =
    loop-verdicts cfg rs _ ∙ append_assoc w.calls (acks id ∷ []) (verdicts rs)
loop-verdicts cfg (received id fails answered ∷ rs) w =
    loop-verdicts cfg rs _ ∙ append_assoc w.calls (nacks id ∷ []) (verdicts rs)
loop-verdicts cfg (received id panics answered ∷ rs) w =
    loop-verdicts cfg rs _ ∙ append_assoc w.calls (nacks id ∷ []) (verdicts rs)

-- `k` refusals one after the other.
abbrev refusals : ℕ → List Round
refusals zero = []
refusals (suc k) = refused true false 0 true ∷ refusals k

two_more : (a k : ℕ) → a * 2 * 2 ^ k ≡ a * 2 ^ suc k
two_more a k = mul_assoc a 2 (2 ^ k) ∙ ap (λ x. a * x) (sym (pow-succ' 2 k))

more_two : (a k : ℕ) → a * 2 ^ suc k ≡ a * 2 ^ k * 2
more_two a k = ap (λ x. a * x) (pow-suc 2 k) ∙ sym (mul_assoc a (2 ^ k) 2)

min-double : (a top k : ℕ) → min (min a top * 2 ^ k) top ≡ min (a * 2 ^ k) top
min-double a top zero = omega arith
min-double a top (suc k) = omega (arith, min-double a top k, more_two a k, more_two (min a top) k)

refusals-from :
    (cfg : Settings) (k : ℕ) (w : Loop)
    → w.backoff ≤ cfg.max_backoff
    → (loop cfg w (refusals k)).backoff ≡ min (w.backoff * 2 ^ k) cfg.max_backoff
unfolding loop loop_round
refusals-from cfg zero w h = omega (arith, h)
refusals-from cfg (suc k) w h =
    refusals-from cfg k _ (omega arith)
    ∙ min-double (w.backoff * 2) cfg.max_backoff k
    ∙ ap (λ x. min x cfg.max_backoff) (two_more w.backoff k)

-- Refusals one after the other double the back-off up to its bound.
pub backoff-doubles :
    (cfg : Settings) (k : ℕ)
    → cfg.min_backoff ≤ cfg.max_backoff
    → (loop cfg (begin cfg) (refusals k)).backoff ≡ min (cfg.min_backoff * 2 ^ k) cfg.max_backoff
backoff-doubles cfg k h = refusals-from cfg k (begin cfg) h
