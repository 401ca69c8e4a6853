-- ===== src/Worker.antt =====
-- A worker, worker/worker.go. What the broker, the handler and the clock answer in one round of the
-- loop is an argument of the round.
pub mod Rounds
use distqueue.Base.{
  ℕ, ◌+◌, ◌*◌, ◌/◌, ◌^◌, Bool, true, false, not, List, [], ◌∷◌, ◌++◌, if◌then◌else◌, Bytes, min,
}
use distqueue.Base.Int.{ℤ, pos, leb_ℤ, pos_part}

-- The config as the caller gives it; times are in nanoseconds.
pub record Config : Type 0 where
  pub concurrency : ℤ
  pub min_backoff : ℤ
  pub max_backoff : ℤ

-- The config of a worker: all are positive.
pub record Settings : Type 0 where
  pub concurrency : ℕ
  pub min_backoff : ℕ
  pub max_backoff : ℕ

-- A field, or its default where it is not positive.
abbrev pub or_default : ℤ → ℕ → ℕ
or_default v d = if leb_ℤ v (pos 0) then d else pos_part v

-- `New`
unfoldable pub new : Config → Settings
new cfg = record {
  concurrency = or_default cfg.concurrency 1;
  min_backoff = or_default cfg.min_backoff (50 * 10 ^ 6);
  max_backoff = or_default cfg.max_backoff (5 * 10 ^ 9);
}

-- What the handler does.
pub data Handled : Type 0 where
  finishes fails panics : Handled

-- A round of `loop`: the context is done at its start; or the broker refuses, with `NotFound` or
-- another error, the context is done then or not, a random number, and the context is done in the
-- sleep or not; or there is a task, and the broker answers the ack or nack or not.
pub data Round : Type 0 where
  cancelled : Round
  refused : (empty done : Bool) (random : ℕ) (woken : Bool) → Round
  received : (id : Bytes) (handled : Handled) (answered : Bool) → Round

pub data Call : Type 0 where
  acks nacks : Bytes → Call

-- The variable of a loop, what it has called, how long it has slept and how much it has logged.
pub record Loop : Type 0 where
  pub backoff : ℕ
  pub calls : List Call
  pub sleeps : List ℕ
  pub logged : ℕ

-- `jitter`, with the random number of `rand.Int63n(d / 2)`
abbrev pub jitter : ℕ → ℕ → ℕ
jitter d random = d / 2 + random

-- `safeHandle`: whether it returns nil, and what it logs.
abbrev pub safe_handle : Handled → Bool × ℕ
safe_handle finishes = (true, 0)
safe_handle fails = (false, 0)
safe_handle panics = (false, 1)

abbrev pub begin : Settings → Loop
begin cfg = record { backoff = cfg.min_backoff; calls = []; sleeps = []; logged = 0 }

-- A round, and whether the loop goes on.
unfoldable pub loop_round : Settings → Loop → Round → Loop × Bool
loop_round cfg w cancelled = (w, false)
loop_round cfg w (refused empty done random woken) =
    if done
    then (w, false)
    else let w' = record w {
      logged = if empty then w.logged else w.logged + 1;
      sleeps = w.sleeps ++ jitter w.backoff random ∷ [];
    } in
      if not woken
      then (w', false)
      else (record w' { backoff = min (w.backoff * 2) cfg.max_backoff }, true)
loop_round cfg w (received id handled answered) =
    let (good, noise) = safe_handle handled in
    (
      record w {
        backoff = cfg.min_backoff;
        calls = w.calls ++ (if good then acks id else nacks id) ∷ [];
        logged = w.logged + noise + (if answered then 0 else 1);
      },
      true,
    )

-- The rounds of `loop`, until one ends it.
unfoldable pub loop : Settings → Loop → List Round → Loop
loop cfg w [] = w
loop cfg w (r ∷ rs) =
    let (w', on) = loop_round cfg w r in let rest = loop cfg w' rs in if on then rest else w'
