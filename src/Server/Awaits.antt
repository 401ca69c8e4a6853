-- ===== src/Server/Awaits.antt =====
-- A call that waits for its entry, server/cluster.go, through the turns that leave it alone.
use distqueue.Base.{ℕ, ◌<◌, ◌≡◌, ◌≢◌, none, some, List, [], ◌∷◌, arith, option-intro, All}
use distqueue.Server.{
  Codec, ClusterServer, ApplyMsg, restores, commits, nothing, wake, apply_command, count_applied,
  apply_message, register, time_out, end_finish, scan, stop,
}
use distqueue.Server.Runs.{
  Act, hears, registers, gives_up, proposes, dequeues, finishes, scans, watches, stops, moves,
  World, perform, run, Then, Then-some, Then-map, SameWaits, count_applied-SameWaits,
  propose-SameWaits, dequeue-SameWaits, watch-SameWaits,
}
use distqueue.Server.Wakes.{IsSound}

-- The act has nothing to do with the index.
abbrev pub Leaves : ℕ → Act → Type 0
Leaves index (hears (commits command i term)) = i ≢ index
Leaves index (hears (restores contents)) = Unit {0}
Leaves index (hears nothing) = Unit {0}
Leaves index (registers i) = i ≢ index
Leaves index (gives_up i) = i ≢ index
Leaves index (proposes op) = Unit {0}
Leaves index (dequeues now) = Unit {0}
Leaves index (finishes id) = Unit {0}
Leaves index (scans now) = Unit {0}
Leaves index watches = Unit {0}
Leaves index stops = Unit {0}
Leaves index (moves n) = Unit {0}

-- The call at the channel `ch` waits for the index.
pub record IsAwaited (index ch : ℕ) (s : ClusterServer) : Type 0 where
  pub waits : s.waiters index ≡ some ch
  pub silent : s.channels ch ≡ none
  pub only : (i : ℕ) → s.waiters i ≡ some ch → i ≡ index
  pub made : ch < s.made

module _ (index ch : ℕ) where
  SameWaits-IsAwaited :
      (s s' : ClusterServer) → SameWaits s s' → IsAwaited index ch s → IsAwaited index ch s'
  SameWaits-IsAwaited s s' same w = record {
    waits = cc (same.waiters, w.waits);
    silent = cc (same.channels, w.silent);
    only = λ i h. w.only i (cc (same.waiters, h));
    made = omega (arith, same.made, w.made);
  }

  wake-IsAwaited :
      (s : ClusterServer) (i term : ℕ)
      → i ≢ index
      → IsAwaited index ch s
      → IsAwaited index ch (wake s i term)
  unfolding wake
  wake-IsAwaited s i term other w =
      option-intro (IsAwaited index ch) (s.waiters i) (λ _. w)
        (λ d is. record {
          waits = ground (arith, w.waits);
          silent = ground (arith, w.silent, w.only i);
          only = λ j h. ground (arith, w.only j);
          made = w.made;
        })

  register-IsAwaited :
      (s : ClusterServer) (i : ℕ)
      → i ≢ index
      → IsAwaited index ch s
      → IsAwaited index ch (register s i).0
  unfolding register
  register-IsAwaited s i other w = record {
    waits = ground (arith, w.waits);
    silent = ground (arith, w.silent, w.made);
    only = λ j h. ground (arith, w.only j, w.made);
    made = omega (arith, w.made);
  }

  time_out-IsAwaited :
      (s : ClusterServer) (i : ℕ)
      → i ≢ index
      → IsAwaited index ch s
      → IsAwaited index ch (time_out s i).0
  unfolding time_out
  time_out-IsAwaited s i other w = record {
    waits = ground (arith, w.waits);
    silent = w.silent;
    only = λ j h. ground (arith, w.only j);
    made = w.made;
  }

  module _ (c : Codec) where
    apply_message-IsAwaited :
        (s : ClusterServer) (m : ApplyMsg)
        → Leaves index (hears m)
        → IsAwaited index ch s
        → Then (IsAwaited index ch) (apply_message c s m)
    unfolding apply_message
    apply_message-IsAwaited s (restores contents) l w =
        option-intro (Then (IsAwaited index ch)) (c.decode_state contents) (λ _. tt)
          (λ st _. record { waits = w.waits; silent = w.silent; only = w.only; made = w.made })
    apply_message-IsAwaited s (commits command i term) l w =
        option-intro (Then (IsAwaited index ch)) (apply_command c s.sm command) (λ _. tt)
          (λ sm _.
            let woken = wake (record s { sm = sm }) i term in
            Then-map _ _ (count_applied c woken i)
              (λ x same. SameWaits-IsAwaited woken x same (
                wake-IsAwaited (record s { sm = sm }) i term l
                  (record { waits = w.waits; silent = w.silent; only = w.only; made = w.made })))
              (count_applied-SameWaits c woken i))
    apply_message-IsAwaited s nothing l w = w

    perform-IsAwaited :
        (w : World) (a : Act)
        → Leaves index a
        → IsAwaited index ch w.server
        → Then (λ x. IsAwaited index ch x.server) (perform c w a)
    unfolding perform end_finish scan stop
    perform-IsAwaited w (hears m) l h =
        option-intro (Then (λ x. IsAwaited index ch x.server)) (apply_message c w.server m)
          (λ _. tt)
          (λ s e. Then-some (IsAwaited index ch) _ s (apply_message-IsAwaited w.server m l h) e)
    perform-IsAwaited w (registers i) l h = register-IsAwaited w.server i l h
    perform-IsAwaited w (gives_up i) l h = time_out-IsAwaited w.server i l h
    perform-IsAwaited w (proposes op) l h =
        SameWaits-IsAwaited w.server _ (propose-SameWaits c w.server op) h
    perform-IsAwaited w (dequeues now) l h =
        SameWaits-IsAwaited w.server _ (dequeue-SameWaits w.server now) h
    perform-IsAwaited w (finishes id) l h = record {
      waits = h.waits;
      silent = h.silent;
      only = h.only;
      made = h.made;
    }
    perform-IsAwaited w (scans now) l h = record {
      waits = h.waits;
      silent = h.silent;
      only = h.only;
      made = h.made;
    }
    perform-IsAwaited w watches l h = SameWaits-IsAwaited w.server _ (watch-SameWaits w.server) h
    perform-IsAwaited w stops l h = record {
      waits = h.waits;
      silent = h.silent;
      only = h.only;
      made = h.made;
    }
    perform-IsAwaited w (moves n) l h = record {
      waits = h.waits;
      silent = h.silent;
      only = h.only;
      made = h.made;
    }

    pub run-IsAwaited :
        (acts : List Act) (w : World)
        → All (Leaves index) acts
        → IsAwaited index ch w.server
        → Then (λ x. IsAwaited index ch x.server) (run c w acts)
    unfolding run
    run-IsAwaited [] w l h = h
    run-IsAwaited (a ∷ acts) w l h =
        option-intro (Then (λ x. IsAwaited index ch x.server)) (perform c w a) (λ _. tt)
          (λ w' e.
            run-IsAwaited acts w' l.1
              (Then-some (λ x. IsAwaited index ch x.server) _ w' (perform-IsAwaited w a l.0 h) e))

-- A call that has just registered.
pub registered-IsAwaited :
    (s : ClusterServer) (index : ℕ) (owner : ℕ → ℕ) (es : List (ℕ × ℕ))
    → IsSound s owner es
    → IsAwaited index s.made (register s index).0
unfolding register
registered-IsAwaited s index owner es w = record {
  waits = ground arith;
  silent = ground arith;
  only = λ i h. ground (arith, w.waits i s.made);
  made = omega arith;
}

pub wake-collect :
    (s : ClusterServer) (index ch term : ℕ)
    → IsAwaited index ch s
    → (wake s index term).channels ch ≡ some term
unfolding wake
wake-collect s index ch term w = ground (arith, w.waits)
