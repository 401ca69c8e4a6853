-- ===== src/Failover.antt =====
-- The failover client, client/failover.go: which node it asks next. The connections are a cache and
-- are left out; what a call meets is an argument.
pub mod Routing
use distqueue.Base.{
  ℕ, zero, suc, ◌+◌, ◌%◌, ◌<◌, ◌≡◌, ◌≢◌, refl, Bool, true, false, ◌&&◌, ◌||◌, Option, none, some,
  List, [], ◌∷◌, ◌++◌, arith, ◌==◌, leb, if◌then◌else◌, Bytes, length, get_or, codes,
  bytes_discrete, ite, length-append, get_or-append_last, inl, inr, Option-cases, option-intro,
}
use mathlib.Core.Option

pub record Failover : Type 0 where
  pub addrs : List Bytes
  pub cur : ℕ

-- The address of `current`.
abbrev pub current : Failover → Bytes
current f = get_or f.addrs f.cur []

-- The loop of `advance`: the first index of an address.
unfoldable pub index_of : List Bytes → Bytes → Option ℕ
index_of [] a = none
index_of (b ∷ bs) a = ite (bytes_discrete b a) (some 0) (Option.map suc (index_of bs a))

-- `advance`
unfoldable pub advance : Failover → Bytes → Failover
advance f [] = record f { cur = (f.cur + 1) % length f.addrs }
advance f (h ∷ hs) = elim (index_of f.addrs (h ∷ hs)) [
  | some i ↦ record f { cur = i }
  | none ↦ record { addrs = f.addrs ++ (h ∷ hs) ∷ []; cur = length f.addrs }
]

-- What is left of a message behind a prefix that it starts with.
unfoldable pub after_prefix : Bytes → Bytes → Option Bytes
after_prefix [] msg = some msg
after_prefix (c ∷ cs) [] = none
after_prefix (c ∷ cs) (m ∷ ms) = if c == m then after_prefix cs ms else none

-- The white space that `strings.TrimSpace` takes from ASCII text.
abbrev pub is_space : ℕ → Bool
is_space c = (leb 9 c && leb c 13) || c == 32

unfoldable pub trim_left : Bytes → Bytes
trim_left [] = []
trim_left (c ∷ cs) = let rest = trim_left cs in if is_space c then rest else c ∷ cs

unfoldable pub trim_right : Bytes → Bytes
trim_right [] = []
trim_right (c ∷ cs) = elim (trim_right cs) [
  | [] ↦ if is_space c then [] else c ∷ []
  | d ∷ ds ↦ c ∷ d ∷ ds
]

-- `leaderHint`, on the message of the error
unfoldable pub leader_hint : Bytes → Bytes
leader_hint [] = []
leader_hint (m ∷ ms) =
    let rest = leader_hint ms in
    elim (after_prefix (codes "leader=") (m ∷ ms)) [
      | some target ↦ trim_right (trim_left target)
      | none ↦ rest
    ]

-- The status codes that `do` tells apart.
pub data Code : Type 0 where
  failed_precondition unavailable deadline_exceeded other : Code

-- `status.Code` and the message of `status.Convert`
pub record Errors (E : Type 0) : Type 0 where
  pub code : E → Code
  pub message : E → Bytes

-- What one attempt meets: the context is done, no connection can be made, the node answers, or the
-- call returns an error; for that, the error of a context that is done in the pause behind it.
pub data Attempt (A E : Type 0) : Type 0 where
  cancelled undialed : E → Attempt A E
  answered : A → Attempt A E
  fails : E → Option E → Attempt A E

-- An answer, or the zero value with an error, which none is nil.
pub data Outcome (A E : Type 0) : Type 0 where
  returned : A → Outcome A E
  failed : Option E → Outcome A E

abbrev pub max_attempts : ℕ
max_attempts = 6

module _ {A E : Type 0} (errors : Errors E) (world : ℕ → Bytes → Attempt A E) where
  -- The loop of `do`, from the attempt `i` on with `k` left, and `last` as lastErr.
  unfoldable pub attempt : ℕ → ℕ → Failover → Option E → Failover × Outcome A E
  attempt zero i f last = (f, failed last)
  attempt (suc k) i f last = elim (world i (current f)) [
    | cancelled e ↦ (f, failed (some e))
    | undialed e ↦ attempt k (i + 1) (advance f []) (some e)
    | answered a ↦ (f, returned a)
    | fails e done ↦ elim (errors.code e) [
      | failed_precondition ↦
          attempt k (i + 1) (advance f (leader_hint (errors.message e))) (some e)
      | unavailable ↦ elim done [
        | none ↦ attempt k (i + 1) (advance f []) (some e)
        | some e' ↦ (advance f [], failed (some e'))
      ]
      | deadline_exceeded ↦ elim done [
        | none ↦ attempt k (i + 1) (advance f []) (some e)
        | some e' ↦ (advance f [], failed (some e'))
      ]
      | other ↦ (f, failed (some e))
    ]
  ]

  -- `do`
  unfoldable pub do_rpc : Failover → Failover × Outcome A E
  do_rpc f = attempt max_attempts 0 f none

hint_test : leader_hint (codes "not leader; leader=n2 ") ≡ codes "n2"
unfolding leader_hint after_prefix trim_left trim_right
hint_test = refl

-- The client points to an address.
abbrev pub IsValid : Failover → Type 0
IsValid f = f.cur < length f.addrs

-- The index found is one of the address.
pub index_of-found :
    (bs : List Bytes) (a : Bytes) (i : ℕ)
    → index_of bs a ≡ some i
    → (i < length bs) × (get_or bs i [] ≡ a)
unfolding index_of
index_of-found [] a i h = absurd (cc)
index_of-found (b ∷ bs) a i h = elim (Option-cases (index_of bs a)) [
  | inl absent ↦ ground arith
  | inr (k, found) ↦ ground (arith, index_of-found bs a k found)
]

-- `advance` of a client that points to one of its addresses leaves it pointing to one, and if the
-- hint is not empty, that address is the hint, whether it was known or not.
pub advance-IsValid :
    (f : Failover) (hint : Bytes)
    → IsValid f
    → IsValid (advance f hint) × (hint ≢ [] → current (advance f hint) ≡ hint)
unfolding advance
advance-IsValid f [] v = (omega arith, λ ne. absurd (ne refl))
advance-IsValid f (h ∷ hs) v =
    option-intro (λ (g : Failover). IsValid g × ((h ∷ hs) ≢ [] → current g ≡ h ∷ hs))
      (index_of f.addrs (h ∷ hs))
      (λ absent. (
        omega (arith, length-append f.addrs ((h ∷ hs) ∷ [])),
        λ _. get_or-append_last f.addrs (h ∷ hs) [],
      ))
      (λ i found.
        let (inside, there) = index_of-found f.addrs (h ∷ hs) i found in (inside, λ _. there))
