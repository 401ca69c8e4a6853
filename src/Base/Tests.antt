-- ===== src/Base/Tests.antt =====
-- Boolean tests on the native numbers, byte strings, and the conditional.
use Prim.Native.Nat.{ℕ, compare, Ordering}
use Prim.Native.Char.{code}
use Prim.Native.String.{String}
use mathlib.Core.Path.{◌≡◌, refl}
use mathlib.Core.Logic.{ite, ◌↔◌, ◌⊎◌, inl, inr}
use mathlib.Core.Bool.{Bool, true, false}
use mathlib.Core.Option.{Option, none, some}
use mathlib.Core.List.{List, [], ◌∷◌}
use native.Mathlib.Omega.{arith}
use native.Mathlib.Decide.{ℕ_discrete}

abbrev pub ltb : ℕ → ℕ → Bool
ltb a b = elim (compare a b) [ Ordering.lt ↦ true | _ ↦ false ]

abbrev pub leb : ℕ → ℕ → Bool
leb a b = elim (compare a b) [ Ordering.gt ↦ false | _ ↦ true ]

infix 50 ◌==◌
abbrev pub ◌==◌ : ℕ → ℕ → Bool
a == b = elim (compare a b) [ Ordering.eq ↦ true | _ ↦ false ]

infix 1 if◌then◌else◌
abbrev pub if◌then◌else◌ {ℓ} : {A : Type ℓ} → Bool → A → A → A
if true then x else y = x
if false then x else y = y

-- A Go string or byte slice: its bytes.
abbrev pub Bytes : Type 0
Bytes = List ℕ

unfoldable pub bytes_discrete : Discrete (List ℕ)
unfolding ℕ_discrete
bytes_discrete = hlevel ℕ_discrete

-- The bytes of an ASCII literal.
abbrev pub codes : String → Bytes
codes String.[] = []
codes (String.◌∷◌ c s) = code c ∷ codes s

pub Bool-cases : (b : Bool) → (b ≡ true) ⊎ (b ≡ false)
Bool-cases true = inl refl
Bool-cases false = inr refl

pub Option-cases {ℓ} : {A : Type ℓ} (o : Option A) → (o ≡ none) ⊎ ((a : A) × (o ≡ some a))
Option-cases none = inl refl
Option-cases (some a) = inr (a, refl)

pub ==_iff : (a b : ℕ) → ((a == b) ≡ true) ↔ (a ≡ b)
==_iff a b = ground arith

-- What holds of both branches of a test, or of both cases of an option, holds of the whole.
pub if-intro {ℓ κ} :
    {A : Type ℓ} (P : A → Type κ) (b : Bool) {x y : A}
    → (b ≡ true → P x)
    → (b ≡ false → P y)
    → P (if b then x else y)
if-intro P true p q = p refl
if-intro P false p q = q refl

pub option-intro {ℓ κ ι} :
    {A : Type ℓ} {B : Type κ} (P : B → Type ι) (o : Option A) {x : B} {f : A → B}
    → (o ≡ none → P x)
    → ((a : A) → o ≡ some a → P (f a))
    → P (elim o [ none ↦ x | some a ↦ f a ])
option-intro P none p q = p refl
option-intro P (some a) p q = q a refl

-- The same for two terms that branch on one test.
pub if-intro₂ {ℓ κ ι} :
    {A : Type ℓ} {B : Type κ} (P : A → B → Type ι) (b : Bool) {x y : A} {u v : B}
    → (b ≡ true → P x u)
    → (b ≡ false → P y v)
    → P (if b then x else y) (if b then u else v)
if-intro₂ P true p q = p refl
if-intro₂ P false p q = q refl

pub ite-intro {ℓ κ} :
    {A : Type ℓ} {B : Type κ} (P : A → Type 0) (d : Dec B) {a b : A}
    → (B → P a)
    → ((B → ⊥) → P b)
    → P (ite d a b)
ite-intro P (yes e) f g = f e
ite-intro P (no e) f g = g e

pub ite-intro₂ {ℓ κ ι} :
    {A : Type ℓ} {B : Type κ} {D : Type ι} (P : A → B → Type 0) (d : Dec D) {a b : A} {u v : B}
    → (D → P a u)
    → ((D → ⊥) → P b v)
    → P (ite d a b) (ite d u v)
ite-intro₂ P (yes e) f g = f e
ite-intro₂ P (no e) f g = g e

pub option-intro₂ {ℓ κ ι} :
    {A : Type ℓ} {B : Type κ} {D : Type ι} (P : B → D → Type 0) (o : Option A) {x : B} {f : A → B}
    {y : D} {g : A → D}
    → (o ≡ none → P x y)
    → ((a : A) → o ≡ some a → P (f a) (g a))
    → P (elim o [ none ↦ x | some a ↦ f a ]) (elim o [ none ↦ y | some a ↦ g a ])
option-intro₂ P none p q = p refl
option-intro₂ P (some a) p q = q a refl
