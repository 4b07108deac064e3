-- ===== src/Base/Lists.antt =====
-- Lists measured by native numbers, and the chain of fallible steps.
use Prim.Native.Nat.{ℕ, suc, ◌+◌}
use mathlib.Core.Path.{◌≡◌, refl}
use mathlib.Core.Logic.{◌↔◌}
use mathlib.Core.Bool.{Bool, true, false, ◌&&◌, ◌||◌}
use mathlib.Core.List.{List, [], ◌∷◌, ◌++◌}
use mathlib.Core.Option.{Option, none, some}
use native.Mathlib.Omega.{arith}

module _ {ℓ} {A : Type ℓ} where
  abbrev pub length : List A → ℕ
  length [] = 0
  length (x ∷ xs) = suc (length xs)

  -- `xs.every(p)`
  abbrev pub every : (A → Bool) → List A → Bool
  every p [] = true
  every p (x ∷ xs) = p x && every p xs

  -- `xs.some(p)`
  abbrev pub any : (A → Bool) → List A → Bool
  any p [] = false
  any p (x ∷ xs) = p x || any p xs

  -- `xs.filter(p)`
  abbrev pub keep : (A → Bool) → List A → List A
  keep p [] = []
  keep p (x ∷ xs) = let rest = keep p xs in elim (p x) [ true ↦ x ∷ rest | false ↦ rest ]

  pub length-append : (xs ys : List A) → length (xs ++ ys) ≡ length xs + length ys
  length-append [] ys = omega arith
  length-append (x ∷ xs) ys = omega (arith, length-append xs ys)

infixl 5 ◌>>=◌ ◌>>◌
abbrev pub ◌>>=◌ {ℓ κ} : {A : Type ℓ} {B : Type κ} → Option A → (A → Option B) → Option B
none >>= f = none
some a >>= f = f a

abbrev pub ◌>>◌ {ℓ} : {B : Type ℓ} → Option (Unit {0}) → Option B → Option B
m >> k = m >>= λ _. k

-- A guard of the code: the rest of the block runs if the test holds.
abbrev pub guard : Bool → Option (Unit {0})
guard true = some tt
guard false = none

-- Inversion of a chain that gave a result.
pub >>=-eq-some {ℓ κ} :
    {A : Type ℓ} {B : Type κ} (m : Option A) (f : A → Option B) {b : B}
    → (m >>= f) ≡ some b
    → (a : A) × (m ≡ some a) × (f a ≡ some b)
>>=-eq-some none f h = cc
>>=-eq-some (some a) f h = (a, refl, h)

pub guard-eq-some : (t : Bool) → guard t ≡ some tt → t ≡ true
guard-eq-some true h = refl
guard-eq-some false h = cc

pub and-eq-true : (a b : Bool) → (a && b) ≡ true → (a ≡ true) × (b ≡ true)
and-eq-true true b h = (refl, h)
and-eq-true false b h = cc

abbrev pub AllTrue {ℓ} : {A : Type ℓ} → (A → Bool) → List A → Type 0
AllTrue p [] = Unit
AllTrue p (x ∷ xs) = (p x ≡ true) × AllTrue p xs

pub every-eq-true {ℓ} : {A : Type ℓ} (p : A → Bool) (xs : List A) → every p xs ≡ true → AllTrue p xs
every-eq-true p [] h = tt
every-eq-true p (x ∷ xs) h =
    let (a, b) = and-eq-true (p x) (every p xs) h in (a, every-eq-true p xs b)

pub some_inj {ℓ} : {A : Type ℓ} {a b : A} → some a ≡ some b → a ≡ b
some_inj h = cc

-- A list of two parts is empty if both parts are.
pub append-eq-nil_iff {ℓ} :
    {A : Type ℓ} (l m : List A) {P Q : Type 0}
    → ((l ≡ []) ↔ P)
    → ((m ≡ []) ↔ Q)
    → ((l ++ m) ≡ []) ↔ (P × Q)
append-eq-nil_iff [] m p q = (λ h. (p.0 refl, q.0 h), λ (_, y). q.1 y)
append-eq-nil_iff (x ∷ l) m p q = (λ h. cc, λ (x, _). let h = p.1 x in cc)
