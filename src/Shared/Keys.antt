-- ===== src/Shared/Keys.antt =====
-- Types whose values the program compares by ==: an interface, and its instances.
use Prim.Native.Nat.{ℕ, zero, suc, ◌+◌, ◌/◌, ◌%◌}
use Prim.Native.Char.{code}
use Prim.Native.String.{String}
use mathlib.Core.Path.{◌≡◌, refl}
use mathlib.Core.Logic.{◌↔◌}
use mathlib.Core.Bool.{Bool, true, false, ◌&&◌}
use mathlib.Core.List.{List, [], ◌∷◌, ◌++◌}
use native.Mathlib.Omega.{arith}
use snapshot_engine.Shared.Tests.{nat_beq, nat_beq_iff, ltb, if◌then◌else◌}

-- A Go string is a sequence of bytes.
abbrev pub Bytes : Type 0
Bytes = List ℕ

-- A type that Go's == compares.
pub record Comparable {ℓ} (A : Type ℓ) : Type ℓ where
  pub eq : A → A → Bool
  pub eq_iff : (a b : A) → (eq a b ≡ true) ↔ (a ≡ b)

infix 50 ◌==◌
abbrev pub ◌==◌ {ℓ} : {A : Type ℓ} ⦃c : Comparable A⦄ → A → A → Bool
◌==◌ ⦃c⦄ = c.eq

module _ {ℓ} {A : Type ℓ} ⦃c : Comparable A⦄ where
  pub eq_self : (a : A) → (a == a) ≡ true
  eq_self a = (c.eq_iff a a).1 refl

  pub eq_comm : (a b : A) → (a == b) ≡ (b == a)
  eq_comm a b = ground (arith, c.eq_iff a b, c.eq_iff b a)

  abbrev pub list_eq : List A → List A → Bool
  list_eq [] [] = true
  list_eq [] (y ∷ ys) = false
  list_eq (x ∷ xs) [] = false
  list_eq (x ∷ xs) (y ∷ ys) = x == y && list_eq xs ys

  pub list_eq_iff : (a b : List A) → (list_eq a b ≡ true) ↔ (a ≡ b)
  list_eq_iff [] [] = ground arith
  list_eq_iff [] (y ∷ ys) = ground arith
  list_eq_iff (x ∷ xs) [] = ground arith
  list_eq_iff (x ∷ xs) (y ∷ ys) = ground (arith, c.eq_iff x y, list_eq_iff xs ys)

instance abbrev pub nat_comparable : Comparable ℕ
nat_comparable = record { eq = nat_beq; eq_iff = nat_beq_iff }

instance abbrev pub bytes_comparable : Comparable Bytes
bytes_comparable = record { eq = list_eq; eq_iff = list_eq_iff }

-- Go's < on strings: by bytes, and a proper prefix first.
abbrev pub bytes_lt : Bytes → Bytes → Bool
bytes_lt [] [] = false
bytes_lt [] (y ∷ ys) = true
bytes_lt (x ∷ xs) [] = false
bytes_lt (x ∷ xs) (y ∷ ys) = if ltb x y then true else nat_beq x y && bytes_lt xs ys

-- The bytes of an ASCII text.
abbrev pub codes : String → Bytes
codes String.[] = []
codes (String.◌∷◌ c s) = code c ∷ codes s

-- strconv.Itoa of a number that is not negative. Each digit takes a unit of fuel.
itoa_fuel : ℕ → ℕ → Bytes
itoa_fuel zero n = []
itoa_fuel (suc fuel) n =
    let rest = itoa_fuel fuel (n / 10) in
    if ltb n 10 then (b'0' + n) ∷ [] else rest ++ ((b'0' + n % 10) ∷ [])

unfoldable pub itoa : ℕ → Bytes
unfolding itoa_fuel
itoa n = itoa_fuel (suc n) n
