-- ===== src/Grants/Bits.antt =====
-- engine/grants.go: `permSet`, a set of permissions with a bit each. For p below 8,
-- `ps & (1 << p) != 0`, `ps | 1 << p` and `ps &^ 1 << p` are written out by division.
use snapshot_engine.Shared.{
  ℕ, zero, suc, ◌+◌, ◌-◌, ◌/◌, ◌%◌, ◌^◌, ◌≤◌, ◌≡◌, Bool, not, ◌&&◌, ◌||◌, arith, nat_beq,
  if◌then◌else◌,
}

unfoldable pub has : ℕ → ℕ → Bool
has ps p = nat_beq (ps / 2 ^ p % 2) 1

unfoldable pub set_bit : ℕ → ℕ → ℕ
unfolding has
set_bit ps p = if has ps p then ps else ps + 2 ^ p

unfoldable pub clear_bit : ℕ → ℕ → ℕ
unfolding has
clear_bit ps p = if has ps p then ps - 2 ^ p else ps

-- What holds at each permission holds at every number that is one.
at_each {ℓ} : (P : ℕ → Type ℓ) → P 1 → P 2 → P 3 → P 4 → P 5 → P 6 → (p : ℕ) → 1 ≤ p → p ≤ 6 → P p
at_each P a b c d e f zero h k = absurd (omega arith)
at_each P a b c d e f (suc zero) h k = a
at_each P a b c d e f (suc (suc zero)) h k = b
at_each P a b c d e f (suc (suc (suc zero))) h k = c
at_each P a b c d e f (suc (suc (suc (suc zero)))) h k = d
at_each P a b c d e f (suc (suc (suc (suc (suc zero))))) h k = e
at_each P a b c d e f (suc (suc (suc (suc (suc (suc zero)))))) h k = f
at_each P a b c d e f (suc (suc (suc (suc (suc (suc (suc p))))))) h k = absurd (omega arith)

abbrev Sets : ℕ → ℕ → ℕ → Type 0
Sets ps p q = has (set_bit ps p) q ≡ (nat_beq p q || has ps q)

abbrev Clears : ℕ → ℕ → ℕ → Type 0
Clears ps p q = has (clear_bit ps p) q ≡ (not (nat_beq p q) && has ps q)

Sets-one : (ps q : ℕ) → 1 ≤ q → q ≤ 6 → Sets ps 1 q
unfolding set_bit
Sets-one ps =
    at_each (Sets ps 1) (ground arith) (ground arith) (ground arith) (ground arith) (ground arith)
      (ground arith)

Sets-two : (ps q : ℕ) → 1 ≤ q → q ≤ 6 → Sets ps 2 q
unfolding set_bit
Sets-two ps =
    at_each (Sets ps 2) (ground arith) (ground arith) (ground arith) (ground arith) (ground arith)
      (ground arith)

Sets-three : (ps q : ℕ) → 1 ≤ q → q ≤ 6 → Sets ps 3 q
unfolding set_bit
Sets-three ps =
    at_each (Sets ps 3) (ground arith) (ground arith) (ground arith) (ground arith) (ground arith)
      (ground arith)

Sets-four : (ps q : ℕ) → 1 ≤ q → q ≤ 6 → Sets ps 4 q
unfolding set_bit
Sets-four ps =
    at_each (Sets ps 4) (ground arith) (ground arith) (ground arith) (ground arith) (ground arith)
      (ground arith)

Sets-five : (ps q : ℕ) → 1 ≤ q → q ≤ 6 → Sets ps 5 q
unfolding set_bit
Sets-five ps =
    at_each (Sets ps 5) (ground arith) (ground arith) (ground arith) (ground arith) (ground arith)
      (ground arith)

Sets-six : (ps q : ℕ) → 1 ≤ q → q ≤ 6 → Sets ps 6 q
unfolding set_bit
Sets-six ps =
    at_each (Sets ps 6) (ground arith) (ground arith) (ground arith) (ground arith) (ground arith)
      (ground arith)

-- Setting one bit changes that bit alone.
pub has-set_bit : (ps p q : ℕ) → 1 ≤ p → p ≤ 6 → 1 ≤ q → q ≤ 6 → Sets ps p q
has-set_bit ps p q h k h' k' =
    at_each (λ p. Sets ps p q) (Sets-one ps q h' k') (Sets-two ps q h' k') (Sets-three ps q h' k')
      (Sets-four ps q h' k') (Sets-five ps q h' k') (Sets-six ps q h' k') p h k

Clears-one : (ps q : ℕ) → 1 ≤ q → q ≤ 6 → Clears ps 1 q
unfolding clear_bit
Clears-one ps =
    at_each (Clears ps 1) (ground arith) (ground arith) (ground arith) (ground arith) (ground arith)
      (ground arith)

Clears-two : (ps q : ℕ) → 1 ≤ q → q ≤ 6 → Clears ps 2 q
unfolding clear_bit
Clears-two ps =
    at_each (Clears ps 2) (ground arith) (ground arith) (ground arith) (ground arith) (ground arith)
      (ground arith)

Clears-three : (ps q : ℕ) → 1 ≤ q → q ≤ 6 → Clears ps 3 q
unfolding clear_bit
Clears-three ps =
    at_each (Clears ps 3) (ground arith) (ground arith) (ground arith) (ground arith) (ground arith)
      (ground arith)

Clears-four : (ps q : ℕ) → 1 ≤ q → q ≤ 6 → Clears ps 4 q
unfolding clear_bit
Clears-four ps =
    at_each (Clears ps 4) (ground arith) (ground arith) (ground arith) (ground arith) (ground arith)
      (ground arith)

Clears-five : (ps q : ℕ) → 1 ≤ q → q ≤ 6 → Clears ps 5 q
unfolding clear_bit
Clears-five ps =
    at_each (Clears ps 5) (ground arith) (ground arith) (ground arith) (ground arith) (ground arith)
      (ground arith)

Clears-six : (ps q : ℕ) → 1 ≤ q → q ≤ 6 → Clears ps 6 q
unfolding clear_bit
Clears-six ps =
    at_each (Clears ps 6) (ground arith) (ground arith) (ground arith) (ground arith) (ground arith)
      (ground arith)

-- Clearing one bit changes that bit alone.
pub has-clear_bit : (ps p q : ℕ) → 1 ≤ p → p ≤ 6 → 1 ≤ q → q ≤ 6 → Clears ps p q
has-clear_bit ps p q h k h' k' =
    at_each (λ p. Clears ps p q) (Clears-one ps q h' k') (Clears-two ps q h' k')
      (Clears-three ps q h' k') (Clears-four ps q h' k') (Clears-five ps q h' k')
      (Clears-six ps q h' k') p h k
