-- ===== src/Document/Outcome.antt =====
-- model/document/json.go: the parser's state and its results. The text that is left stands for `s` and `i`; an error
-- has its reason and not the byte it is at. `out_of_fuel` has no counterpart in the source.
use snapshot_engine.Shared.{
  ℕ, ◌+◌, ◌^◌, ◌≡◌, refl, Bool, ltb, if◌then◌else◌, Bytes, String, [], ◌∷◌, ◌||◌, nat_beq,
}

abbrev pub max_document : ℕ
max_document = 2 ^ 20

abbrev pub max_depth : ℕ
max_depth = 64

abbrev pub max_number_digits : ℕ
max_number_digits = 1000

pub data Outcome {ℓ} (A : Type ℓ) : Type ℓ where
  ok : A → Outcome A
  failed : String → Outcome A
  out_of_fuel : Outcome A

module _ {ℓ κ} {A : Type ℓ} {B : Type κ} where
  infixl 5 ◌>>=◌
  abbrev pub ◌>>=◌ : Outcome A → (A → Outcome B) → Outcome B
  ok a >>= f = f a
  failed why >>= f = failed why
  out_of_fuel >>= f = out_of_fuel

-- `out` counts the canonical text of what was read so far.
pub record Parser : Type 0 where
  pub rest : Bytes
  pub out : ℕ

abbrev pub too_long : String
too_long = "a document whose canonical text passes 1048576 bytes"

unfoldable pub emit : ℕ → Parser → Outcome Parser
emit n p =
    if ltb max_document (p.out + n) then failed too_long else ok (record p { out = p.out + n })

abbrev pub is_space : ℕ → Bool
is_space c = nat_beq c b' ' || (nat_beq c b'\t' || (nat_beq c b'\n' || nat_beq c b'\r'))

unfoldable pub space : Bytes → Bytes
space [] = []
space (c ∷ s) = let rest = space s in if is_space c then rest else c ∷ s

-- A run that ends well did so step by step.
pub bind-ok {ℓ κ} :
    {A : Type ℓ} {B : Type κ} (r : Outcome A) (f : A → Outcome B) {b : B}
    → r >>= f ≡ ok b
    → (a : A) × (r ≡ ok a) × (f a ≡ ok b)
bind-ok (ok a) f e = (a, refl, e)
bind-ok (failed why) f e = cc
bind-ok out_of_fuel f e = cc
