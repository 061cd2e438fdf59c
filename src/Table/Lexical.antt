-- ===== src/Table/Lexical.antt =====
-- model/table/cell.go: byte order of the pieces of a cell, before whatever follows them.
use snapshot_engine.Shared.{
  ℕ, zero, suc, ◌+◌, ◌-◌, ◌*◌, ◌/◌, ◌%◌, ◌≤◌, ◌<◌, ◌≡◌, refl, ap, Bool, true, false, not, ◌&&◌,
  ◌||◌, ◌⊎◌, inl, inr, [], ◌∷◌, ◌++◌, ltb, nat_beq, if◌then◌else◌, Bytes, bytes_lt, length, arith,
  Bool-cases, lt→ltb,
}
use native.Mathlib.Nat.{mod-lt, div-add-mod', mul-le-mul_right}
use mathlib.Core.Path.{subst}
use snapshot_engine.Table.Ordered.{
  byte_range, big_endian, flip_sign, Float, magnitude, is_nan, ordered_float, escape,
}
use snapshot_engine.Table.Pieces.{byte_range_pos}
use snapshot_engine.Table.Precedes.{int_lt, float_lt, is_negative}

-- One string is before another, or after it, whatever follows them; if neither, what follows decides.
abbrev pub Decides : Bool → Bool → Bytes → Bytes → Type 0
Decides before after a b =
    (r s : Bytes) → bytes_lt (a ++ r) (b ++ s) ≡ (before || (not after && bytes_lt r s))

pub cons-Decides :
    (x : ℕ) (l g : Bool) (a b : Bytes) → Decides l g a b → Decides l g (x ∷ a) (x ∷ b)
cons-Decides x l g a b d r s = ground (arith, d r s)

lt_cases : (a b : ℕ) → (a < b) ⊎ ((a ≡ b) ⊎ (b < a))
lt_cases a b = ground arith

digits_lt : (b q r q' r' : ℕ) → r < b → r' < b → q < q' → q * b + r < q' * b + r'
digits_lt b q r q' r' h h' l = let m : suc q * b ≤ q' * b = mul-le-mul_right b l in omega (arith, m)

-- Numbers compare by their quotients, then by their remainders.
ltb_split :
    (b x y : ℕ)
    → 0 < b
    → ltb x y ≡ (ltb (x / b) (y / b) || (nat_beq (x / b) (y / b) && ltb (x % b) (y % b)))
ltb_split b x y h =
    let dx = div-add-mod' x b in
    let dy = div-add-mod' y b in
    let rx = mod-lt x h in
    let ry = mod-lt y h in
    elim (lt_cases (x / b) (y / b)) [
      | inl l ↦
          let before = digits_lt b (x / b) (x % b) (y / b) (y % b) rx ry l in
          let t : ltb x y ≡ true =
            lt→ltb x y (subst (λ z. x < z) dy (subst (λ z. z < (y / b) * b + y % b) dx before)) in
          rw t (rw (lt→ltb (x / b) (y / b) l) refl)
      | inr (inl e) ↦
          let m : (x / b) * b ≡ (y / b) * b = ap (λ q. q * b) e in ground (arith, e, dx, dy, m)
      | inr (inr l) ↦
          let after = digits_lt b (y / b) (y % b) (x / b) (x % b) ry rx l in
          let t : y < x = subst (λ z. y < z) dx (subst (λ z. z < (x / b) * b + x % b) dy after) in
          ground (arith, t, l)
    ]

combine :
    (l g : Bool) (q q' t t' : ℕ) (later rest : Bool)
    → l ≡ (ltb q q' || (nat_beq q q' && ltb t t'))
    → g ≡ (ltb q' q || (nat_beq q' q && ltb t' t))
    → rest ≡ (ltb t t' || (not (ltb t' t) && later))
    → (if ltb q q' then true else nat_beq q q' && rest) ≡ (l || (not g && later))
combine l g q q' t t' later rest h j k = ground (arith, h, j, k)

pub big_endian-Decides :
    (k x y : ℕ)
    → x < byte_range k
    → y < byte_range k
    → Decides (ltb x y) (ltb y x) (big_endian k x) (big_endian k y)
unfolding big_endian
big_endian-Decides zero x y h j r s = ground (arith, h, j)
big_endian-Decides (suc k) x y h j r s =
    let b = byte_range k in
    let low =
      big_endian-Decides k (x % b) (y % b) (mod-lt x (byte_range_pos k))
        (mod-lt y (byte_range_pos k)) r s in
    let split = ltb_split b x y (byte_range_pos k) in
    let split' = ltb_split b y x (byte_range_pos k) in
    combine (ltb x y) (ltb y x) (x / b) (y / b) (x % b) (y % b) (bytes_lt r s) _ split split' low

pub flip_sign-lt :
    (half x y : ℕ)
    → x < 2 * half
    → y < 2 * half
    → ltb (flip_sign half x) (flip_sign half y) ≡ int_lt half x y
flip_sign-lt half x y h j = ground arith

ltb_flip : (o o' m m' h : ℕ) → o + m ≡ h → o' + m' ≡ h → ltb o o' ≡ ltb m' m
ltb_flip o o' m m' h e e' = ground arith

ltb_shift : (o o' m m' h : ℕ) → o ≡ h + m → o' ≡ h + m' → ltb o o' ≡ ltb m m'
ltb_shift o o' m m' h e e' = ground arith

not_lt→ltb : (a b : ℕ) → b ≤ a → ltb a b ≡ false
not_lt→ltb a b h = ground arith

module _ (f : Float) (nan : is_nan f f.quiet_nan ≡ true) (bits : f.quiet_nan < 2 * f.half)
    (infinite : suc f.infinity < f.half) where
  ordered_nan : (x : ℕ) → x < 2 * f.half → is_nan f x ≡ true → ordered_float f x ≡ 2 * f.half - 1
  unfolding ordered_float
  ordered_nan x h n = rw n refl

  ordered_negative :
      (x : ℕ)
      → x < 2 * f.half
      → is_nan f x ≡ false
      → is_negative f x ≡ true
      → (ordered_float f x + magnitude f x ≡ f.half - 1) × (magnitude f x ≤ f.infinity)
  unfolding ordered_float
  ordered_negative x h n g = (ground (arith, n, g), ground (arith, n))

  ordered_positive :
      (x : ℕ)
      → x < 2 * f.half
      → is_nan f x ≡ false
      → is_negative f x ≡ false
      → (ordered_float f x ≡ f.half + magnitude f x) × (magnitude f x ≤ f.infinity)
  unfolding ordered_float
  ordered_positive x h n g = (ground (arith, n, g), ground (arith, n))

  Place : ℕ → Type 0
  Place x =
      (is_nan f x ≡ true)
      ⊎ (((is_nan f x ≡ false) × (is_negative f x ≡ true))
          ⊎ ((is_nan f x ≡ false) × (is_negative f x ≡ false)))

  place : (x : ℕ) → Place x
  unfolding Place
  place x = elim (Bool-cases (is_nan f x)) [
    | inl n ↦ inl n
    | inr n ↦ elim (Bool-cases (is_negative f x)) [
      | inl g ↦ inr (inl (n, g))
      | inr g ↦ inr (inr (n, g))
    ]
  ]

  number :
      (x : ℕ)
      → x < 2 * f.half
      → (((is_nan f x ≡ false) × (is_negative f x ≡ true))
          ⊎ ((is_nan f x ≡ false) × (is_negative f x ≡ false)))
      → ordered_float f x < 2 * f.half - 1
  number x h (inl (n, g)) = let p = ordered_negative x h n g in omega (arith, p.0, p.1)
  number x h (inr (n, g)) = let p = ordered_positive x h n g in omega (arith, p.0, p.1)

  below_nan : (x : ℕ) → x < 2 * f.half → ordered_float f x ≤ 2 * f.half - 1
  unfolding Place
  below_nan x h = elim (place x) [
    | inl n ↦ let p = ordered_nan x h n in omega (arith, p)
    | inr p ↦ let l = number x h p in omega (arith, l)
  ]

  pub ordered_float-lt :
      (x y : ℕ)
      → x < 2 * f.half
      → y < 2 * f.half
      → ltb (ordered_float f x) (ordered_float f y) ≡ float_lt f x y
  unfolding Place
  ordered_float-lt x y h j = elim (place x) [
    | inl n ↦ rw n (rw (ordered_nan x h n) (not_lt→ltb _ _ (below_nan y j)))
    | inr (inl (n, g)) ↦ elim (place y) [
      | inl n' ↦ rw n (rw n' (rw (ordered_nan y j n') (lt→ltb _ _ (number x h (inl (n, g))))))
      | inr (inl (n', g')) ↦ rw n (
          rw n' (
            rw g (
              rw g'
                (ltb_flip _ _ _ _ _ (ordered_negative x h n g).0 (ordered_negative y j n' g').0))))
      | inr (inr (n', g')) ↦
          let before = ordered_negative x h n g in
          let after = ordered_positive y j n' g' in
          rw n (rw n' (rw g (rw g' (lt→ltb _ _ (omega (arith, before.0, after.0))))))
    ]
    | inr (inr (n, g)) ↦ elim (place y) [
      | inl n' ↦ rw n (rw n' (rw (ordered_nan y j n') (lt→ltb _ _ (number x h (inr (n, g))))))
      | inr (inl (n', g')) ↦
          let after = ordered_positive x h n g in
          let before = ordered_negative y j n' g' in
          rw n (rw n' (rw g (rw g' (not_lt→ltb _ _ (omega (arith, before.0, after.0))))))
      | inr (inr (n', g')) ↦ rw n (
          rw n' (
            rw g (
              rw g'
                (ltb_shift _ _ _ _ _ (ordered_positive x h n g).0 (ordered_positive y j n' g').0))))
    ]
  ]

pub escape-Decides : (s t : Bytes) → Decides (bytes_lt s t) (bytes_lt t s) (escape s) (escape t)
unfolding escape
escape-Decides [] [] r u = ground arith
escape-Decides [] (y ∷ t) r u = ground arith
escape-Decides (x ∷ s) [] r u = ground arith
escape-Decides (x ∷ s) (y ∷ t) r u = ground (arith, escape-Decides s t r u)

pub fixed-Decides : (s t : Bytes) → length s ≡ length t → Decides (bytes_lt s t) (bytes_lt t s) s t
fixed-Decides [] [] h r u = refl
fixed-Decides [] (y ∷ t) h r u = absurd (omega (arith, h))
fixed-Decides (x ∷ s) [] h r u = absurd (omega (arith, h))
fixed-Decides (x ∷ s) (y ∷ t) h r u = ground (arith, fixed-Decides s t (omega (arith, h)) r u)
