-- ===== src/Merge/Align.antt =====
-- merge/sequence.go: `align`, Myers' difference algorithm in linear space over interned keys. An
-- index off + k of the paths, k a diagonal that may be negative, is one number here, `i`; y = x - k is
-- x + off - i, which is not negative on a path. A position matched to none, -1 in the source, is `none`.
use snapshot_engine.Shared.{
  ℕ, zero, suc, ◌+◌, ◌-◌, ◌*◌, ◌%◌, Bool, not, ◌&&◌, ◌||◌, Option, none, some, List, [], ◌∷◌, ltb,
  leb, nat_beq, if◌then◌else◌, length, get_or, set, Bytes, find, put, bytes_comparable,
}

abbrev pub max_sequence_edits : ℕ
max_sequence_edits = 1000

-- The numbers of the keys, and the keys numbered so far.
unfoldable pub intern : List (Bytes × ℕ) → List Bytes → List (Bytes × ℕ) × List ℕ
intern ids [] = (ids, [])
intern ids (k ∷ ks) =
    let id : ℕ = elim (find k ids) [ none ↦ length ids | some i ↦ i ] in
    let ids' : List (Bytes × ℕ) = elim (find k ids) [ none ↦ put k id ids | some i ↦ ids ] in
    let (last, out) = intern ids' ks in (last, id ∷ out)

pub record Aligner : Type 0 where
  pub a : List ℕ
  pub b : List ℕ
  pub out : List (Option ℕ)
  pub fwd : List ℕ
  pub bwd : List ℕ
  pub off : ℕ

-- What `middle` returns.
pub record Snake : Type 0 where
  pub d : ℕ
  pub sx : ℕ
  pub sy : ℕ
  pub ex : ℕ
  pub ey : ℕ

-- A rectangle a[x0:x1] against b[y0:y1].
pub record Box : Type 0 where
  pub x0 : ℕ
  pub x1 : ℕ
  pub y0 : ℕ
  pub y1 : ℕ

module _ (s : Aligner) (r : Box) where
  abbrev width : ℕ
  width = r.x1 - r.x0

  abbrev height : ℕ
  height = r.y1 - r.y0

  -- The matches that follow x, y: how far x gets. The fuel is the room left in the rectangle.
  unfoldable pub forward_run : ℕ → ℕ → ℕ → ℕ
  forward_run zero x y = x
  forward_run (suc fuel) x y =
      let rest = forward_run fuel (x + 1) (y + 1) in
      if ltb x width && ltb y height && nat_beq (get_or s.a (r.x0 + x) 0) (get_or s.b (r.y0 + y) 0)
      then rest
      else x

  unfoldable pub backward_run : ℕ → ℕ → ℕ → ℕ
  backward_run zero x y = x
  backward_run (suc fuel) x y =
      let rest = backward_run fuel (x + 1) (y + 1) in
      if ltb x width
        && ltb y height
        && nat_beq (get_or s.a (r.x1 - 1 - x) 0) (get_or s.b (r.y1 - 1 - y) 0)
      then rest
      else x

  -- delta & 1 != 0, delta being width - height
  abbrev odd : Bool
  odd = nat_beq ((width + height) % 2) 1

  -- The furthest point of a path of dd edits on the diagonal i, before its matches.
  unfoldable pub furthest : List ℕ → ℕ → ℕ → ℕ
  furthest path dd i =
      if not (nat_beq (i + dd) s.off)
        && (nat_beq i (s.off + dd) || leb (get_or path (i + 1) 0) (get_or path (i - 1) 0))
      then get_or path (i - 1) 0 + 1
      else get_or path (i + 1) 0

  -- The diagonal that the other search meets i on, off + (delta - k), and whether that search, of edits
  -- at most e - 1, has been there.
  abbrev meets : ℕ → ℕ → Bool
  meets e i =
      ltb (s.off + (height + i)) (2 * s.off + width + e)
      && ltb (2 * s.off + width) (s.off + e + (height + i))

  abbrev other_diagonal : ℕ → ℕ
  other_diagonal i = 2 * s.off + width - (height + i)

-- One search's loop over the diagonals, `count` left: the paths, and the snake where it met the other.
unfoldable pub forward_loop : Box → ℕ → ℕ → ℕ → Aligner → Aligner × Option Snake
forward_loop r dd zero i s = (s, none)
forward_loop r dd (suc count) i s =
    let bx = furthest s r s.fwd dd i in
    let by' = bx + s.off - i in
    let x = forward_run s r (width s r - bx) bx by' in
    let y = x + s.off - i in
    let s' : Aligner = record s { fwd = set s.fwd i x } in
    let rest = forward_loop r dd count (i + 2) s' in
    if odd s r && meets s r dd i && leb (width s r) (x + get_or s.bwd (other_diagonal s r i) 0)
    then (
      s',
      some (record {
        d = 2 * dd - 1;
        sx = r.x0 + bx;
        sy = r.y0 + by';
        ex = r.x0 + x;
        ey = r.y0 + y;
      }),
    )
    else rest

unfoldable pub backward_loop : Box → ℕ → ℕ → ℕ → Aligner → Aligner × Option Snake
backward_loop r dd zero i s = (s, none)
backward_loop r dd (suc count) i s =
    let bx = furthest s r s.bwd dd i in
    let by' = bx + s.off - i in
    let x = backward_run s r (width s r - bx) bx by' in
    let y = x + s.off - i in
    let s' : Aligner = record s { bwd = set s.bwd i x } in
    let rest = backward_loop r dd count (i + 2) s' in
    if not (odd s r)
      && meets s r (dd + 1) i
      && leb (width s r) (x + get_or s.fwd (other_diagonal s r i) 0)
    then (
      s',
      some (record { d = 2 * dd; sx = r.x1 - x; sy = r.y1 - y; ex = r.x1 - bx; ey = r.y1 - by' }),
    )
    else rest

abbrev no_snake : Snake
no_snake = record { d = max_sequence_edits + 1; sx = 0; sy = 0; ex = 0; ey = 0 }

-- The rounds dd of `middle`, `count` left.
unfoldable pub middle_rounds : Box → ℕ → ℕ → Aligner → Aligner × Snake
middle_rounds r zero dd s = (s, no_snake)
middle_rounds r (suc count) dd s =
    let (s1, met) = forward_loop r dd (dd + 1) (s.off - dd) s in
    elim met [
      | some n ↦ (s1, n)
      | none ↦
          let (s2, met') = backward_loop r dd (dd + 1) (s1.off - dd) s1 in
          elim met' [ some n ↦ (s2, n) | none ↦ middle_rounds r count (dd + 1) s2 ]
    ]

unfoldable pub middle : Box → Aligner → Aligner × Snake
middle r s =
    middle_rounds r s.off 0
      (record s { fwd = set s.fwd (s.off + 1) 0; bwd = set s.bwd (s.off + 1) 0 })
