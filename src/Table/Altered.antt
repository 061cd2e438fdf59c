-- ===== src/Table/Altered.antt =====
-- model/table/alter.go: where a schema can be a table's next, every row of the table has its cells in it.
use snapshot_engine.Shared.{
  ℕ, ◌≡◌, refl, sym, ◌∙◌, Bool, true, false, ◌&&◌, ◌||◌, inl, inr, none, some, List, [], ◌∷◌,
  nat_beq, nat_beq_iff, if◌then◌else◌, any, find, put, find-put, nat_comparable, arith, Bool-cases,
  Option-cases,
}
use snapshot_engine.Table.Schema.{Column, Schema, column}
use snapshot_engine.Table.Cell.{Cell, null, int16, int32, float32, is_null}
use snapshot_engine.Table.CellOrder.{go_type, held_type}
use snapshot_engine.Table.Alter.{
  Row, convertible, widened, convert_cell, convert_columns, convert_row, alterable_columns,
  alterable,
}

-- NULL, or a value of the Go type of the column's values.
abbrev pub has_type : Column → Cell → Bool
has_type c v = is_null v || nat_beq (go_type v) (held_type c.kind)

-- A cell under a tag is in some column of it.
abbrev pub in_column : List Column → ℕ → Cell → Bool
in_column cs t v = any (λ c. nat_beq c.tag t && has_type c v) cs

-- Each cell of a row has the type of its tag's column.
abbrev pub IsTyped : List Column → Row → Type 0
IsTyped cs row =
    (t : ℕ) (v : Cell) (c : Column)
    → find t row ≡ some v
    → column cs t ≡ some c
    → has_type c v ≡ true

alterable_rest :
    (s : Schema) (c : Column) (cs : List Column)
    → alterable_columns s (c ∷ cs) ≡ none
    → alterable_columns s cs ≡ none
unfolding alterable_columns
alterable_rest s c cs h = elim (Option-cases (column s.columns c.tag)) [
  | inl e ↦ ground (arith, e, h)
  | inr (from, e) ↦ ground (arith, e, h)
]

alterable_convertible :
    (s : Schema) (c : Column) (cs : List Column) (from : Column)
    → column s.columns c.tag ≡ some from
    → alterable_columns s (c ∷ cs) ≡ none
    → convertible from c ≡ none
unfolding alterable_columns
alterable_convertible s c cs from e h = ground (arith, e, h)

alterable_all :
    (s next : Schema) → alterable s next ≡ none → alterable_columns s next.columns ≡ none
unfolding alterable
alterable_all s next h = ground (arith, h)

module _ (widen : ℕ → ℕ) where
  widened_type :
      (from to : Column) (v : Cell)
      → convertible from to ≡ none
      → nat_beq from.kind to.kind ≡ false
      → has_type from v ≡ true
      → is_null v ≡ false
      → has_type to (widened widen to v) ≡ true
  unfolding convertible
  widened_type from to (int16 x) h k t n = ground (arith, h, k, t)
  widened_type from to (int32 x) h k t n = ground (arith, h, k, t)
  widened_type from to (float32 x) h k t n = ground (arith, h, k, t)
  widened_type from to null h k t n = cc
  widened_type from to _ h k t n = ground (arith, h, k, t)

  convert_cell_type :
      (from to : Column) (v : Cell)
      → convertible from to ≡ none
      → has_type from v ≡ true
      → (u : Cell) × (convert_cell widen v from to ≡ some u) × (has_type to u ≡ true)
  unfolding convert_cell
  convert_cell_type from to v h t = elim (Bool-cases (is_null v)) [
    | inl n ↦ (v, rw (h, convert_cell) (rw n refl), ground (arith, n))
    | inr n ↦ elim (Bool-cases (nat_beq from.kind to.kind)) [
      | inl k ↦ (v, rw (h, convert_cell) (rw n (rw k refl)), ground (arith, n, k, t))
      | inr k ↦ (
        widened widen to v,
        rw (h, convert_cell) (rw n (rw k refl)),
        widened_type from to v h k t n,
      )
    ]
  ]

  module _ (s : Schema) (all : List Column) (row : Row) (typed : IsTyped s.columns row) where
    HasPlace : Row → Type 0
    HasPlace out = (t : ℕ) (u : Cell) → find t out ≡ some u → in_column all t u ≡ true

    put-HasPlace :
        (c : Column) (u : Cell) (out : Row)
        → in_column all c.tag u ≡ true
        → HasPlace out
        → HasPlace (if is_null u then out else put c.tag u out)
    unfolding HasPlace
    put-HasPlace c u out h p t w f = elim (Bool-cases (is_null u)) [
      | inl n ↦ p t w (sym (rw n refl) ∙ f)
      | inr n ↦
          let found = find-put c.tag t u out in
          let other : find t (put c.tag u out) ≡ some w = sym (rw n refl) ∙ f in
          elim (Bool-cases (nat_beq c.tag t)) [
            | inl e ↦
                let same : u ≡ w = ground (arith, found, other, e) in
                let tags : c.tag ≡ t = (nat_beq_iff c.tag t).0 e in rw⁻¹ same (rw⁻¹ tags h)
            | inr e ↦ p t w (ground (arith, found, other, e))
          ]
    ]

    convert_columns_lem :
        (cs : List Column) (out : Row)
        → ((p : Column → Bool) → any p cs ≡ true → any p all ≡ true)
        → alterable_columns s cs ≡ none
        → HasPlace out
        → (made : Row) × (convert_columns widen s row cs out ≡ some made) × HasPlace made
    unfolding convert_columns
    convert_columns_lem [] out sub h p = (out, refl, p)
    convert_columns_lem (c ∷ cs) out sub h p =
        let sub' : (q : Column → Bool) → any q cs ≡ true → any q all ≡ true =
          λ q e. sub q (ground (arith, e)) in
        let h' = alterable_rest s c cs h in
        elim (Option-cases (find c.tag row)) [
          | inl f ↦
              let (made, e, p') = convert_columns_lem cs out sub' h' p in
              (made, rw (f, convert_columns) e, p')
          | inr (v, f) ↦ elim (Option-cases (column s.columns c.tag)) [
            | inl g ↦
                let (made, e, p') = convert_columns_lem cs out sub' h' p in
                (made, rw (f, convert_columns) (rw g e), p')
            | inr (from, g) ↦
                let (u, conv, t) =
                  convert_cell_type from c v (alterable_convertible s c cs from g h)
                    (typed c.tag v from f g) in
                let held : in_column all c.tag u ≡ true =
                  sub (λ d. nat_beq d.tag c.tag && has_type d u) (ground (arith, t)) in
                let (made, e, p') =
                  convert_columns_lem cs (if is_null u then out else put c.tag u out) sub' h'
                    (put-HasPlace c u out held p) in
                (made, rw (f, convert_columns) (rw g (rw conv e)), p')
          ]
        ]

-- Where `next` can be a table's schema, each row whose cells have their columns' types has a row under `next`, and each
-- cell of that has the type of a column of its tag.
pub alterable-convert_row :
    (widen : ℕ → ℕ) (s next : Schema) (row : Row)
    → alterable s next ≡ none
    → IsTyped s.columns row
    → (made : Row) × (convert_row widen s row next ≡ some made)
      × ((t : ℕ) (u : Cell) → find t made ≡ some u → in_column next.columns t u ≡ true)
unfolding convert_row HasPlace find
alterable-convert_row widen s next row h typed =
    convert_columns_lem widen s next.columns row typed next.columns [] (λ q e. e)
      (alterable_all s next h) (λ t u f. cc)
