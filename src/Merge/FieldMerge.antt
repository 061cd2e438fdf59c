-- ===== src/Merge/FieldMerge.antt =====
-- merge/tree.go: two objects are merged field by field.
use mathlib.Core.Path.{subst}
use snapshot_engine.Shared.{
  ◌≡◌, refl, ap, sym, ◌∙◌, Bool, true, false, not, ◌&&◌, ◌||◌, Option, none, some, List, [], ◌∷◌,
  ◌++◌, arith, if◌then◌else◌, Bytes, bytes_comparable, ◌==◌, find, is_some, Option-cases,
  Bool-cases, inl, inr,
}
use snapshot_engine.Merge.Types.{FieldPath}
use snapshot_engine.Merge.Node.{Node, object, object_of, sort_fields}
use snapshot_engine.Merge.Tree.{Log, Merger, merge_names, merge_fields, sorted_names, with_field}
use snapshot_engine.Merge.FieldLemmas.{find-sort_fields, mem_name, mem_name-sorted_names}

-- `found` is what the merge at the name's own path made of the name's three values, in some state of the log.
abbrev pub MergedAt :
    Merger
    → FieldPath
    → List (Bytes × Node)
    → List (Bytes × Node)
    → List (Bytes × Node)
    → Bytes
    → Option Node
    → Type 0
MergedAt merge_at path fb fo ft name found =
    (log : Log) × (log' : Log) × (merge_at (path ++ (name ∷ [])) (find name fb) (find name fo)
        (find name ft) log
      ≡ some (log', found))

module _ (merge_at : Merger) (path : FieldPath) (fb fo ft : List (Bytes × Node)) where
  -- What a loop that ends has done first.
  record Turn (name : Bytes) (names : List Bytes) (log log' : Log) (out : List (Bytes × Node))
      : Type 0 where
    mid : Log
    found : Option Node
    others : List (Bytes × Node)
    merged :
        merge_at (path ++ (name ∷ [])) (find name fb) (find name fo) (find name ft) log
        ≡ some (mid, found)
    looped : merge_names merge_at path fb fo ft names mid ≡ some (log', others)
    added : out ≡ with_field name found others

  merge_names_cons :
      (name : Bytes) (names : List Bytes) (log log' : Log) (out : List (Bytes × Node))
      → merge_names merge_at path fb fo ft (name ∷ names) log ≡ some (log', out)
      → Turn name names log log' out
  unfolding merge_names
  merge_names_cons name names log log' out e =
      elim (Option-cases
        (merge_at (path ++ (name ∷ [])) (find name fb) (find name fo) (find name ft) log)) [
          | inl m ↦ absurd (ground (arith, m))
          | inr ((mid, found), m) ↦
              elim (Option-cases (merge_names merge_at path fb fo ft names mid)) [
                | inl r ↦ absurd (ground (arith, m, r))
                | inr ((log'', others), r) ↦ record {
                  mid = mid;
                  found = found;
                  others = others;
                  merged = m;
                  looped = ground (arith, m, r);
                  added = ground (arith, m, r);
                }
              ]
        ]

  find-with_field :
      (name x : Bytes) (found : Option Node) (others : List (Bytes × Node))
      → find x (with_field name found others)
        ≡ (if name == x && is_some found then found else find x others)
  unfolding find
  find-with_field name x none others = ground arith
  find-with_field name x (some v) others = ground arith

  not_named :
      (names : List Bytes) (log log' : Log) (out : List (Bytes × Node)) (x : Bytes)
      → merge_names merge_at path fb fo ft names log ≡ some (log', out)
      → mem_name x names ≡ false
      → find x out ≡ none
  unfolding merge_names find
  not_named [] log log' out x e n = ground arith
  not_named (name ∷ names) log log' out x e n =
      let t = merge_names_cons name names log log' out e in
      ap (find x) t.added
      ∙ ground (
        arith,
        find-with_field name x t.found t.others,
        not_named names t.mid log' t.others x t.looped,
      )

  named :
      (names : List Bytes) (log log' : Log) (out : List (Bytes × Node)) (x : Bytes)
      → merge_names merge_at path fb fo ft names log ≡ some (log', out)
      → mem_name x names ≡ true
      → MergedAt merge_at path fb fo ft x (find x out)
  named [] log log' out x e h = cc
  named (name ∷ names) log log' out x e h =
      let t = merge_names_cons name names log log' out e in
      let f : find x out ≡ (if name == x && is_some t.found then t.found else find x t.others) =
        ap (find x) t.added ∙ find-with_field name x t.found t.others in
      let M : Option Node → Type 0 = MergedAt merge_at path fb fo ft x in
      elim (Bool-cases (name == x)) [
        | inl same ↦
            let here : M t.found =
              subst (λ n. MergedAt merge_at path fb fo ft n t.found)
                ((bytes_comparable.eq_iff name x).0 same) (log, t.mid, t.merged) in
            elim (Bool-cases (mem_name x names && not (is_some t.found))) [
              | inl later ↦
                  subst M (sym (f ∙ ground arith))
                    (named names t.mid log' t.others x t.looped (ground arith))
              | inr here_only ↦
                  subst M (sym (f ∙ ground (arith, not_named names t.mid log' t.others x t.looped)))
                    here
            ]
        | inr other ↦
            subst M (sym (f ∙ rw other refl))
              (named names t.mid log' t.others x t.looped (ground arith))
      ]

  names_of : List Bytes
  names_of = sorted_names fb (sorted_names fo (sorted_names ft []))

  -- A name that any of the three objects has.
  abbrev pub is_field : Bytes → Bool
  is_field x = is_some (find x fb) || (is_some (find x fo) || is_some (find x ft))

  mem_name-names_of : (x : Bytes) → mem_name x names_of ≡ is_field x
  unfolding names_of
  mem_name-names_of x = ground (
    arith,
    mem_name-sorted_names x fb (sorted_names fo (sorted_names ft [])),
    mem_name-sorted_names x fo (sorted_names ft []),
    mem_name-sorted_names x ft [],
  )

  merge_names_total :
      (names : List Bytes)
      → ((x : Bytes) (log : Log)
          → is_some (merge_at (path ++ (x ∷ [])) (find x fb) (find x fo) (find x ft) log) ≡ true)
      → (log : Log) → is_some (merge_names merge_at path fb fo ft names log) ≡ true
  unfolding merge_names
  merge_names_total [] h log = refl
  merge_names_total (name ∷ names) h log =
      elim (Option-cases
        (merge_at (path ++ (name ∷ [])) (find name fb) (find name fo) (find name ft) log)) [
          | inl m ↦ absurd (ground (arith, m, h name log))
          | inr ((mid, found), m) ↦
              elim (Option-cases (merge_names merge_at path fb fo ft names mid)) [
                | inl r ↦ absurd (ground (arith, r, merge_names_total names h mid))
                | inr (w, r) ↦ ground (arith, m, r)
              ]
        ]

  -- What the merge of two objects comes to.
  pub record IsMergedObject (log log' : Log) (out : List (Bytes × Node)) : Type 0 where
    pub merged :
        merge_fields merge_at path fb fo ft log ≡ some (log', some (object (object_of out)))
    pub at_field : (x : Bytes) → is_field x ≡ true → MergedAt merge_at path fb fo ft x (find x out)
    pub elsewhere : (x : Bytes) → is_field x ≡ false → find x out ≡ none

  -- Where the merge of every position below gives a result, two objects merge into an object: at a name that one of
  -- the three objects has, it has what the merge at the name's own path makes of the name's three values, and it has
  -- no other name.
  pub merge_fields_lem :
      ((x : Bytes) (log : Log)
        → is_some (merge_at (path ++ (x ∷ [])) (find x fb) (find x fo) (find x ft) log) ≡ true)
      → (log : Log) → (log' : Log) × (out : List (Bytes × Node)) × IsMergedObject log log' out
  unfolding merge_fields names_of
  merge_fields_lem h log = elim (Option-cases (merge_names merge_at path fb fo ft names_of log)) [
    | inl r ↦ absurd (ground (arith, r, merge_names_total names_of h log))
    | inr ((log', out), r) ↦ (
      log',
      sort_fields out,
      record {
        merged = rw (r, merge_fields) refl;
        at_field = λ x e.
            subst (MergedAt merge_at path fb fo ft x) (sym (find-sort_fields x out))
              (named names_of log log' out x r (mem_name-names_of x ∙ e));
        elsewhere = λ x e.
            find-sort_fields x out ∙ not_named names_of log log' out x r (mem_name-names_of x ∙ e);
      },
    )
  ]
