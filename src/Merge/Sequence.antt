-- ===== src/Merge/Sequence.antt =====
-- merge/sequence.go: `Sequence`, the merge of ordered lists as diff3 does it. A slice expression or an
-- index out of range is a panic in the source and `none` here. The loop that looks for the next element
-- all three share, and the loop over such elements, are one recursion over the base's positions.
use snapshot_engine.Shared.{
  ℕ, suc, Bool, true, false, ◌&&◌, ◌||◌, Option, none, some, List, [], ◌∷◌, ◌++◌, map, leb,
  if◌then◌else◌, length, get_elem?, slice, Bytes, bytes_lt, list_eq, ◌==◌, nat_beq,
  bytes_comparable, itoa, String,
}
use snapshot_engine.Merge.Types.{Result, FieldPath}
use snapshot_engine.Merge.Diff.{align}

abbrev pub kept_both : String
kept_both = "both sides inserted here; kept both, in key order"

abbrev pub stretch_changed : String
stretch_changed = "both sides changed this stretch, differently"

abbrev pub too_many_edits : String
too_many_edits =
    "a side changed the list by more than 1000 insertions and deletions, too many to align"

abbrev pub equal_keys : List Bytes → List Bytes → Bool
equal_keys = list_eq

-- Two blocks by the first differing key, then the shorter first.
unfoldable pub less_keys : List Bytes → List Bytes → Bool
less_keys [] [] = false
less_keys [] (y ∷ ys) = true
less_keys (x ∷ xs) [] = false
less_keys (x ∷ xs) (y ∷ ys) = let rest = less_keys xs ys in if x == y then rest else bytes_lt x y

module _ {ℓ} {T : Type ℓ} where
  -- xs[i:j]
  abbrev pub slice? : List T → ℕ → ℕ → Option (List T)
  slice? xs i j = if leb i j && leb j (length xs) then some (slice xs i j) else none

  -- The merge of one stretch, appended to the result.
  unfoldable pub resolve :
      Result (List T)
      → List T
      → List T
      → List T
      → List Bytes
      → List Bytes
      → List Bytes
      → Result (List T)
  resolve r b o t kb ko kt =
      let at : FieldPath = itoa (length r.value) ∷ [] in
      if equal_keys ko kb
      then record r { value = r.value ++ t }
      else if equal_keys kt kb || equal_keys ko kt
      then record r { value = r.value ++ o }
      else if nat_beq (length b) 0
      then record r {
        value = if less_keys ko kt then (r.value ++ o) ++ t else (r.value ++ t) ++ o;
        flagged = r.flagged ++ (record { path = at; reason = kept_both } ∷ []);
      }
      else record r {
        value = r.value ++ b;
        conflicts = r.conflicts ++ (record { path = at; reason = stretch_changed } ∷ []);
      }

-- The positions that each base position is matched to on the two sides.
abbrev pub Matches : Type 0
Matches = List (Option ℕ × Option ℕ)

abbrev pub zip_matches : List (Option ℕ) → List (Option ℕ) → Matches
zip_matches [] mt = []
zip_matches (o ∷ mo) [] = []
zip_matches (o ∷ mo) (t ∷ mt) = (o, t) ∷ zip_matches mo mt

module _ {ℓ} {T : Type ℓ} (key : T → Bytes) where
  -- `resolve` on slices, which panic out of range.
  unfoldable pub resolve_slices :
      Option (List T)
      → Option (List T)
      → Option (List T)
      → Result (List T)
      → Option (Result (List T))
  resolve_slices (some b) (some o) (some t) r =
      some (resolve r b o t (map key b) (map key o) (map key t))
  resolve_slices _ _ _ r = none

-- r.Value = append(r.Value, ours[oj])
abbrev pub push {ℓ} : {T : Type ℓ} → Option (Result (List T)) → Option T → Option (Result (List T))
push (some r) (some x) = some (record r { value = r.value ++ (x ∷ []) })
push _ _ = none

abbrev pub plain {ℓ} : {T : Type ℓ} → List T → Result (List T)
plain xs = record { value = xs; conflicts = []; flagged = [] }

abbrev pub and_then {ℓ} :
    {T : Type ℓ}
    → Option (Result (List T))
    → (Result (List T) → Option (Result (List T)))
    → Option (Result (List T))
and_then none f = none
and_then (some r) f = f r

module _ {ℓ} {T : Type ℓ} (key : T → Bytes) (base ours theirs : List T) where
  -- One stretch, base[i:s], ours[j:oj] and theirs[k:tk].
  abbrev pub stretch : ℕ → ℕ → ℕ → ℕ → ℕ → ℕ → Result (List T) → Option (Result (List T))
  stretch i s j oj k tk r =
      resolve_slices key (slice? base i s) (slice? ours j oj) (slice? theirs k tk) r

  -- The loops: the positions from s on are left; the stretch at hand begins at i, j and k.
  unfoldable pub walk : Matches → ℕ → ℕ → ℕ → ℕ → Result (List T) → Option (Result (List T))
  walk [] s i j k r = stretch i s j (length ours) k (length theirs) r
  walk ((none, _) ∷ rest) s i j k r = walk rest (suc s) i j k r
  walk ((some oj, none) ∷ rest) s i j k r = walk rest (suc s) i j k r
  walk ((some oj, some tk) ∷ rest) s i j k r =
      and_then (push (stretch i s j oj k tk r) (get_elem? ours oj))
        (λ r'. walk rest (suc s) (suc s) (suc oj) (suc tk) r')

  unfoldable pub sequence : Option (Result (List T))
  sequence =
      let kb = map key base in
      let ko = map key ours in
      let kt = map key theirs in
      if equal_keys kt kb || equal_keys ko kt
      then some (plain ours)
      else if equal_keys ko kb
      then some (plain theirs)
      else elim (align kb ko) [
        | none ↦ none
        | some okO ↦ elim (align kb kt) [
          | none ↦ none
          | some okT ↦ elim okO [
            | none ↦ some (record (plain base) {
              conflicts = record { path = []; reason = too_many_edits } ∷ [];
            })
            | some mo ↦ elim okT [
              | none ↦ some (record (plain base) {
                conflicts = record { path = []; reason = too_many_edits } ∷ [];
              })
              | some mt ↦ walk (zip_matches mo mt) 0 0 0 0 (plain [])
            ]
          ]
        ]
      ]
