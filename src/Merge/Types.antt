-- ===== src/Merge/Types.antt =====
-- merge/merge.go: the result of a merge. A path's segments are Go strings, so bytes; a reason is one of
-- the texts that the package writes.
use snapshot_engine.Shared.{Bool, true, false, List, [], ◌∷◌, String, Bytes}

abbrev pub FieldPath : Type 0
FieldPath = List Bytes

pub record Conflict : Type 0 where
  pub path : FieldPath
  pub reason : String

pub record Result {ℓ} (T : Type ℓ) : Type ℓ where
  pub value : T
  pub conflicts : List Conflict
  pub flagged : List Conflict

abbrev pub clean {ℓ} : {T : Type ℓ} → Result T → Bool
clean r = elim r.conflicts [ [] ↦ true | _ ∷ _ ↦ false ]
