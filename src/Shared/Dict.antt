-- ===== src/Shared/Dict.antt =====
-- A Go map as an association list: `find` reads a key, `put` replaces or adds, `remove` deletes.
use mathlib.Core.Path.{◌≡◌, refl}
use mathlib.Core.Option.{Option, none, some}
use mathlib.Core.List.{List, [], ◌∷◌}
use native.Mathlib.Omega.{arith}
use snapshot_engine.Shared.Tests.{Bool-cases, if◌then◌else◌}
use mathlib.Core.Bool.{Bool, true}
use mathlib.Core.Logic.{inl, inr}
use snapshot_engine.Shared.Lists.{any}
use snapshot_engine.Shared.Keys.{eq_self, Comparable, ◌==◌}

module _ {ℓ κ} {K : Type ℓ} {V : Type κ} ⦃c : Comparable K⦄ where
  unfoldable pub find : K → List (K × V) → Option V
  find k [] = none
  find k ((j, v) ∷ d) = if j == k then some v else find k d

  unfoldable pub put : K → V → List (K × V) → List (K × V)
  put k v [] = (k, v) ∷ []
  put k v ((j, w) ∷ d) = if j == k then (k, v) ∷ d else (j, w) ∷ put k v d

  unfoldable pub remove : K → List (K × V) → List (K × V)
  remove k [] = []
  remove k ((j, w) ∷ d) = let rest = remove k d in if j == k then rest else (j, w) ∷ rest

  pub find-put :
      (k j : K) (v : V) (d : List (K × V))
      → find j (put k v d) ≡ (if k == j then some v else find j d)
  unfolding find put
  find-put k j v [] = refl
  find-put k j v ((i, w) ∷ d) =
      ground (arith, c.eq_iff k j, c.eq_iff i k, c.eq_iff i j, find-put k j v d)

  pub find-remove :
      (k j : K) (d : List (K × V)) → find j (remove k d) ≡ (if k == j then none else find j d)
  unfolding find remove
  find-remove k j [] = ground arith
  find-remove k j ((i, w) ∷ d) =
      ground (arith, c.eq_iff k j, c.eq_iff i k, c.eq_iff i j, find-remove k j d)

  -- Every key of the list stands in it once.
  abbrev pub IsUnique : List (K × V) → Type κ
  IsUnique [] = Unit
  IsUnique ((k, v) ∷ d) = (find k d ≡ none) × IsUnique d

  pub put-IsUnique : (k : K) (v : V) (d : List (K × V)) → IsUnique d → IsUnique (put k v d)
  unfolding find put
  put-IsUnique k v [] h = (refl, tt)
  put-IsUnique k v ((j, w) ∷ d) h = elim (Bool-cases (j == k)) [
    | inl e ↦ rw e (rw ((c.eq_iff j k).0 e) at h.0, h.1)
    | inr e ↦
        rw e (
          ground (arith, find-put k j v d, c.eq_iff j k, c.eq_iff k j, h.0),
          put-IsUnique k v d h.1,
        )
  ]

  pub remove-IsUnique : (k : K) (d : List (K × V)) → IsUnique d → IsUnique (remove k d)
  unfolding remove
  remove-IsUnique k [] h = tt
  remove-IsUnique k ((j, w) ∷ d) h = elim (Bool-cases (j == k)) [
    | inl e ↦ rw e (remove-IsUnique k d h.1)
    | inr e ↦ rw e (ground (arith, find-remove k j d, h.0), remove-IsUnique k d h.1)
  ]

  -- A test that some entry passes is passed by the value that the map holds under some key.
  pub find_of_any :
      (f : K × V → Bool) (d : List (K × V))
      → IsUnique d
      → any f d ≡ true
      → (k : K) × (v : V) × (find k d ≡ some v) × (f (k, v) ≡ true)
  unfolding find
  find_of_any f [] h e = cc
  find_of_any f ((j, w) ∷ d) h e = elim (Bool-cases (f (j, w))) [
    | inl t ↦ (j, w, rw (eq_self j), t)
    | inr t ↦
        let (k, v, found, fits) = find_of_any f d h.1 (rw t at e) in
        (k, v, ground (arith, c.eq_iff j k, h.0), fits)
  ]

  pub any_of_find :
      (f : K × V → Bool) (d : List (K × V)) (k : K) (v : V)
      → find k d ≡ some v
      → f (k, v) ≡ true
      → any f d ≡ true
  unfolding find
  any_of_find f [] k v h e = cc
  any_of_find f ((j, w) ∷ d) k v h e = ground (arith, c.eq_iff j k, any_of_find f d k v)
