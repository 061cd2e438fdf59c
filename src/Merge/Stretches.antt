-- ===== src/Merge/Stretches.antt =====
-- merge/sequence.go: the loops of `Sequence` end without a panic over matches that go forward.
use snapshot_engine.Shared.{
  ℕ, zero, suc, ◌+◌, ◌≤◌, ◌<◌, ◌≡◌, refl, true, none, some, List, [], ◌∷◌, map, arith, leb, length,
  get_elem?, slice, Bytes, bytes_comparable,
}
use snapshot_engine.Merge.Types.{Result}
use snapshot_engine.Merge.Sequence.{slice?, resolve, resolve_slices, Matches, stretch, walk}

-- The positions that both sides match come in order, from lo and lo' on, below n and n'.
abbrev pub GoForward : ℕ → ℕ → ℕ → ℕ → Matches → Type 0
GoForward lo n lo' n' [] = (lo ≤ n) × (lo' ≤ n')
GoForward lo n lo' n' ((none, _) ∷ ms) = GoForward lo n lo' n' ms
GoForward lo n lo' n' ((some oj, none) ∷ ms) = GoForward lo n lo' n' ms
GoForward lo n lo' n' ((some oj, some tk) ∷ ms) =
    (lo ≤ oj) × (oj < n) × (lo' ≤ tk) × (tk < n') × GoForward (suc oj) n (suc tk) n' ms

get_elem?_total {ℓ} :
    {T : Type ℓ} (xs : List T) (i : ℕ) → i < length xs → (x : T) × (get_elem? xs i ≡ some x)
get_elem?_total [] i h = elim h [ ]
get_elem?_total (x ∷ xs) zero h = (x, refl)
get_elem?_total (x ∷ xs) (suc i) h = get_elem?_total xs i (omega arith)

slice?_total {ℓ} :
    {T : Type ℓ} (xs : List T) (i j : ℕ)
    → i ≤ j
    → j ≤ length xs
    → slice? xs i j ≡ some (slice xs i j)
slice?_total xs i j h k =
    let e : leb i j ≡ true = ground arith in
    let e' : leb j (length xs) ≡ true = ground arith in rw e (rw e' refl)

module _ {ℓ} {T : Type ℓ} (key : T → Bytes) (base ours theirs : List T) where
  stretch_total :
      (i s j oj k tk : ℕ) (r : Result (List T))
      → i ≤ s
      → s ≤ length base
      → j ≤ oj
      → oj ≤ length ours
      → k ≤ tk
      → tk ≤ length theirs
      → (r' : Result (List T)) × (stretch key base ours theirs i s j oj k tk r ≡ some r')
  unfolding resolve_slices
  stretch_total i s j oj k tk r a b c d e f = (
    resolve r (slice base i s) (slice ours j oj) (slice theirs k tk) (map key (slice base i s))
        (map key (slice ours j oj)) (map key (slice theirs k tk)),
    rw (slice?_total base i s a b)
        (rw (slice?_total ours j oj c d) (rw (slice?_total theirs k tk e f) refl)),
  )

  -- Over matches that go forward within both sides, one for each position of the base, the loops of a sequence merge
  -- end with a result: no slice and no index is out of range.
  pub walk_total :
      (ms : Matches) (s i j k : ℕ) (r : Result (List T))
      → i ≤ s
      → s + length ms ≡ length base
      → GoForward j (length ours) k (length theirs) ms
      → (r' : Result (List T)) × (walk key base ours theirs ms s i j k r ≡ some r')
  unfolding walk
  walk_total [] s i j k r h e g =
      stretch_total i s j (length ours) k (length theirs) r h (omega arith) g.0 (omega arith) g.1
        (omega arith)
  walk_total ((none, _) ∷ ms) s i j k r h e g =
      walk_total ms (suc s) i j k r (omega arith) (omega arith) g
  walk_total ((some oj, none) ∷ ms) s i j k r h e g =
      walk_total ms (suc s) i j k r (omega arith) (omega arith) g
  walk_total ((some oj, some tk) ∷ ms) s i j k r h e g =
      let (r', done) =
        stretch_total i s j oj k tk r h (omega arith) g.0 (omega arith) g.2 (omega arith) in
      let (x, found) = get_elem?_total ours oj g.1 in
      rw done (
        rw found
          (walk_total ms (suc s) (suc s) (suc oj) (suc tk) _ (omega arith) (omega arith) g.4))
