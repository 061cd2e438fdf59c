-- ===== src/Merge/Symmetry.antt =====
-- merge/sequence.go: a sequence merge does not depend on which side is ours.
use snapshot_engine.Shared.{
  ℕ, suc, ◌≡◌, refl, ap, sym, ◌∙◌, false, not, Option, none, some, List, [], ◌∷◌, ◌++◌, map, arith,
  length, get_elem?, Bytes, bytes_lt, list_eq_iff, ◌==◌, bytes_comparable,
}
use snapshot_engine.Merge.Types.{Result}
use snapshot_engine.Merge.Sequence.{
  equal_keys, less_keys, slice?, resolve, resolve_slices, push, and_then, Matches, stretch, walk,
}

bytes_lt_flip : (x y : Bytes) → (x == y) ≡ false → bytes_lt x y ≡ not (bytes_lt y x)
bytes_lt_flip [] [] e = cc
bytes_lt_flip [] (y ∷ ys) e = refl
bytes_lt_flip (x ∷ xs) [] e = refl
bytes_lt_flip (x ∷ xs) (y ∷ ys) e = ground (arith, bytes_lt_flip xs ys)

-- Of two different blocks exactly one comes first.
pub less_keys_flip :
    (a b : List Bytes) → equal_keys a b ≡ false → less_keys a b ≡ not (less_keys b a)
unfolding less_keys
less_keys_flip [] [] e = cc
less_keys_flip [] (y ∷ ys) e = refl
less_keys_flip (x ∷ xs) [] e = refl
less_keys_flip (x ∷ xs) (y ∷ ys) e = ground (
  arith,
  less_keys_flip xs ys,
  bytes_lt_flip x y,
  bytes_comparable.eq_iff x y,
  bytes_comparable.eq_iff y x,
)

map-append {ℓ} :
    {T : Type ℓ} (key : T → Bytes) (xs ys : List T) → map key (xs ++ ys) ≡ map key xs ++ map key ys
map-append key [] ys = refl
map-append key (x ∷ xs) ys = ap (λ r. key x ∷ r) (map-append key xs ys)

length-map {ℓ} : {T : Type ℓ} (key : T → Bytes) (xs : List T) → length (map key xs) ≡ length xs
length-map key [] = refl
length-map key (x ∷ xs) = ap suc (length-map key xs)

-- A result with its elements' keys in their place.
abbrev pub keyed {ℓ} : {T : Type ℓ} → (T → Bytes) → Result (List T) → Result (List Bytes)
keyed key r = record { value = map key r.value; conflicts = r.conflicts; flagged = r.flagged }

abbrev pub keyed? {ℓ} :
    {T : Type ℓ} → (T → Bytes) → Option (Result (List T)) → Option (Result (List Bytes))
keyed? key none = none
keyed? key (some r) = some (keyed key r)

-- The keys of a resolved stretch are those of the stretch of keys.
keyed-resolve {ℓ} :
    {T : Type ℓ} (key : T → Bytes) (r : Result (List T)) (b o t : List T)
    → keyed key (resolve r b o t (map key b) (map key o) (map key t))
      ≡ resolve
          (keyed key r)
          (map key b)
          (map key o)
          (map key t)
          (map key b)
          (map key o)
          (map key t)
unfolding resolve
keyed-resolve key r b o t = ground (
  arith,
  length-map key b,
  length-map key r.value,
  map-append key r.value o,
  map-append key r.value t,
  map-append key r.value b,
  map-append key (r.value ++ o) t,
  map-append key (r.value ++ t) o,
)

resolve_comm :
    (r : Result (List Bytes)) (b o t : List Bytes) → resolve r b o t b o t ≡ resolve r b t o b t o
unfolding resolve
resolve_comm r b o t =
    ground (
      arith,
      list_eq_iff o b,
      list_eq_iff t b,
      list_eq_iff o t,
      list_eq_iff t o,
      less_keys_flip o t,
    )

abbrev pub swap_matches : Matches → Matches
swap_matches [] = []
swap_matches ((o, t) ∷ ms) = (t, o) ∷ swap_matches ms

resolved_comm {ℓ} :
    {T : Type ℓ} (key : T → Bytes) (r r' : Result (List T)) (b o t : List T)
    → keyed key r ≡ keyed key r'
    → keyed key (resolve r b o t (map key b) (map key o) (map key t))
      ≡ keyed key (resolve r' b t o (map key b) (map key t) (map key o))
resolved_comm key r r' b o t e =
    keyed-resolve key r b o t
    ∙ ap (λ q. resolve q (map key b) (map key o) (map key t) (map key b) (map key o) (map key t)) e
    ∙ resolve_comm (keyed key r') (map key b) (map key o) (map key t)
    ∙ sym (keyed-resolve key r' b t o)

resolve_slices_comm {ℓ} :
    {T : Type ℓ} (key : T → Bytes) (b o t : Option (List T)) (r r' : Result (List T))
    → keyed key r ≡ keyed key r'
    → keyed? key (resolve_slices key b o t r) ≡ keyed? key (resolve_slices key b t o r')
unfolding resolve_slices
resolve_slices_comm key (some b) (some o) (some t) r r' e = ap some (resolved_comm key r r' b o t e)
resolve_slices_comm key none o t r r' e = ground arith
resolve_slices_comm key (some b) none t r r' e = ground arith
resolve_slices_comm key (some b) (some o) none r r' e = ground arith

push_comm {ℓ} :
    {T : Type ℓ} (key : T → Bytes) (m m' : Option (Result (List T))) (x y : T)
    → keyed? key m ≡ keyed? key m'
    → key x ≡ key y
    → keyed? key (push m (some x)) ≡ keyed? key (push m' (some y))
push_comm key none none x y e k = refl
push_comm key none (some r') x y e k = cc
push_comm key (some r) none x y e k = cc
push_comm key (some r) (some r') x y e k =
    ground (arith, map-append key r.value (x ∷ []), map-append key r'.value (y ∷ []))

and_then_comm {ℓ} :
    {T : Type ℓ} (key : T → Bytes) (m m' : Option (Result (List T)))
    (f g : Result (List T) → Option (Result (List T)))
    → keyed? key m ≡ keyed? key m'
    → ((r r' : Result (List T)) → keyed key r ≡ keyed key r' → keyed? key (f r) ≡ keyed? key (g r'))
    → keyed? key (and_then m f) ≡ keyed? key (and_then m' g)
and_then_comm key none none f g e h = refl
and_then_comm key none (some r') f g e h = cc
and_then_comm key (some r) none f g e h = cc
and_then_comm key (some r) (some r') f g e h = let d : keyed key r ≡ keyed key r' = cc in h r r' d

module _ {ℓ} {T : Type ℓ} (key : T → Bytes) (base : List T) where
  -- Every position matched on both sides names an element of each, and the two have one key.
  abbrev pub AreMatched : List T → List T → Matches → Type ℓ
  AreMatched ours theirs [] = Unit
  AreMatched ours theirs ((none, _) ∷ ms) = AreMatched ours theirs ms
  AreMatched ours theirs ((some oj, none) ∷ ms) = AreMatched ours theirs ms
  AreMatched ours theirs ((some oj, some tk) ∷ ms) =
      ((x : T) × (y : T) × (get_elem? ours oj ≡ some x)
        × (get_elem? theirs tk ≡ some y)
        × (key x ≡ key y))
      × AreMatched ours theirs ms

  -- The loops of a sequence merge, over matches that name elements of one key, give the same keys, the same conflicts
  -- and the same flags with the sides exchanged, or they panic both.
  pub walk_comm :
      (ours theirs : List T) (ms : Matches) (s i j k : ℕ) (r r' : Result (List T))
      → AreMatched ours theirs ms
      → keyed key r ≡ keyed key r'
      → keyed? key (walk key base ours theirs ms s i j k r)
        ≡ keyed? key (walk key base theirs ours (swap_matches ms) s i k j r')
  unfolding walk
  walk_comm ours theirs [] s i j k r r' h e =
      resolve_slices_comm key (slice? base i s) (slice? ours j (length ours))
        (slice? theirs k (length theirs)) r r' e
  walk_comm ours theirs ((none, none) ∷ ms) s i j k r r' h e =
      walk_comm ours theirs ms (suc s) i j k r r' h e
  walk_comm ours theirs ((none, some tk) ∷ ms) s i j k r r' h e =
      walk_comm ours theirs ms (suc s) i j k r r' h e
  walk_comm ours theirs ((some oj, none) ∷ ms) s i j k r r' h e =
      walk_comm ours theirs ms (suc s) i j k r r' h e
  walk_comm ours theirs ((some oj, some tk) ∷ ms) s i j k r r' h e =
      let (x, y, ex, ey, same) = h.0 in
      and_then_comm key (push (stretch key base ours theirs i s j oj k tk r) (get_elem? ours oj))
        (push (stretch key base theirs ours i s k tk j oj r') (get_elem? theirs tk))
        (λ q. walk key base ours theirs ms (suc s) (suc s) (suc oj) (suc tk) q)
        (λ q. walk key base theirs ours (swap_matches ms) (suc s) (suc s) (suc tk) (suc oj) q)
        (rw ex (
          rw ey (
            push_comm key (stretch key base ours theirs i s j oj k tk r)
              (stretch key base theirs ours i s k tk j oj r') x y
              (resolve_slices_comm key (slice? base i s) (slice? ours j oj) (slice? theirs k tk) r
                r' e)
              same)))
        (λ q q'. walk_comm ours theirs ms (suc s) (suc s) (suc oj) (suc tk) q q' h.1)
