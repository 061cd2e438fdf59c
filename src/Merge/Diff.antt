-- ===== src/Merge/Diff.antt =====
-- merge/sequence.go: the divide and conquer of `align` over `middle`. Each call of `diff` takes fuel, one
-- more than the size of its rectangle is enough; `none` means that it ran out.
use snapshot_engine.Shared.{
  ℕ, zero, suc, ◌+◌, ◌-◌, ◌*◌, ◌/◌, ◌≡◌, refl, Bool, true, false, ◌&&◌, Option, none, some, List,
  [], ◌∷◌, ltb, nat_beq, if◌then◌else◌, length, get_or, set, replicate, Bytes, codes, find, put,
}
use snapshot_engine.Merge.Align.{
  max_sequence_edits, intern, Aligner, Box, forward_run, backward_run, furthest, forward_loop,
  backward_loop, middle_rounds, middle,
}

-- out[x] = y
abbrev match_at : Aligner → ℕ → ℕ → Aligner
match_at s x y = record s { out = set s.out x (some y) }

-- The common prefix of a rectangle, matched: what is left of the rectangle.
unfoldable pub match_prefix : ℕ → Box → Aligner → Box × Aligner
match_prefix zero r s = (r, s)
match_prefix (suc fuel) r s =
    let rest =
      match_prefix fuel (record r { x0 = r.x0 + 1; y0 = r.y0 + 1 }) (match_at s r.x0 r.y0) in
    if ltb r.x0 r.x1 && ltb r.y0 r.y1 && nat_beq (get_or s.a r.x0 0) (get_or s.b r.y0 0)
    then rest
    else (r, s)

unfoldable pub match_suffix : ℕ → Box → Aligner → Box × Aligner
match_suffix zero r s = (r, s)
match_suffix (suc fuel) r s =
    let rest =
      match_suffix fuel (record r { x1 = r.x1 - 1; y1 = r.y1 - 1 })
        (match_at s (r.x1 - 1) (r.y1 - 1)) in
    if ltb r.x0 r.x1 && ltb r.y0 r.y1 && nat_beq (get_or s.a (r.x1 - 1) 0) (get_or s.b (r.y1 - 1) 0)
    then rest
    else (r, s)

-- The run of matches from x, y on, `count` long.
unfoldable pub match_snake : ℕ → ℕ → ℕ → Aligner → Aligner
match_snake zero x y s = s
match_snake (suc count) x y s = match_snake count (x + 1) (y + 1) (match_at s x y)

-- `diff`: false where a rectangle differs by more than its limit.
unfoldable pub diff : ℕ → Box → ℕ → Aligner → Option (Bool × Aligner)
diff zero r limit s = none
diff (suc fuel) r limit s =
    let (r1, s1) = match_prefix (r.x1 - r.x0) r s in
    let (r2, s2) = match_suffix (r1.x1 - r1.x0) r1 s1 in
    elim (nat_beq r2.x0 r2.x1) [
      | true ↦ some (true, s2)
      | false ↦ elim (nat_beq r2.y0 r2.y1) [
        | true ↦ some (true, s2)
        | false ↦
            let (s3, n) = middle r2 s2 in
            elim (ltb limit n.d) [
              | true ↦ some (false, s3)
              | false ↦
                  let s4 = match_snake (n.ex - n.sx) n.sx n.sy s3 in
                  elim (diff fuel (record r2 { x1 = n.sx; y1 = n.sy }) n.d s4) [
                    | none ↦ none
                    | some (false, s5) ↦ some (false, s5)
                    | some (true, s5) ↦ diff fuel (record r2 { x0 = n.ex; y0 = n.ey }) n.d s5
                  ]
            ]
      ]
    ]

abbrev smaller : ℕ → ℕ → ℕ
smaller m n = if ltb n m then n else m

-- (min(len(base) + len(side), MaxSequenceEdits) + 1) / 2 + 1
abbrev offset : ℕ → ℕ
offset size = (smaller size max_sequence_edits + 1) / 2 + 1

-- `align`: the positions of side that base's are matched to, or `some none`, the source's false.
unfoldable pub align : List Bytes → List Bytes → Option (Option (List (Option ℕ)))
align base side =
    let (ids, a) = intern [] base in
    let (_, b) = intern ids side in
    let size = length base + length side in
    let off = offset size in
    let s : Aligner = record {
      a = a;
      b = b;
      out = replicate (length base) none;
      fwd = replicate (2 * off + 1) 0;
      bwd = replicate (2 * off + 1) 0;
      off = off;
    } in
    elim (diff (size + 1) (record { x0 = 0; x1 = length base; y0 = 0; y1 = length side })
      max_sequence_edits s) [
        | none ↦ none
        | some (true, s') ↦ some (some s'.out)
        | some (false, _) ↦ some none
      ]

-- One character to a key.
abbrev keys : Bytes → List Bytes
keys [] = []
keys (c ∷ cs) = (c ∷ []) ∷ keys cs

-- abcabba against cbabac: four of the letters are matched.
align_letters :
    align (keys (codes "abcabba")) (keys (codes "cbabac"))
    ≡ some (some (none ∷ some 1 ∷ none ∷ some 2 ∷ some 3 ∷ none ∷ some 4 ∷ []))
unfolding align intern diff match_prefix match_suffix match_snake middle middle_rounds forward_loop
    backward_loop forward_run backward_run furthest find put
align_letters = refl
