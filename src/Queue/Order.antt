-- ===== src/Queue/Order.antt =====
-- engine/queue.go: `take` removes the next batch from the front, in order.
use snapshot_engine.Shared.{
  ℕ, zero, suc, ◌-◌, ◌≤◌, ◌<◌, ◌≡◌, refl, ap, sym, ◌∙◌, true, false, inl, inr, List, [], ◌∷◌, ◌++◌,
  arith, length, take, drop, Bool-cases, take-append-drop,
}
use snapshot_engine.Queue.Turns.{max_batch, Queued, row, batch_size, mark_taken, take_batch}

abbrev pub idents : List Queued → List ℕ
idents [] = []
idents (c ∷ cs) = c.ident ∷ idents cs

abbrev pub AllTx : List Queued → Type 0
AllTx [] = Unit
AllTx (c ∷ cs) = (c.is_tx ≡ true) × AllTx cs

-- The calls begin with one that is no transaction, if there are any.
abbrev pub StopsTx : List Queued → Type 0
StopsTx [] = Unit
StopsTx (c ∷ cs) = c.is_tx ≡ false

idents-mark_taken : (cs : List Queued) → idents (mark_taken cs) ≡ idents cs
idents-mark_taken [] = refl
idents-mark_taken (c ∷ cs) = ap (λ r. c.ident ∷ r) (idents-mark_taken cs)

idents-append : (cs ds : List Queued) → idents (cs ++ ds) ≡ idents cs ++ idents ds
idents-append [] ds = refl
idents-append (c ∷ cs) ds = ap (λ r. c.ident ∷ r) (idents-append cs ds)

length-mark_taken : (cs : List Queued) → length (mark_taken cs) ≡ length cs
length-mark_taken [] = refl
length-mark_taken (c ∷ cs) = ap suc (length-mark_taken cs)

row-le : (room : ℕ) (cs : List Queued) → (row room cs ≤ room) × (row room cs ≤ length cs)
unfolding row
row-le zero cs = omega arith
row-le (suc room) [] = omega arith
row-le (suc room) (c ∷ cs) = ground (arith, row-le room cs)

length-take_eq : (n : ℕ) (cs : List Queued) → n ≤ length cs → length (take n cs) ≡ n
length-take_eq zero cs h = refl
length-take_eq (suc n) [] h = elim h [ ]
length-take_eq (suc n) (c ∷ cs) h = ap suc (length-take_eq n cs (omega arith))

row-AllTx : (room : ℕ) (cs : List Queued) → AllTx (mark_taken (take (row room cs) cs))
unfolding row
row-AllTx zero cs = tt
row-AllTx (suc room) [] = tt
row-AllTx (suc room) (c ∷ cs) = elim (Bool-cases c.is_tx) [
  | inl e ↦ rw (e, row) (refl, row-AllTx room cs)
  | inr e ↦ rw (e, row) tt
]

row-StopsTx : (room : ℕ) (cs : List Queued) → row room cs < room → StopsTx (drop (row room cs) cs)
unfolding row
row-StopsTx zero cs h = elim h [ ]
row-StopsTx (suc room) [] h = tt
row-StopsTx (suc room) (c ∷ cs) h = elim (Bool-cases c.is_tx) [
  | inl e ↦ rw (e, row) (row-StopsTx room cs (ground arith))
  | inr e ↦ rw (e, row) refl
]

batch_size-le :
    (c : Queued) (cs : List Queued)
    → (1 ≤ batch_size (c ∷ cs))
      × (batch_size (c ∷ cs) ≤ max_batch)
      × (batch_size (c ∷ cs) ≤ length (c ∷ cs))
unfolding batch_size
batch_size-le c cs =
    let l = row-le (max_batch - 1) cs in
    elim (Bool-cases c.is_tx) [
      | inl e ↦ rw e (omega (arith, l), omega (arith, l), omega (arith, l))
      | inr e ↦ rw e (omega arith, omega arith, omega arith)
    ]

-- `take` splits what waits: the batch and the rest, in order, are the calls that waited, none lost
-- and none twice. The batch has one call at least and 64 at most.
pub take_batch_order :
    (c : Queued) (cs : List Queued)
    → (idents (take_batch (c ∷ cs)).0 ++ idents (take_batch (c ∷ cs)).1 ≡ idents (c ∷ cs))
      × (1 ≤ length (take_batch (c ∷ cs)).0)
      × (length (take_batch (c ∷ cs)).0 ≤ max_batch)
unfolding take_batch
take_batch_order c cs =
    let n = batch_size (c ∷ cs) in
    let ws = c ∷ cs in
    let l : length (mark_taken (take n ws)) ≡ n =
      length-mark_taken (take n ws) ∙ length-take_eq n ws (batch_size-le c cs).2 in
    (
      ap (λ r. r ++ idents (drop n ws)) (idents-mark_taken (take n ws))
          ∙ sym (idents-append (take n ws) (drop n ws))
          ∙ ap idents (take-append-drop n ws),
      omega (arith, l, batch_size-le c cs),
      omega (arith, l, batch_size-le c cs),
    )

-- What a batch holds: a session's call alone, or else transactions alone, as many as stand in a row at the
-- front: a batch below 64 ends where the transactions do.
pub take_batch_kind :
    (c : Queued) (cs : List Queued)
    → (c.is_tx ≡ false → idents (take_batch (c ∷ cs)).0 ≡ c.ident ∷ [])
      × (c.is_tx ≡ true → AllTx (take_batch (c ∷ cs)).0)
      × (c.is_tx ≡ true
          → length (take_batch (c ∷ cs)).0 < max_batch
          → StopsTx (take_batch (c ∷ cs)).1)
unfolding take_batch batch_size
take_batch_kind c cs =
    let r = row (max_batch - 1) cs in
    (
      λ e. rw e refl,
      λ e. rw e (refl, row-AllTx (max_batch - 1) cs),
      λ e. rw e (λ short. row-StopsTx (max_batch - 1) cs (
          omega (
            arith,
            short,
            length-mark_taken (take r cs),
            length-take_eq r cs (row-le (max_batch - 1) cs).1,
          ))),
    )
