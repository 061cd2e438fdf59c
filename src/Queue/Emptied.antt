-- ===== src/Queue/Emptied.antt =====
-- engine/queue.go: the queue never stops while a call is in it.
use snapshot_engine.Shared.{
  ℕ, zero, suc, ◌≡◌, refl, ap, ◌∙◌, Bool, true, false, ◌⊎◌, inl, inr, List, [], ◌∷◌, ◌++◌, arith,
  Bool-cases, length,
}
use snapshot_engine.Queue.Turns.{
  Queued, BranchQueue, all_done, start, finish, hand_on, leave, Move, withdrew, received, started,
  finished, handed_on, left, Reach,
}
use snapshot_engine.Queue.Sound.{Mode, Reach-IsSound}
use snapshot_engine.Queue.Weights.{counted, all_staying}
use snapshot_engine.Queue.Progress.{Reach-counted}

-- The move is not the withdrawal of a call whose context ended.
abbrev pub IsOwn : {q r : BranchQueue} → Move q r → Type 0
IsOwn (withdrew before c after e t) = ⊥
IsOwn (received before c after e t) = Unit
IsOwn (started before c after e t) = Unit
IsOwn (finished before front c back after e d n) = Unit
IsOwn (handed_on before batch after e d) = Unit
IsOwn (left n e) = Unit

-- Some caller in the queue may move, whether or not any context ends.
abbrev pub Moves : BranchQueue → Type 0
Moves q = (r : BranchQueue) × (m : Move q r) × IsOwn m

-- The first call of a batch with no outcome.
record Unfinished (b : List Queued) : Type 0 where
  front : List Queued
  call : Queued
  back : List Queued
  parts : b ≡ front ++ (call ∷ back)
  fronts_done : all_done front ≡ true
  waits : call.done ≡ false

unfinished : (b : List Queued) → (all_done b ≡ true) ⊎ Unfinished b
unfinished [] = inl refl
unfinished (c ∷ cs) = elim (Bool-cases c.done) [
  | inr e ↦
      inr (record { front = []; call = c; back = cs; parts = refl; fronts_done = refl; waits = e })
  | inl e ↦ elim (unfinished cs) [
    | inl all ↦ inl (ground (arith, e, all))
    | inr u ↦ inr (record {
      front = c ∷ u.front;
      call = u.call;
      back = u.back;
      parts = ap (λ r. c ∷ r) u.parts;
      fronts_done = ground (arith, e, u.fronts_done);
      waits = u.waits;
    })
  ]
]

batch-Moves :
    (q : BranchQueue) (b : List Queued) (bs : List (List Queued)) → q.batches ≡ b ∷ bs → Moves q
batch-Moves q b bs e = elim (unfinished b) [
  | inl all ↦ (hand_on [] b bs q, handed_on [] b bs e all, tt)
  | inr u ↦ (
    finish [] u.front u.call u.back bs q,
    finished [] u.front u.call u.back bs (e ∙ ap (λ r. r ∷ bs) u.parts) u.fronts_done u.waits,
    tt,
  )
]

head-Moves :
    (q : BranchQueue) (c : Queued) (cs : List Queued)
    → q.waiting ≡ c ∷ cs
    → (c.token ≡ true) ⊎ (c.told ≡ true)
    → Moves q
head-Moves q c cs e (inl t) =
    (record q { waiting = record c { token = false; told = true } ∷ cs }, received [] c cs e t, tt)
head-Moves q c cs e (inr t) = (start q, started [] c cs e t, tt)

leaving-Moves : (q : BranchQueue) (n : ℕ) → q.leaving ≡ n → Moves q ⊎ (q.leaving ≡ 0)
leaving-Moves q zero e = inr e
leaving-Moves q (suc n) e = inl (leave q, left n e, tt)

sound-Moves :
    (q : BranchQueue) (bs : List (List Queued)) (busy : Bool) (ws : List Queued)
    → q.batches ≡ bs
    → q.waiting ≡ ws
    → Mode bs busy ws
    → q.calls ≡ counted q
    → Moves q ⊎ ((q.waiting ≡ []) × (q.batches ≡ []) × (q.calls ≡ 0))
sound-Moves q (b ∷ bs) busy ws e w h k = inl (batch-Moves q b bs e)
sound-Moves q [] true [] e w h k = elim h [ ]
sound-Moves q [] true (c ∷ cs) e w h k = inl (
    head-Moves q c cs w
      (elim (Bool-cases c.token) [ inl t ↦ inl t | inr t ↦ inr (ground (arith, h.0.2)) ]))
sound-Moves q [] false (c ∷ cs) e w h k = elim h [ ]
sound-Moves q [] false [] e w h k = elim (leaving-Moves q q.leaving refl) [
  | inl m ↦ inl m
  | inr z ↦ inr (w, e, k ∙ omega (arith, z, ap length w, ap all_staying e))
]

-- In every state that calls reach, some caller in the queue may move, though no context ends, or nobody is in it: no call waits, no batch is at
-- work, and `calls` is zero, where the source drops the queue.
pub Reach-Moves :
    {q : BranchQueue} → Reach q → Moves q ⊎ ((q.waiting ≡ []) × (q.batches ≡ []) × (q.calls ≡ 0))
Reach-Moves {q} r =
    sound-Moves q q.batches q.busy q.waiting refl refl (Reach-IsSound r) (Reach-counted r)
