-- ===== src/Queue/Progress.antt =====
-- engine/queue.go: every call that joined is accounted for, and the queue empties.
use mathlib.Core.Path.{subst}
use snapshot_engine.Shared.{
  ℕ, ◌+◌, ◌<◌, ◌≡◌, ◌≢◌, refl, ap, sym, Bool, true, false, ◌⊎◌, inl, inr, List, [], ◌∷◌, ◌++◌,
  arith, if◌then◌else◌, length, length-append, Bool-cases,
}
use snapshot_engine.Queue.Turns.{
  Queued, queued, BranchQueue, take_batch, join, withdraw, start, finish, hand_on, leave, Move,
  received, withdrew, started, finished, handed_on, left, joined, moved, Reach, new, next,
}
use snapshot_engine.Queue.Sound.{Mode, IsSound, Reach-IsSound}
use snapshot_engine.Queue.Weights.{
  staying, tokens-append, all_undone-append, all_staying-append, kick-KicksTo, weight, counted,
  length_parts, batches_parts, undone-le, finish_parts, Starts, Starts-at, batch_member, withdrawn,
  handed, leaving_eq, leaving_le, handed_staying, started_staying,
}

-- Every move of a caller already in the queue lessens its weight; so when no more calls join, only so many moves are
-- left.
pub Move-lt : {q r : BranchQueue} → Move q r → weight r < weight q
unfolding withdraw start finish hand_on leave
Move-lt {q} (received before c after e t) =
    let l = length_parts q before c after e in
    let c' : Queued = record c { token = false; told = true } in
    omega (
      arith,
      ap {B = ℕ} (λ b. if b then 1 else 0) t,
      l,
      length-append before (c' ∷ after),
      length-append before after,
      tokens-append before (c' ∷ after),
      tokens-append before after,
    )
Move-lt {q} (withdrew before c after e t) =
    omega (arith, length_parts q before c after e, kick-KicksTo (withdrawn before c after q))
Move-lt {q} (started before c after e t) =
    let s : Starts q.waiting = subst Starts (sym e) (Starts-at before c after) in
    omega (arith, s.total, s.tells, s.some_taken, undone-le (take_batch q.waiting).0)
Move-lt {q} (finished before front c back after e d n) =
    let b = front ++ (record c { done = true } ∷ back) in
    omega (
      arith,
      batches_parts q before (front ++ (c ∷ back)) after e,
      (finish_parts front c back n).0,
      leaving_le front q.leaving,
      length-append before (b ∷ after),
      length-append before after,
      all_undone-append before (b ∷ after),
      all_undone-append before after,
    )
Move-lt {q} (handed_on before batch after e d) =
    omega (arith, batches_parts q before batch after e, kick-KicksTo (handed before batch after q))
Move-lt {q} (left n e) = omega arith

Move-counted :
    {q r : BranchQueue} → IsSound q → Move q r → q.calls ≡ counted q → r.calls ≡ counted r
unfolding withdraw start finish hand_on leave
Move-counted {q} sound (received before c after e t) h =
    let c' : Queued = record c { token = false; told = true } in
    omega (
      arith,
      length_parts q before c after e,
      length-append before (c' ∷ after),
      length-append before after,
    )
Move-counted {q} sound (withdrew before c after e t) h =
    omega (arith, length_parts q before c after e, kick-KicksTo (withdrawn before c after q))
Move-counted {q} sound (started before c after e t) h =
    let s : Starts q.waiting = subst Starts (sym e) (Starts-at before c after) in
    let all : staying (take_batch q.waiting).0 ≡ length (take_batch q.waiting).0 =
      subst (λ ws. staying (take_batch ws).0 ≡ length (take_batch ws).0) (sym e)
        (started_staying q.batches q.busy before c after (subst (Mode q.batches q.busy) e sound)
          t) in
    omega (arith, s.total, all)
Move-counted {q} sound (finished before front c back after e d n) h =
    let b = front ++ (record c { done = true } ∷ back) in
    omega (
      arith,
      batches_parts q before (front ++ (c ∷ back)) after e,
      (finish_parts front c back n).1,
      leaving_eq front q.leaving,
      all_staying-append before (b ∷ after),
      all_staying-append before after,
    )
Move-counted {q} sound (handed_on before batch after e d) h = omega (
  arith,
  batches_parts q before batch after e,
  handed_staying batch
      (batch_member q.busy q.waiting before batch after
        (subst (λ b. Mode b q.busy q.waiting) e sound))
      d,
  kick-KicksTo (handed before batch after q),
)
Move-counted {q} sound (left n e) h = omega arith

-- The calls that `calls` counts are those that wait, those of a batch at work that have no outcome, the leader of that
-- batch until it has handed on, and those that have only to leave. So the queue, which is dropped when `calls` is zero,
-- has no waiting call and no call at work then.
pub Reach-counted : {q : BranchQueue} → Reach q → q.calls ≡ counted q
unfolding join
Reach-counted new = refl
Reach-counted (next {q} r (joined i tx)) = omega (
  arith,
  Reach-counted r,
  length-append q.waiting (queued i tx ∷ []),
  kick-KicksTo (record q { calls = q.calls + 1; waiting = q.waiting ++ (queued i tx ∷ []) }),
)
Reach-counted (next {q} r (moved m)) = Move-counted (Reach-IsSound r) m (Reach-counted r)

-- Somebody will run: the oldest call holds the token or was told, or one batch is at work.
abbrev pub Advances : List (List Queued) → List Queued → Type 0
Advances bs ws =
    ((c : Queued) × (after : List Queued) × (ws ≡ c ∷ after) × ((c.token ≡ true) ⊎ (c.told ≡ true)))
    ⊎ ((b : List Queued) × (bs ≡ b ∷ []))

Mode-Advances :
    (bs : List (List Queued)) (busy : Bool) (ws : List Queued)
    → Mode bs busy ws
    → ws ≢ []
    → Advances bs ws
Mode-Advances [] false [] h n = absurd (n refl)
Mode-Advances [] false (w ∷ ws) h n = elim h [ ]
Mode-Advances [] true [] h n = elim h [ ]
Mode-Advances [] true (w ∷ ws) h n =
    inl (
      w,
      ws,
      refl,
      elim (Bool-cases w.token) [ inl e ↦ inl e | inr e ↦ inr (ground (arith, h.0.2)) ],
    )
Mode-Advances (b ∷ []) false ws h n = elim h [ ]
Mode-Advances (b ∷ []) true ws h n = inr (b, refl)
Mode-Advances (b ∷ d ∷ bs) busy ws h n = elim h [ ]

-- No call is stranded: while a call waits, the oldest call has been told to lead, or one batch is at work,
-- whose end tells the next.
pub Reach-Advances : {q : BranchQueue} → Reach q → q.waiting ≢ [] → Advances q.batches q.waiting
Reach-Advances {q} h n = Mode-Advances q.batches q.busy q.waiting (Reach-IsSound h) n
