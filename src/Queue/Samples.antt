-- ===== src/Queue/Samples.antt =====
-- engine/queue.go: a run of the queue, tests of it, and the theorems at it.
use snapshot_engine.Shared.{
  ◌≤◌, ◌<◌, ◌≡◌, ◌≢◌, refl, true, false, ◌⊎◌, inl, List, [], ◌∷◌, ◌++◌, length,
}
use snapshot_engine.Queue.Turns.{
  max_batch, Queued, queued, BranchQueue, new_queue, kick, take_batch, join, start, finish, leave,
  Move, received, started, finished, left, joined, moved, Reach, new, next,
}
use snapshot_engine.Queue.Order.{idents, take_batch_order}
use snapshot_engine.Queue.Sound.{IsSound, Reach-IsSound, told_leads}
use snapshot_engine.Queue.Emptied.{Moves, Reach-Moves}
use snapshot_engine.Queue.Weights.{weight, counted}
use snapshot_engine.Queue.Progress.{Move-lt, Reach-counted, Advances, Reach-Advances}

-- Two transactions and a session's call join.
abbrev three : BranchQueue
three = join 3 false (join 2 true (join 1 true new_queue))

three-Reach : Reach three
three-Reach = next (next (next new (joined 1 true)) (joined 2 true)) (joined 3 false)

abbrev first : Queued
first = record {
  ident = 1;
  is_tx = true;
  leading = true;
  taken = false;
  token = true;
  told = false;
  done = false;
}

three_waiting : three.waiting ≡ first ∷ queued 2 true ∷ queued 3 false ∷ []
unfolding join kick
three_waiting = refl

-- The first is told; it takes both transactions and leaves the session's call.
abbrev told : BranchQueue
told = record three {
  waiting = record first { token = false; told = true } ∷ queued 2 true ∷ queued 3 false ∷ [];
}

told_Move : Move three told
told_Move = received [] first (queued 2 true ∷ queued 3 false ∷ []) three_waiting refl

abbrev told_first : Queued
told_first = record first { token = false; told = true }

started_two : idents (start told).waiting ≡ 3 ∷ []
unfolding start take_batch join kick
started_two = refl

abbrev taken_first : Queued
taken_first = record told_first { taken = true }

abbrev taken_second : Queued
taken_second = record (queued 2 true) { taken = true }

-- The leader and then the second call get their outcomes; the second leaves before the leader hands on.
abbrev leader_done : BranchQueue
leader_done = finish [] [] taken_first (taken_second ∷ []) [] (start told)

abbrev both_done : BranchQueue
both_done = finish [] (record taken_first { done = true } ∷ []) taken_second [] [] leader_done

start_batches : (start told).batches ≡ (taken_first ∷ taken_second ∷ []) ∷ []
unfolding start take_batch join kick
start_batches = refl

leader_done_batches :
    leader_done.batches ≡ (record taken_first { done = true } ∷ taken_second ∷ []) ∷ []
unfolding finish
leader_done_batches = refl

both_done_leaving : both_done.leaving ≡ 1
unfolding finish start take_batch join kick
both_done_leaving = refl

second_left-Reach : Reach (leave both_done)
second_left-Reach =
    let told-Reach = next three-Reach (moved told_Move) in
    let start-Reach =
      next told-Reach
        (moved (started [] told_first (queued 2 true ∷ queued 3 false ∷ []) refl refl)) in
    let leader-Reach =
      next start-Reach
        (moved (finished [] [] taken_first (taken_second ∷ []) [] start_batches refl refl)) in
    let both-Reach = next leader-Reach (
      moved (
        finished [] (record taken_first { done = true } ∷ []) taken_second [] [] leader_done_batches
          refl refl)) in
    next both-Reach (moved (left 0 both_done_leaving))

three_some : three.waiting ≢ []
unfolding join kick
three_some e = cc

take_batch_order_example :
    (idents (take_batch (first ∷ queued 3 false ∷ [])).0
        ++ idents (take_batch (first ∷ queued 3 false ∷ [])).1
      ≡ 1 ∷ 3 ∷ [])
    × (1 ≤ length (take_batch (first ∷ queued 3 false ∷ [])).0)
    × (length (take_batch (first ∷ queued 3 false ∷ [])).0 ≤ max_batch)
take_batch_order_example = take_batch_order first (queued 3 false ∷ [])

Reach-IsSound_example : IsSound three
Reach-IsSound_example = Reach-IsSound three-Reach

told_leads_example : (◌≡◌ {A = List Queued} [] []) × (three.batches ≡ []) × (three.busy ≡ true)
told_leads_example =
    told_leads three-Reach [] first (queued 2 true ∷ queued 3 false ∷ []) three_waiting (inl refl)

Move-lt_example : weight told < weight three
Move-lt_example = Move-lt told_Move

Reach-counted_example : (leave both_done).calls ≡ counted (leave both_done)
Reach-counted_example = Reach-counted second_left-Reach

Reach-Advances_example : Advances three.batches three.waiting
Reach-Advances_example = Reach-Advances three-Reach three_some

Reach-Moves_example :
    Moves (leave both_done)
    ⊎ (((leave both_done).waiting ≡ [])
        × ((leave both_done).batches ≡ [])
        × ((leave both_done).calls ≡ 0))
Reach-Moves_example = Reach-Moves second_left-Reach
