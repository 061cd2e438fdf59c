-- ===== src/Queue/Turns.antt =====
-- engine/queue.go: the queue of one branch (`queued`, `branchQueue`, `enqueue`, `kick`, `take`,
-- `leave`, `lead`). What a caller does while it holds Database.qmu is one function, and what it does
-- between, one step of `Step`. A waiting call's channel `lead` and the place its caller has reached
-- are fields of the call. The batches that leaders are running and the calls that have an outcome and
-- have not yet left are kept beside the queue, which the source has on its callers' stacks. A taken call whose
-- context ends only waits for its outcome. A call that `bypass` sends past the queue, under a test seam, is left out.
use snapshot_engine.Shared.{
  ℕ, zero, suc, ◌+◌, ◌-◌, ◌≡◌, Bool, true, false, ◌&&◌, ◌||◌, List, [], ◌∷◌, ◌++◌, if◌then◌else◌,
  take, drop,
}

-- the most transactions that one publish carries
abbrev pub max_batch : ℕ
max_batch = 64

-- A call: whether it is a transaction's commit (tx is not nil), its flags, whether its channel `lead` holds the
-- token or its caller has received it, and whether its channel `done` is closed.
pub record Queued : Type 0 where
  pub ident : ℕ
  pub is_tx : Bool
  pub leading : Bool
  pub taken : Bool
  pub token : Bool
  pub told : Bool
  pub done : Bool

abbrev pub queued : ℕ → Bool → Queued
queued i tx = record {
  ident = i;
  is_tx = tx;
  leading = false;
  taken = false;
  token = false;
  told = false;
  done = false;
}

-- `batches` are the batches at work, each with its leader first. `leaving` counts the calls that will `leave` and have
-- not: those that withdrew, the members of a batch that have their outcome, and the leaders that have handed on.
pub record BranchQueue : Type 0 where
  pub waiting : List Queued
  pub busy : Bool
  pub calls : ℕ
  pub batches : List (List Queued)
  pub leaving : ℕ

abbrev pub new_queue : BranchQueue
new_queue = record { waiting = []; busy = false; calls = 0; batches = []; leaving = 0 }

abbrev tell : List Queued → List Queued
tell [] = []
tell (c ∷ rest) = record c { leading = true; token = true } ∷ rest

abbrev pub is_empty : List Queued → Bool
is_empty [] = true
is_empty (c ∷ rest) = false

-- kick tells the call at the head to lead, when no leader is at work.
unfoldable pub kick : BranchQueue → BranchQueue
kick q =
    if q.busy || is_empty q.waiting then q else record q { busy = true; waiting = tell q.waiting }

-- The transactions in a row at the front, at most as many as `room`.
unfoldable pub row : ℕ → List Queued → ℕ
row zero cs = 0
row (suc room) [] = 0
row (suc room) (c ∷ cs) = let rest = row room cs in if c.is_tx then suc rest else 0

-- How many calls `take` removes: a session's call alone, or the transactions in a row.
unfoldable pub batch_size : List Queued → ℕ
unfolding row
batch_size [] = 0
batch_size (c ∷ cs) = if c.is_tx then suc (row (max_batch - 1) cs) else 1

abbrev pub mark_taken : List Queued → List Queued
mark_taken [] = []
mark_taken (c ∷ cs) = record c { taken = true } ∷ mark_taken cs

-- `take` removes the next batch from the head: the batch, and what waits after it.
unfoldable pub take_batch : List Queued → List Queued × List Queued
unfolding batch_size
take_batch cs = let n = batch_size cs in (mark_taken (take n cs), drop n cs)

-- The start of `enqueue`: the call joins the queue and the head is kicked.
unfoldable pub join : ℕ → Bool → BranchQueue → BranchQueue
join i tx q = kick (record q { calls = q.calls + 1; waiting = q.waiting ++ (queued i tx ∷ []) })

-- A call whose context ends, between `before` and `after`, leaves the waiting calls; told to lead,
-- it frees the queue for the next.
unfoldable pub withdraw : List Queued → Queued → List Queued → BranchQueue → BranchQueue
withdraw before c after q = kick (record q {
  waiting = before ++ after;
  busy = if c.leading then false else q.busy;
  leaving = q.leaving + 1;
})

-- The call told to lead takes its batch.
unfoldable pub start : BranchQueue → BranchQueue
unfolding take_batch
start q =
    let (batch, rest) = take_batch q.waiting in
    record q { waiting = rest; batches = batch ∷ q.batches }

abbrev pub all_done : List Queued → Bool
all_done [] = true
all_done (c ∷ cs) = c.done && all_done cs

-- A member of a batch gets its outcome: `run` gives them in order, and after a panic `lead` gives the rest theirs. A
-- member may then leave; the leader, who is the first, has still to hand on.
unfoldable pub finish :
    List (List Queued)
    → List Queued
    → Queued
    → List Queued
    → List (List Queued)
    → BranchQueue
    → BranchQueue
finish before front c back after q = record q {
  batches = before ++ ((front ++ (record c { done = true } ∷ back)) ∷ after);
  leaving = if is_empty front then q.leaving else q.leaving + 1;
}

-- The end of `lead`, when every call of the batch has its outcome: the queue is handed to the next call, and the leader
-- has only to leave.
unfoldable pub hand_on :
    List (List Queued) → List Queued → List (List Queued) → BranchQueue → BranchQueue
hand_on before batch after q =
    kick (record q { batches = before ++ after; busy = false; leaving = q.leaving + 1 })

-- `leave` counts a finished call out. The queue is dropped from the database when none is left.
unfoldable pub leave : BranchQueue → BranchQueue
leave q = record q { calls = q.calls - 1; leaving = q.leaving - 1 }

-- What the callers already in the queue may do next, whichever runs.
pub data Move (q : BranchQueue) : BranchQueue → Type 0 where
  received :
      (before : List Queued) (c : Queued) (after : List Queued)
      → q.waiting ≡ before ++ (c ∷ after)
      → c.token ≡ true
      → Move q (record q { waiting = before ++ (record c { token = false; told = true } ∷ after) })
  withdrew :
      (before : List Queued) (c : Queued) (after : List Queued)
      → q.waiting ≡ before ++ (c ∷ after)
      → c.told ≡ false
      → Move q (withdraw before c after q)
  started :
      (before : List Queued) (c : Queued) (after : List Queued)
      → q.waiting ≡ before ++ (c ∷ after)
      → c.told ≡ true
      → Move q (start q)
  finished :
      (before : List (List Queued)) (front : List Queued) (c : Queued) (back : List Queued)
      (after : List (List Queued))
      → q.batches ≡ before ++ ((front ++ (c ∷ back)) ∷ after)
      → all_done front ≡ true
      → c.done ≡ false
      → Move q (finish before front c back after q)
  handed_on :
      (before : List (List Queued)) (batch : List Queued) (after : List (List Queued))
      → q.batches ≡ before ++ (batch ∷ after)
      → all_done batch ≡ true
      → Move q (hand_on before batch after q)
  left : (n : ℕ) → q.leaving ≡ suc n → Move q (leave q)

-- A new call joins, or one in the queue moves.
pub data Step (q : BranchQueue) : BranchQueue → Type 0 where
  joined : (i : ℕ) (tx : Bool) → Step q (join i tx q)
  moved : {r : BranchQueue} → Move q r → Step q r

-- The states that callers reach from a new queue.
pub data Reach : BranchQueue → Type 0 where
  new : Reach new_queue
  next : {q r : BranchQueue} → Reach q → Step q r → Reach r
