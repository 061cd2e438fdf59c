-- ===== src/Queue/Weights.antt =====
-- engine/queue.go: how much is left to do in a queue, and what each step does to it.
use snapshot_engine.Shared.{
  ℕ, zero, suc, ◌+◌, ◌*◌, ◌≤◌, ◌≡◌, refl, ap, ◌∙◌, Bool, true, false, inl, inr, List, [], ◌∷◌, ◌++◌,
  arith, if◌then◌else◌, length, length-append, take, drop, Bool-cases,
}
use snapshot_engine.Queue.Turns.{
  Queued, BranchQueue, kick, batch_size, mark_taken, take_batch, is_empty, all_done,
}
use snapshot_engine.Queue.Order.{take_batch_order}
use snapshot_engine.Queue.Sound.{AreQuiet, Mode, told_head, take_cons}

abbrev pub tokens : List Queued → ℕ
tokens [] = 0
tokens (c ∷ cs) = (if c.token then 1 else 0) + tokens cs

-- The calls of a batch that have no outcome yet.
abbrev pub undone : List Queued → ℕ
undone [] = 0
undone (c ∷ cs) = (if c.done then 0 else 1) + undone cs

abbrev pub all_undone : List (List Queued) → ℕ
all_undone [] = 0
all_undone (b ∷ bs) = undone b + all_undone bs

-- The calls of a batch that do not leave yet: the leader, who has to hand on, and those with no outcome.
abbrev pub staying : List Queued → ℕ
staying [] = 0
staying (c ∷ cs) = suc (undone cs)

abbrev pub all_staying : List (List Queued) → ℕ
all_staying [] = 0
all_staying (b ∷ bs) = staying b + all_staying bs

pub tokens-append : (xs ys : List Queued) → tokens (xs ++ ys) ≡ tokens xs + tokens ys
tokens-append [] ys = omega arith
tokens-append (x ∷ xs) ys = omega (arith, tokens-append xs ys)

undone-append : (xs ys : List Queued) → undone (xs ++ ys) ≡ undone xs + undone ys
undone-append [] ys = omega arith
undone-append (x ∷ xs) ys = omega (arith, undone-append xs ys)

pub all_undone-append :
    (xs ys : List (List Queued)) → all_undone (xs ++ ys) ≡ all_undone xs + all_undone ys
all_undone-append [] ys = omega arith
all_undone-append (x ∷ xs) ys = omega (arith, all_undone-append xs ys)

pub all_staying-append :
    (xs ys : List (List Queued)) → all_staying (xs ++ ys) ≡ all_staying xs + all_staying ys
all_staying-append [] ys = omega arith
all_staying-append (x ∷ xs) ys = omega (arith, all_staying-append xs ys)

pub record KicksTo (q r : BranchQueue) : Type 0 where
  pub waits : length r.waiting ≡ length q.waiting
  pub tells : tokens r.waiting ≤ tokens q.waiting + 1
  pub runs : length r.batches ≡ length q.batches
  pub works : all_undone r.batches ≡ all_undone q.batches
  pub stays : all_staying r.batches ≡ all_staying q.batches
  pub counts : r.calls ≡ q.calls
  pub leaves : r.leaving ≡ q.leaving

kick_fields :
    (bs : List (List Queued)) (busy : Bool) (ws : List Queued) (n l : ℕ)
    → let q : BranchQueue = record {
      waiting = ws;
      busy = busy;
      calls = n;
      batches = bs;
      leaving = l;
    } in
      KicksTo q (kick q)
unfolding kick
kick_fields bs true ws n l = omega arith
kick_fields bs false [] n l = omega arith
kick_fields bs false (w ∷ ws) n l = omega arith

pub kick-KicksTo : (q : BranchQueue) → KicksTo q (kick q)
kick-KicksTo q = kick_fields q.batches q.busy q.waiting q.calls q.leaving

-- A waiting call weighs most, then a batch at work, one of its calls that has no outcome, and a call that will leave;
-- the token weighs too.
abbrev pub weight : BranchQueue → ℕ
weight q =
    7 * length q.waiting
    + tokens q.waiting
    + 3 * length q.batches
    + 2 * all_undone q.batches
    + q.leaving

-- The calls that `calls` counts.
abbrev pub counted : BranchQueue → ℕ
counted q = length q.waiting + all_staying q.batches + q.leaving

pub length_parts :
    (q : BranchQueue) (before : List Queued) (c : Queued) (after : List Queued)
    → q.waiting ≡ before ++ (c ∷ after)
    → (length q.waiting ≡ length (before ++ after) + 1)
      × (tokens q.waiting ≡ (if c.token then 1 else 0) + tokens (before ++ after))
length_parts q before c after e = (
  ap length e ∙ omega (arith, length-append before (c ∷ after), length-append before after),
  ap tokens e ∙ omega (arith, tokens-append before (c ∷ after), tokens-append before after),
)

pub batches_parts :
    (q : BranchQueue) (before : List (List Queued)) (batch : List Queued)
    (after : List (List Queued))
    → q.batches ≡ before ++ (batch ∷ after)
    → (length q.batches ≡ length (before ++ after) + 1)
      × (all_undone q.batches ≡ undone batch + all_undone (before ++ after))
      × (all_staying q.batches ≡ staying batch + all_staying (before ++ after))
batches_parts q before batch after e = (
  ap length e ∙ omega (arith, length-append before (batch ∷ after), length-append before after),
  ap all_undone e
      ∙ omega (arith, all_undone-append before (batch ∷ after), all_undone-append before after),
  ap all_staying e
      ∙ omega (arith, all_staying-append before (batch ∷ after), all_staying-append before after),
)

pub undone-le : (b : List Queued) → undone b ≤ length b
undone-le [] = omega arith
undone-le (c ∷ cs) = elim (Bool-cases c.done) [
  | inl e ↦ rw e (omega (arith, undone-le cs))
  | inr e ↦ rw e (omega (arith, undone-le cs))
]

-- Calls that only wait have no outcome.
undone-quiet :
    (n : ℕ) (ws : List Queued)
    → AreQuiet ws
    → undone (mark_taken (take n ws)) ≡ length (mark_taken (take n ws))
undone-quiet zero ws h = refl
undone-quiet (suc n) [] h = refl
undone-quiet (suc n) (w ∷ ws) h = rw h.0.4 (omega (arith, undone-quiet n ws h.1))

undone-all_done : (b : List Queued) → all_done b ≡ true → undone b ≡ 0
undone-all_done [] h = refl
undone-all_done (c ∷ cs) h = ground (arith, h, undone-all_done cs)

-- What an outcome does to a batch.
pub finish_parts :
    (front : List Queued) (c : Queued) (back : List Queued)
    → c.done ≡ false
    → (undone (front ++ (c ∷ back)) ≡ undone (front ++ (record c { done = true } ∷ back)) + 1)
      × (staying (front ++ (c ∷ back))
          ≡ staying (front ++ (record c { done = true } ∷ back))
            + (if is_empty front then 0 else 1))
finish_parts [] c back n = rw n (omega arith, omega arith)
finish_parts (f ∷ front) c back n =
    let (u, _) = finish_parts front c back n in (omega (arith, u), omega (arith, u))

take_parts :
    (n : ℕ) (ws : List Queued)
    → (length (mark_taken (take n ws)) + length (drop n ws) ≡ length ws)
      × (tokens (drop n ws) ≤ tokens ws)
take_parts zero ws = omega arith
take_parts (suc n) [] = omega arith
take_parts (suc n) (w ∷ ws) = omega (arith, take_parts n ws)

-- What `start` makes of waiting calls that are not empty.
pub record Starts (ws : List Queued) : Type 0 where
  pub total : length (take_batch ws).0 + length (take_batch ws).1 ≡ length ws
  pub tells : tokens (take_batch ws).1 ≤ tokens ws
  pub some_taken : 1 ≤ length (take_batch ws).0

Starts-cons : (c : Queued) (cs : List Queued) → Starts (c ∷ cs)
Starts-cons c cs = record {
  total = unfold take_batch in (take_parts (batch_size (c ∷ cs)) (c ∷ cs)).0;
  tells = unfold take_batch in (take_parts (batch_size (c ∷ cs)) (c ∷ cs)).1;
  some_taken = (take_batch_order c cs).1;
}

pub Starts-at :
    (before : List Queued) (c : Queued) (after : List Queued) → Starts (before ++ (c ∷ after))
Starts-at [] c after = Starts-cons c after
Starts-at (b ∷ before) c after = Starts-cons b (before ++ (c ∷ after))

pub batch_member :
    (busy : Bool) (ws : List Queued) (before : List (List Queued)) (batch : List Queued)
    (after : List (List Queued))
    → Mode (before ++ (batch ∷ after)) busy ws
    → 1 ≤ length batch
batch_member true ws [] [] [] h = elim h.1 [ ]
batch_member false ws [] [] [] h = elim h [ ]
batch_member busy ws [] (c ∷ cs) after h = omega arith
batch_member busy ws (b ∷ []) batch after h = elim h [ ]
batch_member busy ws (b ∷ d ∷ before) batch after h = elim h [ ]
batch_member busy ws [] [] (a ∷ after) h = elim h [ ]

-- The queues that `withdraw` and `hand_on` kick.
abbrev pub withdrawn : List Queued → Queued → List Queued → BranchQueue → BranchQueue
withdrawn before c after q = record q {
  waiting = before ++ after;
  busy = if c.leading then false else q.busy;
  leaving = q.leaving + 1;
}

abbrev pub handed :
    List (List Queued) → List Queued → List (List Queued) → BranchQueue → BranchQueue
handed before batch after q = record q {
  batches = before ++ after;
  busy = false;
  leaving = q.leaving + 1;
}

pub leaving_eq :
    (front : List Queued) (n : ℕ)
    → (if is_empty front then n else n + 1) ≡ n + (if is_empty front then 0 else 1)
leaving_eq [] n = omega arith
leaving_eq (f ∷ front) n = refl

pub leaving_le : (front : List Queued) (n : ℕ) → (if is_empty front then n else n + 1) ≤ n + 1
leaving_le [] n = omega arith
leaving_le (f ∷ front) n = omega arith

pub handed_staying : (b : List Queued) → 1 ≤ length b → all_done b ≡ true → staying b ≡ 1
handed_staying [] l h = absurd (omega (arith, l))
handed_staying (c ∷ cs) l h = ap suc (undone-all_done cs (ground (arith, h)))

-- No call of a batch that starts has an outcome.
pub started_staying :
    (bs : List (List Queued)) (busy : Bool) (before : List Queued) (c : Queued)
    (after : List Queued)
    → Mode bs busy (before ++ (c ∷ after))
    → c.told ≡ true
    → staying (take_batch (before ++ (c ∷ after))).0 ≡ length (take_batch (before ++ (c ∷ after))).0
unfolding take_batch
started_staying bs busy [] c after h t =
    let (_, _, _, _, quiet) = told_head bs busy [] c after h (inr t) in
    let (n, e) = take_cons c after in rw e (ap suc (undone-quiet n after quiet))
started_staying bs busy (b ∷ before) c after h t =
    absurd (told_head bs busy (b ∷ before) c after h (inr t)).2
