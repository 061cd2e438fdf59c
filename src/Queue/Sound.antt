-- ===== src/Queue/Sound.antt =====
-- engine/queue.go: the invariant of a branch's queue. One leader at a time, at the head, and no
-- call waits with nobody to lead.
use mathlib.Core.Path.{subst}
use snapshot_engine.Shared.{
  ℕ, zero, suc, ◌-◌, ◌≡◌, refl, sym, Bool, true, false, not, ◌⊎◌, inl, inr, List, [], ◌∷◌, ◌++◌,
  arith, if◌then◌else◌, drop, Bool-cases,
}
use snapshot_engine.Queue.Turns.{
  max_batch, Queued, queued, BranchQueue, kick, row, batch_size, take_batch, join, withdraw, start,
  finish, hand_on, leave, Move, received, withdrew, started, finished, handed_on, left, Step,
  joined, moved, Reach, new, next,
}

-- A call that only waits.
abbrev pub IsQuiet : Queued → Type 0
IsQuiet c =
    (c.leading ≡ false)
    × (c.taken ≡ false)
    × (c.token ≡ false)
    × (c.told ≡ false)
    × (c.done ≡ false)

abbrev pub AreQuiet : List Queued → Type 0
AreQuiet [] = Unit
AreQuiet (c ∷ cs) = IsQuiet c × AreQuiet cs

-- A call told to lead: the token is in its channel, or its caller has it.
abbrev pub IsLeading : Queued → Type 0
IsLeading c = (c.leading ≡ true) × (c.taken ≡ false) × (c.told ≡ not c.token) × (c.done ≡ false)

abbrev pub Led : List Queued → Type 0
Led [] = ⊥
Led (c ∷ cs) = IsLeading c × AreQuiet cs

abbrev pub IsNil {ℓ} : {A : Type ℓ} → List A → Type 0
IsNil [] = Unit
IsNil (_ ∷ _) = ⊥

abbrev pub IsCons {ℓ} : {A : Type ℓ} → List A → Type 0
IsCons [] = ⊥
IsCons (_ ∷ _) = Unit

-- Free: nobody waits and no batch is at work. Busy with no batch: the head is told to lead, and no
-- other call is. Busy with one batch, which has a member: no waiting call is told. No other case.
abbrev pub Mode : List (List Queued) → Bool → List Queued → Type 0
Mode [] false ws = IsNil ws
Mode [] true ws = Led ws
Mode (b ∷ []) false ws = ⊥
Mode (b ∷ []) true ws = AreQuiet ws × IsCons b
Mode (b ∷ c ∷ bs) busy ws = ⊥

abbrev pub IsSound : BranchQueue → Type 0
IsSound q = Mode q.batches q.busy q.waiting

-- What `kick` makes sound: as Mode, but that a free queue may have calls that only wait.
abbrev Ready : List (List Queued) → Bool → List Queued → Type 0
Ready [] false ws = AreQuiet ws
Ready [] true ws = Mode [] true ws
Ready (b ∷ bs) busy ws = Mode (b ∷ bs) busy ws

kick_fields :
    (bs : List (List Queued)) (busy : Bool) (ws : List Queued) (n l : ℕ)
    → Ready bs busy ws
    → IsSound (kick (record { waiting = ws; busy = busy; calls = n; batches = bs; leaving = l }))
unfolding kick
kick_fields [] false [] n l h = tt
kick_fields [] false (w ∷ ws) n l h = ((refl, h.0.1, h.0.3, h.0.4), h.1)
kick_fields [] true ws n l h = h
kick_fields (b ∷ []) false ws n l h = elim h [ ]
kick_fields (b ∷ []) true ws n l h = h
kick_fields (b ∷ c ∷ bs) busy ws n l h = elim h [ ]

kick-IsSound : (q : BranchQueue) → Ready q.batches q.busy q.waiting → IsSound (kick q)
kick-IsSound q h = kick_fields q.batches q.busy q.waiting q.calls q.leaving h

IsQuiet-middle :
    (before : List Queued) (c : Queued) (after : List Queued)
    → AreQuiet (before ++ (c ∷ after))
    → IsQuiet c × AreQuiet (before ++ after)
IsQuiet-middle [] c after h = h
IsQuiet-middle (b ∷ before) c after h =
    let (q, r) = IsQuiet-middle before c after h.1 in (q, (h.0, r))

quiet_snoc :
    (ws : List Queued) (i : ℕ) (tx : Bool) → AreQuiet ws → AreQuiet (ws ++ (queued i tx ∷ []))
quiet_snoc [] i tx h = ((refl, refl, refl, refl, refl), tt)
quiet_snoc (w ∷ ws) i tx h = (h.0, quiet_snoc ws i tx h.1)

quiet_drop : (n : ℕ) (ws : List Queued) → AreQuiet ws → AreQuiet (drop n ws)
quiet_drop zero ws h = h
quiet_drop (suc n) [] h = h
quiet_drop (suc n) (w ∷ ws) h = quiet_drop n ws h.1

snoc-Ready :
    (bs : List (List Queued)) (busy : Bool) (ws : List Queued) (i : ℕ) (tx : Bool)
    → Mode bs busy ws
    → Ready bs busy (ws ++ (queued i tx ∷ []))
snoc-Ready [] false [] i tx h = ((refl, refl, refl, refl, refl), tt)
snoc-Ready [] false (w ∷ ws) i tx h = elim h [ ]
snoc-Ready [] true [] i tx h = elim h [ ]
snoc-Ready [] true (w ∷ ws) i tx h = (h.0, quiet_snoc ws i tx h.1)
snoc-Ready (b ∷ []) false ws i tx h = elim h [ ]
snoc-Ready (b ∷ []) true ws i tx h = (quiet_snoc ws i tx h.0, h.1)
snoc-Ready (b ∷ c ∷ bs) busy ws i tx h = elim h [ ]

-- A call that holds the token or was told stands at the head, and no batch is at work.
pub told_head :
    (bs : List (List Queued)) (busy : Bool) (before : List Queued) (c : Queued)
    (after : List Queued)
    → Mode bs busy (before ++ (c ∷ after))
    → (c.token ≡ true) ⊎ (c.told ≡ true)
    → IsNil bs × (busy ≡ true) × IsNil before × IsLeading c × AreQuiet after
told_head [] false [] c after h t = elim h [ ]
told_head [] false (b ∷ before) c after h t = elim h [ ]
told_head [] true [] c after h t = (tt, refl, tt, h.0, h.1)
told_head [] true (b ∷ before) c after h t =
    let q : IsQuiet c = (IsQuiet-middle before c after h.1).0 in absurd (ground arith)
told_head (b ∷ []) false before c after h t = elim h [ ]
told_head (b ∷ []) true before c after h t =
    let q : IsQuiet c = (IsQuiet-middle before c after h.0).0 in absurd (ground arith)
told_head (b ∷ d ∷ bs) busy before c after h t = elim h [ ]

received-Mode :
    (bs : List (List Queued)) (busy : Bool) (before : List Queued) (c : Queued)
    (after : List Queued)
    → Mode bs busy (before ++ (c ∷ after))
    → c.token ≡ true
    → Mode bs busy (before ++ (record c { token = false; told = true } ∷ after))
received-Mode [] true [] c after h t = ((h.0.0, h.0.1, refl, h.0.3), h.1)
received-Mode [] true (b ∷ before) c after h t =
    absurd (told_head [] true (b ∷ before) c after h (inl t)).2
received-Mode [] false [] c after h t = elim h [ ]
received-Mode [] false (b ∷ before) c after h t = elim h [ ]
received-Mode (b ∷ bs) busy before c after h t =
    absurd (told_head (b ∷ bs) busy before c after h (inl t)).0

withdrew-Ready :
    (bs : List (List Queued)) (busy : Bool) (before : List Queued) (c : Queued)
    (after : List Queued)
    → Mode bs busy (before ++ (c ∷ after))
    → Ready bs (if c.leading then false else busy) (before ++ after)
withdrew-Ready [] false [] c after h = elim h [ ]
withdrew-Ready [] false (b ∷ before) c after h = elim h [ ]
withdrew-Ready [] true [] c after h = rw h.0.0 h.1
withdrew-Ready [] true (b ∷ before) c after h =
    let (q, rest) = IsQuiet-middle before c after h.1 in rw q.0 (h.0, rest)
withdrew-Ready (b ∷ []) false before c after h = elim h [ ]
withdrew-Ready (b ∷ []) true before c after h =
    let (q, rest) = IsQuiet-middle before c after h.0 in rw q.0 (rest, h.1)
withdrew-Ready (b ∷ d ∷ bs) busy before c after h = elim h [ ]

pub take_cons : (c : Queued) (cs : List Queued) → (n : ℕ) × (batch_size (c ∷ cs) ≡ suc n)
unfolding batch_size
take_cons c cs = elim (Bool-cases c.is_tx) [
  | inl e ↦ (row (max_batch - 1) cs, rw e refl)
  | inr e ↦ (0, rw e refl)
]

started-Mode :
    (c : Queued) (after : List Queued)
    → AreQuiet after
    → Mode ((take_batch (c ∷ after)).0 ∷ []) true (take_batch (c ∷ after)).1
unfolding take_batch
started-Mode c after h = let (n, e) = take_cons c after in rw e (quiet_drop n after h, tt)

started_at :
    (bs : List (List Queued)) (busy : Bool) (before : List Queued) (c : Queued)
    (after : List Queued)
    → Mode bs busy (before ++ (c ∷ after))
    → c.told ≡ true
    → Mode ((take_batch (before ++ (c ∷ after))).0 ∷ bs) busy (take_batch (before ++ (c ∷ after))).1
started_at [] false [] c after h t = elim h [ ]
started_at [] false (b ∷ before) c after h t = elim h [ ]
started_at [] true [] c after h t = started-Mode c after h.1
started_at [] true (b ∷ before) c after h t =
    absurd (told_head [] true (b ∷ before) c after h (inr t)).2
started_at (b ∷ bs) busy before c after h t =
    absurd (told_head (b ∷ bs) busy before c after h (inr t)).0

handed_on-Ready :
    (before : List (List Queued)) (batch : List Queued) (after : List (List Queued)) (busy : Bool)
    (ws : List Queued)
    → Mode (before ++ (batch ∷ after)) busy ws
    → Ready (before ++ after) false ws
handed_on-Ready [] batch [] true ws h = h.0
handed_on-Ready [] batch [] false ws h = elim h [ ]
handed_on-Ready [] batch (a ∷ after) busy ws h = elim h [ ]
handed_on-Ready (b ∷ []) batch after busy ws h = elim h [ ]
handed_on-Ready (b ∷ d ∷ before) batch after busy ws h = elim h [ ]

front-IsCons :
    (front : List Queued) (c : Queued) (back : List Queued) → IsCons (front ++ (c ∷ back))
front-IsCons [] c back = tt
front-IsCons (f ∷ front) c back = tt

finished-Mode :
    (before : List (List Queued)) (front : List Queued) (c : Queued) (back : List Queued)
    (after : List (List Queued)) (busy : Bool) (ws : List Queued)
    → Mode (before ++ ((front ++ (c ∷ back)) ∷ after)) busy ws
    → Mode (before ++ ((front ++ (record c { done = true } ∷ back)) ∷ after)) busy ws
finished-Mode [] front c back [] true ws h =
    (h.0, front-IsCons front (record c { done = true }) back)
finished-Mode [] front c back [] false ws h = elim h [ ]
finished-Mode [] front c back (a ∷ after) busy ws h = elim h [ ]
finished-Mode (b ∷ []) front c back after busy ws h = elim h [ ]
finished-Mode (b ∷ d ∷ before) front c back after busy ws h = elim h [ ]

Move-IsSound : {q r : BranchQueue} → Move q r → IsSound q → IsSound r
unfolding withdraw start finish hand_on leave
Move-IsSound {q} (received before c after e t) h =
    received-Mode q.batches q.busy before c after (subst (Mode q.batches q.busy) e h) t
Move-IsSound {q} (withdrew before c after e t) h =
    kick-IsSound _
      (withdrew-Ready q.batches q.busy before c after (subst (Mode q.batches q.busy) e h))
Move-IsSound {q} (started before c after e t) h =
    subst (λ w. Mode ((take_batch w).0 ∷ q.batches) q.busy (take_batch w).1) (sym e)
      (started_at q.batches q.busy before c after (subst (Mode q.batches q.busy) e h) t)
Move-IsSound {q} (finished before front c back after e d n) h =
    finished-Mode before front c back after q.busy q.waiting
      (subst (λ b. Mode b q.busy q.waiting) e h)
Move-IsSound {q} (handed_on before batch after e d) h =
    kick-IsSound _ (
      handed_on-Ready before batch after q.busy q.waiting
        (subst (λ b. Mode b q.busy q.waiting) e h))
Move-IsSound {q} (left n e) h = h

Step-IsSound : {q r : BranchQueue} → Step q r → IsSound q → IsSound r
unfolding join
Step-IsSound {q} (joined i tx) h = kick-IsSound _ (snoc-Ready q.batches q.busy q.waiting i tx h)
Step-IsSound {q} (moved m) h = Move-IsSound m h

-- However calls join, are told, leave early, take batches, get their outcomes and hand on: a queue that nobody leads
-- has no call waiting; a queue told to lead has told its head alone, and no batch is at work; else
-- one batch alone is at work, it has a member, and no waiting call is told.
pub Reach-IsSound : {q : BranchQueue} → Reach q → IsSound q
Reach-IsSound new = tt
Reach-IsSound (next r st) = Step-IsSound st (Reach-IsSound r)

IsNil-eq {ℓ} : {A : Type ℓ} (xs : List A) → IsNil xs → xs ≡ []
IsNil-eq [] h = refl
IsNil-eq (x ∷ xs) h = elim h [ ]

-- A waiting call that was told to lead, whether or not its caller has received it, is the oldest
-- call, and no leader is at work: so the batch that it takes begins with itself.
pub told_leads :
    {q : BranchQueue}
    → Reach q
    → (before : List Queued) (c : Queued) (after : List Queued) → q.waiting ≡ before ++ (c ∷ after)
    → (c.token ≡ true) ⊎ (c.told ≡ true)
    → (before ≡ []) × (q.batches ≡ []) × (q.busy ≡ true)
told_leads {q} r before c after e t =
    let (bs, busy, first, _, _) =
      told_head q.batches q.busy before c after (subst (Mode q.batches q.busy) e (Reach-IsSound r))
        t in
    (IsNil-eq before first, IsNil-eq q.batches bs, busy)
