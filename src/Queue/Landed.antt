-- ===== src/Queue/Landed.antt =====
-- engine/queue.go: how one attempt at a batch may end.
use snapshot_engine.Shared.{
  ◌≡◌, refl, true, false, ◌||◌, ◌⊎◌, inl, inr, Option, none, some, List, [], ◌∷◌, arith, nat_beq,
  Bool-cases, Option-cases, Bytes, ◌==◌, bytes_comparable,
}
use snapshot_engine.Grants.Model.{read}
use snapshot_engine.Queue.Publish.{
  CoreError, Failure, Granted, batch_authorize, Working, Member, Calls, branch_resource, translate,
  apply_member,
}
use snapshot_engine.Queue.Attempt.{
  Outcomes, Applied, apply_all, lost, refused, unchanged, landed, Attempt, swap_in, is_conflict,
  after_update, read_check, read_checks, find_lead, attempt, fail_all,
}
use snapshot_engine.Queue.Ways.{Sum-cases, first_errs, first_lead, first_granted, attempt-cases}
use snapshot_engine.Queue.Alone.{survivors, Chain, apply_all-Chain, AllFailed, AreNamed}

module _ {N : Type 0} (calls : Calls N) (branch : Bytes) where
  -- The members without an error made w of the working set that was read.
  pub record IsMade (batch : List (Member N)) (errs : Outcomes) (w : N) : Type 0 where
    pub cur : Working
    pub start : N
    pub lead : Bytes
    pub before : Granted
    pub after : Granted
    pub current : calls.working_set (batch_authorize before calls.inner) lead ≡ inr cur
    pub no_merge : cur.merging ≡ false
    pub opened : calls.namespace cur.working ≡ inr start
    pub chained : Chain calls branch (survivors batch errs) start before w after

  -- And the core swapped it in, for the working set that was read.
  pub record IsLanded (batch : List (Member N)) (errs : Outcomes) (w : N) : Type 0 where
    pub made : IsMade batch errs w
    pub swapped :
        calls.update
          (batch_authorize made.after calls.inner)
          made.lead
          made.cur
          (record made.cur { working = calls.root w; staged = calls.root w })
        ≡ none

  -- An attempt that is not lost: the members without an error made what landed, or they changed nothing, or there are none.
  abbrev pub IsSettled : List (Member N) → Attempt N → Type 0
  IsSettled batch a = elim a.swap [
    | lost ↦ Unit
    | refused ↦ AllFailed a.errs
    | unchanged w ↦
        (m : IsMade batch a.errs w) × (AllFailed a.errs ⊎ (calls.root w ≡ m.cur.working))
    | landed w ↦ IsLanded batch a.errs w
  ]

  pub fail_all-AllFailed : (e : Failure) (errs : Outcomes) → AllFailed (fail_all e errs)
  unfolding fail_all
  fail_all-AllFailed e [] = tt
  fail_all-AllFailed e (none ∷ errs) = fail_all-AllFailed e errs
  fail_all-AllFailed e (some e' ∷ errs) = fail_all-AllFailed e errs

  apply_none-AllFailed :
      (batch : List (Member N)) (errs : Outcomes) (w : N) (g : Granted)
      → (apply_all calls branch batch errs w g).count ≡ 0
      → AllFailed (apply_all calls branch batch errs w g).errs
  unfolding apply_all
  apply_none-AllFailed [] errs w g e = tt
  apply_none-AllFailed (m ∷ batch) [] w g e = tt
  apply_none-AllFailed (m ∷ batch) (some _ ∷ errs) w g e = apply_none-AllFailed batch errs w g e
  apply_none-AllFailed (m ∷ batch) (none ∷ errs) w g e =
      elim (Sum-cases (apply_member calls branch m w g)) [
        | inl (_, h) ↦ rw (h, apply_all) (apply_none-AllFailed batch errs w g (ground (arith, h)))
        | inr (_, h) ↦ absurd (ground (arith, h))
      ]

  after_update-IsSettled :
      (batch : List (Member N)) (a : Applied N) (m : IsMade batch a.errs a.made)
      → m.after ≡ a.granted
      → (answer : Option CoreError)
      → calls.update
          (batch_authorize a.granted calls.inner)
          m.lead
          m.cur
          (record m.cur { working = calls.root a.made; staged = calls.root a.made })
        ≡ answer
      → IsSettled batch (after_update a answer)
  unfolding after_update
  after_update-IsSettled batch a m g none e = record { made = m; swapped = rw g e }
  after_update-IsSettled batch a m g (some err) e = elim (Bool-cases (is_conflict err)) [
    | inl c ↦ rw c tt
    | inr c ↦ rw c (fail_all-AllFailed (translate err) a.errs)
  ]

  swap_in-IsSettled :
      (batch : List (Member N)) (a : Applied N) (m : IsMade batch a.errs a.made)
      → m.after ≡ a.granted
      → (a.count ≡ 0 → AllFailed a.errs)
      → IsSettled batch (swap_in calls branch m.lead m.cur a)
  unfolding swap_in
  swap_in-IsSettled batch a m g none_left =
      elim (Bool-cases (nat_beq a.count 0 || calls.root a.made == m.cur.working)) [
        | inl still ↦ rw still (
          m,
          elim (Bool-cases (nat_beq a.count 0)) [
            | inl z ↦ inl (none_left (ground arith))
            | inr z ↦
                inr ((bytes_comparable.eq_iff (calls.root a.made) m.cur.working).0 (ground arith))
          ],
        )
        | inr moves ↦ rw moves (after_update-IsSettled batch a m g _ refl)
      ]

  find_lead_kept :
      (batch : List (Member N)) (lead : Bytes) (g : Granted)
      → (lead == []) ≡ false
      → ((find_lead calls branch batch lead g).0 == []) ≡ false
  unfolding find_lead
  find_lead_kept [] lead g h = h
  find_lead_kept (m ∷ batch) lead g h = elim (Option-cases (read_check calls branch m)) [
    | inl r ↦ rw (r, find_lead) (rw h (find_lead_kept batch lead g h))
    | inr (e, r) ↦ rw (r, find_lead) (find_lead_kept batch lead g h)
  ]

  no_lead-AllFailed :
      (batch : List (Member N)) (g : Granted)
      → AreNamed batch
      → ((find_lead calls branch batch [] g).0 == []) ≡ true
      → AllFailed (read_checks calls branch batch)
  unfolding find_lead read_checks
  no_lead-AllFailed [] g h e = tt
  no_lead-AllFailed (m ∷ batch) g h e = elim (Option-cases (read_check calls branch m)) [
    | inl r ↦ absurd (
        ground
          (arith, r, find_lead_kept batch m.principal ((read, branch_resource branch) ∷ g) h.0))
    | inr (f, r) ↦ rw (r, read_checks) (no_lead-AllFailed batch g h.1 (ground (arith, r)))
  ]

  -- Every attempt settles its batch or is lost.
  pub attempt-IsSettled :
      (batch : List (Member N)) → AreNamed batch → IsSettled batch (attempt calls branch batch)
  attempt-IsSettled batch named =
      attempt-cases calls branch batch (IsSettled batch) (no_lead-AllFailed batch [] named)
        (λ e. fail_all-AllFailed e (first_errs calls branch batch))
        (λ cur w c b n.
          let errs : Outcomes = first_errs calls branch batch in
          let g : Granted = first_granted calls branch batch in
          let a : Applied N = apply_all calls branch batch errs w g in
          let m : IsMade batch a.errs a.made = record {
            cur = cur;
            start = w;
            lead = first_lead calls branch batch;
            before = g;
            after = a.granted;
            current = c;
            no_merge = b;
            opened = n;
            chained = apply_all-Chain calls branch batch errs w g;
          } in
          swap_in-IsSettled batch a m refl (apply_none-AllFailed batch errs w g))
