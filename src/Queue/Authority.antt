-- ===== src/Queue/Authority.antt =====
-- engine/queue.go: the answers that the core gets during a batch's swap, which is made as one of its members.
use snapshot_engine.Shared.{
  ◌≡◌, refl, ap, ◌||◌, ◌⊎◌, inl, inr, Option, none, List, [], ◌∷◌, arith, nat_beq, Bool-cases,
  Bytes, bytes_comparable, ◌==◌,
}
use snapshot_engine.Grants.Model.{Action}
use snapshot_engine.Queue.Publish.{
  CoreError, Authorizer, Granted, is_granted, batch_authorize, Working, Member, Calls,
}
use snapshot_engine.Queue.Attempt.{Applied, apply_all, swap_in, after_update, attempt}
use snapshot_engine.Queue.Asked.{over, read_checks-over, find_lead-over, apply_all-over}
use snapshot_engine.Queue.Ways.{Sum-cases, first_errs, first_lead, first_granted}
use snapshot_engine.Queue.Allowed.{
  AllOf, is_granted-AllOf, AllVouch, apply_all-AllOf, find_lead-AllOf,
}

module _ {N : Type 0} (calls : Calls N) (branch : Bytes) where
  -- One of the members was asked the question in its own name and was allowed it.
  abbrev pub SomeAllowed : List (Member N) → Action → Bytes → Type 0
  SomeAllowed [] a resource = ⊥
  SomeAllowed (m ∷ batch) a resource =
      (calls.check m.ident m.principal a resource ≡ none) ⊎ SomeAllowed batch a resource

  all_vouch :
      (P : Action → Bytes → Type 0) (batch : List (Member N))
      → ((a : Action) (resource : Bytes) → SomeAllowed batch a resource → P a resource)
      → AllVouch calls branch P batch
  all_vouch P [] f = tt
  all_vouch P (m ∷ batch) f = (
    λ a resource c. f a resource (inl c),
    all_vouch P batch (λ a resource s. f a resource (inr s)),
  )

  -- A yes of the authorizer is a yes to some member, asked in its own name, or one of the database's authorizer.
  abbrev pub IsVouched : List (Member N) → Authorizer → Type 0
  IsVouched batch who =
      (p : Bytes) (a : Action) (resource : Bytes)
      → who p a resource ≡ none
      → SomeAllowed batch a resource ⊎ (calls.inner p a resource ≡ none)

  batch_authorize-IsVouched :
      (batch : List (Member N)) (g : Granted)
      → AllOf (SomeAllowed batch) g
      → IsVouched batch (batch_authorize g calls.inner)
  unfolding batch_authorize
  batch_authorize-IsVouched batch g all p a resource e =
      elim (Bool-cases (is_granted g a resource)) [
        | inl known ↦ inl (is_granted-AllOf (SomeAllowed batch) g a resource all known)
        | inr unknown ↦ inr (ground arith)
      ]

  first_granted-AllOf :
      (batch : List (Member N)) → AllOf (SomeAllowed batch) (first_granted calls branch batch)
  first_granted-AllOf batch =
      find_lead-AllOf calls branch (SomeAllowed batch) batch [] []
        (all_vouch (SomeAllowed batch) batch (λ _ _ s. s)) tt

  applied-AllOf :
      (batch : List (Member N)) (w : N)
      → AllOf
          (SomeAllowed batch)
          (apply_all calls branch batch
            (first_errs calls branch batch)
            w
            (first_granted calls branch batch)).granted
  applied-AllOf batch w =
      apply_all-AllOf calls branch (SomeAllowed batch) batch (first_errs calls branch batch) w
        (first_granted calls branch batch) (all_vouch (SomeAllowed batch) batch (λ _ _ s. s))
        (first_granted-AllOf batch)

  module _ (reads : Authorizer → Bytes → CoreError ⊎ Working)
      (writes : Authorizer → Bytes → Working → Working → Option CoreError) where
    swap_in-over :
        (lead : Bytes) (cur : Working) (a : Applied N)
        → writes
            (batch_authorize a.granted calls.inner)
            lead
            cur
            (record cur { working = calls.root a.made; staged = calls.root a.made })
          ≡ calls.update
              (batch_authorize a.granted calls.inner)
              lead
              cur
              (record cur { working = calls.root a.made; staged = calls.root a.made })
        → swap_in (over calls reads writes) branch lead cur a ≡ swap_in calls branch lead cur a
    unfolding swap_in
    swap_in-over lead cur a same =
        elim (Bool-cases (nat_beq a.count 0 || calls.root a.made == cur.working)) [
          | inl e ↦ rw (e, swap_in) refl
          | inr e ↦ rw (e, swap_in) (ap (after_update a) same)
        ]

    applied-over :
        (batch : List (Member N)) (lead : Bytes) (cur : Working) (w : N)
        → ((who : Authorizer)
            → IsVouched batch who
            → (lead : Bytes) (cur next : Working)
            → writes who lead cur next ≡ calls.update who lead cur next)
        → swap_in (over calls reads writes) branch lead cur (
            apply_all
              (over calls reads writes)
              branch
              batch
              (first_errs calls branch batch)
              w
              (first_granted calls branch batch))
          ≡ swap_in calls branch lead cur (
              apply_all calls branch batch
                (first_errs calls branch batch)
                w
                (first_granted calls branch batch))
    applied-over batch lead cur w same_writes =
        rw
          (apply_all-over calls branch reads writes batch (first_errs calls branch batch) w
            (first_granted calls branch batch))
          (swap_in-over lead cur _
            (same_writes _ (batch_authorize-IsVouched batch _ (applied-AllOf batch w)) lead cur _))

    -- The core reads and swaps a batch's branch only under an authorizer that says yes to nothing but what a member
    -- was asked in its own name and allowed, and what the database's authorizer says yes to: the attempt is the same
    -- with any core that reads and swaps as this one does under every such authorizer, whatever it does under others.
    pub attempt-over :
        (batch : List (Member N))
        → ((who : Authorizer)
            → IsVouched batch who
            → (lead : Bytes) → reads who lead ≡ calls.working_set who lead)
        → ((who : Authorizer)
            → IsVouched batch who
            → (lead : Bytes) (cur next : Working)
            → writes who lead cur next ≡ calls.update who lead cur next)
        → attempt (over calls reads writes) branch batch ≡ attempt calls branch batch
    unfolding attempt
    attempt-over batch same_reads same_writes =
        let at_first =
          batch_authorize-IsVouched batch (first_granted calls branch batch)
            (first_granted-AllOf batch) in
        let errs_over = read_checks-over calls branch reads writes batch in
        let lead_over = find_lead-over calls branch reads writes batch [] [] in
        rw (errs_over, attempt)
          (rw (lead_over, attempt)
            (elim (Bool-cases (first_lead calls branch batch == [])) [
              | inl e ↦ rw (e, attempt) refl
              | inr e ↦
                  rw (e, attempt)
                    (rw (same_reads _ at_first (first_lead calls branch batch))
                      (elim (Sum-cases (
                        calls.working_set
                          (batch_authorize (first_granted calls branch batch) calls.inner)
                          (first_lead calls branch batch))) [
                            | inl (f, c) ↦ rw (c, attempt) (rw errs_over refl)
                            | inr (cur, c) ↦
                                rw (c, attempt)
                                  (elim (Bool-cases cur.merging) [
                                    | inl b ↦ rw b (rw errs_over refl)
                                    | inr b ↦ rw b (elim (Sum-cases (calls.namespace cur.working)) [
                                      | inl (f, n) ↦ rw n (rw errs_over refl)
                                      | inr (w, n) ↦ rw n (
                                          rw errs_over
                                            (rw lead_over (applied-over batch _ cur w same_writes)))
                                    ])
                                  ])
                          ]))
            ]))
