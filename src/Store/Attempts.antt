-- ===== src/Store/Attempts.antt =====
-- How often a job is handed to a worker.
use queryforge.Prelude.{
  ℕ, ◌+◌, ◌≤◌, ◌≡◌, refl, sym, subst, inl, inr, Bool, Option, none, some, List, [], ◌∷◌, ◌++◌,
  All-find, find, find-update_where, find-update_none, find-append, update_where, passes-find, ◌==◌,
  ==_iff, Option-cases, Bool-cases, if◌then◌else◌, arith,
}
use queryforge.Prelude.Float.{FloatOps}
use queryforge.Store.{
  Job, Jobs, Result, ok, err, Link, up, down, lost, send, has_id, claimable, claimed, create_job,
  new_job, insert_job, insert_row, claim_job, after_claim, job_by_id, refusal, complete_job,
  mark_failure, reclaim_stale,
}
use queryforge.Store.Keys.{IsKeyed, apply-IsKeyed, find-claimable}
use queryforge.Store.Lifecycle.{
  IsSound, allowed, jobs_stay-IsSound, Op, create, claim, complete, fail, reclaim, apply, apply_all,
}

abbrev won : {A : Type 0} → Result A → ℕ
won (ok a) = 1
won (err e) = 0

module _ {F J : Type 0} (i : ℕ) where
  -- Whether the operation is a claim of job `i` that a worker wins.
  abbrev pub handed : Op F J → Jobs F J → ℕ
  handed (claim l m k now) s = if k == i then won (claim_job l m k now s).0 else 0
  handed _ s = 0

  -- How many of the operations are, one after the other.
  abbrev pub times_handed : FloatOps F → List (Op F J) → Jobs F J → ℕ
  times_handed fl [] s = 0
  times_handed fl (o ∷ os) s = handed o s + times_handed fl os (apply fl o s)

  abbrev attempts_of : Option (Job F J) → ℕ
  attempts_of none = 0
  attempts_of (some j) = j.attempts

  -- The attempts that the row of job `i` has had.
  abbrev attempts_in : Jobs F J → ℕ
  attempts_in s = attempts_of (find (has_id i) s)

  touched :
      (p : Job F J → Bool) (f : Job F J → Job F J) (j : Job F J)
      → j.attempts ≤ (f j).attempts
      → j.attempts ≤ (if p j then f j else j).attempts
  touched p f j h = ground arith

  update-attempts :
      (p : Job F J → Bool) (f : Job F J → Job F J) (s : Jobs F J)
      → ((j : Job F J) → has_id i (f j) ≡ has_id i j)
      → ((j : Job F J) → j.attempts ≤ (f j).attempts)
      → attempts_in s ≤ attempts_in (update_where p f s)
  update-attempts p f s same grows = elim (Option-cases (find (has_id i) s)) [
    | inl e ↦ rw (e, find-update_none (has_id i) p f s same e) (omega arith)
    | inr (j, e) ↦ rw (e, find-update_where (has_id i) p f s same e) (touched p f j (grows j))
  ]

  refused-won : (r : Result (Job F J)) → won (refusal r) ≡ 0
  refused-won (ok j) = refl
  refused-won (err e) = refl

  -- The effect of ClaimJob's UPDATE.
  abbrev claim_rows : ℕ → Jobs F J → Jobs F J
  claim_rows now s = update_where (claimable i) (claimed now) s

  found-attempts :
      (now : ℕ) (s : Jobs F J) (j : Job F J)
      → IsKeyed s
      → find (claimable i) s ≡ some j
      → attempts_in s + 1 ≡ attempts_in (claim_rows now s)
  found-attempts now s j h e = rw (
    find-update_where (has_id i) (claimable i) (claimed now) s (λ k. refl) (find-claimable i s h e),
    find-claimable i s h e,
    passes-find (claimable i) s e,
  )

  -- A claim that is won is an attempt of the row.
  claim-attempts :
      (l m : Link) (now : ℕ) (s : Jobs F J)
      → IsKeyed s
      → attempts_in s + won (claim_job l m i now s).0 ≤ attempts_in (claim_job l m i now s).1
  unfolding claim_job after_claim
  claim-attempts down m now s h = omega arith
  claim-attempts lost m now s h =
      let grows = update-attempts (claimable i) (claimed now) s (λ j. refl) (λ j. omega arith) in
      omega (arith, grows)
  claim-attempts up m now s h = elim (Option-cases (find (claimable i) s)) [
    | inl e ↦
        let grows = update-attempts (claimable i) (claimed now) s (λ j. refl) (λ j. omega arith) in
        rw (e, refused-won (job_by_id m i (claim_rows now s))) (omega (arith, grows))
    | inr (j, e) ↦ rw e (omega (arith, found-attempts now s j h e))
  ]

  append-attempts : (row : Job F J) (s : Jobs F J) → attempts_in s ≤ attempts_in (s ++ row ∷ [])
  append-attempts row s = elim (Option-cases (find (has_id i) s)) [
    | inl e ↦ rw e (omega arith)
    | inr (j, e) ↦ rw (e, find-append (has_id i) s (row ∷ []) e) (omega arith)
  ]

  insert-attempts :
      (row : Job F J) (s : Jobs F J) (a b : Option (Job F J))
      → attempts_in s ≤ attempts_in (insert_row a b row s).1
  insert-attempts row s (some j) b = omega arith
  insert-attempts row s none (some j) = omega arith
  insert-attempts row s none none = append-attempts row s

  send-attempts :
      {A : Type 0} (l : Link) (s s' : Jobs F J) (r : Result A)
      → attempts_in s ≤ attempts_in s'
      → attempts_in s + 0 ≤ attempts_in (send l s (r, s')).1
  send-attempts up s s' r h = omega arith
  send-attempts down s s' r h = omega arith
  send-attempts lost s s' r h = omega arith

  other-attempts :
      (l m : Link) (k now : ℕ) (s : Jobs F J)
      → attempts_in s + 0 ≤ attempts_in (claim_job l m k now s).1
  unfolding claim_job
  other-attempts l m k now s =
      send-attempts l s _ _ (update-attempts _ _ s (λ j. refl) (λ j. omega arith))

  apply-attempts :
      (fl : FloatOps F) (o : Op F J) (s : Jobs F J)
      → IsKeyed s
      → attempts_in s + handed o s ≤ attempts_in (apply fl o s)
  unfolding apply create_job complete_job mark_failure reclaim_stale insert_job
  apply-attempts fl (create l m j fresh now) s h =
      send-attempts l s _ _ (insert-attempts (new_job fl j fresh now) s _ _)
  apply-attempts fl (claim l m k now) s h = elim (Bool-cases (k == i)) [
    | inl t ↦ rw t (
        subst
          (λ n.
            attempts_in s + won (claim_job l m n now s).0 ≤ attempts_in (claim_job l m n now s).1)
          (sym ((==_iff k i).0 t)) (claim-attempts l m now s h))
    | inr t ↦ rw t (other-attempts l m k now s)
  ]
  apply-attempts fl (complete l k report a b c d now) s h =
      send-attempts l s _ _ (update-attempts _ _ s (λ j. refl) (λ j. omega arith))
  apply-attempts fl (fail l k cause now) s h =
      send-attempts l s _ _ (update-attempts _ _ s (λ j. refl) (λ j. omega arith))
  apply-attempts fl (reclaim l lease now) s h =
      send-attempts l s _ _ (update-attempts _ _ s (λ j. refl) (λ j. omega arith))

  apply_all-attempts :
      (fl : FloatOps F) (os : List (Op F J)) (s : Jobs F J)
      → IsKeyed s
      → attempts_in s + times_handed fl os s ≤ attempts_in (apply_all fl os s)
  unfolding apply_all
  apply_all-attempts fl [] s h = omega arith
  apply_all-attempts fl (o ∷ os) s h =
      let rest = apply_all-attempts fl os (apply fl o s) (apply-IsKeyed fl o s h) in
      let first = apply-attempts fl o s h in omega (arith, first, rest)

  -- A job is handed to a worker at most `max_attempts` times, or once where that is below one: whatever operations come one after the
  -- other on an empty table, in any order and whatever becomes of their statements, the claims of job
  -- `i` that are won are no more than the attempts that its row allows.
  pub times_handed-bounded :
      (fl : FloatOps F) (os : List (Op F J)) (j : Job F J)
      → find (has_id i) (apply_all fl os []) ≡ some j
      → times_handed fl os [] ≤ allowed j.max_attempts
  times_handed-bounded fl os j e =
      let sound = All-find IsSound (has_id i) (apply_all fl os []) (jobs_stay-IsSound fl os) e in
      let counted : 0 + times_handed fl os [] ≤ j.attempts =
        subst (λ o. 0 + times_handed fl os [] ≤ attempts_of o) e (apply_all-attempts fl os [] tt) in
      omega (arith, counted, sound.capped)
