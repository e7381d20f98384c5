-- ===== src/Store/Claims.antt =====
-- ClaimJob as the concurrency control of the workers.
use queryforge.Prelude.{
  ℕ, ◌≡◌, ◌≢◌, refl, ◌∙◌, inl, inr, Bool, true, false, none, List, [], ◌∷◌, All, All-append,
  All-update_where, any_of, any_of-update_where, any_of-append, any_of-find, any_of-imp,
  find-of_any, find-none, find, update_where, ◌==◌, ==_iff, Bool-cases, Option-cases, arith,
}
use queryforge.Prelude.Float.{FloatOps}
use queryforge.Store.{
  Job, Jobs, Error, Result, ok, err, not_found, already_claimed, database, Link, up, down, lost,
  send, has_id, claimable, claimed, completed, create_job, new_job, insert_job, claim_job,
  after_claim, complete_job, mark_failure, reclaim_stale,
}
use queryforge.Store.Lifecycle.{Op, create, claim, complete, fail, reclaim, apply, apply_all}

-- A job that some worker holds: its row is there and cannot be claimed.
pub record IsHeld {F J : Type 0} (i : ℕ) (s : Jobs F J) : Type 0 where
  pub present : any_of (has_id i) s ≡ true
  pub locked : All (λ (j : Job F J). claimable i j ≡ false) s

-- The operations that may give a held job back: a failure of that job, and a reclaim.
abbrev pub releases : {F J : Type 0} → ℕ → Op F J → Bool
releases i (fail l k cause now) = k == i
releases i (reclaim l lease now) = true
releases i _ = false

module _ {F J : Type 0} (i : ℕ) where
  abbrev Locked : Job F J → Type 0
  Locked j = claimable i j ≡ false

  send-IsHeld :
      {A : Type 0} (link : Link) (s s' : Jobs F J) (r : Result A)
      → IsHeld i s
      → IsHeld i s'
      → IsHeld i (send link s (r, s')).1
  send-IsHeld up s s' r h h' = h'
  send-IsHeld down s s' r h h' = h
  send-IsHeld lost s s' r h h' = h'

  update-IsHeld :
      (p : Job F J → Bool) (f : Job F J → Job F J) (s : Jobs F J)
      → ((j : Job F J) → has_id i (f j) ≡ has_id i j)
      → ((j : Job F J) → Locked j → p j ≡ true → Locked (f j))
      → IsHeld i s
      → IsHeld i (update_where p f s)
  update-IsHeld p f s same keeps h = record {
    present = any_of-update_where (has_id i) p f s same ∙ h.present;
    locked = All-update_where Locked p f s keeps h.locked;
  }

  ne_of_fresh :
      (k : ℕ) (s : Jobs F J)
      → any_of (has_id i) s ≡ true
      → find (has_id k) s ≡ none
      → (k == i) ≡ false
  ne_of_fresh k s here gone = elim (Bool-cases (k == i)) [
    | inl t ↦
        let (j, found) = find-of_any (has_id k) s (rw ((==_iff k i).0 t) here) in cc (found, gone)
    | inr f ↦ f
  ]

  insert-IsHeld : (row : Job F J) (s : Jobs F J) → IsHeld i s → IsHeld i (insert_job row s).1
  unfolding insert_job
  insert-IsHeld row s h = ground (
    arith,
    ne_of_fresh row.id s,
    any_of-append (has_id i) s (row ∷ []),
    All-append Locked s (row ∷ []) h.locked,
  )

  apply-IsHeld :
      (fl : FloatOps F) (o : Op F J) (s : Jobs F J)
      → releases i o ≡ false
      → IsHeld i s
      → IsHeld i (apply fl o s)
  unfolding apply create_job claim_job complete_job mark_failure reclaim_stale
  apply-IsHeld fl (create l m j fresh now) s n h =
      send-IsHeld l s _ _ h (insert-IsHeld (new_job fl j fresh now) s h)
  apply-IsHeld fl (claim l m k now) s n h =
      send-IsHeld l s _ _ h
        (update-IsHeld (claimable k) (claimed now) s (λ j. refl) (λ j _ _. ground arith) h)
  apply-IsHeld fl (complete l k report a b c d now) s n h = send-IsHeld l s _ _ h (
      update-IsHeld (has_id k) (completed report a b c d now) s (λ j. refl) (λ j _ _. ground arith)
        h)
  apply-IsHeld fl (fail l k cause now) s n h =
      send-IsHeld l s _ _ h (update-IsHeld (has_id k) _ s (λ j. refl) (λ j _ m. ground arith) h)
  apply-IsHeld fl (reclaim l lease now) s n h = absurd (cc)

  apply_all-IsHeld :
      (fl : FloatOps F) (os : List (Op F J)) (s : Jobs F J)
      → any_of (releases i) os ≡ false
      → IsHeld i s
      → IsHeld i (apply_all fl os s)
  unfolding apply_all
  apply_all-IsHeld fl [] s n h = h
  apply_all-IsHeld fl (o ∷ os) s n h =
      apply_all-IsHeld fl os (apply fl o s) (ground arith) (apply-IsHeld fl o s (ground arith) h)

  -- The effect of ClaimJob's UPDATE.
  abbrev claim_rows : ℕ → Jobs F J → Jobs F J
  claim_rows now s = update_where (claimable i) (claimed now) s

  Locked-after : (now : ℕ) (s : Jobs F J) → All Locked (claim_rows now s)
  Locked-after now [] = tt
  Locked-after now (j ∷ s) = (ground arith, Locked-after now s)

  none_claimable : (s : Jobs F J) → All Locked s → any_of (claimable i) s ≡ false
  none_claimable [] h = refl
  none_claimable (j ∷ s) h = ground (arith, none_claimable s h.1)

  present_after :
      (now : ℕ) (s : Jobs F J) → any_of (has_id i) (claim_rows now s) ≡ any_of (has_id i) s
  present_after now s = any_of-update_where (has_id i) (claimable i) (claimed now) s (λ j. refl)

  after_claim-ne-ok :
      (m : Link) (e : Error) (s : Jobs F J) (j : Job F J) → after_claim m i (err e) s ≢ ok j
  unfolding after_claim
  after_claim-ne-ok m e s j h = ground arith

  row_claimed :
      (l m : Link) (now : ℕ) (s : Jobs F J) (j : Job F J)
      → (claim_job l m i now s).0 ≡ ok j
      → (l ≡ up) × (any_of (claimable i) s ≡ true)
  unfolding claim_job
  row_claimed up m now s j h = elim (Option-cases (find (claimable i) s)) [
    | inl none_left ↦
        absurd (after_claim-ne-ok m not_found (claim_rows now s) j (rw none_left at h))
    | inr (a, found) ↦ (refl, any_of-find (claimable i) s found)
  ]
  row_claimed down m now s j h = absurd (after_claim-ne-ok m database s j h)
  row_claimed lost m now s j h = absurd (after_claim-ne-ok m database (claim_rows now s) j h)

  -- A claim that succeeds leaves the job held.
  claim_job-IsHeld :
      (l m : Link) (now : ℕ) (s : Jobs F J) {j : Job F J}
      → (claim_job l m i now s).0 ≡ ok j
      → IsHeld i (claim_job l m i now s).1
  unfolding claim_job
  claim_job-IsHeld l m now s {j} h =
      let (reached, found) = row_claimed l m now s j h in
      rw reached (record {
        present =
            present_after now s ∙ any_of-imp (claimable i) (has_id i) s (λ x c. ground arith) found;
        locked = Locked-after now s;
      })

  refuse_held :
      (now : ℕ) (s : Jobs F J) → IsHeld i s → (claim_job up up i now s).0 ≡ err already_claimed
  unfolding claim_job
  refuse_held now s h =
      let (j, there) =
        find-of_any (has_id i) (claim_rows now s) (present_after now s ∙ h.present) in
      rw (find-none (claimable i) s (none_claimable s h.locked), there, after_claim)

  -- Exactly one worker wins a job: after a claim of job `i` that succeeds, and after any operations
  -- of any workers that are no failure of job `i` and no reclaim, every further claim of it that
  -- reaches the database is refused as already claimed.
  pub claim-excludes-claim :
      (fl : FloatOps F) (l m : Link) (now later : ℕ) (s : Jobs F J) (os : List (Op F J))
      (j : Job F J)
      → (claim_job l m i now s).0 ≡ ok j
      → any_of (releases i) os ≡ false
      → (claim_job up up i later (apply_all fl os (claim_job l m i now s).1)).0
        ≡ err already_claimed
  claim-excludes-claim fl l m now later s os j won quiet =
      refuse_held later (apply_all fl os (claim_job l m i now s).1)
        (apply_all-IsHeld fl os (claim_job l m i now s).1 quiet (claim_job-IsHeld l m now s won))
