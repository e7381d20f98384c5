-- ===== src/Store/Idempotency.antt =====
-- CreateJob and the idempotency key: one row for a key, however often it is submitted.
use queryforge.Prelude.{
  ℕ, ◌≡◌, refl, inl, inr, Bool, true, false, some, List, [], ◌∷◌, find, update_where,
  find-update_where, find-append, find-append_last, Bytes, bytes_eq_refl, if◌then◌else◌,
  Option-cases, arith,
}
use queryforge.Prelude.Float.{FloatOps}
use queryforge.Store.{
  Job, Jobs, Error, Result, ok, err, Link, up, down, lost, send, has_id, has_key, claimable,
  claimed, completed, failed_once, is_stale, reclaimed, create_job, new_job, insert_job,
  after_insert, claim_job, complete_job, mark_failure, reclaim_stale,
}
use queryforge.Store.Lifecycle.{Op, create, claim, complete, fail, reclaim, apply, apply_all}

-- The first row with the key is that of job `i`.
abbrev pub Known : {F J : Type 0} → Bytes → ℕ → Jobs F J → Type 0
Known {F} {J} k i s = (a : Job F J) × (find (has_key k) s ≡ some a) × (a.id ≡ i)

module _ {F J : Type 0} (k : Bytes) (i : ℕ) where
  send-Known :
      {A : Type 0} (link : Link) (s s' : Jobs F J) (r : Result A)
      → Known k i s
      → Known k i s'
      → Known k i (send link s (r, s')).1
  send-Known up s s' r h h' = h'
  send-Known down s s' r h h' = h
  send-Known lost s s' r h h' = h'

  update-Known :
      (p : Job F J → Bool) (f : Job F J → Job F J) (s : Jobs F J)
      → ((j : Job F J) → has_key k (f j) ≡ has_key k j)
      → ((j : Job F J) → (f j).id ≡ j.id)
      → Known k i s
      → Known k i (update_where p f s)
  update-Known p f s keeps same (a, found, e) = (
    if p a then f a else a,
    find-update_where (has_key k) p f s keeps found,
    ground (arith, same a),
  )

  insert-Known : (row : Job F J) (s : Jobs F J) → Known k i s → Known k i (insert_job row s).1
  unfolding insert_job
  insert-Known row s (a, found, e) = elim (Option-cases (find (has_key row.idempotency_key) s)) [
    | inr (b, there) ↦ rw there (a, found, e)
    | inl absent ↦ elim (Option-cases (find (has_id row.id) s)) [
      | inr (b, taken) ↦ rw (absent, taken) (a, found, e)
      | inl free ↦ rw (absent, free) (a, find-append (has_key k) s (row ∷ []) found, e)
    ]
  ]

  apply-Known :
      (fl : FloatOps F) (o : Op F J) (s : Jobs F J) → Known k i s → Known k i (apply fl o s)
  unfolding apply create_job claim_job complete_job mark_failure reclaim_stale
  apply-Known fl (create l m j fresh now) s h =
      let row = new_job fl j fresh now in
      send-Known l s (insert_job row s).1 (insert_job row s).0 h (insert-Known row s h)
  apply-Known fl (claim l m n now) s h =
      send-Known l s _ _ h (update-Known (claimable n) (claimed now) s (λ j. refl) (λ j. refl) h)
  apply-Known fl (complete l n report a b c d now) s h =
      send-Known l s _ _ h
        (update-Known (has_id n) (completed report a b c d now) s (λ j. refl) (λ j. refl) h)
  apply-Known fl (fail l n cause now) s h =
      send-Known l s _ _ h
        (update-Known (has_id n) (failed_once cause now) s (λ j. refl) (λ j. refl) h)
  apply-Known fl (reclaim l lease now) s h =
      send-Known l s _ _ h
        (update-Known (is_stale now lease) (reclaimed now) s (λ j. refl) (λ j. refl) h)

  apply_all-Known :
      (fl : FloatOps F) (os : List (Op F J)) (s : Jobs F J)
      → Known k i s
      → Known k i (apply_all fl os s)
  unfolding apply_all
  apply_all-Known fl [] s h = h
  apply_all-Known fl (o ∷ os) s h = apply_all-Known fl os (apply fl o s) (apply-Known fl o s h)

module _ {F J : Type 0} (fl : FloatOps F) (j : Job F J) (fresh now : ℕ) where
  create_job-Known :
      (s : Jobs F J) (a : Job F J) (new : Bool)
      → (create_job fl up up j fresh now s).0 ≡ ok (a, new)
      → Known j.idempotency_key a.id (create_job fl up up j fresh now s).1
  unfolding create_job insert_job after_insert new_job
  create_job-Known s a new h = elim (Option-cases (find (has_key j.idempotency_key) s)) [
    | inr (b, there) ↦ rw there (b, there, own (rw (there, there) at h))
    | inl absent ↦ elim (Option-cases (find (has_id (new_job fl j fresh now).id) s)) [
      | inr (b, taken) ↦ absurd (never (rw (absent, taken) at h))
      | inl free ↦
          rw (absent, free)
            (
              new_job fl j fresh now,
              find-append_last (has_key j.idempotency_key) s (new_job fl j fresh now) absent
                  (bytes_eq_refl j.idempotency_key),
              made (rw (absent, free) at h),
            )
    ]
  ]
    where
      own :
          {b : Job F J}
          → ◌≡◌ {A = Result (Job F J × Bool)} (ok (b, false)) (ok (a, new))
          → b.id ≡ a.id
      own q = ground arith

      made :
          ◌≡◌ {A = Result (Job F J × Bool)} (ok (new_job fl j fresh now, true)) (ok (a, new))
          → (new_job fl j fresh now).id ≡ a.id
      made q = ground arith

      never : ◌≡◌ {A = Result (Job F J × Bool)} (err Error.database) (ok (a, new)) → ⊥
      never q = cc

  create_job_again :
      (s : Jobs F J) (i : ℕ)
      → Known j.idempotency_key i s
      → (a : Job F J) × (create_job fl up up j fresh now s ≡ (ok (a, false), s)) × (a.id ≡ i)
  unfolding create_job insert_job after_insert new_job
  create_job_again s i (a, found, e) = (a, rw (found, found), e)

-- A resubmission creates nothing: once CreateJob has answered a job for a key, then after any
-- operations at all, CreateJob with the same key answers that job's row as not created and leaves
-- the table as it is.
pub create_job-is-idempotent :
    {F J : Type 0} (fl : FloatOps F) (j again : Job F J) (fresh other now later : ℕ) (s : Jobs F J)
    (a : Job F J) (new : Bool) (os : List (Op F J))
    → (create_job fl up up j fresh now s).0 ≡ ok (a, new)
    → again.idempotency_key ≡ j.idempotency_key
    → let t = apply_all fl os (create_job fl up up j fresh now s).1 in
      (b : Job F J) × (create_job fl up up again other later t ≡ (ok (b, false), t)) × (b.id ≡ a.id)
create_job-is-idempotent fl j again fresh other now later s a new os answered same =
    let t = apply_all fl os (create_job fl up up j fresh now s).1 in
    create_job_again fl again other later t a.id (
      rw same (
        apply_all-Known j.idempotency_key a.id fl os (create_job fl up up j fresh now s).1
          (create_job-Known fl j fresh now s a new answered)))
