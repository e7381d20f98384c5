-- ===== src/Store/Keys.antt =====
-- The primary key of the jobs table.
use queryforge.Prelude.{
  ℕ, ◌≡◌, refl, sym, subst, inl, inr, Bool, false, Option, none, some, List, [], ◌∷◌, ◌++◌, map,
  All, find, update_where, ◌==◌, Bool-cases, arith,
}
use queryforge.Prelude.Sort.{Apart}
use queryforge.Prelude.Float.{FloatOps}
use queryforge.Store.{
  Job, Jobs, Result, Link, up, down, lost, send, has_id, claimable, create_job, new_job, insert_job,
  insert_row, claim_job, complete_job, mark_failure, reclaim_stale,
}
use queryforge.Store.Lifecycle.{Op, create, claim, complete, fail, reclaim, apply}

module _ {F J : Type 0} where
  abbrev ids : Jobs F J → List ℕ
  ids s = map (λ j. j.id) s

  -- No two rows have the same id.
  abbrev pub IsKeyed : Jobs F J → Type 0
  IsKeyed s = Apart (λ a b. b == a) (ids s)

  ids-update :
      (p : Job F J → Bool) (f : Job F J → Job F J) (s : Jobs F J)
      → ((j : Job F J) → (f j).id ≡ j.id)
      → ids (update_where p f s) ≡ ids s
  ids-update p f [] same = refl
  ids-update p f (j ∷ s) same = ground (arith, same j, ids-update p f s same)

  update-IsKeyed :
      (p : Job F J → Bool) (f : Job F J → Job F J) (s : Jobs F J)
      → ((j : Job F J) → (f j).id ≡ j.id)
      → IsKeyed s
      → IsKeyed (update_where p f s)
  update-IsKeyed p f s same h = subst (Apart (λ a b. b == a)) (sym (ids-update p f s same)) h

  ids-append :
      (row : Job F J) (P : ℕ → Type 0) (s : Jobs F J)
      → All P (ids s)
      → P row.id
      → All P (ids (s ++ row ∷ []))
  ids-append row P [] h k = (k, tt)
  ids-append row P (j ∷ s) h k = (h.0, ids-append row P s h.1 k)

  append-IsKeyed :
      (row : Job F J) (s : Jobs F J)
      → find (has_id row.id) s ≡ none
      → IsKeyed s
      → IsKeyed (s ++ row ∷ [])
  append-IsKeyed row [] e h = (tt, tt)
  append-IsKeyed row (j ∷ s) e h = elim (Bool-cases (has_id row.id j)) [
    | inl t ↦ absurd (ground arith)
    | inr t ↦ (ids-append row _ s h.0 (ground arith), append-IsKeyed row s (rw t at e) h.1)
  ]

  insert_row-IsKeyed :
      (row : Job F J) (s : Jobs F J) (a b : Option (Job F J))
      → find (has_id row.id) s ≡ b
      → IsKeyed s
      → IsKeyed (insert_row a b row s).1
  insert_row-IsKeyed row s (some j) b e h = h
  insert_row-IsKeyed row s none (some j) e h = h
  insert_row-IsKeyed row s none none e h = append-IsKeyed row s e h

  send-IsKeyed :
      {A : Type 0} (link : Link) (s s' : Jobs F J) (r : Result A)
      → IsKeyed s
      → IsKeyed s'
      → IsKeyed (send link s (r, s')).1
  send-IsKeyed up s s' r h h' = h'
  send-IsKeyed down s s' r h h' = h
  send-IsKeyed lost s s' r h h' = h'

  pub apply-IsKeyed :
      (fl : FloatOps F) (o : Op F J) (s : Jobs F J) → IsKeyed s → IsKeyed (apply fl o s)
  unfolding apply create_job claim_job complete_job mark_failure reclaim_stale insert_job
  apply-IsKeyed fl (create l m j fresh now) s h =
      let row = new_job fl j fresh now in
      send-IsKeyed l s _ _ h (insert_row-IsKeyed row s _ _ refl h)
  apply-IsKeyed fl (claim l m k now) s h =
      send-IsKeyed l s _ _ h (update-IsKeyed _ _ s (λ j. refl) h)
  apply-IsKeyed fl (complete l k report a b c d now) s h =
      send-IsKeyed l s _ _ h (update-IsKeyed _ _ s (λ j. refl) h)
  apply-IsKeyed fl (fail l k cause now) s h =
      send-IsKeyed l s _ _ h (update-IsKeyed _ _ s (λ j. refl) h)
  apply-IsKeyed fl (reclaim l lease now) s h =
      send-IsKeyed l s _ _ h (update-IsKeyed _ _ s (λ j. refl) h)

  other_ids :
      (i : ℕ) (j a : Job F J) (s : Jobs F J)
      → All (λ b. (b == j.id) ≡ false) (ids s)
      → find (claimable i) s ≡ some a
      → has_id i j ≡ false
  other_ids i j a [] h e = absurd (cc)
  other_ids i j a (k ∷ s) h e = elim (Bool-cases (claimable i k)) [
    | inl t ↦ ground arith
    | inr t ↦ other_ids i j a s h.1 (rw t at e)
  ]

  -- The row that a claim takes is the only one of the job.
  pub find-claimable :
      (i : ℕ) (s : Jobs F J) {a : Job F J}
      → IsKeyed s
      → find (claimable i) s ≡ some a
      → find (has_id i) s ≡ some a
  find-claimable i [] h e = absurd (cc)
  find-claimable i (j ∷ s) {a} h e = elim (Bool-cases (claimable i j)) [
    | inl t ↦ ground arith
    | inr t ↦ rw (other_ids i j a s h.0 (rw t at e)) (find-claimable i s {a = a} h.1 (rw t at e))
  ]
