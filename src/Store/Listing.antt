-- ===== src/Store/Listing.antt =====
-- internal/store/store.go, ListJobs: the newest jobs, of one status or of all.
use mathlib.Core.List.{Perm}
use queryforge.Prelude.{
  ◌⊎◌, ◌++◌, drop, ap, subst, ℕ, zero, suc, ◌≤◌, ◌≡◌, refl, ◌||◌, Bool, List, [], ◌∷◌, Bytes, codes,
  bytes_eq, is_empty, keep, length, take, ltb, leb, inl, inr, if◌then◌else◌, arith,
}
use queryforge.Prelude.Int.{ℤ, pos, negsuc}
use queryforge.Prelude.Sort.{sort_stable, IsSorted, sort_stable-IsSorted, sort_stable-perm}
use queryforge.Store.{
  Status, queued, running, retrying, succeeded, failed, Job, Jobs, Result, ok, Link, up, send,
}

-- The values of the `Status…` constants.
abbrev pub status_text : Status → Bytes
status_text queued = codes "queued"
status_text running = codes "running"
status_text retrying = codes "retrying"
status_text succeeded = codes "succeeded"
status_text failed = codes "failed"

-- limit <= 0 || limit > 200 gives 50.
abbrev pub bounded : ℤ → ℕ
bounded (negsuc n) = 50
bounded (pos n) = if leb n 0 || ltb 200 n then 50 else n

module _ {F J : Type 0} where
  abbrev pub has_status : Bytes → Job F J → Bool
  has_status status j = is_empty status || bytes_eq (status_text j.status) status

  abbrev pub newer : Job F J → Job F J → Bool
  newer a b = ltb b.created_at a.created_at

  -- ListJobs; jobs of the same time may come in any order, and come here in that of the table.
  unfoldable pub list_jobs : Link → Bytes → ℤ → Jobs F J → Result (List (Job F J))
  unfolding bytes_eq sort_stable
  list_jobs link status limit s =
      (send link s
        (ok (take (bounded limit) (sort_stable newer (keep (has_status status) s))), s)).0

module _ {A : Type 0} where
  length-take : (n : ℕ) (xs : List A) → length (take n xs) ≤ n
  length-take zero xs = omega arith
  length-take (suc n) [] = omega arith
  length-take (suc n) (x ∷ xs) = omega (arith, length-take n xs)

  take-drop : (n : ℕ) (xs : List A) → xs ≡ take n xs ++ drop n xs
  take-drop zero xs = refl
  take-drop (suc n) [] = refl
  take-drop (suc n) (x ∷ xs) = ap (λ ys. x ∷ ys) (take-drop n xs)

  -- Either nothing is dropped or as many are taken as may be.
  full : (n : ℕ) (xs : List A) → (drop n xs ≡ []) ⊎ (length (take n xs) ≡ n)
  full zero xs = inr refl
  full (suc n) [] = inl refl
  full (suc n) (x ∷ xs) = elim (full n xs) [ inl e ↦ inl e | inr e ↦ inr (ap suc e) ]

bounded-le : (limit : ℤ) → bounded limit ≤ 200
bounded-le (negsuc n) = omega arith
bounded-le (pos n) = ground arith

module _ {F J : Type 0} where
  -- The jobs that are asked for: those of the status, or all where none is given.
  abbrev pub asked : Bytes → Jobs F J → Jobs F J
  asked status s =
      keep (λ (j : Job F J). is_empty status || bytes_eq (status_text j.status) status) s

  abbrev later : Job F J → Job F J → Bool
  later a b = ltb b.created_at a.created_at

  -- A page of jobs that the database answers holds at most 200 jobs, whatever limit is asked for; and
  -- the page and the jobs left out are together those of the status asked for, or of all where none
  -- is, the newest first. None is left out unless the page is full.
  pub list_jobs-IsPage :
      (status : Bytes) (limit : ℤ) (s : Jobs F J)
      → (js : List (Job F J)) × (rest : List (Job F J)) × (list_jobs up status limit s ≡ ok js)
        × (length js ≤ 200)
        × IsSorted (λ (a b : Job F J). ltb b.created_at a.created_at) (js ++ rest)
        × Perm (js ++ rest) (asked status s)
        × ((rest ≡ []) ⊎ (length js ≡ bounded limit))
  unfolding list_jobs
  list_jobs-IsPage status limit s =
      let sorted = sort_stable later (asked status s) in
      (
        take (bounded limit) sorted,
        drop (bounded limit) sorted,
        refl,
        omega (arith, length-take (bounded limit) sorted, bounded-le limit),
        subst (IsSorted later) (take-drop (bounded limit) sorted) (
            sort_stable-IsSorted later (λ a b h. ground arith) (λ a b c h k. ground arith)
              (asked status s)),
        subst (λ js. Perm js (asked status s)) (take-drop (bounded limit) sorted)
            (sort_stable-perm later (asked status s)),
        full (bounded limit) sorted,
      )
