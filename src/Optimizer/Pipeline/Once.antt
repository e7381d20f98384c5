-- ===== src/Optimizer/Pipeline/Once.antt =====
-- Each candidate text is verified once, and the original's never.
use queryforge.Prelude.{
  ◌≡◌, refl, ap, inl, inr, Bool, true, false, List, [], ◌∷◌, member, any_of, Bytes, bytes_eq,
  eq_of_bytes_eq, Bool-cases, arith,
}
use queryforge.Prelude.Float.{FloatOps}
use queryforge.Optimizer.{Candidate, Result, Baseline, Verifier, normalize_sql, verify}
use queryforge.Optimizer.Reasons.{candidate-verify}
use queryforge.Optimizer.Pipeline.{verify_all}

-- The normalized text that a result was made for.
abbrev pub key : {F : Type 0} → Result F → Bytes
key r = normalize_sql r.candidate.sql

-- No text of the results is seen before, or made twice.
abbrev pub IsFresh : {F : Type 0} → List Bytes → List (Result F) → Type 0
IsFresh seen [] = Unit
IsFresh seen (r ∷ rs) = (member (key r) seen ≡ false) × IsFresh (key r ∷ seen) rs

-- The text was seen before or belongs to one of the results.
abbrev pub covered : {F : Type 0} → List Bytes → List (Result F) → Bytes → Bool
covered seen [] k = member k seen
covered seen (r ∷ rs) k = covered (key r ∷ seen) rs k

covered-of-member :
    {F : Type 0} (seen : List Bytes) (rs : List (Result F)) (k : Bytes)
    → member k seen ≡ true
    → covered seen rs k ≡ true
unfolding member
covered-of-member seen [] k h = h
covered-of-member seen (r ∷ rs) k h = covered-of-member (key r ∷ seen) rs k (ground arith)

module _ {F E : Type 0} (fl : FloatOps F) (v : Verifier F E) (base : Baseline F) where
  key-verify : (c : Candidate) (e : E) → key (verify fl v base c e).0 ≡ normalize_sql c.sql
  key-verify c e = ap (λ k. normalize_sql k.sql) (candidate-verify fl v base c e)

  verify_all-IsFresh :
      (seen : List Bytes) (cs : List Candidate) (e : E)
      → IsFresh seen (verify_all fl v base seen cs e).0
  unfolding verify_all
  verify_all-IsFresh seen [] e = tt
  verify_all-IsFresh seen (c ∷ cs) e = elim (Bool-cases (member (normalize_sql c.sql) seen)) [
    | inl old ↦ rw (verify_all, old) (verify_all-IsFresh seen cs e)
    | inr new ↦
        rw (verify_all, new)
          (rw (key-verify c e)
            (new, verify_all-IsFresh (normalize_sql c.sql ∷ seen) cs (verify fl v base c e).1))
  ]

  -- One of the candidates has the text.
  abbrev pub among : Bytes → List Candidate → Bool
  among k cs = any_of (λ c. bytes_eq (normalize_sql c.sql) k) cs

  verify_all-covers :
      (seen : List Bytes) (cs : List Candidate) (e : E) (k : Bytes)
      → among k cs ≡ true
      → covered seen (verify_all fl v base seen cs e).0 k ≡ true
  unfolding verify_all member
  verify_all-covers seen [] e k h = cc
  verify_all-covers seen (c ∷ cs) e k h = elim (Bool-cases (member (normalize_sql c.sql) seen)) [
    | inl old ↦
        rw (verify_all, old)
          (elim (Bool-cases (bytes_eq (normalize_sql c.sql) k)) [
            | inl here ↦
                covered-of-member seen (verify_all fl v base seen cs e).0 k
                  (rw (eq_of_bytes_eq (normalize_sql c.sql) k here) at old)
            | inr elsewhere ↦ verify_all-covers seen cs e k (rw elsewhere at h)
          ])
    | inr new ↦
        let e1 = (verify fl v base c e).1 in
        let seen1 = normalize_sql c.sql ∷ seen in
        rw (verify_all, new)
          (rw (key-verify c e) (elim (Bool-cases (bytes_eq (normalize_sql c.sql) k)) [
            | inl here ↦
                covered-of-member seen1 (verify_all fl v base seen1 cs e1).0 k (rw here refl)
            | inr elsewhere ↦ verify_all-covers seen1 cs e1 k (rw elsewhere at h)
          ]))
  ]

  -- From the original's text on, no two results have the same normalized text and none has the
  -- original's.
  pub verify_all-tests-no-text-twice :
      (cs : List Candidate) (e : E)
      → let seen = normalize_sql base.statement.sql ∷ [] in
        IsFresh seen (verify_all fl v base seen cs e).0
  verify_all-tests-no-text-twice cs e =
      verify_all-IsFresh (normalize_sql base.statement.sql ∷ []) cs e

  -- The normalized text of a candidate is the original's or that of a result: no candidate is lost.
  pub verify_all-tests-each-text :
      (cs : List Candidate) (e : E) (k : Bytes)
      → among k cs ≡ true
      → let seen = normalize_sql base.statement.sql ∷ [] in
        covered seen (verify_all fl v base seen cs e).0 k ≡ true
  verify_all-tests-each-text cs e k h =
      verify_all-covers (normalize_sql base.statement.sql ∷ []) cs e k h
