-- ===== src/Llm/Exact.antt =====
-- internal/llm/gemini.go: which value ExtractJSON finds.
use queryforge.Prelude.{
  ◌≡◌, refl, sym, ap, ◌∙◌, true, false, ◌&&◌, ◌++◌, append_assoc, Bool, append-nil, arith, none,
  some, [], ◌∷◌, ℕ, suc, Bytes, ◌==◌, All, codes, index_of, trim_space, ==-refl, Bool-cases, inl,
  inr,
}
use queryforge.Llm.{closer, is_opener, close, unfenced, extract_from, extract_json}

-- What is inside a JSON string, its escapes included.
pub data IsString : Bytes → Type 0 where
  empty : IsString []
  letter :
      (c : ℕ) (s : Bytes) → (c == 34) ≡ false → (c == 92) ≡ false → IsString s → IsString (c ∷ s)
  escape : (c : ℕ) (s : Bytes) → IsString s → IsString (92 ∷ c ∷ s)

-- What is between a bracket and the one that closes it, for this kind of bracket: strings, in which
-- brackets do not count, and balanced pieces.
pub data IsBody (o : ℕ) : Bytes → Type 0 where
  empty : IsBody o []
  other :
      (c : ℕ) (s : Bytes)
      → (c == 34) ≡ false
      → (c == o) ≡ false
      → (c == closer o) ≡ false
      → IsBody o s
      → IsBody o (c ∷ s)
  quoted : (t s : Bytes) → IsString t → IsBody o s → IsBody o (34 ∷ (t ++ 34 ∷ s))
  nested : (t s : Bytes) → IsBody o t → IsBody o s → IsBody o (o ∷ (t ++ closer o ∷ s))

extend : (p : Bytes) (c : ℕ) (t : Bytes) → (p ++ c ∷ []) ++ t ≡ p ++ (c ∷ t)
extend p c t = append_assoc p (c ∷ []) t

module _ (o : ℕ) where
  -- A string is passed over.
  string-close :
      (d : ℕ) (p t rest : Bytes)
      → IsString t
      → close o d true false p (t ++ 34 ∷ rest) ≡ close o d false false (p ++ (t ++ 34 ∷ [])) rest
  unfolding close
  string-close d p t rest empty = refl
  string-close d p t rest (letter c u q b h) =
      rw (b, q, close)
        (string-close d (p ++ c ∷ []) u rest h
          ∙ ap (λ x. close o d false false x rest) (extend p c (u ++ 34 ∷ [])))
  string-close d p t rest (escape c u h) =
      string-close d ((p ++ 92 ∷ []) ++ c ∷ []) u rest h
      ∙ ap (λ x. close o d false false x rest)
          (extend (p ++ 92 ∷ []) c (u ++ 34 ∷ []) ∙ extend p 92 (c ∷ (u ++ 34 ∷ [])))

around :
    (p : Bytes) (a : ℕ) (t : Bytes) (b : ℕ) (u : Bytes)
    → ((p ++ a ∷ []) ++ (t ++ b ∷ [])) ++ u ≡ p ++ (a ∷ (t ++ b ∷ u))
around p a t b u =
    append_assoc (p ++ a ∷ []) (t ++ b ∷ []) u
    ∙ (ap (λ x. (p ++ a ∷ []) ++ x) (append_assoc t (b ∷ []) u) ∙ extend p a (t ++ b ∷ u))

no_escape : (b : Bool) → (b && false) ≡ false
no_escape b = ground arith

module _ (o : ℕ) (not_quote : (o == 34) ≡ false) (end_not_quote : (closer o == 34) ≡ false)
    (end_not_open : (closer o == o) ≡ false) where
  ends :
      (d : ℕ) (p rest : Bytes)
      → close o (suc d) false false p (closer o ∷ rest)
        ≡ close o d false false (p ++ closer o ∷ []) rest
  unfolding close
  ends d p rest =
      rw (close, no_escape (closer o == 92), end_not_quote, end_not_open, ==-refl (closer o)) refl

  finishes :
      (p rest : Bytes) → close o 0 false false p (closer o ∷ rest) ≡ some (p ++ closer o ∷ [])
  unfolding close
  finishes p rest =
      rw (close, no_escape (closer o == 92), end_not_quote, end_not_open, ==-refl (closer o)) refl

  all_of :
      (p t u : Bytes)
      → (((p ++ o ∷ []) ++ t) ++ closer o ∷ []) ++ u ≡ p ++ (o ∷ (t ++ closer o ∷ u))
  all_of p t u =
      ap (λ x. x ++ u) (append_assoc (p ++ o ∷ []) t (closer o ∷ [])) ∙ around p o t (closer o) u

  -- What is inside a bracket is passed over, at any depth.
  body-close :
      (d : ℕ) (p t rest : Bytes)
      → IsBody o t
      → close o d false false p (t ++ rest) ≡ close o d false false (p ++ t) rest
  unfolding close
  body-close d p t rest empty = ap (λ x. close o d false false x rest) (sym (append-nil p))
  body-close d p t rest (other c u q n e h) =
      rw (no_escape (c == 92), q, n, e)
        (body-close d (p ++ c ∷ []) u rest h
          ∙ ap (λ x. close o d false false x rest) (extend p c u))
  body-close d p s rest (quoted t u h k) =
      ap (λ x. close o d true false (p ++ 34 ∷ []) x) (append_assoc t (34 ∷ u) rest)
      ∙ (string-close o d (p ++ 34 ∷ []) t (u ++ rest) h
          ∙ (body-close d ((p ++ 34 ∷ []) ++ (t ++ 34 ∷ [])) u rest k
              ∙ ap (λ x. close o d false false x rest) (around p 34 t 34 u)))
  body-close d p s rest (nested t u h k) =
      rw (no_escape (o == 92), not_quote, ==-refl o)
        (ap (λ x. close o (suc d) false false (p ++ o ∷ []) x) (append_assoc t (closer o ∷ u) rest)
          ∙ (body-close (suc d) (p ++ o ∷ []) t (closer o ∷ (u ++ rest)) h
              ∙ (ends d ((p ++ o ∷ []) ++ t) (u ++ rest)
                  ∙ (body-close d (((p ++ o ∷ []) ++ t) ++ closer o ∷ []) u rest k
                      ∙ ap (λ x. close o d false false x rest) (all_of p t u)))))

opener_facts :
    (o : ℕ)
    → is_opener o ≡ true
    → ((o == 34) ≡ false) × ((closer o == 34) ≡ false) × ((closer o == o) ≡ false)
opener_facts o h = elim (Bool-cases (o == 91)) [
  | inl t ↦ rw t (ground arith, refl, ground arith)
  | inr f ↦ rw f (ground arith, refl, ground arith)
]

-- Behind bytes that open nothing, a bracket with its body is what is found.
extract_from-finds :
    (o : ℕ) (before body after : Bytes)
    → is_opener o ≡ true
    → All (λ c. is_opener c ≡ false) before
    → IsBody o body
    → extract_from (before ++ (o ∷ (body ++ closer o ∷ after))) ≡ some (o ∷ (body ++ closer o ∷ []))
unfolding extract_from
extract_from-finds o [] body after opens none_before h =
    let (a, b, c) = opener_facts o opens in
    rw opens
      (body-close o a b c 0 (o ∷ []) body (closer o ∷ after) h ∙ finishes o a b c (o ∷ body) after)
extract_from-finds o (x ∷ before) body after opens none_before h =
    rw none_before.0 (extract_from-finds o before body after opens none_before.1 h)

-- In a text without a fence, ExtractJSON finds the first value: behind bytes that are no opening
-- bracket, it answers the bracket with its body and the bracket that closes it, where the body is
-- balanced in this kind of bracket, brackets inside strings and escaped quotes not counting.
pub extract_json-finds :
    (s before body after : Bytes) (o : ℕ)
    → index_of (trim_space s) (codes "```") ≡ none
    → trim_space s ≡ before ++ (o ∷ (body ++ closer o ∷ after))
    → is_opener o ≡ true
    → All (λ c. is_opener c ≡ false) before
    → IsBody o body
    → extract_json s ≡ some (o ∷ (body ++ closer o ∷ []))
unfolding extract_json unfenced
extract_json-finds s before body after o bare whole opens none_before h =
    rw (bare, whole) (extract_from-finds o before body after opens none_before h)
