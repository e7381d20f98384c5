-- ===== src/Llm/Extract.antt =====
-- internal/llm/gemini.go: what ExtractJSON cuts out of a text.
use queryforge.Prelude.{
  ℕ, zero, suc, ◌≡◌, sym, ap, ◌∙◌, inl, inr, Bool, true, false, ◌&&◌, ◌++◌, append_assoc, some, [],
  ◌∷◌, Bytes, Bool-cases, ◌==◌, ==_iff, arith,
}
use mathlib.Core.Option.{some-injective}
use queryforge.Llm.{closer, is_opener, close, unfenced, extract_from, extract_json}

-- A piece of the text that continues what is there and ends with the byte.
abbrev Closes : ℕ → Bytes → Bytes → Bytes → Type 0
Closes opener piece s j =
    (mid : Bytes) × (after : Bytes) × (s ≡ mid ++ (closer opener ∷ after))
    × (j ≡ piece ++ (mid ++ closer opener ∷ []))

one_more :
    (opener : ℕ) (piece : Bytes) (c : ℕ) (s j : Bytes)
    → Closes opener (piece ++ c ∷ []) s j
    → Closes opener piece (c ∷ s) j
one_more opener piece c s j (mid, after, e, k) =
    (c ∷ mid, after, ap (λ t. c ∷ t) e, k ∙ append_assoc piece (c ∷ []) _)

ends_here :
    (opener : ℕ) (piece : Bytes) (c : ℕ) (s : Bytes) {j : Bytes}
    → (c == closer opener) ≡ true
    → some (piece ++ c ∷ []) ≡ some j
    → Closes opener piece (c ∷ s) j
ends_here opener piece c s t h = (
  [],
  s,
  ap (λ x. x ∷ s) ((==_iff c (closer opener)).0 t),
  sym (some-injective _ _ h) ∙ ap (λ x. piece ++ x ∷ []) ((==_iff c (closer opener)).0 t),
)

closing :
    (opener depth : ℕ) (piece : Bytes) (c : ℕ) (s : Bytes) {j : Bytes}
    → (c == closer opener) ≡ true
    → elim depth [
      | zero ↦ some (piece ++ c ∷ [])
      | suc d ↦ close opener d false false (piece ++ c ∷ []) s
    ]
      ≡ some j
    → ((n : ℕ)
        → close opener n false false (piece ++ c ∷ []) s ≡ some j
        → Closes opener (piece ++ c ∷ []) s j)
    → Closes opener piece (c ∷ s) j
closing opener zero piece c s t h ih = ends_here opener piece c s t h
closing opener (suc n) piece c s {j} t h ih = one_more opener piece c s j (ih n h)

and_false : (b : Bool) → (b && false) ≡ false
and_false b = ground arith

close-Closes :
    (opener depth : ℕ) (in_str escaped : Bool) (piece s : Bytes) {j : Bytes}
    → close opener depth in_str escaped piece s ≡ some j
    → Closes opener piece s j
unfolding close
close-Closes opener depth i true piece [] h = absurd (cc)
close-Closes opener depth i true piece (c ∷ s) {j} h =
    one_more opener piece c s j (close-Closes opener depth i false (piece ++ c ∷ []) s h)
close-Closes opener depth i false piece [] h = absurd (cc)
close-Closes opener depth true false piece (c ∷ s) {j} h = elim (Bool-cases (c == 92)) [
  | inl a ↦
      one_more opener piece c s j
        (close-Closes opener depth true true (piece ++ c ∷ []) s (rw a at h))
  | inr a ↦ elim (Bool-cases (c == 34)) [
    | inl b ↦
        one_more opener piece c s j
          (close-Closes opener depth false false (piece ++ c ∷ []) s (rw (a, b) at h))
    | inr b ↦
        one_more opener piece c s j
          (close-Closes opener depth true false (piece ++ c ∷ []) s (rw (a, b) at h))
  ]
]
close-Closes opener depth false false piece (c ∷ s) {j} h = elim (Bool-cases (c == 34)) [
  | inl b ↦
      one_more opener piece c s j (
        close-Closes opener depth true false (piece ++ c ∷ []) s (rw (and_false (c == 92), b) at h))
  | inr b ↦ elim (Bool-cases (c == opener)) [
    | inl o ↦ one_more opener piece c s j (
        close-Closes opener (suc depth) false false (piece ++ c ∷ []) s
          (rw (and_false (c == 92), b, o) at h))
    | inr o ↦ elim (Bool-cases (c == closer opener)) [
      | inr d ↦ one_more opener piece c s j (
          close-Closes opener depth false false (piece ++ c ∷ []) s
            (rw (and_false (c == 92), b, o, d) at h))
      | inl d ↦
          closing opener depth piece c s d (rw (and_false (c == 92), b, o, d) at h)
            (λ n k. close-Closes opener n false false (piece ++ c ∷ []) s k)
    ]
  ]
]

-- A piece of the text from an opening bracket to a closing one of the same kind.
pub record IsBracketed (s j : Bytes) : Type 0 where
  pub opener : ℕ
  pub before : Bytes
  pub mid : Bytes
  pub after : Bytes
  pub opens : is_opener opener ≡ true
  pub whole : s ≡ before ++ (j ++ after)
  pub piece : j ≡ opener ∷ (mid ++ closer opener ∷ [])

extract_from-IsBracketed : (s : Bytes) {j : Bytes} → extract_from s ≡ some j → IsBracketed s j
unfolding extract_from
extract_from-IsBracketed [] h = absurd (cc)
extract_from-IsBracketed (c ∷ s) {j} h = elim (Bool-cases (is_opener c)) [
  | inl t ↦
      let (mid, after, e, k) = close-Closes c 0 false false (c ∷ []) s (rw t at h) in
      record {
        opener = c;
        before = [];
        mid = mid;
        after = after;
        opens = t;
        whole =
            ap (λ x. c ∷ x) (e ∙ sym (append_assoc mid (closer c ∷ []) after))
            ∙ ap (λ x. x ++ after) (sym k);
        piece = k;
      }
  | inr t ↦
      let rest = extract_from-IsBracketed s {j = j} (rw t at h) in
      record {
        opener = rest.opener;
        before = c ∷ rest.before;
        mid = rest.mid;
        after = rest.after;
        opens = rest.opens;
        whole = ap (λ x. c ∷ x) rest.whole;
        piece = rest.piece;
      }
]

-- A text that ExtractJSON answers is a piece of the given one, or of what its first fence encloses,
-- and goes from a brace or a bracket to the closing one of the same kind.
extract_json-IsBracketed :
    (s : Bytes) {j : Bytes} → extract_json s ≡ some j → IsBracketed (unfenced s) j
unfolding extract_json
extract_json-IsBracketed s h = extract_from-IsBracketed (unfenced s) h
