-- ===== src/Llm/Retries.antt =====
-- internal/llm/gemini.go: how many requests Generate makes, and what its text comes from.
use queryforge.Prelude.{
  ℕ, zero, suc, ◌+◌, ◌≤◌, ◌≡◌, ◌≢◌, refl, sym, ap, subst, inl, inr, Bool, ◌||◌, List, [], Bytes,
  is_empty, leb, ◌==◌, ==_iff, Bool-cases, arith,
}
use queryforge.Engine.{Outcome, done, fault}
use queryforge.Llm.{
  Exchange, unmade, failed, unreadable, answer, Decoded, garbled, blocked, parts, Attempt, finished,
  again, spoken, decoded, Pause, go, late, cancelled, attempt, proceed, attempts, generate,
}

done_injective : {A : Type 0} (x y : A) → ◌≡◌ {A = Outcome A} (done x) (done y) → y ≡ x
done_injective x y h = cc

finished_injective : (x y : Outcome Bytes) → finished x ≡ finished y → x ≡ y
finished_injective x y h = cc

again_ne_finished : {e : Bytes} {r : Outcome Bytes} → again e ≢ finished r
again_ne_finished h = cc

fault_ne_done : {e t : Bytes} → finished (fault e) ≢ finished (done t)
fault_ne_done h = cc

module _ (decode : Bytes → Decoded) (redact : Bytes → Bytes) where
  -- An exchange with status 200 whose body has parts that spell the text.
  abbrev pub Spells : Exchange → Bytes → Type 0
  Spells e text =
      (body : Bytes) × (ps : List (Bool × Bytes)) × (e ≡ answer 200 body)
      × (decode body ≡ parts ps)
      × (text ≡ spoken ps)

  decoded-Spells :
      (body : Bytes) (d : Decoded) {text : Bytes}
      → decode body ≡ d
      → decoded d ≡ done text
      → Spells (answer 200 body) text
  decoded-Spells body (garbled e) k h = absurd (cc)
  decoded-Spells body (blocked e) k h = absurd (cc)
  decoded-Spells body (parts ps) k h = (body, ps, refl, k, done_injective _ _ h)

  attempt-Spells :
      (e : Exchange) {text : Bytes} → attempt decode redact e ≡ finished (done text) → Spells e text
  unfolding attempt
  attempt-Spells (unmade e) h = absurd (cc)
  attempt-Spells (failed e) h = absurd (cc)
  attempt-Spells (unreadable e) h = absurd (cc)
  attempt-Spells (answer status body) {text} h =
      elim (Bool-cases (status == 429 || leb 500 status)) [
        | inl t ↦ absurd (again_ne_finished (rw t at h))
        | inr t ↦ elim (Bool-cases (status == 200)) [
          | inr f ↦ absurd (fault_ne_done (rw (t, f) at h))
          | inl k ↦
              subst (λ n. Spells (answer n body) text) (sym ((==_iff status 200).0 k))
                (decoded-Spells body (decode body) refl (finished_injective _ _ (rw (t, k) at h)))
        ]
      ]

  -- At most as many requests as attempts are left; and where a text is answered, the last request has
  -- spelled it.
  abbrev pub IsServed : (ℕ → Exchange) → ℕ → ℕ → ℕ × Outcome Bytes → Type 0
  IsServed exchange n left (made, fault e) = made ≤ left
  IsServed exchange n left (made, done text) =
      (k : ℕ) × (made ≡ suc k) × (suc k ≤ left) × Spells (exchange (n + k)) text

  later :
      (exchange : ℕ → Exchange) (n left : ℕ) (r : ℕ × Outcome Bytes)
      → IsServed exchange (suc n) left r
      → IsServed exchange n (suc left) (suc r.0, r.1)
  later exchange n left (made, fault e) h = omega (arith, h)
  later exchange n left (made, done text) (k, e, l, sp) =
      (suc k, ap suc e, omega (arith, l), subst (λ i. Spells (exchange i) text) (one_on n k) sp)
    where
      one_on : (n k : ℕ) → suc n + k ≡ n + suc k
      one_on n k = omega arith

  now :
      (exchange : ℕ → Exchange) (n left : ℕ) (r : Outcome Bytes)
      → attempt decode redact (exchange n) ≡ finished r
      → IsServed exchange n (suc left) (1, r)
  now exchange n left (fault e) h = omega arith
  now exchange n left (done text) h = (
    zero,
    refl,
    omega arith,
    subst (λ i. Spells (exchange i) text) (none_on n) (attempt-Spells (exchange n) h),
  )
    where
      none_on : (n : ℕ) → n ≡ n + 0
      none_on n = omega arith

  proceed-IsServed :
      (exchange : ℕ → Exchange) (n left : ℕ) (last : Bytes) (next : Bytes → ℕ × Outcome Bytes)
      (p : Pause) (a : Attempt)
      → attempt decode redact (exchange n) ≡ a
      → ((e : Bytes) → IsServed exchange (suc n) left (next e))
      → IsServed exchange n (suc left) (proceed decode redact last next p a)
  proceed-IsServed exchange n left last next late a h k = omega arith
  proceed-IsServed exchange n left last next (cancelled e) a h k = omega arith
  proceed-IsServed exchange n left last next go (finished r) h k = now exchange n left r h
  proceed-IsServed exchange n left last next go (again e) h k = later exchange n left (next e) (k e)

  attempts-IsServed :
      (pause : ℕ → Pause) (exchange : ℕ → Exchange) (n left : ℕ) (last : Bytes)
      → IsServed exchange n left (attempts decode redact pause exchange n left last)
  unfolding attempts
  attempts-IsServed pause exchange n zero last = omega arith
  attempts-IsServed pause exchange n (suc left) last =
      proceed-IsServed exchange n left last _ _ _ refl
        (λ e. attempts-IsServed pause exchange (suc n) left e)

  -- Generate makes at most one request more than the retries it is allowed; and where it answers a
  -- text, the last request that it made was answered with status 200 and a body whose parts, without
  -- the thoughts, spell that text.
  pub generate-IsServed :
      (key : Bytes) (payload : Outcome Bytes) (retries : ℕ) (pause : ℕ → Pause)
      (exchange : ℕ → Exchange)
      → IsServed exchange 0
          (retries + 1)
          (generate decode redact key payload retries pause exchange)
  unfolding generate
  generate-IsServed key (fault e) retries pause exchange = omega arith
  generate-IsServed key (done p) retries pause exchange = elim (Bool-cases (is_empty key)) [
    | inl t ↦ rw t (omega arith)
    | inr t ↦ rw t (attempts-IsServed pause exchange 0 (retries + 1) [])
  ]
