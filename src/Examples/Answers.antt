-- ===== src/Examples/Answers.antt =====
-- A model that is busy at first, and an answer with a fence.
use queryforge.Prelude.{
  some, trim_space, index_of, ℕ, ◌+◌, ◌≡◌, refl, true, false, if◌then◌else◌, ◌==◌, [], ◌∷◌, Bytes,
  codes,
}
use queryforge.Engine.{done}
use queryforge.Llm.{Exchange, answer, Decoded, parts, go, generate, extract_json}
use queryforge.Llm.Retries.{IsServed, generate-IsServed}
use queryforge.Llm.Exact.{IsBody, quoted, other, letter, empty, extract_json-finds}

abbrev decode : Bytes → Decoded
decode body = parts ((true, codes "hm") ∷ (false, body) ∷ [])

abbrev busy : ℕ → Exchange
busy n = if n == 0 then answer 503 [] else answer 200 (codes "ok")

abbrev redact : Bytes → Bytes
redact e = e

generate-IsServed_example :
    IsServed decode redact busy 0
      (5 + 1)
      (generate decode redact (codes "k") (done []) 5 (λ n. go) busy)
generate-IsServed_example = generate-IsServed decode redact (codes "k") (done []) 5 (λ n. go) busy

served_second :
    generate decode redact (codes "k") (done []) 5 (λ n. go) busy ≡ (2, done (codes "ok"))
unfolding generate
served_second = refl

abbrev answer_text : Bytes
answer_text = codes "Here: {\"a\": \"}\"} done"

abbrev answer_body : Bytes
answer_body = codes "\"a\": \"}\""

answer-IsBody : IsBody b'{' answer_body
answer-IsBody = quoted (codes "a") _ (letter _ _ refl refl empty) (
    other _ _ refl refl refl
      (other _ _ refl refl refl (quoted (codes "}") _ (letter _ _ refl refl empty) empty)))

extract_json-finds_example : extract_json answer_text ≡ some (codes "{\"a\": \"}\"}")
unfolding trim_space index_of
extract_json-finds_example =
    extract_json-finds answer_text (codes "Here: ") answer_body (codes " done") b'{' refl refl refl
      (refl, (refl, (refl, (refl, (refl, (refl, tt)))))) answer-IsBody
