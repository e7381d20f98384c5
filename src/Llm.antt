-- ===== src/Llm.antt =====
-- internal/llm/gemini.go: the retries of Generate over an HTTP client, and the extraction of JSON from
-- a model's answer.
pub mod Extract
pub mod Exact
pub mod Retries
use queryforge.Prelude.{
  index_of, ℕ, zero, suc, ◌+◌, ◌*◌, Bool, true, false, ◌&&◌, ◌||◌, not, ◌++◌, Option, none, some,
  List, [], ◌∷◌, Bytes, codes, contains, has_prefix, is_empty, length, take, drop, trim_space, leb,
  ltb, ◌==◌, if◌then◌else◌,
}
use queryforge.Engine.{Outcome, done, fault}
use queryforge.Queue.{decimal}

-- truncate, which appends no marker
unfoldable pub cut_to : Bytes → ℕ → Bytes
cut_to s n = if leb (length s) n then s else take n s

-- What one request comes to: it cannot be made, no answer, an answer that cannot be read, or a status with a body; a body
-- that is decoded has the texts of the first candidate's parts, each with its mark `thought`.
pub data Exchange : Type 0 where
  unmade failed unreadable : Bytes → Exchange
  answer : ℕ → Bytes → Exchange

pub data Decoded : Type 0 where
  garbled : Bytes → Decoded
  blocked : Bytes → Decoded
  parts : List (Bool × Bytes) → Decoded

-- What an attempt does: it ends Generate with a result, or leaves an error and the loop goes on.
pub data Attempt : Type 0 where
  finished : Outcome Bytes → Attempt
  again : Bytes → Attempt

-- The text of the parts that are no thoughts.
unfoldable pub spoken : List (Bool × Bytes) → Bytes
spoken [] = []
spoken ((thought, text) ∷ ps) = let rest = spoken ps in if thought then rest else text ++ rest

abbrev decoded : Decoded → Outcome Bytes
decoded (garbled e) = fault (codes "decode response: " ++ e)
decoded (blocked reason) =
    fault (codes "model returned no candidates (block reason \"" ++ (reason ++ codes "\")"))
decoded (parts ps) = done (spoken ps)

-- What is in front of an attempt: the deadline has passed, the context ends in the wait, or neither.
pub data Pause : Type 0 where
  go late : Pause
  cancelled : Bytes → Pause

module _ (decode : Bytes → Decoded) (redact : Bytes → Bytes) where
  -- The body of the loop, by the exchange.
  unfoldable pub attempt : Exchange → Attempt
  unfolding cut_to spoken decimal
  attempt (unmade e) = finished (fault e)
  attempt (failed e) = again (redact e)
  attempt (unreadable e) = again e
  attempt (answer status body) =
      if status == 429 || leb 500 status
      then again (codes "gemini " ++ (decimal status ++ (codes ": " ++ cut_to body 200)))
      else if not (status == 200)
      then finished (fault (codes "gemini " ++ (decimal status ++ (codes ": " ++ cut_to body 400))))
      else finished (decoded (decode body))

  -- A round of the loop, with the rounds that follow it after an error.
  abbrev pub proceed : Bytes → (Bytes → ℕ × Outcome Bytes) → Pause → Attempt → ℕ × Outcome Bytes
  proceed last next late a = (0, fault (codes "retry budget exhausted: " ++ last))
  proceed last next (cancelled e) a = (0, fault e)
  proceed last next go (finished r) = (1, r)
  proceed last next go (again e) = (suc (next e).0, (next e).1)

  -- Attempts `n`, …, `n + left - 1`, with the number of requests that were made; the deadline and the
  -- context are looked at in front of each attempt but the first.
  unfoldable pub attempts : (ℕ → Pause) → (ℕ → Exchange) → ℕ → ℕ → Bytes → ℕ × Outcome Bytes
  unfolding attempt
  attempts pause exchange n zero last =
      (0, fault (codes "request failed after " ++ (decimal n ++ (codes " attempts: " ++ last))))
  attempts pause exchange n (suc left) last =
      proceed last (λ e. attempts pause exchange (suc n) left e) (if n == 0 then go else pause n)
        (attempt (exchange n))

  -- Generate, for a client with this key, the payload, and the most retries.
  unfoldable pub generate :
      Bytes → Outcome Bytes → ℕ → (ℕ → Pause) → (ℕ → Exchange) → ℕ × Outcome Bytes
  unfolding attempts
  generate key (fault e) retries pause exchange =
      (0, fault (if is_empty key then codes "GEMINI_API_KEY is not set" else e))
  generate key (done payload) retries pause exchange =
      if is_empty key
      then (0, fault (codes "GEMINI_API_KEY is not set"))
      else attempts pause exchange 0 (retries + 1) []

-- A text after its first fence, if it has one, up to the next.
abbrev after_line : Bytes → Option ℕ → Bytes
after_line rest none = rest
after_line rest (some nl) = drop (nl + 1) rest

abbrev up_to_fence : Bytes → Bytes → Option ℕ → Bytes
up_to_fence s rest none = s
up_to_fence s rest (some end) = trim_space (take end rest)

abbrev in_fence : Bytes → Option ℕ → Bytes
in_fence s none = s
in_fence s (some fence) =
    let rest = after_line (drop (fence + 3) s) (index_of (drop (fence + 3) s) (b'\n' ∷ [])) in
    up_to_fence s rest (index_of rest (codes "```"))

-- The text in which ExtractJSON looks for a value.
unfoldable pub unfenced : Bytes → Bytes
unfolding trim_space index_of
unfenced s = in_fence (trim_space s) (index_of (trim_space s) (codes "```"))

abbrev pub closer : ℕ → ℕ
closer c = if c == b'[' then b']' else b'}'

abbrev pub is_opener : ℕ → Bool
is_opener c = c == b'{' || c == b'['

-- The loop of ExtractJSON behind the opening byte; `piece` is s[start:i], and `depth` one less.
unfoldable pub close : ℕ → ℕ → Bool → Bool → Bytes → Bytes → Option Bytes
close opener depth in_str escaped piece [] = none
close opener depth in_str escaped piece (c ∷ s) =
    let on = piece ++ c ∷ [] in
    if escaped
    then close opener depth in_str false on s
    else if c == b'\\' && in_str
    then close opener depth in_str true on s
    else if c == b'"'
    then close opener depth (not in_str) false on s
    else if in_str
    then close opener depth in_str false on s
    else if c == opener
    then close opener (suc depth) in_str false on s
    else if c == closer opener
    then elim depth [ zero ↦ some on | suc d ↦ close opener d in_str false on s ]
    else close opener depth in_str false on s

-- The first value, from its opening byte on.
unfoldable pub extract_from : Bytes → Option Bytes
unfolding close
extract_from [] = none
extract_from (c ∷ s) =
    let later = extract_from s in if is_opener c then close c 0 false false (c ∷ []) s else later

-- ExtractJSON, with `none` for false
unfoldable pub extract_json : Bytes → Option Bytes
unfolding unfenced extract_from
extract_json s = extract_from (unfenced s)
