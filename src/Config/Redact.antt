-- ===== src/Config/Redact.antt =====
-- `redact_parse_message`: what a parse error of the configuration file may show.
use freshdock.Prelude.{
  ℕ, ◌≡◌, ◌≢◌, ◌⊎◌, inl, inr, Bool-cases, Option-cases, refl, sym, ap, ◌∙◌, ◌||◌, Bool, true, false,
  Option, none, some, [], ◌∷◌, ◌++◌, Text, codes, eqb, if◌then◌else◌, arith,
}
use freshdock.Prelude.Split.{strip_prefix, starts_with, contains}

abbrev redacted_value : Text
redacted_value = codes "<redacted>"

-- A back quote or a double quote.
abbrev pub is_delim : ℕ → Bool
is_delim c = eqb c 0x60 || eqb c 0x22

-- The rest of the message: copied up to a delimiter, and skipped behind one to the next of its kind.
unfoldable pub redact : (inside : Option ℕ) → Text → Text
unfolding codes
redact inside [] = []
redact none (c ∷ s) =
    let hidden = c ∷ redacted_value ++ c ∷ redact (some c) s in
    let shown = c ∷ redact none s in if is_delim c then hidden else shown
redact (some d) (c ∷ s) =
    let after = redact none s in let still = redact (some d) s in if eqb c d then after else still

-- Messages that quote a key alone.
unfoldable pub quotes_a_key : Text → Bool
unfolding starts_with
quotes_a_key message =
    starts_with (codes "unknown field") message || starts_with (codes "missing field") message

unfoldable pub redact_parse_message : Text → Text
unfolding quotes_a_key redact
redact_parse_message message = if quotes_a_key message then message else redact none message

-- A back quote or a double quote, as its code point.
abbrev pub IsQuote : ℕ → Type 0
IsQuote c = (c ≡ 96) ⊎ (c ≡ 34)

-- Two messages that differ at most in what they quote: between two delimiters of one kind, or behind
-- a delimiter that none of its kind follows.
pub data DiffersInQuotes : Text → Text → Type 0 where
  same_end : DiffersInQuotes [] []
  shown :
      (c : ℕ) {s t : Text} → ¬ (IsQuote c) → DiffersInQuotes s t → DiffersInQuotes (c ∷ s) (c ∷ t)
  quoted :
      (d : ℕ) (a b : Text) {s t u v : Text}
      → IsQuote d
      → contains d a ≡ false
      → contains d b ≡ false
      → DiffersInQuotes s t
      → u ≡ a ++ d ∷ s
      → v ≡ b ++ d ∷ t
      → DiffersInQuotes (d ∷ u) (d ∷ v)
  unterminated :
      (d : ℕ) {a b : Text}
      → IsQuote d
      → contains d a ≡ false
      → contains d b ≡ false
      → DiffersInQuotes (d ∷ a) (d ∷ b)

is_delim-IsQuote : (c : ℕ) → IsQuote c → is_delim c ≡ true
is_delim-IsQuote c (inl is) = ground arith
is_delim-IsQuote c (inr is) = ground arith

is_delim-false : (c : ℕ) → ¬ (IsQuote c) → is_delim c ≡ false
is_delim-false c other = elim (Bool-cases (is_delim c)) [
  | inr plain ↦ plain
  | inl is ↦ absurd (other (ground (arith, is)))
]

redact-quoted :
    (d : ℕ) (a s : Text) → contains d a ≡ false → redact (some d) (a ++ d ∷ s) ≡ redact none s
unfolding redact contains
redact-quoted d [] s out = ground arith
redact-quoted d (c ∷ a) s out = ground (arith, redact-quoted d a s)

redact-unterminated : (d : ℕ) (a : Text) → contains d a ≡ false → redact (some d) a ≡ []
unfolding redact contains
redact-unterminated d [] out = refl
redact-unterminated d (c ∷ a) out = ground (arith, redact-unterminated d a)

redact-DiffersInQuotes : {s t : Text} → DiffersInQuotes s t → redact none s ≡ redact none t
unfolding redact
redact-DiffersInQuotes same_end = refl
redact-DiffersInQuotes (shown c plain r) =
    rw (is_delim-false c plain) (ap (λ x. c ∷ x) (redact-DiffersInQuotes r))
redact-DiffersInQuotes (quoted d a b {s = s} {t = t} is out_a out_b r e f) =
    let rest =
      ap (redact (some d)) e
      ∙ redact-quoted d a s out_a
      ∙ redact-DiffersInQuotes r
      ∙ sym (ap (redact (some d)) f ∙ redact-quoted d b t out_b) in
    rw (is_delim-IsQuote d is) (ap (λ x. d ∷ redacted_value ++ d ∷ x) rest)
redact-DiffersInQuotes (unterminated d {a = a} {b = b} is out_a out_b) =
    rw (is_delim-IsQuote d is) (
      ap (λ x. d ∷ redacted_value ++ d ∷ x)
        (redact-unterminated d a out_a ∙ sym (redact-unterminated d b out_b)))

-- The message does not begin with either of the two texts behind which the parser quotes a key.
abbrev pub IsNoKeyMessage : Text → Type 0
IsNoKeyMessage s =
    (rest : Text) → (s ≢ codes "unknown field" ++ rest) × (s ≢ codes "missing field" ++ rest)

strip_prefix-append : (p s : Text) {rest : Text} → strip_prefix p s ≡ some rest → s ≡ p ++ rest
unfolding strip_prefix
strip_prefix-append [] s e = cc
strip_prefix-append (c ∷ p) [] e = cc
strip_prefix-append (c ∷ p) (x ∷ s) {rest} e = elim (Bool-cases (eqb c x)) [
  | inr other ↦ let e' = rw (other, strip_prefix) at e in cc
  | inl is ↦
      let e' : strip_prefix p s ≡ some rest = rw (is, strip_prefix) at e in
      let same : c ≡ x = ground arith in let tail = strip_prefix-append p s e' in cc
]

starts_with-false : (p s : Text) → ((rest : Text) → s ≢ p ++ rest) → starts_with p s ≡ false
unfolding starts_with
starts_with-false p s differs = elim (Option-cases (strip_prefix p s)) [
  | inl gone ↦ rw gone refl
  | inr (rest, is) ↦ absurd (differs rest (strip_prefix-append p s is))
]

quotes_a_key-false : (s : Text) → IsNoKeyMessage s → quotes_a_key s ≡ false
unfolding quotes_a_key
quotes_a_key-false s plain =
    rw
      (
        starts_with-false (codes "unknown field") s (λ rest. (plain rest).0),
        starts_with-false (codes "missing field") s (λ rest. (plain rest).1),
      )
      refl

-- Of a message that begins with neither `unknown field` nor `missing field`, nothing that stands in
-- quotes is shown: two such messages that differ in what they quote are redacted to the same text.
pub redact_parse_message-DiffersInQuotes :
    {s t : Text}
    → DiffersInQuotes s t
    → IsNoKeyMessage s
    → IsNoKeyMessage t
    → redact_parse_message s ≡ redact_parse_message t
unfolding redact_parse_message
redact_parse_message-DiffersInQuotes {s} {t} r no_s no_t =
    rw (quotes_a_key-false s no_s, quotes_a_key-false t no_t) (redact-DiffersInQuotes r)
