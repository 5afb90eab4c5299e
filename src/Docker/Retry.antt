-- ===== src/Docker/Retry.antt =====
-- `is_transient_rate_limit` and `retry_rate_limited`. The pull itself is a call of the client library:
-- it answers each attempt from what happened before it.
use freshdock.Prelude.{
  ℕ, ◌+◌, ◌≤◌, ◌≡◌, refl, inl, inr, ◌⊎◌, Bool, true, false, not, ◌&&◌, ◌||◌, Option, none, some,
  List, [], ◌∷◌, Text, codes, ok, err, eqb, any, Bool-cases, if◌then◌else◌, arith,
}
use freshdock.Prelude.Chars.{to_ascii_lowercase}
use freshdock.Prelude.Split.{starts_with}
use freshdock.Labels.Values.{Duration, from_secs}
use freshdock.Daemon.Types.{response_server_error, stream_error, DockerError, bollard, Fallible}

-- `str::contains` for a text.
abbrev contains_text : (needle : Text) → Text → Bool
contains_text needle [] = starts_with needle []
contains_text needle (c ∷ s) = starts_with needle (c ∷ s) || contains_text needle s

abbrev is_429 : Option ℕ → Bool
is_429 none = false
is_429 (some code) = eqb code 429

abbrev limited_by : Option ℕ → Text → Bool
limited_by status message =
    (is_429 status
      || any (λ needle. contains_text needle message)
          (codes "toomanyrequests" ∷ codes "too many requests" ∷ codes "http 429" ∷ []))
    && not (contains_text (codes "pull rate limit") message)

unfoldable pub is_transient_rate_limit : DockerError → Bool
unfolding to_ascii_lowercase starts_with
is_transient_rate_limit (bollard (response_server_error status_code message)) =
    limited_by (some status_code) (to_ascii_lowercase message)
is_transient_rate_limit (bollard (stream_error message)) =
    limited_by none (to_ascii_lowercase message)
is_transient_rate_limit _ = false

abbrev pub pull_retry_delays : List Duration
pull_retry_delays = from_secs 2 ∷ from_secs 5 ∷ from_secs 10 ∷ []

-- What the retries do, the last one first.
pub data Move : Type 0 where
  attempt : Move
  sleep : Duration → Move

-- The answer to the next attempt.
abbrev pub Pull : Type 0
Pull = List Move → Fallible (Unit {0})

abbrev pub is_rate_limited : Fallible (Unit {0}) → Bool
is_rate_limited (ok u) = false
is_rate_limited (err e) = is_transient_rate_limit e

abbrev pub retry : Pull → List Duration → List Move → Fallible (Unit {0}) × List Move
retry pull [] h = (pull h, attempt ∷ h)
retry pull (delay ∷ delays) h =
    let again = retry pull delays (sleep delay ∷ attempt ∷ h) in
    if is_rate_limited (pull h) then again else (pull h, attempt ∷ h)

unfoldable pub retry_rate_limited : Pull → List Move → Fallible (Unit {0}) × List Move
unfolding is_transient_rate_limit
retry_rate_limited pull h = retry pull pull_retry_delays h

abbrev pub attempts : List Move → ℕ
attempts [] = 0
attempts (attempt ∷ h) = attempts h + 1
attempts (sleep delay ∷ h) = attempts h

abbrev pub slept : List Move → ℕ
slept [] = 0
slept (attempt ∷ h) = slept h
slept (sleep delay ∷ h) = slept h + delay

abbrev sum : List Duration → ℕ
sum [] = 0
sum (delay ∷ delays) = delay + sum delays

abbrev rounds : List Duration → ℕ
rounds [] = 1
rounds (delay ∷ delays) = rounds delays + 1

-- The last move is an attempt, and its answer is the result.
abbrev pub LastAnswer : Pull → Fallible (Unit {0}) × List Move → Type 0
LastAnswer pull (r, h) = (before : List Move) × (h ≡ attempt ∷ before) × (r ≡ pull before)

-- The retries give up before the delays are used up only on another answer.
abbrev pub Gives : (tries wait : ℕ) → List Move → Fallible (Unit {0}) × List Move → Type 0
Gives tries wait h (r, h') =
    ((is_rate_limited r ≡ true) × (attempts h' ≡ attempts h + tries) × (slept h' ≡ slept h + wait))
    ⊎ ((is_rate_limited r ≡ false)
        × (attempts h' ≤ attempts h + tries)
        × (slept h' ≤ slept h + wait))

retry-LastAnswer :
    (pull : Pull) (delays : List Duration) (h : List Move) → LastAnswer pull (retry pull delays h)
retry-LastAnswer pull [] h = (h, refl, refl)
retry-LastAnswer pull (delay ∷ delays) h = elim (Bool-cases (is_rate_limited (pull h))) [
  | inl limited ↦ rw (limited) (retry-LastAnswer pull delays (sleep delay ∷ attempt ∷ h))
  | inr other ↦ rw (other) (h, refl, refl)
]

retry-Gives :
    (pull : Pull) (delays : List Duration) (h : List Move)
    → Gives (rounds delays) (sum delays) h (retry pull delays h)
retry-Gives pull [] h = elim (Bool-cases (is_rate_limited (pull h))) [
  | inl limited ↦ inl (limited, omega arith, omega arith)
  | inr other ↦ inr (other, omega arith, omega arith)
]
retry-Gives pull (delay ∷ delays) h = elim (Bool-cases (is_rate_limited (pull h))) [
  | inl limited ↦ rw (limited) (
      grown (retry pull delays (sleep delay ∷ attempt ∷ h))
        (retry-Gives pull delays (sleep delay ∷ attempt ∷ h)))
  | inr other ↦ rw (other) (inr (other, omega arith, omega arith))
]
  where
    grown :
        (s : Fallible (Unit {0}) × List Move)
        → Gives (rounds delays) (sum delays) (sleep delay ∷ attempt ∷ h) s
        → Gives (rounds (delay ∷ delays)) (sum (delay ∷ delays)) h s
    grown s (inl (limited, a, b)) = inl (limited, omega arith, omega arith)
    grown s (inr (other, a, b)) = inr (other, omega arith, omega arith)

-- A pull is tried at most four times with at most 17 seconds of sleep, and its result is the answer to
-- the last attempt: one that is rate-limited only after all four attempts and all of the sleep.
pub retry_rate_limited-Gives :
    (pull : Pull) (h : List Move)
    → LastAnswer pull (retry_rate_limited pull h)
      × Gives 4 (from_secs 17) h (retry_rate_limited pull h)
unfolding retry_rate_limited
retry_rate_limited-Gives pull h =
    (retry-LastAnswer pull pull_retry_delays h, retry-Gives pull pull_retry_delays h)
