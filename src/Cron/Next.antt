-- ===== src/Cron/Next.antt =====
-- Which instant `next_after` returns, and what an expression matches.
use freshdock.Prelude.{
  ℕ, zero, suc, ◌<◌, ◌≡◌, ◌⊎◌, inl, inr, refl, true, false, none, some, Bool-cases, Option-cases,
  arith,
}
use freshdock.Cron.{
  CronExpr, Calendar, floor_to_minute, fires_at, search_from, next_after, max_step_minutes,
}

module _ {Instant : Type 0} (calendar : Calendar Instant) where
  abbrev pub minutes_later : ℕ → Instant → Instant
  minutes_later zero t = t
  minutes_later (suc k) t = minutes_later k (calendar.plus_minute t)

  -- The expression fires after `k` minutes, fewer than the limit, and not before.
  abbrev pub FirstFires : CronExpr → (limit : ℕ) (t : Instant) (k : ℕ) → Type 0
  FirstFires e limit t k =
      (k < limit)
      × (fires_at calendar e (minutes_later k t) ≡ true)
      × ((j : ℕ) → j < k → fires_at calendar e (minutes_later j t) ≡ false)

  abbrev pub NeverFires : CronExpr → (limit : ℕ) (t : Instant) → Type 0
  NeverFires e limit t = (j : ℕ) → j < limit → fires_at calendar e (minutes_later j t) ≡ false

  search_from-FirstFires :
      (e : CronExpr) (left : ℕ) (t : Instant)
      → ((k : ℕ) × FirstFires e left t k
          × (search_from calendar e left t ≡ some (minutes_later k t)))
        ⊎ NeverFires e left t × (search_from calendar e left t ≡ none)
  unfolding search_from
  search_from-FirstFires e zero t = inr (λ j lt. absurd (omega arith), refl)
  search_from-FirstFires e (suc left) t = elim (Bool-cases (fires_at calendar e t)) [
    | inl fires ↦
        inl (0, (omega arith, fires, λ j lt. absurd (omega arith)), rw (fires, search_from) refl)
    | inr quiet ↦ elim (search_from-FirstFires e left (calendar.plus_minute t)) [
      | inl (k, (lt, fires, first), found) ↦
          inl (suc k, (omega arith, fires, later k t quiet first), rw (quiet, search_from) found)
      | inr (never, missed) ↦ inr (later left t quiet never, rw (quiet, search_from) missed)
    ]
  ]
    where
      later :
          (k : ℕ) (t : Instant)
          → fires_at calendar e t ≡ false
          → NeverFires e k (calendar.plus_minute t)
          → NeverFires e (suc k) t
      later k t quiet first zero lt = quiet
      later k t quiet first (suc j) lt = first j (omega arith)

  -- The next fire is the first minute that matches, counted from the whole minute after the one of
  -- the given instant; there is none only where that minute is unknown or no minute of the horizon
  -- matches.
  pub next_after-FirstFires :
      (e : CronExpr) (after : Instant)
      → ((floor_to_minute calendar after ≡ none) × (next_after calendar e after ≡ none))
        ⊎ ((whole : Instant) × (floor_to_minute calendar after ≡ some whole)
            × (((k : ℕ) × FirstFires e max_step_minutes (minutes_later 1 whole) k
                  × (next_after calendar e after ≡ some (minutes_later k (minutes_later 1 whole))))
                ⊎ NeverFires e max_step_minutes (minutes_later 1 whole)
                  × (next_after calendar e after ≡ none)))
  unfolding next_after
  next_after-FirstFires e after = elim (Option-cases (floor_to_minute calendar after)) [
    | inl unknown ↦ inl (unknown, rw (unknown, next_after) refl)
    | inr (whole, is) ↦ inr (
      whole,
      is,
      rw (is, next_after) (search_from-FirstFires e max_step_minutes (calendar.plus_minute whole)),
    )
  ]
