-- ===== src/Registry/Lifetime.antt =====
-- How long a stored token is used.
use freshdock.Prelude.{
  ℕ, ◌+◌, ◌-◌, ◌≤◌, ◌≡◌, ◌≢◌, refl, inl, inr, Bool-cases, eq_iff, ◌==◌, false, ap, sym, ◌∙◌, none,
  some, Text, eq_refl, lookup, ltb, if◌then◌else◌, arith,
}
use freshdock.Prelude.Maps.{lookup-put}
use freshdock.Labels.Values.{from_secs}
use freshdock.Registry.Auth.{new, valid_token, ttl_of, effective}
use freshdock.Registry.Wire.{Wire, Session}
use freshdock.Registry.Fetch.{cached_token, cached, store_token}

-- The lifetime that is used of a stated one.
used : (secs : ℕ) → 6 ≤ secs → effective (ttl_of (some secs)) ≡ from_secs secs - from_secs 5
used secs enough = ground arith

other_key : (key other : Text) → other ≢ key → (key == other) ≡ false
other_key key other differs = elim (Bool-cases (key == other)) [
  | inr not ↦ not
  | inl is ↦ absurd (differs (sym ((eq_iff key other).0 is)))
]

valid_token-new :
    (last : ℕ) (token : Text) (secs now at : ℕ)
    → 6 ≤ secs
    → now + from_secs secs ≤ last
    → valid_token (new last token (some secs) now) at
      ≡ (if ltb (at + from_secs 5) (now + from_secs secs) then some token else none)
unfolding new valid_token
valid_token-new last token secs now at enough fits = rw (used secs enough) (ground arith)

-- What a cache finds under a key after a token was stored there with a stated lifetime: the token,
-- exactly until five seconds before the end of the lifetime, if that is six seconds or more and lies
-- in the range of the clock; other keys are left alone.
pub cached_token-store_token :
    (w : Wire) (key token : Text) (secs : ℕ) (s later : Session)
    → later.tokens ≡ (store_token w key token (some secs) s).tokens
    → 6 ≤ secs
    → w.now s.requests + from_secs secs ≤ w.last_instant
    → (cached_token w key later ≡ (
        if ltb (w.now later.requests + from_secs 5) (w.now s.requests + from_secs secs)
        then some token
        else none))
      × ((other : Text) → other ≢ key → lookup other later.tokens ≡ lookup other s.tokens)
unfolding cached_token store_token
cached_token-store_token w key token secs s later same enough fits =
    let entry = new w.last_instant token (some secs) (w.now s.requests) in
    let found : lookup key later.tokens ≡ some entry =
      ap (lookup key) same ∙ lookup-put key key entry s.tokens ∙ rw (eq_refl key) refl in
    (
      ap (λ o. cached w o (w.now later.requests)) found
          ∙ valid_token-new w.last_instant token secs (w.now s.requests) (w.now later.requests)
              enough fits,
      λ other differs.
          ap (lookup other) same
          ∙ lookup-put other key entry s.tokens
          ∙ rw (other_key key other differs) refl,
    )
