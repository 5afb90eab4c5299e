-- ===== src/Names/Own.antt =====
-- `own_container_id_prefix` of src/selfid.rs. The file with the host name and the variable are
-- parameters; what it returns passes the tests of `is_own_container`.
use freshdock.Prelude.{
  ℕ, ◌≡◌, refl, inl, inr, Bool, true, not, Option, none, some, [], ◌∷◌, Text, arith, all,
  Bool-cases, Option-cases, if◌then◌else◌,
}
use mathlib.Core.Option
use freshdock.Prelude.Chars.{
  trim, is_empty, is_digit, is_hexdigit, to_ascii_lowercase, lower, len, len_utf8,
}
use freshdock.Prelude.Split.{starts_with}
use freshdock.Names.{looks_like_container_id, is_own_container}

-- `Option::filter`
abbrev filtered : (Text → Bool) → Option Text → Option Text
filtered p none = none
filtered p (some s) = if p s then some s else none

abbrev trimmed : Option Text → Option Text
trimmed hostname_file = filtered (λ h. not (is_empty h)) (Option.map trim hostname_file)

abbrev or_var : Option Text → Option Text → Option Text
or_var (some h) hostname_var = some h
or_var none hostname_var = hostname_var

-- The contents of `/etc/hostname`, where it can be read, and of `$HOSTNAME`, where it is set.
unfoldable pub own_container_id_prefix : (hostname_file hostname_var : Option Text) → Option Text
unfolding trim looks_like_container_id to_ascii_lowercase
own_container_id_prefix hostname_file hostname_var =
    Option.map to_ascii_lowercase
      (filtered looks_like_container_id (or_var (trimmed hostname_file) hostname_var))

lower-lower : (c : ℕ) → lower (lower c) ≡ lower c
unfolding lower
lower-lower c = ground arith

lower-is_hexdigit : (c : ℕ) → is_hexdigit c ≡ true → is_hexdigit (lower c) ≡ true
unfolding is_hexdigit is_digit lower
lower-is_hexdigit c hex = ground arith

lower-len_utf8 : (c : ℕ) → is_hexdigit c ≡ true → len_utf8 (lower c) ≡ len_utf8 c
unfolding is_hexdigit is_digit lower
lower-len_utf8 c hex = ground arith

to_ascii_lowercase-twice :
    (s : Text) → to_ascii_lowercase (to_ascii_lowercase s) ≡ to_ascii_lowercase s
unfolding to_ascii_lowercase
to_ascii_lowercase-twice [] = refl
to_ascii_lowercase-twice (c ∷ s) = rw (lower-lower c, to_ascii_lowercase-twice s) refl

all-lower : (s : Text) → all is_hexdigit s ≡ true → all is_hexdigit (to_ascii_lowercase s) ≡ true
unfolding to_ascii_lowercase
all-lower [] hex = refl
all-lower (c ∷ s) hex = ground (arith, lower-is_hexdigit c, all-lower s)

len-lower : (s : Text) → all is_hexdigit s ≡ true → len (to_ascii_lowercase s) ≡ len s
unfolding to_ascii_lowercase len
len-lower [] hex = refl
len-lower (c ∷ s) hex = ground (arith, lower-len_utf8 c, len-lower s)

looks_like_container_id-lower :
    (h : Text)
    → looks_like_container_id h ≡ true
    → looks_like_container_id (to_ascii_lowercase h) ≡ true
unfolding looks_like_container_id
looks_like_container_id-lower h shape =
    let hex : all is_hexdigit h ≡ true = ground arith in
    rw (len-lower h hex, all-lower h hex) (ground arith)

-- With the prefix that it finds, exactly the containers are freshdock's own whose id begins with it.
pub own_container_id_prefix-is_own_container :
    (hostname_file hostname_var : Option Text) (p id : Text)
    → own_container_id_prefix hostname_file hostname_var ≡ some p
    → is_own_container (some p) (some id) ≡ starts_with p id
unfolding own_container_id_prefix is_own_container
own_container_id_prefix-is_own_container hostname_file hostname_var p id e =
    elim (Option-cases (or_var (trimmed hostname_file) hostname_var)) [
      | inl gone ↦ let e' = rw gone at e in cc
      | inr (h, is) ↦ elim (Bool-cases (looks_like_container_id h)) [
        | inr other ↦ let e' = rw (is, other) at e in cc
        | inl shape ↦
            let same : to_ascii_lowercase h ≡ p = (let e' = rw (is, shape) at e in cc) in
            rw (← same, looks_like_container_id-lower h shape, to_ascii_lowercase-twice h) refl
      ]
    ]
