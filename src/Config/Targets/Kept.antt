-- ===== src/Config/Targets/Kept.antt =====
-- Which targets of the file the environment leaves alone.
use freshdock.Prelude.{
  ◌≡◌, refl, ap, ◌∙◌, inl, inr, true, Option, none, some, List, [], ◌∷◌, map, Text, codes, ◌==◌,
  eq_iff, eq_refl, Result, Result-cases, Bool-cases, lookup, All, subst, arith,
}
use freshdock.Prelude.Chars.{to_ascii_lowercase}
use freshdock.Prelude.Split.{strip_prefix}
use freshdock.Prelude.Maps.{put, keys, lookup-put}
use freshdock.Compose.{elem}
use freshdock.Config.Env.{Var, named_suffix}
use freshdock.Config.Targets.Parse.{NotificationTarget, Url, parse_notify_url}
use freshdock.Config.Targets.{
  notify_env_name, set_triggers, Targets, Declaration, decl_or_default, add_triggers, add_url,
  add_decl, gather, triggers_of, declare_one, declare_all, declare_env_targets,
}

-- The name for which a variable gives a URL.
abbrev url_in : Option Text → Option Text
url_in none = none
url_in (some rest) = named_suffix rest (codes "_URL")

abbrev pub url_name : Var → Option Text
url_name (key, value) = url_in (strip_prefix (codes "FRESHDOCK_NOTIFY_") key)

-- A name that is written to the target `k` is the form of `k` in a variable.
abbrev pub IsFormOf : (k n : Text) → Type 0
IsFormOf k n = to_ascii_lowercase n ≡ k → n ≡ notify_env_name k

-- No variable gives a URL to a name that is written to `k` but is not its form.
abbrev pub NamesForms : (k : Text) → List Var → Type 0
NamesForms k vars = All (λ v. (n : Text) → url_name v ≡ some n → IsFormOf k n) vars

-- A statement that is needed where there is a URL.
abbrev IfUrl : Type 0 → Option Text → Type 0
IfUrl T none = Unit
IfUrl T (some url) = T

abbrev AllUrls : (Text → Type 0) → List (Text × Declaration) → Type 0
AllUrls P decls = All (λ (d : Text × Declaration). IfUrl (P d.0) (d.1).0) decls

module _ (P : Text → Type 0) where
  put-AllUrls :
      (n : Text) (d : Declaration) (decls : List (Text × Declaration))
      → IfUrl (P n) d.0
      → AllUrls P decls
      → AllUrls P (put n d decls)
  unfolding put
  put-AllUrls n d [] new old = (new, tt)
  put-AllUrls n d ((j, w) ∷ decls) new (here, old) = elim (Bool-cases (j == n)) [
    | inl is ↦ rw (is, put) (new, old)
    | inr not ↦ rw (not, put) (here, put-AllUrls n d decls new old)
  ]

  lookup-AllUrls :
      (n : Text) (decls : List (Text × Declaration))
      → AllUrls P decls
      → IfUrl (P n) (decl_or_default (lookup n decls)).0
  unfolding lookup
  lookup-AllUrls n [] old = tt
  lookup-AllUrls n ((j, w) ∷ decls) (here, old) = elim (Bool-cases (j == n)) [
    | inl is ↦ rw (is) (subst (λ k. IfUrl (P k) w.0) ((eq_iff j n).0 is) here)
    | inr not ↦ rw (not) (lookup-AllUrls n decls old)
  ]

  add_triggers-AllUrls :
      (found : Option Text) (value : Text) (decls : List (Text × Declaration))
      → AllUrls P decls
      → AllUrls P (add_triggers found value decls)
  add_triggers-AllUrls none value decls old = old
  add_triggers-AllUrls (some n) value decls old =
      put-AllUrls n ((decl_or_default (lookup n decls)).0, some value) decls
        (lookup-AllUrls n decls old) old

  add_url-AllUrls :
      (found : Option Text) (rest value : Text) (decls : List (Text × Declaration))
      → ((n : Text) → found ≡ some n → P n)
      → AllUrls P decls
      → AllUrls P (add_url found rest value decls)
  add_url-AllUrls none rest value decls new old =
      add_triggers-AllUrls (named_suffix rest (codes "_TRIGGERS")) value decls old
  add_url-AllUrls (some n) rest value decls new old =
      put-AllUrls n (some value, (decl_or_default (lookup n decls)).1) decls (new n refl) old

  add_decl-AllUrls :
      (rest : Option Text) (value : Text) (decls : List (Text × Declaration))
      → ((n : Text) → url_in rest ≡ some n → P n)
      → AllUrls P decls
      → AllUrls P (add_decl rest value decls)
  add_decl-AllUrls none value decls new old = old
  add_decl-AllUrls (some rest) value decls new old =
      add_url-AllUrls (named_suffix rest (codes "_URL")) rest value decls new old

  gather-AllUrls :
      (vars : List Var) (decls : List (Text × Declaration))
      → All (λ v. (n : Text) → url_name v ≡ some n → P n) vars
      → AllUrls P decls
      → AllUrls P (gather vars decls)
  unfolding gather
  gather-AllUrls [] decls new old = old
  gather-AllUrls ((key, value) ∷ vars) decls (here, new) old =
      gather-AllUrls vars (add_decl (strip_prefix (codes "FRESHDOCK_NOTIFY_") key) value decls) new
        (add_decl-AllUrls (strip_prefix (codes "FRESHDOCK_NOTIFY_") key) value decls here old)

elem-names :
    (k : Text) (t : NotificationTarget) (targets : Targets)
    → lookup k targets ≡ some t
    → elem (notify_env_name k) (map notify_env_name (keys targets)) ≡ true
unfolding lookup
elem-names k t [] found = cc
elem-names k t ((j, u) ∷ targets) found = elim (Bool-cases (j == k)) [
  | inl is ↦
      let same : j ≡ k = (eq_iff j k).0 is in
      rw (same) (ground (arith, eq_refl (notify_env_name k)))
  | inr not ↦ let later = rw (not) at found in ground (arith, elem-names k t targets later)
]

module _ (url_parse : Text → Result Url Text) (pct_decode : Text → Text) (k : Text)
    (names : List Text) (taken : elem (notify_env_name k) names ≡ true) where
  declare_one-kept :
      (n : Text) (d : Declaration) (targets : Targets)
      → IfUrl (IsFormOf k n) d.0
      → lookup k (declare_one url_parse pct_decode names n d targets) ≡ lookup k targets
  declare_one-kept n (none, triggers) targets form = refl
  declare_one-kept n (some url, triggers) targets form = elim (Bool-cases (elem n names)) [
    | inl skip ↦ rw skip
    | inr new ↦ rw new (elim (Result-cases (parse_notify_url url_parse pct_decode url)) [
      | inr (reason, bad) ↦ rw bad
      | inl (target, good) ↦ rw good (
          lookup-put k (to_ascii_lowercase n) (set_triggers target (triggers_of triggers)) targets
          ∙ elim (Bool-cases (to_ascii_lowercase n == k)) [
            | inr other ↦ rw other
            | inl is ↦
                let same : n ≡ notify_env_name k = form ((eq_iff (to_ascii_lowercase n) k).0 is) in
                let both = ap (λ m. elem m names) same in cc
          ])
    ])
  ]

  declare_all-kept :
      (decls : List (Text × Declaration)) (targets : Targets)
      → AllUrls (IsFormOf k) decls
      → lookup k (declare_all url_parse pct_decode names decls targets) ≡ lookup k targets
  unfolding declare_all
  declare_all-kept [] targets forms = refl
  declare_all-kept ((n, d) ∷ decls) targets (form, forms) =
      declare_all-kept decls (declare_one url_parse pct_decode names n d targets) forms
      ∙ declare_one-kept n d targets form

-- A target of the file is never replaced by one that the environment declares, where each variable
-- that would write to the target's name spells it in upper case with `_` for `-`.
pub declare_env_targets-kept :
    (url_parse : Text → Result Url Text) (pct_decode : Text → Text) (targets : Targets)
    (vars : List Var) (k : Text) (t : NotificationTarget)
    → lookup k targets ≡ some t
    → NamesForms k vars
    → lookup k (declare_env_targets url_parse pct_decode targets vars) ≡ some t
unfolding declare_env_targets
declare_env_targets-kept url_parse pct_decode targets vars k t found forms =
    declare_all-kept url_parse pct_decode k (map notify_env_name (keys targets))
      (elem-names k t targets found) (gather vars []) targets
      (gather-AllUrls (IsFormOf k) vars [] forms tt)
    ∙ found
