-- ===== src/Labels/Enabled.antt =====
-- Which labels enable a container, with what mode, and which opt it out.
use freshdock.Prelude.{
  ◌≡◌, refl, sym, ap, ◌∙◌, subst, ◌⊎◌, inl, inr, ◌↔◌, Bool, true, false, Option, none, some, Text,
  codes, ◌==◌, eq_iff, lookup, Result, ok, err, arith, Bool-cases, if◌then◌else◌,
}
use freshdock.Prelude.Results.{>>=-eq-ok}
use freshdock.Prelude.Chars.{trim, to_ascii_lowercase}
use freshdock.Labels.Hooks.{parse_hooks}
use freshdock.Compose.{Labels}
use freshdock.Labels.{
  Policy, PolicyDefaults, enable_key, mode_key, notify_key, cleanup_key, bool_label,
  explicit_enable, bool_or, mode_of, mode_or_watch, enabled_policy, parse_policy,
}
use freshdock.Labels.Values.{
  Mode, live, nightly, weekly, monthly, watch, off, mode_text, LabelError, parse_bool, parse_mode,
  first_of_modes, wt_enable, wt_monitor_only,
}

-- The value that a label is compared with.
abbrev pub normal : Text → Text
normal v = to_ascii_lowercase (trim v)

-- One test of a chain that compares with names, and what follows where it fails.
name_test :
    {A : Type 0} (name : A → Text) (w : Text) (n m : A) (rest : Result A LabelError)
    → (rest ≡ ok m → w ≡ name m)
    → (if w == name n then ok n else rest) ≡ ok m
    → w ≡ name m
name_test {A} name w n m rest k e = elim (Bool-cases (w == name n)) [
  | inl same ↦
      let found : ◌≡◌ {A = Result A LabelError} (ok n) (ok m) = rw same at e in
      let which : n ≡ m = cc in (eq_iff w (name n)).0 same ∙ ap name which
  | inr differs ↦ k (rw differs at e)
]

named : (value w : Text) (m : Mode) → first_of_modes value w ≡ ok m → w ≡ mode_text m
unfolding mode_text
named value w m e =
    name_test mode_text w live m _
      (name_test mode_text w nightly m _ (
        name_test mode_text w weekly m _ (
          name_test mode_text w monthly m _ (
            name_test mode_text w watch m _
              (name_test mode_text w off m (err (LabelError.invalid_mode value)) (λ x. cc))))))
      e

-- A mode label is read as a mode exactly when it is that mode's name, up to the case of letters and
-- to whitespace around it.
pub parse_mode_iff :
    (v : Text) (m : Mode) → (parse_mode v ≡ ok m) ↔ (to_ascii_lowercase (trim v) ≡ mode_text m)
unfolding parse_mode mode_text codes ◌==◌
parse_mode_iff v m = (named v (normal v) m, complete m)
  where
    complete : (m : Mode) → normal v ≡ mode_text m → parse_mode v ≡ ok m
    complete live e = rw e refl
    complete nightly e = rw e refl
    complete weekly e = rw e refl
    complete monthly e = rw e refl
    complete watch e = rw e refl
    complete off e = rw e refl

abbrev pub bool_text : Bool → Text
bool_text true = codes "true"
bool_text false = codes "false"

pub parse_bool_iff :
    (key v : Text) (b : Bool) → (parse_bool key v ≡ ok b) ↔ (normal v ≡ bool_text b)
unfolding parse_bool codes ◌==◌
parse_bool_iff key v b = (
  λ e.
      name_test bool_text (normal v) true b _
        (name_test bool_text (normal v) false b (err (LabelError.invalid_bool key v)) (λ x. cc)) e,
  complete b,
)
  where
    complete : (b : Bool) → normal v ≡ bool_text b → parse_bool key v ≡ ok b
    complete true e = rw e refl
    complete false e = rw e refl

-- What the two enable labels and the fleet's default come to: the freshdock label before the
-- watchtower one, and the default where both are missing.
abbrev pub Enables : (freshdock watchtower : Option Text) (watch_all : Bool) → Type 0
Enables (some v) watchtower watch_all = normal v ≡ codes "true"
Enables none (some v) watch_all = normal v ≡ codes "true"
Enables none none watch_all = watch_all ≡ true

-- The same for the mode: its own label, then monitor-only, then the default, then `watch`.
abbrev pub HasMode : (label monitor_only : Option Text) (default : Option Mode) → Mode → Type 0
HasMode (some v) monitor_only default m = normal v ≡ mode_text m
HasMode none (some v) default m =
    ((normal v ≡ codes "true") × (m ≡ watch))
    ⊎ ((normal v ≡ codes "false") × (m ≡ mode_or_watch default))
HasMode none none default m = m ≡ mode_or_watch default

ok_inj : {A : Type 0} {a b : A} → ◌≡◌ {A = Result A LabelError} (ok a) (ok b) → a ≡ b
ok_inj e = cc

module _ (labels : Labels) (defaults : PolicyDefaults) where
  watching_mode :
      (v : Text) (read : Bool) (watching : Option Bool) (m : Mode)
      → normal v ≡ bool_text read
      → watching ≡ some read
      → mode_of none (bool_or false watching) defaults.mode ≡ ok m
      → HasMode none (some v) defaults.mode m
  watching_mode v true watching m says is e = ground (arith, says, rw is at e)
  watching_mode v false watching m says is e = ground (arith, says, rw is at e)

  mode_of-HasMode :
      (label monitor_only : Option Text) (watching : Option Bool) (m : Mode)
      → bool_label wt_monitor_only monitor_only ≡ ok watching
      → mode_of label (bool_or false watching) defaults.mode ≡ ok m
      → HasMode label monitor_only defaults.mode m
  mode_of-HasMode (some v) monitor_only watching m b e = (parse_mode_iff v m).0 e
  mode_of-HasMode none none watching m b e = ground (arith, b, e)
  mode_of-HasMode none (some v) watching m b e =
      let (read, parsed, same) = >>=-eq-ok (parse_bool wt_monitor_only v) (λ x. ok (some x)) b in
      let reads = (parse_bool_iff wt_monitor_only v read).0 parsed in
      let is : watching ≡ some read = cc in watching_mode v read watching m reads is e

  enabled_policy-HasMode :
      (auto_enabled : Bool) (p : Policy)
      → enabled_policy labels defaults auto_enabled ≡ ok p
      → (p.enabled ≡ true)
        × HasMode (lookup mode_key labels) (lookup wt_monitor_only labels) defaults.mode p.mode
  unfolding enabled_policy
  enabled_policy-HasMode auto_enabled p e =
      let (watching, reads, e₁) =
        >>=-eq-ok (bool_label wt_monitor_only (lookup wt_monitor_only labels)) _ e in
      let (m, chosen, e₂) =
        >>=-eq-ok (mode_of (lookup mode_key labels) (bool_or false watching) defaults.mode) _ e₁ in
      let (notify, _, e₃) = >>=-eq-ok (bool_label notify_key (lookup notify_key labels)) _ e₂ in
      let (cleanup, _, e₄) = >>=-eq-ok (bool_label cleanup_key (lookup cleanup_key labels)) _ e₃ in
      let (hooks, _, e₅) = >>=-eq-ok (parse_hooks labels) _ e₄ in
      let has =
        mode_of-HasMode (lookup mode_key labels) (lookup wt_monitor_only labels) watching m reads
          chosen in
      let made = ok_inj e₅ in
      (
        sym (ap (λ (q : Policy). q.enabled) made),
        subst (HasMode (lookup mode_key labels) (lookup wt_monitor_only labels) defaults.mode)
            (ap (λ (q : Policy). q.mode) made) has,
      )

  label_enables :
      (key v : Text) (explicit : Option Bool)
      → bool_label key (some v) ≡ ok explicit
      → (bool_or defaults.watch_all explicit ≡ true) ↔ (normal v ≡ codes "true")
  label_enables key v explicit e =
      let (read, parsed, same) = >>=-eq-ok (parse_bool key v) (λ x. ok (some x)) e in
      let is : explicit ≡ some read = cc in
      rw is (
        λ x. (parse_bool_iff key v read).0 parsed ∙ ap bool_text x,
        λ x. let also = (parse_bool_iff key v true).1 x in cc,
      )

  explicit_enable-Enables :
      (freshdock watchtower : Option Text) (explicit : Option Bool)
      → explicit_enable freshdock watchtower ≡ ok explicit
      → (bool_or defaults.watch_all explicit ≡ true)
        ↔ Enables freshdock watchtower defaults.watch_all
  explicit_enable-Enables none none explicit e =
      let is : explicit ≡ none = cc in rw is (λ x. x, λ x. x)
  explicit_enable-Enables none (some v) explicit e = label_enables wt_enable v explicit e
  explicit_enable-Enables (some v) watchtower explicit e = label_enables enable_key v explicit e

  -- A policy that could be read is enabled exactly when the labels or the default enable it, and an
  -- enabled one has the mode that they state.
  pub parse_policy-Enables :
      (p : Policy)
      → parse_policy labels defaults ≡ ok p
      → ((p.enabled ≡ true)
          ↔ Enables (lookup enable_key labels) (lookup wt_enable labels) defaults.watch_all)
        × ((p.enabled ≡ true)
            → HasMode (lookup mode_key labels) (lookup wt_monitor_only labels) defaults.mode p.mode)
  unfolding parse_policy
  parse_policy-Enables p e =
      let (explicit, read, rest) =
        >>=-eq-ok (explicit_enable (lookup enable_key labels) (lookup wt_enable labels)) _ e in
      let states =
        explicit_enable-Enables (lookup enable_key labels) (lookup wt_enable labels) explicit
          read in
      elim (Bool-cases (bool_or defaults.watch_all explicit)) [
        | inl on ↦
            let (enabled, has) = enabled_policy-HasMode _ p (rw on at rest) in
            ((λ x. states.0 on, λ x. enabled), λ x. has)
        | inr unset ↦
            let none_of : p.enabled ≡ false =
              ap (λ (q : Policy). q.enabled) (sym (ok_inj (rw unset at rest))) in
            ((λ x. cc, λ x. let on = states.1 x in cc), λ x. cc)
      ]
