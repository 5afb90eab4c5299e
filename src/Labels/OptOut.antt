-- ===== src/Labels/OptOut.antt =====
-- An explicit opt-out against the policy of the same labels.
use freshdock.Prelude.{
  ◌≡◌, refl, ◌≢◌, ◌⊎◌, inl, inr, Bool, true, false, Option, none, some, Text, codes, ◌||◌, eq_iff,
  lookup, ok, arith, Bool-cases,
}
use freshdock.Compose.{Labels}
use freshdock.Labels.{
  Policy, PolicyDefaults, enable_key, parse_policy, value_of, explicitly_opts_out,
}
use freshdock.Labels.Values.{Mode, off, mode_text, wt_enable}
use freshdock.Labels.Enabled.{normal, Enables, HasMode, parse_policy-Enables}

-- The freshdock label says true where the watchtower one says false.
abbrev pub Overruled : (freshdock watchtower : Option Text) → Type 0
Overruled freshdock watchtower =
    (v : Text) × (w : Text) × (freshdock ≡ some v)
    × (normal v ≡ codes "true")
    × (watchtower ≡ some w)
    × (normal w ≡ codes "false")

or_cases : (a b c : Bool) → (a || b || c) ≡ true → (a ≡ true) ⊎ (b ≡ true) ⊎ (c ≡ true)
or_cases a b c e = ground arith

Overruled-by :
    (freshdock watchtower : Option Text) (watch_all : Bool)
    → Enables freshdock watchtower watch_all
    → value_of watchtower ≡ codes "false"
    → Overruled freshdock watchtower
unfolding codes
Overruled-by (some v) (some w) watch_all on e = (v, w, refl, on, refl, e)
Overruled-by none (some w) watch_all on e = cc
Overruled-by freshdock none watch_all on e = cc

not_false :
    (freshdock watchtower : Option Text) (watch_all : Bool)
    → Enables freshdock watchtower watch_all
    → value_of freshdock ≢ codes "false"
unfolding codes
not_false (some v) watchtower watch_all on e = cc
not_false none watchtower watch_all on e = cc

off_by :
    (label monitor_only : Option Text) (default : Option Mode) (m : Mode)
    → HasMode label monitor_only default m
    → value_of label ≡ codes "off"
    → m ≡ off
unfolding codes mode_text
off_by (some v) monitor_only default off has e = refl
off_by (some v) monitor_only default _ has e = cc
off_by none monitor_only default m has e = cc

-- Labels that opt out explicitly, and that can be read, state a policy that is disabled or `off`,
-- but for one case: `freshdock.enable` says true and the watchtower spelling says false.
pub explicitly_opts_out-policy :
    (labels : Labels) (defaults : PolicyDefaults) (p : Policy)
    → explicitly_opts_out labels ≡ true
    → parse_policy labels defaults ≡ ok p
    → (p.enabled ≡ false)
      ⊎ (p.mode ≡ off)
      ⊎ Overruled (lookup enable_key labels) (lookup wt_enable labels)
unfolding explicitly_opts_out
explicitly_opts_out-policy labels defaults p out e =
    let (enables, has) = parse_policy-Enables labels defaults p e in
    elim (Bool-cases p.enabled) [
      | inr unset ↦ inl unset
      | inl on ↦ elim (or_cases _ _ _ out) [
        | inl x ↦ absurd (not_false _ _ _ (enables.0 on) ((eq_iff _ _).0 x))
        | inr (inl x) ↦ inr (inr (Overruled-by _ _ _ (enables.0 on) ((eq_iff _ _).0 x)))
        | inr (inr x) ↦ inr (inl (off_by _ _ _ _ (has on) ((eq_iff _ _).0 x)))
      ]
    ]
