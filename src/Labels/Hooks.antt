-- ===== src/Labels/Hooks.antt =====
-- Lifecycle hooks: `Hook`, `LifecycleHooks` and `parse_hook`.
use freshdock.Prelude.{Option, none, some, Text, codes, lookup, Result, ok}
use freshdock.Prelude.Results.{◌>>=◌}
use freshdock.Compose.{Labels}
use freshdock.Labels.Values.{
  Duration, from_secs, LabelError, parse_timeout, wt_pre_update, wt_pre_update_timeout,
  wt_post_update, wt_post_update_timeout,
}

pub record Hook : Type 0 where
  pub command : Text
  pub timeout : Option Duration

pub record LifecycleHooks : Type 0 where
  pub pre_update : Option Hook
  pub post_update : Option Hook

-- `LifecycleHooks::default()`.
abbrev pub no_hooks : LifecycleHooks
no_hooks = record { pre_update = none; post_update = none }

abbrev pub default_hook_timeout : Duration
default_hook_timeout = from_secs 60

abbrev pub hook_timeout :
    Text → Option Text → Text → Option Text → Result (Option Duration) LabelError
hook_timeout key (some v) wt_key wt = parse_timeout key v 1
hook_timeout key none wt_key (some v) = parse_timeout wt_key v 60
hook_timeout key none wt_key none = ok (some default_hook_timeout)

-- `command.or_else(wt_command).map(…)`.
abbrev pub hook_of : Option Duration → Option Text → Option Text → Option Hook
hook_of timeout (some c) wt = some (record { command = c; timeout = timeout })
hook_of timeout none (some c) = some (record { command = c; timeout = timeout })
hook_of timeout none none = none

unfoldable pub parse_hook : Labels → Text → Text → Text → Text → Result (Option Hook) LabelError
unfolding lookup parse_timeout
parse_hook labels command_key timeout_key wt_command_key wt_timeout_key = do
  timeout ←
      hook_timeout timeout_key (lookup timeout_key labels) wt_timeout_key
        (lookup wt_timeout_key labels)
  ok (hook_of timeout (lookup command_key labels) (lookup wt_command_key labels))

unfoldable pub parse_hooks : Labels → Result LifecycleHooks LabelError
unfolding parse_hook
parse_hooks labels = do
  pre ←
      parse_hook labels (codes "freshdock.lifecycle.pre-update")
        (codes "freshdock.lifecycle.pre-update-timeout") wt_pre_update wt_pre_update_timeout
  post ←
      parse_hook labels (codes "freshdock.lifecycle.post-update")
        (codes "freshdock.lifecycle.post-update-timeout") wt_post_update wt_post_update_timeout
  ok (record { pre_update = pre; post_update = post })
