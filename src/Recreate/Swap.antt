-- ===== src/Recreate/Swap.antt =====
-- `swap_container`: stop, rename to an archive name, create under the original name, start.
use freshdock.Prelude.{Option, none, some, Text, Result, ok, err}
use freshdock.Daemon.Types.{DockerError, ContainerSpec}
use freshdock.Daemon.Calls.{Daemon}
use freshdock.Daemon.Actions.{Action, pure, attempt, stop, rename, create_from_spec, start}

-- Where a swap broke down; `archive` is there once the rename moved the container.
pub data SwapError : Type 0 where
  stop_failed : DockerError → SwapError
  after_stop : (error : DockerError) (archive : Option Text) → SwapError

abbrev pub into_inner : SwapError → DockerError
into_inner (stop_failed error) = error
into_inner (after_stop error archive) = error

unfoldable pub swap_container :
    Daemon → Text → ContainerSpec → Text → Action (Result (Text × Text) SwapError)
swap_container d name s image =
    attempt (stop d name s.config.stop_signal s.config.stop_timeout) (λ e. err (stop_failed e))
      λ _.
        attempt (rename d name) (λ e. err (after_stop e none))
          λ archive.
            attempt (create_from_spec d name s image) (λ e. err (after_stop e (some archive)))
              λ new_id.
                attempt (start d new_id) (λ e. err (after_stop e (some archive)))
                  λ _. pure (ok (archive, new_id))
