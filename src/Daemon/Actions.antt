-- ===== src/Daemon/Actions.antt =====
-- Code that talks to the daemon: a function of the history, which grows by each call.
use freshdock.Prelude.{ℕ, ℤ, Bool, Option, none, some, List, [], ◌∷◌, Text, Result, ok, err}
use freshdock.Image.{ImageRef}
use freshdock.Compose.{ProjectMember}
use freshdock.Labels.Values.{Duration}
use freshdock.Daemon.Types.{
  ContainerSpec, ContainerRuntimeState, HookStatus, ContainerSummary, LocalImage, ContainerImage,
  RegistryError, NotifyEvent, Fallible,
}
use freshdock.Daemon.Calls.{Call, History, Daemon}

abbrev pub Action : Type 0 → Type 0
Action A = History → A × History

abbrev pub pure : {A : Type 0} → A → Action A
pure a h = (a, h)

infixl 5 ◌>>=◌ ◌>>◌
abbrev pub ◌>>=◌ : {A B : Type 0} → Action A → (A → Action B) → Action B
◌>>=◌ m f h = let (a, h') = m h in f a h'

abbrev pub ◌>>◌ : {A B : Type 0} → Action A → Action B → Action B
m >> k = m >>= λ _. k

-- `?`: goes on with the value, or returns the error.
abbrev pub or_return : {A B : Type 0} → Fallible A → (A → Action (Fallible B)) → Action (Fallible B)
or_return (ok a) f = f a
or_return (err e) f = pure (err e)

abbrev pub try :
    {A B : Type 0} → Action (Fallible A) → (A → Action (Fallible B)) → Action (Fallible B)
try m f = m >>= λ r. or_return r f

-- Goes on with the value, or returns early with what the error makes of it.
abbrev pub attempt : {A E B : Type 0} → Action (Result A E) → (E → B) → (A → Action B) → Action B
attempt m failed f = m >>= λ r. elim r [ ok a ↦ f a | err e ↦ pure (failed e) ]

-- Goes on with a result, unless the fuel ran out.
abbrev pub onwards : {A B : Type 0} → (A → Action (Option B)) → Option A → Action (Option B)
onwards f none = pure none
onwards f (some a) = f a

-- `for x in xs { body(x).await }`.
abbrev pub for_each : {A : Type 0} → List A → (A → Action (Unit {0})) → Action (Unit {0})
for_each [] body = pure tt
for_each (x ∷ xs) body = body x >> for_each xs body

module _ (d : Daemon) where
  abbrev pub inspect : Text → Action (Fallible ContainerSpec)
  inspect name h = (d.inspect h name, Call.inspect name ∷ h)

  abbrev pub preflight_recreate : ContainerSpec → Action (Fallible (Unit {0}))
  preflight_recreate s h = (d.preflight_recreate h s, Call.preflight_recreate s ∷ h)

  abbrev pub pull : ImageRef → Action (Fallible (Unit {0}))
  pull image h = (d.pull h image, Call.pull image ∷ h)

  abbrev pub stop : Text → Option Text → Option ℤ → Action (Fallible (Unit {0}))
  stop name signal timeout h = (d.stop h name signal timeout, Call.stop name signal timeout ∷ h)

  -- The timestamp is read as the call is made.
  abbrev pub rename : Text → Action (Fallible Text)
  rename name h = (d.rename h name (d.timestamp h), Call.rename name (d.timestamp h) ∷ h)

  abbrev pub create_from_spec : Text → ContainerSpec → Text → Action (Fallible Text)
  create_from_spec name s image h =
      (d.create_from_spec h name s image, Call.create_from_spec name s image ∷ h)

  abbrev pub start : Text → Action (Fallible (Unit {0}))
  start name h = (d.start h name, Call.start name ∷ h)

  abbrev pub remove : Text → Bool → Action (Fallible (Unit {0}))
  remove name force h = (d.remove h name force, Call.remove name force ∷ h)

  abbrev pub rename_to : Text → Text → Action (Fallible (Unit {0}))
  rename_to from to h = (d.rename_to h from to, Call.rename_to from to ∷ h)

  abbrev pub remove_image : Text → Bool → Action (Fallible (Unit {0}))
  remove_image id force h = (d.remove_image h id force, Call.remove_image id force ∷ h)

  abbrev pub prune_dangling_images : Action (Fallible (Unit {0}))
  prune_dangling_images h = (d.prune_dangling_images h, Call.prune_dangling_images ∷ h)

  abbrev pub exec_hook : Text → Text → Option Duration → Action (Fallible HookStatus)
  exec_hook name command timeout h =
      (d.exec_hook h name command timeout, Call.exec_hook name command timeout ∷ h)

  abbrev pub list_network_dependents : Text → Action (Fallible (List Text))
  list_network_dependents name h =
      (d.list_network_dependents h name, Call.list_network_dependents name ∷ h)

  abbrev pub list_project : Text → Action (Fallible (List ProjectMember))
  list_project project h = (d.list_project h project, Call.list_project project ∷ h)

  abbrev pub local_image_id : Text → Action (Fallible (Option Text))
  local_image_id reference h = (d.local_image_id h reference, Call.local_image_id reference ∷ h)

  abbrev pub probe_state : Text → Action (Fallible ContainerRuntimeState)
  probe_state name h = (d.probe_state h name, Call.probe_state name ∷ h)

  abbrev pub list_running : Action (Fallible (List ContainerSummary))
  list_running h = (d.list_running h, Call.list_running ∷ h)

  abbrev pub inspect_image : Text → Action (Fallible LocalImage)
  inspect_image image h = (d.inspect_image h image, Call.inspect_image image ∷ h)

  abbrev pub container_image : Text → Action (Fallible ContainerImage)
  container_image id h = (d.container_image h id, Call.container_image id ∷ h)

  abbrev pub fetch_digest : ImageRef → Action (Result Text RegistryError)
  fetch_digest image h = (d.fetch_digest h image, Call.fetch_digest image ∷ h)

  abbrev pub dispatch : NotifyEvent → Action (Unit {0})
  dispatch event h = (tt, Call.dispatch event ∷ h)

  abbrev pub is_shutdown : Action Bool
  is_shutdown h = (d.is_shutdown h, h)

  abbrev pub now : Action ℕ
  now h = (d.now h, h)

  abbrev pub sleep : Duration → Action (Unit {0})
  sleep time h = (tt, Call.sleep time ∷ h)
