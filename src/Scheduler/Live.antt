-- ===== src/Scheduler/Live.antt =====
-- What the scheduler keeps is about containers that run.
use freshdock.Prelude.{
  ℕ, ◌≡◌, ◌⊎◌, inl, inr, true, false, Option, none, some, List, [], ◌∷◌, map, Text, ◌==◌, eq_iff,
  ok, keep, All, Bool-cases, arith,
}
use freshdock.Compose.{elem}
use freshdock.Compose.Elem.{elem_self, elem-cons}
use freshdock.Docker.{container_name}
use freshdock.Config.{ResolvedSettings}
use freshdock.Daemon.Types.{ContainerSummary}
use freshdock.Daemon.Calls.{Call, History, Daemon}
use freshdock.Scheduler.{SchedulerConfig, LocalTime}
use freshdock.Scheduler.Summary.{RunSummary}
use freshdock.Scheduler.Tick.{Book, Pass, include, visit_listed}
use freshdock.Scheduler.Run.{
  Ending, complete, interrupted, live_entries, fresh_pass, finish_tick, visit_running, run_tick,
}
use freshdock.Scheduler.Advances.{
  Holds, Yields, choose-Yields, onwards-Yields, Advances, visit_listed-Advances,
}

-- All the names are in the list.
abbrev pub AreIn : (names xs : List Text) → Type 0
AreIn names xs = All (λ x. elem x names ≡ true) xs

abbrev keys : {V : Type 0} → List (Text × V) → List Text
keys m = map (λ (k, v). k) m

elem-AreIn :
    (names xs : List Text) (k : Text) → AreIn names xs → elem k xs ≡ true → elem k names ≡ true
elem-AreIn names [] k held e = cc
elem-AreIn names (x ∷ xs) k (here, rest) e = elim (Bool-cases (x == k)) [
  | inl same ↦ let is : x ≡ k = (eq_iff x k).0 same in rw (is) at here
  | inr other ↦ elem-AreIn names xs k rest (ground arith)
]

live_entries-AreIn :
    {V : Type 0} (names live : List Text) (m : List (Text × V))
    → AreIn names live
    → AreIn names (keys (live_entries live m))
live_entries-AreIn names live [] held = tt
live_entries-AreIn names live ((k, v) ∷ m) held = elim (Bool-cases (elem k live)) [
  | inl there ↦
      rw (there) (elem-AreIn names live k held there, live_entries-AreIn names live m held)
  | inr gone ↦ rw (gone) (live_entries-AreIn names live m held)
]

live_names-AreIn :
    (names live xs : List Text) → AreIn names live → AreIn names (keep (λ k. elem k live) xs)
live_names-AreIn names live [] held = tt
live_names-AreIn names live (k ∷ xs) held = elim (Bool-cases (elem k live)) [
  | inl there ↦ rw (there) (elem-AreIn names live k held there, live_names-AreIn names live xs held)
  | inr gone ↦ rw (gone) (live_names-AreIn names live xs held)
]

AreIn-cons : (x : Text) (names xs : List Text) → AreIn names xs → AreIn (x ∷ names) xs
AreIn-cons x names [] held = tt
AreIn-cons x names (y ∷ ys) (here, rest) = (elem-cons y x names here, AreIn-cons x names ys rest)

all_in : (xs : List Text) → AreIn xs xs
all_in [] = tt
all_in (x ∷ xs) = (elem_self x xs, AreIn-cons x xs xs (all_in xs))

include-AreIn :
    (names live : List Text) (k : Text)
    → AreIn names live
    → elem k names ≡ true
    → AreIn names (include k live)
include-AreIn names live k held e = elim (Bool-cases (elem k live)) [
  | inl there ↦ rw (there) held
  | inr new ↦ rw (new) (e, held)
]

module _ {Instant : Type 0} where
  -- Every entry that is kept is about one of the names.
  abbrev pub IsLive : (names : List Text) → Book Instant → Type 0
  IsLive names book =
      AreIn names (keys book.states) × AreIn names book.warned × AreIn names (keys book.failed)

  abbrev LiveEnding : (names : List Text) → Ending Instant → Type 0
  LiveEnding names (complete p) = AreIn names p.live
  LiveEnding names (interrupted p) = ⊥

  finish_tick-IsLive :
      (names : List Text) (o : Option (Ending Instant))
      → Holds (LiveEnding names) o
      → Holds (λ ((book, s) : Book Instant × RunSummary). IsLive names book) (finish_tick o)
  unfolding finish_tick
  finish_tick-IsLive names none held = tt
  finish_tick-IsLive names (some (complete p)) held = (
    live_entries-AreIn names p.live p.book.states held,
    live_names-AreIn names p.live p.book.warned held,
    live_entries-AreIn names p.live p.book.failed held,
  )
  finish_tick-IsLive names (some (interrupted p)) held = absurd held

  module _ (time : LocalTime Instant) (d : Daemon) (fuel : ℕ) (cfg : SchedulerConfig)
      (settings : ResolvedSettings) where
    visit_running-AreIn :
        (now : Instant) (names : List Text) (cs : List ContainerSummary) (p : Pass Instant)
        → ((h : History) → d.is_shutdown h ≡ false)
        → AreIn names (map container_name cs)
        → AreIn names p.live
        → Yields (LiveEnding names) (visit_running time d fuel cfg settings now cs p)
    unfolding visit_running
    visit_running-AreIn now names [] p on listed held h = held
    visit_running-AreIn now names (c ∷ cs) p on (here, listed) held h =
        choose-Yields (LiveEnding names) (d.is_shutdown h) _ _ (λ stop. let go = on h in cc)
          (λ go.
            onwards-Yields (Advances c p) (LiveEnding names)
              (visit_listed time d fuel cfg settings now c p)
              (visit_running time d fuel cfg settings now cs)
              (visit_listed-Advances time d fuel cfg settings now c p)
              (λ p' (kept, tally).
                visit_running-AreIn now names cs p' on listed (still_in p' kept)))
          h
      where
        still_in :
            (p' : Pass Instant)
            → (p'.live ≡ p.live) ⊎ (p'.live ≡ include (container_name c) p.live)
            → AreIn names p'.live
        still_in p' (inl same) = rw (same) held
        still_in p' (inr more) = rw (more) (include-AreIn names p.live (container_name c) held here)

    -- After a tick that listed the running containers, with no shutdown signalled, every schedule
    -- state, every warning and every failed digest that is kept is about a listed container.
    pub run_tick-IsLive :
        (book : Book Instant) (h : History) (cs : List ContainerSummary)
        → ((h' : History) → d.is_shutdown h' ≡ false)
        → d.list_running h ≡ ok cs
        → Holds
            (λ ((book', s) : Book Instant × RunSummary). IsLive (map container_name cs) book')
            (run_tick time d fuel cfg settings book h).0
    unfolding run_tick
    run_tick-IsLive book h cs on listed =
        rw (listed, run_tick)
          (finish_tick-IsLive (map container_name cs) _ (
            visit_running-AreIn (time.now_provider (Call.list_running ∷ h)) (map container_name cs)
              cs (fresh_pass book) on (all_in (map container_name cs)) tt (Call.list_running ∷ h)))
