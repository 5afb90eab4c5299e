-- ===== src/Scheduler/Summary.antt =====
-- `Verdict` and `RunSummary`: how a due container ended, and the tally of a tick.
use freshdock.Prelude.{ℕ, ◌+◌, Bool, true, false, ◌||◌, Option, none, some, ltb, eqb, if◌then◌else◌}
use freshdock.Labels.Values.{Mode}
use freshdock.Scheduler.{is_cron_mode}

pub data Verdict : Type 0 where
  up_to_date unknown_digest available updated not_updated pinned failed : Verdict

unfoldable pub digest_known : Verdict → Bool
digest_known up_to_date = true
digest_known available = true
digest_known updated = true
digest_known not_updated = true
digest_known unknown_digest = false
digest_known pinned = false
digest_known failed = false

abbrev pub is_unknown : Verdict → Bool
is_unknown unknown_digest = true
is_unknown _ = false

pub record RunSummary : Type 0 where
  pub scheduled : Bool
  pub checked : ℕ
  pub up_to_date : ℕ
  pub unknown_digest : ℕ
  pub available : ℕ
  pub updated : ℕ
  pub not_updated : ℕ
  pub pinned : ℕ
  pub failed : ℕ

-- `RunSummary::default()`
abbrev pub empty_summary : RunSummary
empty_summary = record {
  scheduled = false;
  checked = 0;
  up_to_date = 0;
  unknown_digest = 0;
  available = 0;
  updated = 0;
  not_updated = 0;
  pinned = 0;
  failed = 0;
}

abbrev pub count : Verdict → RunSummary → RunSummary
count up_to_date s = record s { up_to_date = s.up_to_date + 1 }
count unknown_digest s = record s { unknown_digest = s.unknown_digest + 1 }
count available s = record s { available = s.available + 1 }
count updated s = record s { updated = s.updated + 1 }
count not_updated s = record s { not_updated = s.not_updated + 1 }
count pinned s = record s { pinned = s.pinned + 1 }
count failed s = record s { failed = s.failed + 1 }

-- `RunSummary::record`
unfoldable pub record_verdict : Verdict → Mode → RunSummary → RunSummary
record_verdict verdict mode s =
    let counted = count verdict s in
    record counted { scheduled = s.scheduled || is_cron_mode mode; checked = counted.checked + 1 }

pub data Level : Type 0 where
  info debug : Level

-- The level that the summary of a tick is logged at, if it is.
unfoldable pub log_level : RunSummary → Option Level
log_level s =
    if eqb s.checked 0
    then none
    else if s.scheduled || ltb 0 (s.available + s.updated + s.not_updated + s.failed)
    then some info
    else some debug
