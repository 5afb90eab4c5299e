-- ===== src/Rollback/Laws.antt =====
-- What a rollback does to the containers, on each of its branches.
use freshdock.Prelude.{◌≡◌, ◌⊎◌, inl, inr, true, none, ◌∷◌, Text, ok, err, Result-cases}
use freshdock.Daemon.Types.{DockerError}
use freshdock.Daemon.Calls.{Call, History, Daemon}
use freshdock.Rollback.{RollbackReason, RollbackEvent, rollback}

module _ (name new_id old_name : Text) (h : History) where
  -- The histories after the stop, the removal and the rename back.
  abbrev pub stopped : History
  stopped = Call.stop new_id none none ∷ h

  abbrev pub removed : History
  removed = Call.remove new_id true ∷ stopped

  abbrev pub renamed : History
  renamed = Call.rename_to old_name name ∷ removed

  abbrev pub restored : History
  restored = Call.start name ∷ renamed

module _ (name old_name : Text) (images : Text × Text) (reason : RollbackReason) where
  abbrev pub the_event : RollbackEvent
  the_event = record {
    container = name;
    reason = reason;
    old_image_ref = images.0;
    new_image_ref = images.1;
    restored_from = old_name;
  }

module _ (d : Daemon) (name new_id old_name : Text) (images : Text × Text) (reason : RollbackReason)
    (h : History) where
  -- The daemon did the removal, the rename back and the start.
  abbrev pub AllAnswered : Type 0
  AllAnswered =
      (d.remove (stopped name new_id old_name h) new_id true ≡ ok tt)
      × (d.rename_to (removed name new_id old_name h) old_name name ≡ ok tt)
      × (d.start (renamed name new_id old_name h) name ≡ ok tt)

  -- The first of the calls that fails ends the rollback, or none does.
  abbrev pub Branches : Type 0
  Branches =
      ((e : DockerError) × (d.remove (stopped name new_id old_name h) new_id true ≡ err e)
        × (rollback d name new_id old_name images reason h
            ≡ (err e, removed name new_id old_name h)))
      ⊎ ((e : DockerError) × (d.remove (stopped name new_id old_name h) new_id true ≡ ok tt)
          × (d.rename_to (removed name new_id old_name h) old_name name ≡ err e)
          × (rollback d name new_id old_name images reason h
              ≡ (err e, renamed name new_id old_name h)))
      ⊎ ((e : DockerError) × (d.remove (stopped name new_id old_name h) new_id true ≡ ok tt)
          × (d.rename_to (removed name new_id old_name h) old_name name ≡ ok tt)
          × (d.start (renamed name new_id old_name h) name ≡ err e)
          × (rollback d name new_id old_name images reason h
              ≡ (err e, restored name new_id old_name h)))
      ⊎ (AllAnswered
          × (rollback d name new_id old_name images reason h
              ≡ (ok (the_event name old_name images reason), restored name new_id old_name h)))

  -- A rollback stops the new container, whatever the answer, then removes it by force, renames the
  -- archive back and starts it. The first of these three that fails ends it with that error, and no
  -- later call is made; only if the daemon did all three does it succeed, and its event names the
  -- archive that was restored.
  pub rollback_branches : Branches
  unfolding rollback
  rollback_branches = elim (Result-cases (d.remove (stopped name new_id old_name h) new_id true)) [
    | inr (e, failed) ↦ inl (e, failed, rw (failed, rollback))
    | inl (u, ok₁) ↦
        elim (Result-cases (d.rename_to (removed name new_id old_name h) old_name name)) [
          | inr (e, failed) ↦ inr (inl (e, ok₁, failed, rw (ok₁, failed, rollback)))
          | inl (v, ok₂) ↦ elim (Result-cases (d.start (renamed name new_id old_name h) name)) [
            | inr (e, failed) ↦
                inr (inr (inl (e, ok₁, ok₂, failed, rw (ok₁, ok₂, failed, rollback))))
            | inl (w, ok₃) ↦ inr (inr (inr ((ok₁, ok₂, ok₃), rw (ok₁, ok₂, ok₃, rollback))))
          ]
        ]
  ]
