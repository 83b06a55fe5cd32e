-- ===== src/Decen/Worker/Choice.antt =====
-- src/sched/decentralised/task_migration.c: how a migration is decided. `greater` compares two
-- numbers of type `double`; the random numbers and what the monitoring measures are arguments.
use lpel.Base.{
  ℕ, ◌%◌, ◌<◌, ◌≡◌, refl, arith, ◌⊎◌, inl, inr, Bool, false, ◌&&◌, Option, none, some, Ptr, null,
  ◌==◌, if◌then◌else◌, ==_of_ne, Bool-cases,
}
use lpel.Base.Int.{ℤ, pos, negsuc}
use lpel.Decen.Worker.{Mechanism, mig_none, mig_rand, mig_wait_prop, Migration, pick_target_worker}

-- `lpel_tm_config_t`
pub record TmConfig (D : Type 0) : Type 0 where
  pub threshold : D
  pub num_workers : ℕ
  pub mechanism : Mechanism

-- The callbacks of the monitoring that LpelTaskMigrationInit tests for NULL: those that measure, and
-- whether the four on tasks are all set.
pub record MonCallbacks (D : Type 0) : Type 0 where
  pub get_task_wait_prop : Option (Ptr → D)
  pub get_worker_wait_prop : Option (Ptr → D)
  pub get_global_wait_prop : Option D
  pub worker_most_wait_prop : Option ℤ
  pub task_callbacks : Bool

module _ {D : Type 0} (greater : D → D → Bool) where
  -- `MigrateRandom`: `c` is `rand() / RAND_MAX`.
  unfoldable pub migrate_random : D → TmConfig D → Ptr → Bool
  migrate_random c conf t = greater c conf.threshold

  -- `PickWorkerRandom`: `r` is `rand()`. Without workers the remainder is a fault, here -1.
  unfoldable pub pick_worker_random : ℕ → TmConfig D → ℤ
  pick_worker_random r conf = if conf.num_workers == 0 then negsuc 0 else pos (r % conf.num_workers)

  -- `MigrateTaskWait`: `mon` is the monitoring object of a task.
  unfoldable pub migrate_task_wait : (Ptr → Ptr) → (Ptr → D) → (Ptr → D) → D → Ptr → Bool
  migrate_task_wait mon task_wait worker_wait global_wait t =
      if mon t == null
      then false
      else greater (task_wait (mon t)) (worker_wait (mon t))
        && greater (worker_wait (mon t)) global_wait

  -- The functions that LPEL_MIG_WAIT_PROP sets, when all callbacks are there.
  unfoldable pub wait_functions : (Ptr → Ptr) → MonCallbacks D → Migration → Migration
  unfolding migrate_task_wait
  wait_functions mon cb g = elim cb.get_task_wait_prop [
    | none ↦ g
    | some task_wait ↦ elim cb.get_worker_wait_prop [
      | none ↦ g
      | some worker_wait ↦ elim cb.get_global_wait_prop [
        | none ↦ g
        | some global_wait ↦ elim cb.worker_most_wait_prop [
          | none ↦ g
          | some most ↦
              if cb.task_callbacks
              then record g {
                check_migrate = some (migrate_task_wait mon task_wait worker_wait global_wait);
                pick_worker = some most;
              }
              else g
        ]
      ]
    ]
  ]

  -- `LpelTaskMigrationInit`, when no function has been set before.
  unfoldable pub migration_init : D → ℕ → (Ptr → Ptr) → MonCallbacks D → TmConfig D → Migration
  unfolding migrate_random pick_worker_random wait_functions
  migration_init c r mon cb conf =
      let unset : Migration = record {
        mechanism = conf.mechanism;
        check_migrate = none;
        pick_worker = none;
      } in
      elim conf.mechanism [
        | mig_none ↦ unset
        | mig_rand ↦ record {
          mechanism = mig_rand;
          check_migrate = some (migrate_random c conf);
          pick_worker = some (pick_worker_random r conf);
        }
        | mig_wait_prop ↦ wait_functions mon cb unset
      ]

  -- With random migration and at least one worker, LpelPickTargetWorker gives -1 exactly if the random
  -- number is not above the threshold, and otherwise a worker that exists.
  pub pick_target-random :
      (c : D) (r : ℕ) (mon : Ptr → Ptr) (cb : MonCallbacks D) (conf : TmConfig D) (t : Ptr)
      → conf.mechanism ≡ mig_rand
      → 0 < conf.num_workers
      → ((greater c conf.threshold ≡ false)
          × (pick_target_worker (migration_init c r mon cb conf) t ≡ negsuc 0))
        ⊎ ((i : ℕ) × (i < conf.num_workers)
            × (pick_target_worker (migration_init c r mon cb conf) t ≡ pos i))
  unfolding migration_init pick_target_worker
  pick_target-random c r mon cb conf t m n = elim (Bool-cases (greater c conf.threshold)) [
    | inl e ↦ inr (
      r % conf.num_workers,
      grind (arith, n),
      rw (m, e, ==_of_ne conf.num_workers 0 (omega (arith, n))) refl,
    )
    | inr e ↦ inl (e, rw (m, e) refl)
  ]

-- Without the callbacks of the monitoring no task migrates by waiting proportions.
pub pick_target-no_callbacks :
    {D : Type 0} (greater : D → D → Bool) (c : D) (r : ℕ) (mon : Ptr → Ptr) (cb : MonCallbacks D)
    (conf : TmConfig D) (t : Ptr)
    → conf.mechanism ≡ mig_wait_prop
    → cb.get_task_wait_prop ≡ none
    → pick_target_worker (migration_init greater c r mon cb conf) t ≡ negsuc 0
unfolding migration_init pick_target_worker
pick_target-no_callbacks greater c r mon cb conf t m e = rw (m, e) refl
