-- ===== src/Daemon/Snapshots.antt =====
-- The table `snapshots` of pkg/daemon/state.go.
use stockyard.Base.{String, List, [], ◌∷◌, ◌++◌, ok, str_eq, ltb, if◌then◌else◌}
use stockyard.Daemon.World.{SnapshotRow, insert_snapshot, select_snapshots, Env, M, ◌>>◌, call}

-- `WHERE task_id = ?`
unfoldable pub of_task : String → List SnapshotRow → List SnapshotRow
of_task id [] = []
of_task id (r ∷ rs) = let rest = of_task id rs in if str_eq r.task_id id then r ∷ rest else rest

-- `ORDER BY created_at DESC`
unfoldable pub insert_newest : SnapshotRow → List SnapshotRow → List SnapshotRow
insert_newest r [] = r ∷ []
insert_newest r (s ∷ ss) =
    if ltb r.created_at s.created_at then s ∷ insert_newest r ss else r ∷ s ∷ ss

unfoldable pub newest_first : List SnapshotRow → List SnapshotRow
newest_first [] = []
newest_first (r ∷ rs) = insert_newest r (newest_first rs)

module _ (env : Env) where
  unfoldable pub record_snapshot : String → String → M (Unit {0})
  record_snapshot id name = do
    call env (insert_snapshot id)
    λ w. (
      ok tt,
      record w {
        snapshots =
            w.snapshots
            ++ (record { task_id = id; snapshot_name = name; created_at = env.now w.history } ∷ []);
      },
    )

  unfoldable pub list_task_snapshots : String → M (List SnapshotRow)
  list_task_snapshots id = do
    call env select_snapshots
    λ w. (ok (newest_first (of_task id w.snapshots)), w)
