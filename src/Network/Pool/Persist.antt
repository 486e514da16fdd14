-- ===== src/Network/Pool/Persist.antt =====
-- What `persistLocked` does to the disk on each of its ways out.
use stockyard.Base.{
  ◌≡◌, ◌≢◌, ◌⊎◌, inl, inr, Option-cases, Bool, true, false, String, none, some, Text, Dict, eq_iff,
  arith,
}
use stockyard.Network.Pool.Disk.{
  PersistStep, marshal, mkdir_all, create_temp, write_temp, short_write, sync_temp, close_temp,
  rename, open_dir, sync_dir, remove_temp, Disk, saved, persist_locked,
}

-- A failure after the rename: the new state file is in place already.
abbrev pub AfterRename : PersistStep → Type 0
AfterRename s = (s ≡ open_dir) ⊎ (s ≡ sync_dir)

module _ (path : String) (fails : PersistStep → Bool) (m : Dict Text) (d : Disk) where
  pub persist-saved :
      path ≢ ""
      → (persist_locked path fails m d).0 ≡ none
      → (persist_locked path fails m d).1.state_file ≡ saved m
  unfolding persist_locked
  persist-saved h e = ground (arith, eq_iff path "")

  pub persist-failed :
      {s : PersistStep}
      → (persist_locked path fails m d).0 ≡ some s
      → ((persist_locked path fails m d).1.state_file ≡ d.state_file)
        ⊎ (AfterRename s × ((persist_locked path fails m d).1.state_file ≡ saved m))
  unfolding persist_locked
  persist-failed e = ground arith

  pub persist-no-temp :
      ((persist_locked path fails m d).1.temp_files ≡ d.temp_files) ⊎ (fails remove_temp ≡ true)
  unfolding persist_locked
  persist-no-temp = ground arith

  -- With a path, `persistLocked` that returns no error has put the whole new state in place; with
  -- an error the state file is the old one, or it is the new one and the step that failed is the
  -- opening or the syncing of the directory. No temporary file is left behind in either case,
  -- unless its removal failed.
  pub persist_locked_lem :
      path ≢ ""
      → (((persist_locked path fails m d).0 ≡ none)
            × ((persist_locked path fails m d).1.state_file ≡ saved m)
          ⊎ ((s : PersistStep) × ((persist_locked path fails m d).0 ≡ some s)
              × (((persist_locked path fails m d).1.state_file ≡ d.state_file)
                  ⊎ (AfterRename s × ((persist_locked path fails m d).1.state_file ≡ saved m)))))
        × (((persist_locked path fails m d).1.temp_files ≡ d.temp_files)
            ⊎ (fails remove_temp ≡ true))
  persist_locked_lem h = (
    elim (Option-cases (persist_locked path fails m d).0) [
      | inl e ↦ inl (e, persist-saved h e)
      | inr (s, e) ↦ inr (s, e, persist-failed e)
    ],
    persist-no-temp,
  )

  -- With no path nothing is written.
  pub persist_locked_nowhere : path ≡ "" → persist_locked path fails m d ≡ (none, d)
  unfolding persist_locked
  persist_locked_nowhere h = ground (arith, eq_iff path "")

-- No step of a write fails.
abbrev pub Calm : (PersistStep → Bool) → Type 0
Calm fails = (s : PersistStep) → fails s ≡ false

module _ (path : String) (fails : PersistStep → Bool) (m : Dict Text) (d : Disk)
    (calm : Calm fails) where
  pub persist_calm : (persist_locked path fails m d).0 ≡ none
  unfolding persist_locked
  persist_calm = ground (
    arith,
    calm marshal,
    calm mkdir_all,
    calm create_temp,
    calm write_temp,
    calm short_write,
    calm sync_temp,
    calm close_temp,
    calm rename,
    calm open_dir,
    calm sync_dir,
  )
