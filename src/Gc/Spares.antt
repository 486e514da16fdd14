-- ===== src/Gc/Spares.antt =====
-- What the garbage collector of cmd/stockyard/gc.go spares.
use stockyard.Base.{
  ◌≡◌, inl, inr, refl, Bool, true, false, not, ◌&&◌, ◌||◌, some, List, [], ◌∷◌, ◌++◌, Text, codes,
  text_eq, text_eq_iff, TextMap, find_text, trim_space, if◌then◌else◌, arith, Bool-cases,
  Option-cases,
}
use stockyard.Gc.Collect.{
  CleanupItem, stopped_task, vm_dir, zfs_vm, zfs_workspace, tap, VmDir, Host, Flags, join, is_known,
  is_among, find_stopped, find_orphan_vm_dirs, dataset_id, find_orphan_datasets_in, tap_of_line,
  has_owner, find_orphan_taps, find_resources, build_tap_to_task_map, or_empty,
}

module _ (host : Host) (task_ids : TextMap) where
  abbrev pub taps : TextMap
  taps = build_tap_to_task_map (or_empty host.vm_dirs) []

  -- What may be collected: a task that the daemon lists as stopped, and what belongs to none of its
  -- tasks.
  abbrev pub MayGo : CleanupItem → Type 0
  MayGo item = elim item.kind [
    | stopped_task ↦ find_text item.id task_ids ≡ some (codes "stopped")
    | vm_dir ↦ (is_known item.id task_ids ≡ false) × (item.path ≡ join host.vm_path item.id)
    | zfs_vm ↦ is_known (dataset_id item.path) task_ids ≡ false
    | zfs_workspace ↦ is_known (dataset_id item.path) task_ids ≡ false
    | tap ↦ has_owner task_ids taps item.id ≡ false
  ]

  abbrev pub AllMayGo : List CleanupItem → Type 0
  AllMayGo [] = Unit {0}
  AllMayGo (item ∷ items) = MayGo item × AllMayGo items

  append-AllMayGo : (xs ys : List CleanupItem) → AllMayGo xs → AllMayGo ys → AllMayGo (xs ++ ys)
  append-AllMayGo [] ys h k = k
  append-AllMayGo (x ∷ xs) ys h k = (h.0, append-AllMayGo xs ys h.1 k)

  vm_dirs-AllMayGo : (ds : List VmDir) → AllMayGo (find_orphan_vm_dirs host.vm_path task_ids ds)
  unfolding find_orphan_vm_dirs
  vm_dirs-AllMayGo [] = tt
  vm_dirs-AllMayGo (d ∷ ds) =
      elim (Bool-cases (not d.is_dir || is_known d.name task_ids || d.is_running)) [
        | inl e ↦ rw (e, find_orphan_vm_dirs) (vm_dirs-AllMayGo ds)
        | inr e ↦ rw (e, find_orphan_vm_dirs) ((ground (arith, e), refl), vm_dirs-AllMayGo ds)
      ]

  taps-AllMayGo : (lines : List Text) → AllMayGo (find_orphan_taps task_ids taps lines)
  unfolding find_orphan_taps
  taps-AllMayGo [] = tt
  taps-AllMayGo (line ∷ lines) = elim (Option-cases (tap_of_line line)) [
    | inl e ↦ rw (e, find_orphan_taps) (taps-AllMayGo lines)
    | inr (name, e) ↦ elim (Bool-cases (has_owner task_ids taps name)) [
      | inl q ↦ rw (e, find_orphan_taps, q) (taps-AllMayGo lines)
      | inr q ↦ rw (e, find_orphan_taps, q) (q, taps-AllMayGo lines)
    ]
  ]

  vm_datasets-AllMayGo :
      (base : Text) (lines : List Text)
      → AllMayGo (find_orphan_datasets_in base zfs_vm task_ids lines)
  unfolding find_orphan_datasets_in
  vm_datasets-AllMayGo base [] = tt
  vm_datasets-AllMayGo base (line ∷ lines) =
      let name = trim_space line in
      elim (Bool-cases (text_eq name base || is_known (dataset_id name) task_ids)) [
        | inl e ↦ rw (e, find_orphan_datasets_in) (vm_datasets-AllMayGo base lines)
        | inr e ↦
            rw (e, find_orphan_datasets_in) (ground (arith, e), vm_datasets-AllMayGo base lines)
      ]

  workspaces-AllMayGo :
      (base : Text) (lines : List Text)
      → AllMayGo (find_orphan_datasets_in base zfs_workspace task_ids lines)
  unfolding find_orphan_datasets_in
  workspaces-AllMayGo base [] = tt
  workspaces-AllMayGo base (line ∷ lines) =
      let name = trim_space line in
      elim (Bool-cases (text_eq name base || is_known (dataset_id name) task_ids)) [
        | inl e ↦ rw (e, find_orphan_datasets_in) (workspaces-AllMayGo base lines)
        | inr e ↦
            rw (e, find_orphan_datasets_in) (ground (arith, e), workspaces-AllMayGo base lines)
      ]

-- The walk of the map meets the last value of each key.
stopped-AllMayGo :
    (host : Host) (task_ids m : TextMap) (seen : List Text)
    → ((id : Text) → is_among id seen ≡ false → find_text id m ≡ find_text id task_ids)
    → AllMayGo host task_ids (find_stopped seen m)
unfolding find_stopped find_text is_among
stopped-AllMayGo host task_ids [] seen h = tt
stopped-AllMayGo host task_ids ((id, status) ∷ m) seen h =
    let rest =
      stopped-AllMayGo host task_ids m (id ∷ seen)
        (λ j q. ground (arith, q, h j (ground (arith, q)))) in
    elim (Bool-cases (text_eq status (codes "stopped") && not (is_among id seen))) [
      | inl e ↦
          rw (e, find_stopped)
            (
              ground (
                arith,
                e,
                h id (ground (arith, e)),
                text_eq_iff id id,
                text_eq_iff status (codes "stopped"),
              ),
              rest,
            )
      | inr e ↦ rw (e, find_stopped) rest
    ]

if-AllMayGo :
    (host : Host) (task_ids : TextMap) (b : Bool) (xs : List CleanupItem)
    → AllMayGo host task_ids xs
    → AllMayGo host task_ids (if b then xs else [])
if-AllMayGo host task_ids true xs h = h
if-AllMayGo host task_ids false xs h = tt

-- Whatever is found may be collected.
pub find_resources-AllMayGo :
    (flags : Flags) (host : Host) (task_ids : TextMap)
    → AllMayGo host task_ids (find_resources flags host task_ids)
unfolding find_resources
find_resources-AllMayGo flags host task_ids =
    let dirs = find_orphan_vm_dirs host.vm_path task_ids (or_empty host.vm_dirs) in
    let vms = find_orphan_datasets_in host.vm_base zfs_vm task_ids (or_empty host.vm_datasets) in
    let works =
      find_orphan_datasets_in host.workspace_base zfs_workspace task_ids
        (or_empty host.workspace_datasets) in
    let links = find_orphan_taps task_ids (taps host task_ids) (or_empty host.links) in
    let both = append-AllMayGo host task_ids in
    both (if flags.clean_all then find_stopped [] task_ids else [])
      (if flags.clean_orphans then dirs ++ (vms ++ (works ++ links)) else [])
      (if-AllMayGo host task_ids flags.clean_all (find_stopped [] task_ids)
        (stopped-AllMayGo host task_ids task_ids [] (λ id q. refl)))
      (if-AllMayGo host task_ids flags.clean_orphans (dirs ++ (vms ++ (works ++ links))) (
        both dirs (vms ++ (works ++ links)) (vm_dirs-AllMayGo host task_ids (or_empty host.vm_dirs))
          (both vms (works ++ links)
            (vm_datasets-AllMayGo host task_ids host.vm_base (or_empty host.vm_datasets))
            (both works links
              (workspaces-AllMayGo host task_ids host.workspace_base
                (or_empty host.workspace_datasets))
              (taps-AllMayGo host task_ids (or_empty host.links))))))
