-- ===== src/Firecracker/Delete/Verified.antt =====
-- What a deletion that returns no error has looked at.
use stockyard.Base.{
  ◌≡◌, ap, sym, ◌∙◌, inl, inr, Text, codes, true, false, ◌⊎◌, if◌then◌else◌, String, none, some,
  List, ◌∷◌, ok, arith, Option-cases, Bool-cases, Result-cases,
}
use stockyard.Base.Steps.{when, ignore}
use stockyard.Firecracker.Host.{
  Call, stat, list_interfaces, archive, destroy_rootfs, rootfs_exists, remove_all, Fault,
  is_not_exist, Env, Client, call, check_context,
}
use stockyard.Firecracker.Network.{tap_name_for_vm, delete_tap}
use stockyard.Firecracker.Processes.{find_process_by_socket, require_process_absent}
use stockyard.Firecracker.Delete.{
  default_namespace, mem_text, vm_dir, api_socket_path, vm_dataset_path, path_exists, tap_exists,
  remove_tap, remove_rootfs, remove_directory, end_process, remove_resources, delete_vm_at,
  delete_vm,
}

-- The last calls of a deletion, newest last: the tap was not among the interfaces; the clone was
-- destroyed and was not there; the directory was removed and was not there; and no process owned
-- the socket of the VM.
pub record Verified (env : Env) (id : String) (dir : Text) (v : Client) : Type 0 where
  pub after_tap : List Call
  pub after_rootfs : List Call
  pub before_search : Client
  pub missing : Fault
  pub archived : List Call
  pub tap_read : env.outcome (list_interfaces ∷ after_tap) ≡ none
  pub tap_gone : mem_text (tap_name_for_vm id) (env.texts (list_interfaces ∷ after_tap)) ≡ false
  pub archive_only : archived ≡ (
      if env.has_archive
      then archive dir id (codes "delete_vm") ∷ list_interfaces ∷ after_tap
      else list_interfaces ∷ after_tap)
  pub rootfs_gone :
      ((env.has_zfs ≡ true)
        × (after_rootfs
            ≡ rootfs_exists (vm_dataset_path env id)
              ∷ destroy_rootfs (vm_dataset_path env id)
              ∷ archived)
        × (env.outcome after_rootfs ≡ none)
        × (env.yes after_rootfs ≡ false))
      ⊎ ((env.has_zfs ≡ false) × (after_rootfs ≡ archived))
  pub directory_looked : before_search.history ≡ stat dir ∷ remove_all dir ∷ after_rootfs
  pub directory_read : env.outcome before_search.history ≡ some missing
  pub directory_gone : is_not_exist missing ≡ true
  pub process_gone :
      find_process_by_socket env (api_socket_path env dir) before_search ≡ (ok none, v)

module _ (env : Env) where
  remove_tap-ok :
      (name : Text) (w : Client)
      → (remove_tap env name w).0 ≡ ok tt
      → let h = list_interfaces ∷ (delete_tap env name w).1.history in
        ((remove_tap env name w).1.history ≡ h)
        × (env.outcome h ≡ none)
        × (mem_text name (env.texts h) ≡ false)
  unfolding remove_tap tap_exists
  remove_tap-ok name w e = elim (Result-cases (delete_tap env name w).0) [
    | inl (_, q) ↦ ground arith
    | inr (x, q) ↦ ground arith
  ]

  remove_rootfs-ok :
      (dataset : Text) (w : Client)
      → (remove_rootfs env dataset w).0 ≡ ok tt
      → let h = rootfs_exists dataset ∷ destroy_rootfs dataset ∷ w.history in
        ((remove_rootfs env dataset w).1.history ≡ h) × (env.outcome h ≡ none) × (env.yes h ≡ false)
  unfolding remove_rootfs
  remove_rootfs-ok dataset w e = ground arith

  remove_directory-ok :
      (dir : Text) (w : Client)
      → (remove_directory env dir w).0 ≡ ok tt
      → let h = stat dir ∷ remove_all dir ∷ w.history in
        ((remove_directory env dir w).1.history ≡ h)
        × ((x : Fault) × (env.outcome h ≡ some x) × (is_not_exist x ≡ true))
  unfolding remove_directory path_exists
  remove_directory-ok dir w e =
      let h = stat dir ∷ remove_all dir ∷ w.history in
      elim (Option-cases (env.outcome h)) [
        | inl q ↦ ground arith
        | inr (x, q) ↦ (ground arith, (x, q, ground arith))
      ]

  require_process_absent-ok :
      (path : Text) (w : Client)
      → (require_process_absent env path w).0 ≡ ok tt
      → find_process_by_socket env path w ≡ (ok none, (require_process_absent env path w).1)
  unfolding require_process_absent
  require_process_absent-ok path w e = elim (Result-cases (find_process_by_socket env path w).0) [
    | inr (x, q) ↦ ground arith
    | inl (found, q) ↦ elim (Option-cases found) [
      | inl n ↦ ground arith
      | inr (pid, n) ↦ ground arith
    ]
  ]

  module _ (id : String) (dir : Text) where
    abbrev archiving : Client → Client
    archiving w =
        (when env.has_archive (ignore (call env (archive dir id (codes "delete_vm")))) w).1

    abbrev archived_to : List Call → List Call
    archived_to h = if env.has_archive then archive dir id (codes "delete_vm") ∷ h else h

    archiving-history : (w : Client) → (archiving w).history ≡ archived_to w.history
    archiving-history w = ground arith

    -- What the resources' removal has looked at, up to the directory.
    remove_resources-ok :
        (w : Client)
        → (remove_resources env id dir w).0 ≡ ok tt
        → let u = (remove_tap env (tap_name_for_vm id) w).1 in
          let t = archiving u in
          let r = (when env.has_zfs (remove_rootfs env (vm_dataset_path env id)) t).1 in
          ((remove_tap env (tap_name_for_vm id) w).0 ≡ ok tt)
          × ((when env.has_zfs (remove_rootfs env (vm_dataset_path env id)) t).0 ≡ ok tt)
          × (remove_directory env dir r ≡ remove_resources env id dir w)
    unfolding remove_resources
    remove_resources-ok w e =
        let u = (remove_tap env (tap_name_for_vm id) w).1 in
        elim (Result-cases (remove_tap env (tap_name_for_vm id) w).0) [
          | inr (x, q) ↦ ground arith
          | inl (_, q) ↦
              elim (Result-cases
                (when env.has_zfs (remove_rootfs env (vm_dataset_path env id)) (archiving u)).0) [
                  | inr (x, s) ↦ ground arith
                  | inl (_, s) ↦ (ground arith, ground arith, ground arith)
                ]
        ]

    -- The clone.
    rootfs-cases :
        (t : Client)
        → (when env.has_zfs (remove_rootfs env (vm_dataset_path env id)) t).0 ≡ ok tt
        → let h = (when env.has_zfs (remove_rootfs env (vm_dataset_path env id)) t).1.history in
          ((env.has_zfs ≡ true)
            × (h
                ≡ rootfs_exists (vm_dataset_path env id)
                  ∷ destroy_rootfs (vm_dataset_path env id)
                  ∷ t.history)
            × (env.outcome h ≡ none)
            × (env.yes h ≡ false))
          ⊎ ((env.has_zfs ≡ false) × (h ≡ t.history))
    rootfs-cases t e = elim (Bool-cases env.has_zfs) [
      | inr q ↦ inr (q, ground arith)
      | inl q ↦
          let d = remove_rootfs-ok (vm_dataset_path env id) t (ground arith) in
          inl (q, ground (arith, d), ground (arith, d), ground (arith, d))
    ]

    abbrev checked : Client → Client
    checked w = (path_exists env dir (call env check_context w).1).1

    abbrev ended : Client → Client
    ended w = (end_process env id (api_socket_path env dir) (checked w)).1

    delete-stages :
        (w : Client)
        → (delete_vm_at env id dir w).0 ≡ ok tt
        → ((remove_resources env id dir (ended w)).0 ≡ ok tt)
          × (require_process_absent env
                (api_socket_path env dir)
                (remove_resources env id dir (ended w)).1
              ≡ delete_vm_at env id dir w)
    unfolding delete_vm_at
    delete-stages w e = elim (Option-cases (env.outcome (check_context ∷ w.history))) [
      | inr (x, q) ↦ ground arith
      | inl q ↦ elim (Result-cases (path_exists env dir (call env check_context w).1).0) [
        | inr (x, s) ↦ ground arith
        | inl (there, s) ↦
            elim (Result-cases (end_process env id (api_socket_path env dir) (checked w)).0) [
              | inr (x, t) ↦ ground arith
              | inl (_, t) ↦ elim (Result-cases (remove_resources env id dir (ended w)).0) [
                | inr (x, u) ↦ ground arith
                | inl (_, u) ↦ (u, ground arith)
              ]
            ]
      ]
    ]

    -- A deletion that returns no error has seen, in this order and as its last calls, the tap,
    -- the clone, the directory and the process of the VM to be absent.
    delete_vm_at-Verified :
        (w : Client)
        → (delete_vm_at env id dir w).0 ≡ ok tt
        → Verified env id dir (delete_vm_at env id dir w).1
    delete_vm_at-Verified w e =
        let (removed, run) = delete-stages w e in
        let before = (remove_resources env id dir (ended w)).1 in
        let searched =
          require_process_absent-ok (api_socket_path env dir) before (ap (λ x. x.0) run ∙ e) in
        let (tap_ok, rootfs_ok, finish) = remove_resources-ok (ended w) removed in
        let u = (remove_tap env (tap_name_for_vm id) (ended w)).1 in
        let r = (when env.has_zfs (remove_rootfs env (vm_dataset_path env id)) (archiving u)).1 in
        let tap = remove_tap-ok (tap_name_for_vm id) (ended w) tap_ok in
        let (looked, (missing, read, gone)) =
          remove_directory-ok dir r (ap (λ x. x.0) finish ∙ removed) in
        let seen = ap (λ x. x.1.history) (sym finish) ∙ looked in
        record {
          after_tap = (delete_tap env (tap_name_for_vm id) (ended w)).1.history;
          after_rootfs = r.history;
          before_search = before;
          missing = missing;
          archived = (archiving u).history;
          tap_read = tap.1;
          tap_gone = tap.2;
          archive_only = archiving-history u ∙ ap (λ h. archived_to h) tap.0;
          rootfs_gone = rootfs-cases (archiving u) rootfs_ok;
          directory_looked = seen;
          directory_read = ap env.outcome seen ∙ read;
          directory_gone = gone;
          process_gone = searched ∙ ap (λ x. (ok none, x.1)) run;
        }

  -- A `DeleteVM` that returns no error has seen, in this order and as its last calls, that the tap is
  -- not among the interfaces, that the clone (with ZFS) and the directory are not there, and that no
  -- process owns the VM's API socket.
  pub delete_vm-Verified :
      (namespace : Text) (id : String) (w : Client)
      → (delete_vm env namespace id w).0 ≡ ok tt
      → Verified env id
          (vm_dir env (default_namespace namespace) id)
          (delete_vm env namespace id w).1
  unfolding delete_vm
  delete_vm-Verified namespace id w e =
      delete_vm_at-Verified id (vm_dir env (default_namespace namespace) id) w e
