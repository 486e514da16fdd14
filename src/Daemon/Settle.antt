-- ===== src/Daemon/Settle.antt =====
-- The end of `destroyTaskLocked`: the mark, the release of the address, the deletion of the row.
use stockyard.Base.{
  ◌≡◌, ◌⊎◌, inl, inr, ap, ◌∙◌, not, String, none, some, str_eq, eq_iff, arith, ok, err, Bool-cases,
  Result-cases,
}
use stockyard.Daemon.World.{Task, Error, Call, Env, World, M, check_ctx, ◌>>◌}
use stockyard.Daemon.State.{cleanup_pending, find_task, delete_task, mark_task_cleanup_pending}
use stockyard.Daemon.Tasks.{mark_pending, release_task_ip, let_go, settle}
use stockyard.Daemon.Keeps.{Keeps, Closed, then-Keeps, when-Keeps, check_ctx-Keeps}
use stockyard.Daemon.TearDown.{Past, Past-Closed}
use stockyard.Daemon.Closing.{
  allocation_of, pending, SameOthers, Retained, mark-cases, delete-cases, release-cases,
  others-Keeps-mark, others-Keeps-release, others-Keeps-delete, others-Closed,
}

module _ (env : Env) (id : String) (task : Task) where
  abbrev marking : M (Unit {0})
  marking = mark_task_cleanup_pending env id >> check_ctx env

  mark_pending-Keeps {ℓ} :
      (P : World → Type ℓ)
      → Closed P
      → Keeps P (mark_task_cleanup_pending env id)
      → Keeps P (mark_pending env id task)
  unfolding mark_pending
  mark_pending-Keeps P closed km = when-Keeps P (not (str_eq task.status cleanup_pending)) marking (
      then-Keeps P (mark_task_cleanup_pending env id) (check_ctx env) km
        (check_ctx-Keeps P closed env))

  let_go-Keeps {ℓ} :
      (P : World → Type ℓ)
      → Closed P
      → Keeps P (mark_task_cleanup_pending env id)
      → Keeps P (release_task_ip env id)
      → Keeps P (let_go env id task)
  unfolding let_go
  let_go-Keeps P closed km kr =
      then-Keeps P (mark_pending env id task) (release_task_ip env id >> check_ctx env)
        (mark_pending-Keeps P closed km)
        (then-Keeps P (release_task_ip env id) (check_ctx env) kr (check_ctx-Keeps P closed env))

  pub settle-others : (v : World) → Keeps (SameOthers id v) (settle env id task)
  unfolding settle
  settle-others v =
      then-Keeps (SameOthers id v) (let_go env id task) (delete_task env id)
        (let_go-Keeps (SameOthers id v) (others-Closed env id v) (others-Keeps-mark env id v)
          (others-Keeps-release env id v))
        (others-Keeps-delete env id v)

  Retained-mark : Keeps (Retained id task) (mark_task_cleanup_pending env id)
  Retained-mark w h = elim (mark-cases env id w).1 [
    | inl (same, _) ↦ ground arith
    | inr (_, rows) ↦ ground (arith, rows id, eq_iff id id)
  ]

  Retained-release : Keeps (Retained id task) (release_task_ip env id)
  Retained-release w h = let c = release-cases env id w in ground (arith, c.0)

  -- On an error the row is there still.
  pub settle-Retained :
      (w : World) {e : Error}
      → Retained id task w
      → (settle env id task w).0 ≡ err e
      → Retained id task (settle env id task w).1
  unfolding settle
  settle-Retained w h failed =
      let w₁ = (let_go env id task w).1 in
      let before =
        let_go-Keeps (Retained id task) (λ c v p. p) Retained-mark Retained-release w h in
      elim (Result-cases (let_go env id task w).0) [
        | inr (x, q) ↦ ground arith
        | inl (_, q) ↦ elim (delete-cases env id w₁).1 [
          | inl (same, _) ↦ ground arith
          | inr (fine, _) ↦ ground arith
        ]
      ]

  let_go-freed :
      (w : World)
      → (let_go env id task w).0 ≡ ok tt
      → allocation_of id (let_go env id task w).1 ≡ none
  unfolding let_go
  let_go-freed w h = ground (arith, release-cases env id (mark_pending env id task w).1)

  pending_self : task.status ≡ cleanup_pending → task ≡ pending task
  pending_self e = ap (λ s. record task { status = s }) e

  -- Where `mark_pending` returns no error, the row is marked.
  mark_pending-done :
      (w : World)
      → find_task id w.tasks ≡ some task
      → ((mark_pending env id task w).1.pool ≡ w.pool)
        × ((mark_pending env id task w).0 ≡ ok tt
            → find_task id (mark_pending env id task w).1.tasks ≡ some (pending task))
  unfolding mark_pending
  mark_pending-done w h = elim (Bool-cases (str_eq task.status cleanup_pending)) [
    | inl e ↦ (
      ground arith,
      λ _. rw e (h ∙ ap some (pending_self ((eq_iff task.status cleanup_pending).0 e))),
    )
    | inr e ↦ elim (mark-cases env id w).1 [
      | inl (same, (x, failed)) ↦ (ground (arith, mark-cases env id w), λ q. ground arith)
      | inr (fine, rows) ↦
          (ground (arith, mark-cases env id w), λ q. ground (arith, rows id, eq_iff id id))
    ]
  ]

  abbrev Settled : World → Type 0
  Settled v = (find_task id v.tasks ≡ none) × (allocation_of id v ≡ none)

  -- With no error the row is gone, and the pool holds no address for the task.
  pub settle-Settled :
      (w : World) → (settle env id task w).0 ≡ ok tt → Settled (settle env id task w).1
  unfolding settle
  settle-Settled w h =
      let w₁ = (let_go env id task w).1 in
      elim (Result-cases (let_go env id task w).0) [
        | inr (x, q) ↦ ground arith
        | inl (_, q) ↦ elim (delete-cases env id w₁).1 [
          | inl (same, (x, failed)) ↦ ground arith
          | inr (_, rows) ↦
              ground (arith, rows id, eq_iff id id, delete-cases env id w₁, let_go-freed w)
        ]
      ]

  abbrev Guarded : World → World → Type 0
  Guarded v w = (w.pool ≡ v.pool) ⊎ (find_task id w.tasks ≡ some (pending task))

  -- The pool changes only once the row is marked.
  pub let_go-Guarded :
      (w : World) → find_task id w.tasks ≡ some task → Guarded w (let_go env id task w).1
  unfolding let_go
  let_go-Guarded w h =
      let w₁ = (mark_pending env id task w).1 in
      let c = release-cases env id w₁ in ground (arith, mark_pending-done w h, c.0, c.2)

  -- The pool changes only once the row is marked; the deletion of the row comes last.
  pub settle-guarded :
      (w : World)
      → find_task id w.tasks ≡ some task
      → let v = (settle env id task w).1 in
        (v.pool ≡ w.pool)
        ⊎ (find_task id v.tasks ≡ none)
        ⊎ (find_task id v.tasks ≡ some (pending task))
  unfolding settle
  settle-guarded w h =
      let w₁ = (let_go env id task w).1 in
      elim (Result-cases (let_go env id task w).0) [
        | inr (x, q) ↦ ground (arith, let_go-Guarded w h)
        | inl (_, q) ↦ elim (delete-cases env id w₁).1 [
          | inl (same, (x, failed)) ↦ ground (arith, let_go-Guarded w h, delete-cases env id w₁)
          | inr (_, rows) ↦ ground (arith, rows id, eq_iff id id)
        ]
      ]

  mark-Past : (c : Call) → Keeps (Past env id task c) (mark_task_cleanup_pending env id)
  unfolding mark_task_cleanup_pending
  mark-Past c w h = ground arith

  release-Past : (c : Call) → Keeps (Past env id task c) (release_task_ip env id)
  unfolding release_task_ip
  release-Past c w h = ground arith

  delete-Past : (c : Call) → Keeps (Past env id task c) (delete_task env id)
  unfolding delete_task
  delete-Past c w h = ground arith

  pub settle-Past : (c : Call) → Keeps (Past env id task c) (settle env id task)
  unfolding settle
  settle-Past c =
      then-Keeps (Past env id task c) (let_go env id task) (delete_task env id)
        (let_go-Keeps (Past env id task c) (Past-Closed env id task c) (mark-Past c)
          (release-Past c))
        (delete-Past c)
