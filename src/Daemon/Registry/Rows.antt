-- ===== src/Daemon/Registry/Rows.antt =====
-- What the image registry's methods leave in the table `images`.
use stockyard.Base.{
  ◌≡◌, ◌≢◌, inl, inr, refl, ap, ◌∙◌, String, List, [], ◌∷◌, Result-cases, Bool-cases, arith, str_eq,
  eq_iff,
}
use stockyard.Daemon.World.{check_ctx, Task, ImageRecord, Env, World, ◌>>◌}
use stockyard.Daemon.State.{
  get_task, mark_task_cleanup_pending, delete_task, write_rows, list_tasks,
}
use stockyard.Daemon.Keeps.{Keeps, Closed, bind-Keeps, then-Keeps, check_ctx-Keeps}
use stockyard.Daemon.TearDown.{tear_down-Keeps}
use stockyard.Daemon.Tasks.{
  settle, let_go, mark_pending, release_task_ip, tear_down, destroy_task_locked, destroy_each,
  destroy_tasks_by_image,
}
use stockyard.Daemon.Images.{find_image, delete_image_rows, create_image, delete_image}

-- The table is as in `v`.
abbrev SameImages : World → World → Type 0
SameImages v w = w.images ≡ v.images

-- The rows of all other images are as in `v`.
abbrev pub OtherImages : String → World → World → Type 0
OtherImages name v w = (m : String) → name ≢ m → find_image m w.images ≡ find_image m v.images

find_image-delete :
    (name m : String) (rs : List ImageRecord)
    → name ≢ m
    → find_image m (delete_image_rows name rs) ≡ find_image m rs
unfolding find_image delete_image_rows
find_image-delete name m [] ne = refl
find_image-delete name m (r ∷ rs) ne =
    ground (arith, find_image-delete name m rs ne, eq_iff r.name name, eq_iff r.name m)

module _ (env : Env) where
  settle-images :
      (id : String) (task : Task) (w : World) → (settle env id task w).1.images ≡ w.images
  unfolding settle let_go mark_pending release_task_ip mark_task_cleanup_pending delete_task
      write_rows
  settle-images id task w = ground arith

  module _ (v : World) where
    images-Closed : Closed (SameImages v)
    images-Closed c w h = h

    get_task-images : (id : String) → Keeps (SameImages v) (get_task env id)
    unfolding get_task
    get_task-images id w h = ground arith

    destroyed-images :
        (id : String) (t : Task) → Keeps (SameImages v) (tear_down env id t >> settle env id t)
    destroyed-images id t =
        then-Keeps (SameImages v) (tear_down env id t) (settle env id t)
          (tear_down-Keeps (SameImages v) images-Closed env id t) (λ w h. settle-images id t w ∙ h)

    destroy_task_locked-images : (id : String) → Keeps (SameImages v) (destroy_task_locked env id)
    unfolding destroy_task_locked
    destroy_task_locked-images id w h =
        let w₁ = (check_ctx env w).1 in
        let w₂ = (get_task env id w₁).1 in
        let kept : SameImages v w₁ = check_ctx-Keeps (SameImages v) images-Closed env w h in
        let read : SameImages v w₂ = get_task-images id w₁ kept in
        elim (Result-cases (check_ctx env w).0) [
          | inr (x, e) ↦ ground arith
          | inl (_, e) ↦ elim (Result-cases (get_task env id w₁).0) [
            | inr (x, q) ↦ ground arith
            | inl (t, q) ↦ ground (arith, destroyed-images id t w₂ read)
          ]
        ]

    list_tasks-images : Keeps (SameImages v) (list_tasks env "")
    unfolding list_tasks
    list_tasks-images w h = ground arith

    destroy_each-images :
        (image : String) (ts : List Task) → Keeps (SameImages v) (destroy_each env image ts)
    unfolding destroy_each
    destroy_each-images image [] w h = h
    destroy_each-images image (t ∷ ts) w h = elim (Bool-cases (str_eq t.image image)) [
      | inl e ↦
          rw (e, destroy_each)
            (then-Keeps (SameImages v) (destroy_task_locked env t.id) (destroy_each env image ts)
              (destroy_task_locked-images t.id) (destroy_each-images image ts) w h)
      | inr e ↦ rw (e, destroy_each) (destroy_each-images image ts w h)
    ]

    destroy_tasks_by_image-images :
        (image : String) → Keeps (SameImages v) (destroy_tasks_by_image env image)
    unfolding destroy_tasks_by_image
    destroy_tasks_by_image-images image =
        bind-Keeps (SameImages v) (list_tasks env "") (destroy_each env image) (list_tasks-images)
          (destroy_each-images image)

  module _ (name : String) (v : World) where
    pub others-Closed : Closed (OtherImages name v)
    others-Closed c w h = h

    pub others-delete : Keeps (OtherImages name v) (delete_image env name)
    unfolding delete_image
    others-delete w h m ne = ground (arith, h m ne, find_image-delete name m w.images ne)

    pub others-create :
        (rec : ImageRecord) → rec.name ≡ name → Keeps (OtherImages name v) (create_image env rec)
    unfolding create_image find_image
    others-create rec same w h m ne = ground (arith, h m ne, eq_iff rec.name m)

    pub destroy_tasks-others :
        (image : String) → Keeps (OtherImages name v) (destroy_tasks_by_image env image)
    destroy_tasks-others image w h m ne =
        ap (find_image m) (destroy_tasks_by_image-images w image w refl) ∙ h m ne
