-- ===== src/Daemon/Images.antt =====
-- The table `images` of pkg/daemon/state.go: `name` is its primary key and `dataset` is unique.
pub mod Distinct
use Prim.Native.String.{compare}
use Prim.Native.Nat.{Ordering}
use stockyard.Base.{
  ℕ, ◌≡◌, refl, ◌⊎◌, inl, inr, Bool, true, false, ◌||◌, String, Option, none, some, List, [], ◌∷◌,
  ok, err, str_eq, eq_iff, arith, if◌then◌else◌, Option-cases, Bool-cases, subst, sym,
}
use stockyard.Daemon.World.{
  ImageRecord, Error, other, insert_image, select_image, select_images, write_image,
  delete_image_row, Env, World, M, ◌>>◌, call,
}

-- `WHERE name = ?`
unfoldable pub find_image : String → List ImageRecord → Option ImageRecord
find_image name [] = none
find_image name (r ∷ rs) = if str_eq r.name name then some r else find_image name rs

-- `WHERE dataset = ?`
unfoldable pub find_dataset : String → List ImageRecord → Option ImageRecord
find_dataset dataset [] = none
find_dataset dataset (r ∷ rs) = if str_eq r.dataset dataset then some r else find_dataset dataset rs

abbrev pub is_found : Option ImageRecord → Bool
is_found none = false
is_found (some r) = true

unfoldable pub resize_rows : String → ℕ → List ImageRecord → List ImageRecord
resize_rows name size [] = []
resize_rows name size (r ∷ rs) =
    let rest = resize_rows name size rs in
    if str_eq r.name name then record r { size_bytes = size } ∷ rest else r ∷ rest

unfoldable pub delete_image_rows : String → List ImageRecord → List ImageRecord
delete_image_rows name [] = []
delete_image_rows name (r ∷ rs) =
    let rest = delete_image_rows name rs in if str_eq r.name name then rest else r ∷ rest

-- `ORDER BY name`
unfoldable pub insert_by_name : ImageRecord → List ImageRecord → List ImageRecord
insert_by_name r [] = r ∷ []
insert_by_name r (s ∷ ss) = elim (compare s.name r.name) [
  | Ordering.lt ↦ s ∷ insert_by_name r ss
  | _ ↦ r ∷ s ∷ ss
]

unfoldable pub by_name : List ImageRecord → List ImageRecord
by_name [] = []
by_name (r ∷ rs) = insert_by_name r (by_name rs)

module _ (env : Env) where
  unfoldable pub create_image : ImageRecord → M (Unit {0})
  create_image rec = do
    call env (insert_image rec.name)
    λ w.
        if is_found (find_image rec.name w.images) || is_found (find_dataset rec.dataset w.images)
        then (err (other "failed to create image"), w)
        else (ok tt, record w { images = rec ∷ w.images })

  unfoldable pub get_image : String → M ImageRecord
  get_image name = do
    call env (select_image)
    λ w. elim (find_image name w.images) [
      | none ↦ (err (other "image not found"), w)
      | some r ↦ (ok r, w)
    ]

  unfoldable pub get_image_by_dataset : String → M ImageRecord
  get_image_by_dataset dataset = do
    call env (select_image)
    λ w. elim (find_dataset dataset w.images) [
      | none ↦ (err (other "image with dataset not found"), w)
      | some r ↦ (ok r, w)
    ]

  unfoldable pub list_images : M (List ImageRecord)
  list_images = do call env select_images; λ w. (ok (by_name w.images), w)

  unfoldable pub update_image_size : String → ℕ → M (Unit {0})
  update_image_size name size = do
    call env (write_image name)
    λ w. (ok tt, record w { images = resize_rows name size w.images })

  unfoldable pub delete_image : String → M (Unit {0})
  delete_image name = do
    call env (delete_image_row name)
    λ w.
        if is_found (find_image name w.images)
        then (ok tt, record w { images = delete_image_rows name w.images })
        else (err (other "image not found"), w)

pub data ImageCall : Type 0 where
  creates : ImageRecord → ImageCall
  resizes : String → ℕ → ImageCall
  deletes : String → ImageCall

unfoldable pub image_step : Env → ImageCall → World → World
image_step env (creates rec) w = (create_image env rec w).1
image_step env (resizes name size) w = (update_image_size env name size w).1
image_step env (deletes name) w = (delete_image env name w).1

unfoldable pub image_run : Env → List ImageCall → World → World
image_run env [] w = w
image_run env (c ∷ cs) w = image_run env cs (image_step env c w)
