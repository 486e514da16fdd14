-- ===== src/Daemon/Images/Distinct.antt =====
-- What the statements on the table `images` do, and that its two unique columns stay unique.
use stockyard.Base.{
  ℕ, ◌≡◌, refl, ◌⊎◌, inl, inr, ◌||◌, String, none, some, List, [], ◌∷◌, ok, err, str_eq, eq_iff,
  arith, Option-cases, Bool-cases, subst, sym,
}
use stockyard.Daemon.World.{
  ImageRecord, Error, other, insert_image, write_image, delete_image_row, Env, World,
}
use stockyard.Daemon.Images.{
  find_image, find_dataset, is_found, resize_rows, delete_image_rows, create_image,
  update_image_size, delete_image, ImageCall, creates, resizes, deletes, image_step, image_run,
}

-- No name and no dataset stands in two rows.
abbrev pub IsDistinct : List ImageRecord → Type 0
IsDistinct [] = Unit
IsDistinct (r ∷ rs) =
    (find_image r.name rs ≡ none) × (find_dataset r.dataset rs ≡ none) × IsDistinct rs

find-resize :
    (n name : String) (size : ℕ) (rs : List ImageRecord)
    → find_image n rs ≡ none
    → find_image n (resize_rows name size rs) ≡ none
unfolding find_image resize_rows
find-resize n name size [] h = refl
find-resize n name size (r ∷ rs) h = ground (arith, find-resize n name size rs)

find_dataset-resize :
    (n name : String) (size : ℕ) (rs : List ImageRecord)
    → find_dataset n rs ≡ none
    → find_dataset n (resize_rows name size rs) ≡ none
unfolding find_dataset resize_rows
find_dataset-resize n name size [] h = refl
find_dataset-resize n name size (r ∷ rs) h = ground (arith, find_dataset-resize n name size rs)

resize-IsDistinct :
    (name : String) (size : ℕ) (rs : List ImageRecord)
    → IsDistinct rs
    → IsDistinct (resize_rows name size rs)
unfolding resize_rows
resize-IsDistinct name size [] d = tt
resize-IsDistinct name size (r ∷ rs) d =
    let rest = resize-IsDistinct name size rs d.2 in
    let a = find-resize r.name name size rs d.0 in
    let b = find_dataset-resize r.dataset name size rs d.1 in
    elim (Bool-cases (str_eq r.name name)) [
      | inl e ↦ rw (e, resize_rows) (a, b, rest)
      | inr e ↦ rw (e, resize_rows) (a, b, rest)
    ]

find-delete :
    (n name : String) (rs : List ImageRecord)
    → find_image n rs ≡ none
    → find_image n (delete_image_rows name rs) ≡ none
unfolding find_image delete_image_rows
find-delete n name [] h = refl
find-delete n name (r ∷ rs) h = ground (arith, find-delete n name rs)

find_dataset-delete :
    (n name : String) (rs : List ImageRecord)
    → find_dataset n rs ≡ none
    → find_dataset n (delete_image_rows name rs) ≡ none
unfolding find_dataset delete_image_rows
find_dataset-delete n name [] h = refl
find_dataset-delete n name (r ∷ rs) h = ground (arith, find_dataset-delete n name rs)

delete-gone :
    (name : String) (rs : List ImageRecord) → find_image name (delete_image_rows name rs) ≡ none
unfolding find_image delete_image_rows
delete-gone name [] = refl
delete-gone name (r ∷ rs) = ground (arith, delete-gone name rs)

delete-IsDistinct :
    (name : String) (rs : List ImageRecord) → IsDistinct rs → IsDistinct (delete_image_rows name rs)
unfolding delete_image_rows
delete-IsDistinct name [] d = tt
delete-IsDistinct name (r ∷ rs) d =
    let rest = delete-IsDistinct name rs d.2 in
    elim (Bool-cases (str_eq r.name name)) [
      | inl e ↦ rw (e, delete_image_rows) rest
      | inr e ↦
          rw (e, delete_image_rows)
            (find-delete r.name name rs d.0, find_dataset-delete r.dataset name rs d.1, rest)
    ]

module _ (env : Env) where
  -- `CreateImage` adds the record where neither its name nor its dataset is registered, and both
  -- then find it; or it returns an error and registers nothing.
  pub create_image_lem :
      (rec : ImageRecord) (w : World)
      → let (r, v) = create_image env rec w in
        (r ≡ ok tt)
          × (find_image rec.name w.images ≡ none)
          × (find_dataset rec.dataset w.images ≡ none)
          × (find_image rec.name v.images ≡ some rec)
          × (find_dataset rec.dataset v.images ≡ some rec)
          × (v.images ≡ rec ∷ w.images)
        ⊎ ((e : Error) × (r ≡ err e)) × (v.images ≡ w.images)
  unfolding create_image find_image find_dataset
  create_image_lem rec w = elim (Option-cases (env.outcome (insert_image rec.name ∷ w.history))) [
    | inr (text, e) ↦ inr ((other text, ground arith), ground arith)
    | inl e ↦
        elim (Bool-cases (
          is_found (find_image rec.name w.images)
          || is_found (find_dataset rec.dataset w.images))) [
            | inl taken ↦ inr ((other "failed to create image", ground arith), ground arith)
            | inr free ↦
                inl (ground (arith, eq_iff rec.name rec.name, eq_iff rec.dataset rec.dataset))
          ]
  ]

  -- `DeleteImage` with no error has removed the only row of the name; with an error it has removed
  -- none.
  pub delete_image_lem :
      (name : String) (w : World)
      → let (r, v) = delete_image env name w in
        (r ≡ ok tt)
          × (find_image name v.images ≡ none)
          × (v.images ≡ delete_image_rows name w.images)
        ⊎ ((e : Error) × (r ≡ err e)) × (v.images ≡ w.images)
  unfolding delete_image
  delete_image_lem name w = elim (Option-cases (env.outcome (delete_image_row name ∷ w.history))) [
    | inr (text, e) ↦ inr ((other text, ground arith), ground arith)
    | inl e ↦ elim (Bool-cases (is_found (find_image name w.images))) [
      | inl there ↦ inl (ground (arith, delete-gone name w.images))
      | inr absent ↦ inr ((other "image not found", ground arith), ground arith)
    ]
  ]

  resize-cases :
      (name : String) (size : ℕ) (w : World)
      → let v = (update_image_size env name size w).1 in
        (v.images ≡ resize_rows name size w.images) ⊎ (v.images ≡ w.images)
  unfolding update_image_size
  resize-cases name size w = elim (Option-cases (env.outcome (write_image name ∷ w.history))) [
    | inl e ↦ inl (ground arith)
    | inr (text, e) ↦ inr (ground arith)
  ]

  image_step-IsDistinct :
      (c : ImageCall) (w : World) → IsDistinct w.images → IsDistinct (image_step env c w).images
  unfolding image_step
  image_step-IsDistinct (creates rec) w d = elim (create_image_lem rec w) [
    | inl (q, a, b, f, g, same) ↦ subst IsDistinct (sym same) (a, b, d)
    | inr (q, same) ↦ subst IsDistinct (sym same) d
  ]
  image_step-IsDistinct (resizes name size) w d = elim (resize-cases name size w) [
    | inl e ↦ subst IsDistinct (sym e) (resize-IsDistinct name size w.images d)
    | inr same ↦ subst IsDistinct (sym same) d
  ]
  image_step-IsDistinct (deletes name) w d = elim (delete_image_lem name w) [
    | inl (q, gone, e) ↦ subst IsDistinct (sym e) (delete-IsDistinct name w.images d)
    | inr (q, same) ↦ subst IsDistinct (sym same) d
  ]

  -- From a table in which no name and no dataset stands twice, no run of `CreateImage`,
  -- `UpdateImageSize` and `DeleteImage` makes one stand twice, whatever calls fail.
  pub image_run-IsDistinct :
      (cs : List ImageCall) (w : World)
      → IsDistinct w.images
      → IsDistinct (image_run env cs w).images
  unfolding image_run
  image_run-IsDistinct [] w d = d
  image_run-IsDistinct (c ∷ cs) w d =
      image_run-IsDistinct cs (image_step env c w) (image_step-IsDistinct c w d)
