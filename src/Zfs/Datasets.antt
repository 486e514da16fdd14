-- ===== src/Zfs/Datasets.antt =====
-- What the results of looking for a dataset and of destroying one establish.
use stockyard.Base.{
  ◌≡◌, ◌⊎◌, refl, inl, inr, Text, codes, true, false, text_eq, List, [], ◌∷◌, ok, err, arith,
  trim_space, Result-cases, Bool-cases,
}
use stockyard.Zfs.{
  Call, canceled, check_context, zfs, Output, Manager, check_ctx, run_zfs, list_command, is_missing,
  judge_list, dataset_path_exists, destroy_dataset_recursive,
}

module _ (m : Manager) where
  check_ctx-cases :
      (h : List Call)
      → (check_ctx m h ≡ (err canceled, check_context ∷ h))
        ⊎ (check_ctx m h ≡ (ok tt, check_context ∷ h))
  unfolding check_ctx
  check_ctx-cases h = elim (Bool-cases (m.is_canceled (check_context ∷ h))) [
    | inl q ↦ inl (rw (q) refl)
    | inr q ↦ inr (rw (q) refl)
  ]

  judge-false :
      (dataset : Text) (o : Output) (h : List Call)
      → (judge_list m dataset o h).0 ≡ ok false
      → ((judge_list m dataset o h).1 ≡ check_context ∷ h)
        × (is_missing m dataset o ≡ true)
        × (m.is_canceled (check_context ∷ h) ≡ false)
  unfolding judge_list
  judge-false dataset o h e = elim (Bool-cases o.failed) [
    | inr f ↦ elim (Bool-cases (text_eq (trim_space o.stdout) dataset)) [
      | inl t ↦ ground arith
      | inr t ↦ ground arith
    ]
    | inl f ↦ elim (Bool-cases (is_missing m dataset o)) [
      | inr t ↦ ground arith
      | inl t ↦ elim (Bool-cases (m.is_canceled (check_context ∷ h))) [
        | inl u ↦ ground arith
        | inr u ↦ (ground arith, t, u)
      ]
    ]
  ]

  -- A look that says that the dataset is missing has had that very answer.
  exists-false :
      (dataset : Text) (h : List Call)
      → (dataset_path_exists m dataset h).0 ≡ ok false
      → let asked = zfs (list_command m dataset) ∷ check_context ∷ h in
        ((dataset_path_exists m dataset h).1 ≡ check_context ∷ asked)
        × (is_missing m dataset (m.output asked) ≡ true)
        × (m.is_canceled (check_context ∷ asked) ≡ false)
  unfolding dataset_path_exists
  exists-false dataset h e =
      let asked = zfs (list_command m dataset) ∷ check_context ∷ h in
      elim (check_ctx-cases h) [
        | inl q ↦ ground arith
        | inr q ↦
            let j = judge-false dataset (m.output asked) asked (ground arith) in
            (ground (arith, j), j.1, j.2)
      ]

  -- Where `DestroyDatasetRecursive` returns no error, its last command was the listing of the dataset,
  -- `zfs` answered that there is no such dataset, and the context was not done then.
  pub destroy_recursive_ok :
      (dataset : Text) (h : List Call)
      → (destroy_dataset_recursive m dataset h).0 ≡ ok tt
      → (older : List Call) × ((destroy_dataset_recursive m dataset h).1
          ≡ check_context ∷ zfs (list_command m dataset) ∷ older)
        × (is_missing m dataset (m.output (zfs (list_command m dataset) ∷ older)) ≡ true)
        × (m.is_canceled (destroy_dataset_recursive m dataset h).1 ≡ false)
  unfolding destroy_dataset_recursive
  destroy_recursive_ok dataset h e =
      let h₁ = (dataset_path_exists m dataset h).1 in
      let destroy = codes "destroy" ∷ codes "-R" ∷ dataset ∷ [] in
      let h₂ = (run_zfs m destroy h₁).1 in
      elim (Result-cases (dataset_path_exists m dataset h).0) [
        | inr (x, q) ↦ ground arith
        | inl (false, q) ↦
            let gone = exists-false dataset h q in
            (check_context ∷ h, ground (arith, gone), ground (arith, gone), ground (arith, gone))
        | inl (true, q) ↦ elim (Result-cases (run_zfs m destroy h₁).0) [
          | inr (x, s) ↦ ground arith
          | inl (_, s) ↦ elim (Result-cases (dataset_path_exists m dataset h₂).0) [
            | inr (x, t) ↦ ground arith
            | inl (true, t) ↦ ground arith
            | inl (false, t) ↦
                let gone = exists-false dataset h₂ t in
                (
                  check_context ∷ h₂,
                  ground (arith, gone),
                  ground (arith, gone),
                  ground (arith, gone),
                )
          ]
        ]
      ]
