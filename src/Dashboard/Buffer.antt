-- ===== src/Dashboard/Buffer.antt =====
-- The bounded logs of pkg/dashboard: the newest entries, oldest first.
use stockyard.Base.{
  ℕ, zero, suc, ◌+◌, ◌-◌, ◌≤◌, ◌<◌, ◌≡◌, refl, ap, sym, ◌∙◌, inl, inr, Option, none, some, List, [],
  ◌∷◌, ◌++◌, length, drop, ltb, if◌then◌else◌, arith, length-append, length-drop, Bool-cases,
}

module _ {ℓ} {A : Type ℓ} where
  -- `append`, then the oldest entry goes where there are too many.
  unfoldable pub append_bounded : ℕ → A → List A → List A
  append_bounded max x xs = let ys = xs ++ (x ∷ []) in if ltb max (length ys) then drop 1 ys else ys

  abbrev pub get_elem? : List A → ℕ → Option A
  get_elem? [] i = none
  get_elem? (x ∷ xs) zero = some x
  get_elem? (x ∷ xs) (suc i) = get_elem? xs i

  -- The newest `max` entries of a log.
  abbrev pub newest : ℕ → List A → List A
  newest max log = drop (length log - max) log

  drop-append_le : (m : ℕ) (xs ys : List A) → m ≤ length xs → drop m (xs ++ ys) ≡ drop m xs ++ ys
  drop-append_le zero xs ys h = refl
  drop-append_le (suc m) [] ys h = ground (arith, h)
  drop-append_le (suc m) (x ∷ xs) ys h = drop-append_le m xs ys (ground (arith, h))

  drop-one : (m : ℕ) (xs : List A) → drop 1 (drop m xs) ≡ drop (suc m) xs
  drop-one zero xs = refl
  drop-one (suc m) [] = refl
  drop-one (suc m) (x ∷ xs) = drop-one m xs

  -- A bounded log that shows the newest entries of a log still does after one more.
  pub append_bounded-newest :
      (max : ℕ) (x : A) (log : List A)
      → append_bounded max x (newest max log) ≡ newest max (log ++ (x ∷ []))
  unfolding append_bounded
  append_bounded-newest max x log =
      let k = length log - max in
      let xs = drop k log in
      let whole : xs ++ (x ∷ []) ≡ drop k (log ++ (x ∷ [])) =
        sym (drop-append_le k log (x ∷ []) (omega arith)) in
      let added : length (xs ++ (x ∷ [])) ≡ (length log - k) + 1 =
        omega (arith, length-append xs (x ∷ []), length-drop k log) in
      let count : ((m : ℕ)
          → m ≡ length (log ++ (x ∷ [])) - max
          → m ≡ length (log ++ (x ∷ [])) - max) =
        λ m e. e in
      elim (Bool-cases (ltb max (length (xs ++ (x ∷ []))))) [
        | inl e ↦
            rw (e, append_bounded)
              (ap (drop 1) whole
                ∙ drop-one k (log ++ (x ∷ []))
                ∙ ap (λ m. drop m (log ++ (x ∷ [])))
                    (count (suc k) (ground (arith, added, length-append log (x ∷ [])))))
        | inr e ↦
            rw (e, append_bounded)
              (whole
                ∙ ap (λ m. drop m (log ++ (x ∷ [])))
                    (count k (ground (arith, added, length-append log (x ∷ [])))))
      ]

  pub newest_bound : (max : ℕ) (log : List A) → length (newest max log) ≤ max
  newest_bound max log = omega (arith, length-drop (length log - max) log)

  pub get_elem?-drop :
      (k : ℕ) (xs : List A) (i : ℕ) → get_elem? (drop k xs) i ≡ get_elem? xs (k + i)
  get_elem?-drop zero xs i = ap (get_elem? xs) (omega arith)
  get_elem?-drop (suc k) [] i = refl
  get_elem?-drop (suc k) (x ∷ xs) i =
      get_elem?-drop k xs i
      ∙ ap (get_elem? (x ∷ xs)) {x = suc (k + i)} {y = suc k + i} (omega arith)

  pub get_elem?-some : (xs : List A) (i : ℕ) → i < length xs → (a : A) × (get_elem? xs i ≡ some a)
  get_elem?-some [] i h = ground (arith, h)
  get_elem?-some (x ∷ xs) zero h = (x, refl)
  get_elem?-some (x ∷ xs) (suc i) h = get_elem?-some xs i (ground (arith, h))
