-- ===== src/Daemon/Locks/Counting.antt =====
-- How many calls of withTaskLock need an entry or hold its mutex.
use stockyard.Base.{
  ℕ, zero, suc, ◌+◌, ◌≤◌, ◌==◌, ◌≡◌, ◌⊎◌, refl, Bool, true, false, ◌&&◌, List, [], ◌∷◌, some,
  if◌then◌else◌, arith, Bool-cases, inl, inr,
}
use stockyard.Daemon.Locks.{Stage, queued, inside, leaving, LockCall, nth, set_nth}

abbrev pub one : Bool → ℕ
one b = if b then 1 else 0

unfoldable pub count : (LockCall → Bool) → List LockCall → ℕ
count p [] = 0
count p (x ∷ xs) = one (p x) + count p xs

-- The call needs the entry: it waits for the lock or runs under it.
abbrev pub is_user : Stage → Bool
is_user queued = true
is_user inside = true
is_user _ = false

-- The call has the mutex.
abbrev pub is_holder : Stage → Bool
is_holder inside = true
is_holder leaving = true
is_holder _ = false

abbrev pub uses : ℕ → LockCall → Bool
uses a x = is_user x.stage && (x.entry == a)

abbrev pub holds : ℕ → LockCall → Bool
holds a x = is_holder x.stage && (x.entry == a)

pub count-set_nth :
    (p : LockCall → Bool) (k : ℕ) (x y : LockCall) (xs : List LockCall)
    → nth k xs ≡ some x
    → count p (set_nth k y xs) + one (p x) ≡ count p xs + one (p y)
unfolding count set_nth nth
count-set_nth p k x y [] h = ground arith
count-set_nth p zero x y (z ∷ zs) h = ground arith
count-set_nth p (suc k) x y (z ∷ zs) h = ground (arith, count-set_nth p k x y zs h)

pub count_pos :
    (p : LockCall → Bool) (k : ℕ) (x : LockCall) (xs : List LockCall)
    → nth k xs ≡ some x
    → p x ≡ true
    → 1 ≤ count p xs
unfolding count nth
count_pos p k x [] h q = ground arith
count_pos p zero x (z ∷ zs) h q = ground arith
count_pos p (suc k) x (z ∷ zs) h q = ground (arith, count_pos p k x zs h q)

pub nth-set_nth :
    (j k : ℕ) (x y : LockCall) (xs : List LockCall)
    → nth k xs ≡ some x
    → nth j (set_nth k y xs) ≡ (if k == j then some y else nth j xs)
unfolding set_nth nth
nth-set_nth j k x y [] h = ground arith
nth-set_nth zero zero x y (z ∷ zs) h = refl
nth-set_nth (suc j) zero x y (z ∷ zs) h = ground arith
nth-set_nth zero (suc k) x y (z ∷ zs) h = ground arith
nth-set_nth (suc j) (suc k) x y (z ∷ zs) h = ground (arith, nth-set_nth j k x y zs h)

-- Two calls that a count of at most one counts are the same.
pub count_one :
    (p : LockCall → Bool) (j k : ℕ) (x y : LockCall) (xs : List LockCall)
    → count p xs ≤ 1
    → nth j xs ≡ some x
    → p x ≡ true
    → nth k xs ≡ some y
    → p y ≡ true
    → j ≡ k
unfolding count nth
count_one p j k x y [] c h q h' q' = ground arith
count_one p zero zero x y (z ∷ zs) c h q h' q' = refl
count_one p zero (suc k) x y (z ∷ zs) c h q h' q' = ground (arith, count_pos p k y zs h' q')
count_one p (suc j) zero x y (z ∷ zs) c h q h' q' = ground (arith, count_pos p j x zs h q)
count_one p (suc j) (suc k) x y (z ∷ zs) c h q h' q' =
    ground (arith, count_one p j k x y zs (ground arith) h q h' q')

pub nth-cons :
    (k : ℕ) (x y : LockCall) (xs : List LockCall)
    → nth k (y ∷ xs) ≡ some x
    → (x ≡ y) ⊎ ((j : ℕ) × (nth j xs ≡ some x))
unfolding nth
nth-cons zero x y xs h = inl (ground arith)
nth-cons (suc k) x y xs h = inr (k, h)

pub count-find :
    (p : LockCall → Bool) (xs : List LockCall)
    → 1 ≤ count p xs
    → (j : ℕ) × (y : LockCall) × (nth j xs ≡ some y) × (p y ≡ true)
unfolding count nth
count-find p [] h = ground (arith, h)
count-find p (z ∷ zs) h = elim (Bool-cases (p z)) [
  | inl e ↦ (0, z, refl, e)
  | inr e ↦ let (j, y, f, q) = count-find p zs (ground (arith, h, e)) in (suc j, y, f, q)
]

pub count-none :
    (p : LockCall → Bool) (xs : List LockCall)
    → ((k : ℕ) (x : LockCall) → nth k xs ≡ some x → p x ≡ false)
    → count p xs ≡ 0
unfolding count nth
count-none p [] h = refl
count-none p (z ∷ zs) h = ground (arith, h 0 z refl, count-none p zs (λ k x e. h (suc k) x e))

pub count-ext :
    (p q : LockCall → Bool) (xs : List LockCall)
    → ((k : ℕ) (x : LockCall) → nth k xs ≡ some x → p x ≡ q x)
    → count p xs ≡ count q xs
unfolding count nth
count-ext p q [] h = refl
count-ext p q (z ∷ zs) h = ground (arith, h 0 z refl, count-ext p q zs (λ k x e. h (suc k) x e))
