-- ===== src/Base/Edits.antt =====
-- Positional insertion and removal in a sequence, read back through `get_or`.
use Prim.Native.Nat.{ℕ, zero, suc, ◌≤◌, ◌<◌, ◌-◌}
use mathlib.Core.Path.{◌≡◌, refl, ap}
use mathlib.Core.List.{List, [], ◌∷◌, ◌++◌}
use native.Mathlib.Nat.{sub-zero}
use native.Mathlib.Omega.{arith}
use upanix_os.Base.Tests.{ltb, ltb-false, ◌==◌, if◌then◌else◌}
use upanix_os.Base.Lists.{length, get_or, set, drop}

module _ {ℓ} {A : Type ℓ} where
  abbrev pub insert_at : ℕ → A → List A → List A
  insert_at zero v xs = v ∷ xs
  insert_at (suc i) v [] = v ∷ []
  insert_at (suc i) v (x ∷ xs) = x ∷ insert_at i v xs

  pub length-insert_at : (i : ℕ) (v : A) (xs : List A) → length (insert_at i v xs) ≡ suc (length xs)
  length-insert_at zero v xs = refl
  length-insert_at (suc i) v [] = refl
  length-insert_at (suc i) v (x ∷ xs) = ap suc (length-insert_at i v xs)

  pub get_or-insert_at_lt :
      (i j : ℕ) (v d : A) (xs : List A)
      → i ≤ length xs
      → j < i
      → get_or (insert_at i v xs) j d ≡ get_or xs j d
  get_or-insert_at_lt zero j v d xs h lt = absurd (omega arith)
  get_or-insert_at_lt (suc i) j v d [] h lt = absurd (omega arith)
  get_or-insert_at_lt (suc i) zero v d (x ∷ xs) h lt = refl
  get_or-insert_at_lt (suc i) (suc j) v d (x ∷ xs) h lt =
      get_or-insert_at_lt i j v d xs (omega arith) (omega arith)

  pub get_or-insert_at_self :
      (i : ℕ) (v d : A) (xs : List A) → i ≤ length xs → get_or (insert_at i v xs) i d ≡ v
  get_or-insert_at_self zero v d xs h = refl
  get_or-insert_at_self (suc i) v d [] h = absurd (omega arith)
  get_or-insert_at_self (suc i) v d (x ∷ xs) h = get_or-insert_at_self i v d xs (omega arith)

  pub get_or-insert_at_gt :
      (i j : ℕ) (v d : A) (xs : List A)
      → i ≤ length xs
      → i ≤ j
      → get_or (insert_at i v xs) (suc j) d ≡ get_or xs j d
  get_or-insert_at_gt zero j v d xs h ge = refl
  get_or-insert_at_gt (suc i) j v d [] h ge = absurd (omega arith)
  get_or-insert_at_gt (suc i) zero v d (x ∷ xs) h ge = absurd (omega arith)
  get_or-insert_at_gt (suc i) (suc j) v d (x ∷ xs) h ge =
      get_or-insert_at_gt i j v d xs (omega arith) (omega arith)

  pub get_or-set_self :
      (xs : List A) (i : ℕ) (v d : A) → i < length xs → get_or (set xs i v) i d ≡ v
  get_or-set_self [] i v d h = absurd (omega arith)
  get_or-set_self (x ∷ xs) zero v d h = refl
  get_or-set_self (x ∷ xs) (suc i) v d h = get_or-set_self xs i v d (omega arith)

  pub get_or-set :
      (xs : List A) (i j : ℕ) (v d : A)
      → i < length xs
      → get_or (set xs i v) j d ≡ (if i == j then v else get_or xs j d)
  get_or-set [] i j v d h = absurd (omega arith)
  get_or-set (x ∷ xs) zero zero v d h = refl
  get_or-set (x ∷ xs) zero (suc j) v d h = ground arith
  get_or-set (x ∷ xs) (suc i) zero v d h = ground arith
  get_or-set (x ∷ xs) (suc i) (suc j) v d h = ground (arith, get_or-set xs i j v d (omega arith))

  pub get_or_beyond : (xs : List A) (i : ℕ) (d : A) → length xs ≤ i → get_or xs i d ≡ d
  get_or_beyond [] i d h = refl
  get_or_beyond (x ∷ xs) zero d h = absurd (omega arith)
  get_or_beyond (x ∷ xs) (suc i) d h = get_or_beyond xs i d (omega arith)

  pub drop-one : (xs : List A) (i : ℕ) (d : A) → get_or (drop 1 xs) i d ≡ get_or xs (suc i) d
  drop-one [] i d = refl
  drop-one (x ∷ xs) i d = refl

  pub get_or-append :
      (xs ys : List A) (i : ℕ) (d : A)
      → get_or (xs ++ ys) i d
        ≡ (if ltb i (length xs) then get_or xs i d else get_or ys (i - length xs) d)
  get_or-append [] ys i d = rw (ltb-false i 0 (omega arith), sub-zero i)
  get_or-append (x ∷ xs) ys zero d = ground arith
  get_or-append (x ∷ xs) ys (suc i) d =
      let e : suc i - suc (length xs) ≡ i - length xs = omega arith in
      ground (arith, get_or-append xs ys i d, ap (λ k. get_or ys k d) e)
