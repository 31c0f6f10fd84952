-- ===== src/Prelude/Sort.antt =====
-- `sorted` and `list.sort`: a stable sort by a comparison of keys.
use Prim.Native.String.{String}
use Prim.Native.String as S
use Prim.Native.String.compare as cmp
use mathlib.Core.Path.{◌≡◌, refl}
use mathlib.Core.Bool.{Bool, true, false}
use mathlib.Core.List.{List, [], ◌∷◌, ◌++◌, map, append_assoc, Perm, perm_append_comm}
use mathlib.Core.List.Perm
use native.Mathlib.Omega.{arith}
use newbro.Prelude.Tests.{if◌then◌else◌, Bool-cases}
use mathlib.Core.Logic.{inl, inr}
use newbro.Prelude.Lists.{flatten}
use newbro.Prelude.Text.{text_le}

module _ {ℓ} {A : Type ℓ} (le : A → A → Bool) where
  insert : A → List A → List A
  insert x [] = x ∷ []
  insert x (y ∷ ys) = if le x y then x ∷ y ∷ ys else y ∷ insert x ys

  -- An element goes before the later ones that it may stand before, so equal keys keep their order.
  unfoldable pub sorted : List A → List A
  unfolding insert
  sorted [] = []
  sorted (x ∷ xs) = insert x (sorted xs)

  -- Each element may stand before the next.
  abbrev pub IsSorted : List A → Type 0
  IsSorted [] = Unit
  IsSorted (x ∷ []) = Unit
  IsSorted (x ∷ y ∷ ys) = (le x y ≡ true) × IsSorted (y ∷ ys)

  insert-perm : (x : A) (ys : List A) → Perm (insert x ys) (x ∷ ys)
  unfolding insert
  insert-perm x [] = Perm.refl _
  insert-perm x (y ∷ ys) = elim (Bool-cases (le x y)) [
    | inl h ↦ rw h (Perm.refl _)
    | inr h ↦ rw h (Perm.trans (Perm.cons y (insert-perm x ys)) (Perm.swap x y ys))
  ]

  pub sorted-perm : (xs : List A) → Perm (sorted xs) xs
  unfolding sorted
  sorted-perm [] = Perm.refl _
  sorted-perm (x ∷ xs) = Perm.trans (insert-perm x (sorted xs)) (Perm.cons x (sorted-perm xs))

  module _ (total : (x y : A) → le x y ≡ false → le y x ≡ true) where
    insert-IsSorted_after :
        (x y : A) (ys : List A) → le y x ≡ true → IsSorted (y ∷ ys) → IsSorted (y ∷ insert x ys)
    unfolding insert
    insert-IsSorted_after x y [] h s = (h, tt)
    insert-IsSorted_after x y (z ∷ zs) h s = ground (arith, total x z, insert-IsSorted_after x z zs)

    insert-IsSorted : (x : A) (ys : List A) → IsSorted ys → IsSorted (insert x ys)
    unfolding insert
    insert-IsSorted x [] s = tt
    insert-IsSorted x (y ∷ ys) s = ground (arith, total x y, insert-IsSorted_after x y ys)

    pub sorted-IsSorted : (xs : List A) → IsSorted (sorted xs)
    unfolding sorted
    sorted-IsSorted [] = tt
    sorted-IsSorted (x ∷ xs) = insert-IsSorted x (sorted xs) (sorted-IsSorted xs)

module _ {ℓ κ} {A : Type ℓ} {B : Type κ} (le : A → A → Bool) (f : A → List B) where
  insert-flatten :
      (x : A) (ys : List A) → Perm (flatten (map f (insert le x ys))) (f x ++ flatten (map f ys))
  unfolding insert flatten
  insert-flatten x [] = Perm.refl _
  insert-flatten x (y ∷ ys) = elim (Bool-cases (le x y)) [
    | inl h ↦ rw h (Perm.refl _)
    | inr h ↦ rw h (
        Perm.trans (Perm.append_left (f y) (insert-flatten x ys)) (
          rw
            (
              ← append_assoc (f y) (f x) (flatten (map f ys)),
              ← append_assoc (f x) (f y) (flatten (map f ys)),
            )
            (Perm.append_right (flatten (map f ys)) (perm_append_comm (f y) (f x)))))
  ]

  -- What the sorted elements bring together is a reordering of what they bring unsorted.
  pub sorted-flatten : (xs : List A) → Perm (flatten (map f (sorted le xs))) (flatten (map f xs))
  unfolding sorted flatten
  sorted-flatten [] = Perm.refl _
  sorted-flatten (x ∷ xs) =
      Perm.trans (insert-flatten x (sorted le xs)) (Perm.append_left (f x) (sorted-flatten xs))

pub text_le_total : (s t : String) → text_le s t ≡ false → text_le t s ≡ true
text_le_total S.[] S.[] h = refl
text_le_total S.[] (S.◌∷◌ d t) h = ground (arith, cmp.nil-cons d t)
text_le_total (S.◌∷◌ c s) S.[] h = rw cmp.nil-cons refl
text_le_total (S.◌∷◌ c s) (S.◌∷◌ d t) h =
    ground (arith, cmp.cons-cons c d s t, cmp.cons-cons d c t s, text_le_total s t)
