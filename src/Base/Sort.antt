-- ===== src/Base/Sort.antt =====
-- `sorted` and `ORDER BY`: a stable insertion sort by a Boolean order.
use local_network_kafka_moni.Base.Tests.{if◌then◌else◌, Bool-cases}
use local_network_kafka_moni.Base.Lists.{All, length, take, take-All}
use Prim.Native.Nat.{ℕ, zero, suc}
use mathlib.Core.Path.{◌≡◌, refl, ap, ◌∙◌}
use mathlib.Core.Logic.{inl, inr}
use mathlib.Core.Bool.{Bool, true, false}
use mathlib.Core.List.Permᴰ
use mathlib.Core.List.{List, [], ◌∷◌, ◌++◌, Memᴰ, Permᴰ}
use native.Mathlib.Omega.{arith}

module _ {ℓ} {A : Type ℓ} (le : A → A → Bool) where
  unfoldable pub insert : A → List A → List A
  insert a [] = a ∷ []
  insert a (x ∷ xs) = if le a x then a ∷ x ∷ xs else x ∷ insert a xs

  unfoldable pub sort : List A → List A
  unfolding insert
  sort [] = []
  sort (x ∷ xs) = insert x (sort xs)

  pub length-insert : (a : A) (xs : List A) → length (insert a xs) ≡ suc (length xs)
  unfolding insert
  length-insert a [] = refl
  length-insert a (x ∷ xs) = ground (arith, length-insert a xs)

  pub length-sort : (xs : List A) → length (sort xs) ≡ length xs
  unfolding sort
  length-sort [] = refl
  length-sort (x ∷ xs) = length-insert x (sort xs) ∙ ap suc (length-sort xs)

  pub mem-insert_self : (a : A) (xs : List A) → Memᴰ a (insert a xs)
  unfolding insert
  mem-insert_self a [] = Memᴰ.head refl
  mem-insert_self a (x ∷ xs) = elim (Bool-cases (le a x)) [
    | inl e ↦ rw e (Memᴰ.head refl)
    | inr e ↦ rw e (Memᴰ.tail (mem-insert_self a xs))
  ]

  pub mem-insert_old : (a b : A) (xs : List A) → Memᴰ b xs → Memᴰ b (insert a xs)
  unfolding insert
  mem-insert_old a b [] m = elim m [ ]
  mem-insert_old a b (x ∷ xs) (Memᴰ.head q) = elim (Bool-cases (le a x)) [
    | inl e ↦ rw e (Memᴰ.tail (Memᴰ.head q))
    | inr e ↦ rw e (Memᴰ.head q)
  ]
  mem-insert_old a b (x ∷ xs) (Memᴰ.tail m) = elim (Bool-cases (le a x)) [
    | inl e ↦ rw e (Memᴰ.tail (Memᴰ.tail m))
    | inr e ↦ rw e (Memᴰ.tail (mem-insert_old a b xs m))
  ]

  pub mem-sort_of : (b : A) (xs : List A) → Memᴰ b xs → Memᴰ b (sort xs)
  unfolding sort
  mem-sort_of b [] m = elim m [ ]
  mem-sort_of b (x ∷ xs) (Memᴰ.head q) = rw q (mem-insert_self x (sort xs))
  mem-sort_of b (x ∷ xs) (Memᴰ.tail m) = mem-insert_old x b (sort xs) (mem-sort_of b xs m)

module _ {ℓ} {A : Type ℓ} (le : A → A → Bool) where
  insert-perm : (a : A) (xs : List A) → Permᴰ (insert le a xs) (a ∷ xs)
  unfolding insert
  insert-perm a [] = Permᴰ.refl (a ∷ [])
  insert-perm a (x ∷ xs) = elim (Bool-cases (le a x)) [
    | inl e ↦ rw e (Permᴰ.refl (a ∷ x ∷ xs))
    | inr e ↦ rw e (Permᴰ.trans (Permᴰ.cons refl (insert-perm a xs)) (Permᴰ.swap refl refl))
  ]

  pub sort-perm : (xs : List A) → Permᴰ (sort le xs) xs
  unfolding sort
  sort-perm [] = Permᴰ.nil
  sort-perm (x ∷ xs) = Permᴰ.trans (insert-perm x (sort le xs)) (Permᴰ.cons refl (sort-perm xs))

-- What a prefix of a list leaves of it.
pub take_rest {ℓ} : {A : Type ℓ} (n : ℕ) (xs : List A) → (rest : List A) × (take n xs ++ rest ≡ xs)
take_rest zero xs = (xs, refl)
take_rest (suc n) [] = ([], refl)
take_rest (suc n) (x ∷ xs) = let later = take_rest n xs in (later.0, ap (λ l. x ∷ l) later.1)

module _ {ℓ κ} {A : Type ℓ} (le : A → A → Bool) (P : A → Type κ) where
  pub insert-All : (a : A) (xs : List A) → P a → All P xs → All P (insert le a xs)
  unfolding insert
  insert-All a [] p h = (p, tt)
  insert-All a (x ∷ xs) p h = elim (Bool-cases (le a x)) [
    | inl e ↦ rw e (p, h)
    | inr e ↦ rw e (h.0, insert-All a xs p h.1)
  ]

  pub sort-All : (xs : List A) → All P xs → All P (sort le xs)
  unfolding sort
  sort-All [] h = tt
  sort-All (x ∷ xs) h = insert-All x (sort le xs) h.0 (sort-All xs h.1)

-- Each element stands before those that follow it.
abbrev pub IsSorted {ℓ} : {A : Type ℓ} → (A → A → Bool) → List A → Type 0
IsSorted le [] = Unit
IsSorted le (x ∷ xs) = All (λ y. le x y ≡ true) xs × IsSorted le xs

-- The sort by `le` is sorted by each transitive order that `le` decides.
module _ {ℓ} {A : Type ℓ} (le rel : A → A → Bool)
    (trans : (a b c : A) → rel a b ≡ true → rel b c ≡ true → rel a c ≡ true)
    (yes_rel : (a b : A) → le a b ≡ true → rel a b ≡ true)
    (no_rel : (a b : A) → le a b ≡ false → rel b a ≡ true) where
  below-All :
      (a x : A) (xs : List A)
      → rel a x ≡ true
      → All (λ y. rel x y ≡ true) xs
      → All (λ y. rel a y ≡ true) xs
  below-All a x [] h k = tt
  below-All a x (y ∷ ys) h k = (trans a x y h k.0, below-All a x ys h k.1)

  pub insert-IsSorted : (a : A) (xs : List A) → IsSorted rel xs → IsSorted rel (insert le a xs)
  unfolding insert
  insert-IsSorted a [] h = (tt, tt)
  insert-IsSorted a (x ∷ xs) h = elim (Bool-cases (le a x)) [
    | inl e ↦ rw e ((yes_rel a x e, below-All a x xs (yes_rel a x e) h.0), h)
    | inr e ↦
        rw e (insert-All le (λ y. rel x y ≡ true) a xs (no_rel a x e) h.0, insert-IsSorted a xs h.1)
  ]

  pub sort-IsSorted : (xs : List A) → IsSorted rel (sort le xs)
  unfolding sort
  sort-IsSorted [] = tt
  sort-IsSorted (x ∷ xs) = insert-IsSorted x (sort le xs) (sort-IsSorted xs)

pub take-IsSorted {ℓ} :
    {A : Type ℓ} (rel : A → A → Bool) (n : ℕ) (xs : List A)
    → IsSorted rel xs
    → IsSorted rel (take n xs)
take-IsSorted rel zero xs h = tt
take-IsSorted rel (suc n) [] h = tt
take-IsSorted rel (suc n) (x ∷ xs) h = (take-All _ n xs h.0, take-IsSorted rel n xs h.1)
