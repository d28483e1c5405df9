-- ===== src/Base/Grouping/Mapped.antt =====
-- Lists that are mapped, filtered and tested.
use local_network_kafka_moni.Base.Tests.{Bool-cases, and-left, and-right}
use local_network_kafka_moni.Base.Lists.{all, filter, length}
use Prim.Native.Nat.{suc}
use mathlib.Core.Path.{◌≡◌, refl, sym, ap, subst}
use mathlib.Core.Logic.{◌⊎◌, inl, inr}
use mathlib.Core.Bool.{Bool, true, ◌&&◌}
use mathlib.Core.List.{List, [], ◌∷◌, ◌++◌, map, Memᴰ}

pub all-filter {ℓ} :
    {A : Type ℓ} (p q : A → Bool) (xs : List A) → all p xs ≡ true → all p (filter q xs) ≡ true
all-filter p q [] h = refl
all-filter p q (x ∷ xs) h = elim (Bool-cases (q x)) [
  | inl e ↦
      rw (e, and-left (p x) (all p xs) h, all-filter p q xs (and-right (p x) (all p xs) h)) refl
  | inr e ↦ rw e (all-filter p q xs (and-right (p x) (all p xs) h))
]

pub all-filter_self {ℓ} : {A : Type ℓ} (p : A → Bool) (xs : List A) → all p (filter p xs) ≡ true
all-filter_self p [] = refl
all-filter_self p (x ∷ xs) = elim (Bool-cases (p x)) [
  | inl e ↦ rw (e, e, all-filter_self p xs) refl
  | inr e ↦ rw e (all-filter_self p xs)
]

pub filter-map {ℓ κ} :
    {A : Type ℓ} {B : Type κ} (f : A → B) (p : B → Bool) (xs : List A)
    → map f (filter (λ x. p (f x)) xs) ≡ filter p (map f xs)
filter-map f p [] = refl
filter-map f p (x ∷ xs) = elim (Bool-cases (p (f x))) [
  | inl e ↦ rw (e, filter-map f p xs) refl
  | inr e ↦ rw (e, filter-map f p xs) refl
]

pub filter-filter {ℓ} :
    {A : Type ℓ} (p : A → Bool) (xs : List A) → filter p (filter p xs) ≡ filter p xs
filter-filter p [] = refl
filter-filter p (x ∷ xs) = elim (Bool-cases (p x)) [
  | inl e ↦ rw (e, e, filter-filter p xs) refl
  | inr e ↦ rw (e, filter-filter p xs) refl
]

pub length-map {ℓ κ} :
    {A : Type ℓ} {B : Type κ} (f : A → B) (xs : List A) → length (map f xs) ≡ length xs
length-map f [] = refl
length-map f (x ∷ xs) = ap suc (length-map f xs)

pub List-cases {ℓ} :
    {A : Type ℓ} (xs : List A) → (xs ≡ []) ⊎ ((first : A) × (rest : List A) × (xs ≡ first ∷ rest))
List-cases [] = inl refl
List-cases (x ∷ xs) = inr (x, xs, refl)

pub nil_of_map {ℓ κ} : {A : Type ℓ} {B : Type κ} (f : A → B) (xs : List A) → map f xs ≡ [] → xs ≡ []
nil_of_map f [] h = refl
nil_of_map f (x ∷ xs) h = cc

pub append_assoc {ℓ} : {A : Type ℓ} (xs ys zs : List A) → (xs ++ ys) ++ zs ≡ xs ++ (ys ++ zs)
append_assoc [] ys zs = refl
append_assoc (x ∷ xs) ys zs = ap (λ l. x ∷ l) (append_assoc xs ys zs)

pub map-append {ℓ κ} :
    {A : Type ℓ} {B : Type κ} (f : A → B) (xs ys : List A) → map f (xs ++ ys) ≡ map f xs ++ map f ys
map-append f [] ys = refl
map-append f (x ∷ xs) ys = ap (λ l. f x ∷ l) (map-append f xs ys)

pub map-map {ℓ κ μ} :
    {A : Type ℓ} {B : Type κ} {C : Type μ} (f : A → B) (g : B → C) (xs : List A)
    → map g (map f xs) ≡ map (λ x. g (f x)) xs
map-map f g [] = refl
map-map f g (x ∷ xs) = ap (λ l. g (f x) ∷ l) (map-map f g xs)

pub map_id {ℓ} : {A : Type ℓ} (xs : List A) → map (λ x. x) xs ≡ xs
map_id [] = refl
map_id (x ∷ xs) = ap (λ l. x ∷ l) (map_id xs)

pub all-Mem {ℓ} :
    {A : Type ℓ} (p : A → Bool) (xs : List A) (x : A) → all p xs ≡ true → Memᴰ x xs → p x ≡ true
all-Mem p [] x h m = elim m [ ]
all-Mem p (y ∷ ys) x h (Memᴰ.head k) = subst (λ b. p b ≡ true) (sym k) (and-left (p y) (all p ys) h)
all-Mem p (y ∷ ys) x h (Memᴰ.tail m) = all-Mem p ys x (and-right (p y) (all p ys) h) m

pub all-of_Mem {ℓ} :
    {A : Type ℓ} (p : A → Bool) (xs : List A) → ((x : A) → Memᴰ x xs → p x ≡ true) → all p xs ≡ true
all-of_Mem p [] h = refl
all-of_Mem p (x ∷ xs) h = rw (h x (Memᴰ.head refl), all-of_Mem p xs (λ y m. h y (Memᴰ.tail m))) refl

pub all-map {ℓ κ} :
    {A : Type ℓ} {B : Type κ} (f : A → B) (p : B → Bool) (xs : List A)
    → all p (map f xs) ≡ all (λ x. p (f x)) xs
all-map f p [] = refl
all-map f p (x ∷ xs) = ap (λ t. p (f x) && t) (all-map f p xs)

pub all-append {ℓ} :
    {A : Type ℓ} (p : A → Bool) (xs ys : List A)
    → all p xs ≡ true
    → all p ys ≡ true
    → all p (xs ++ ys) ≡ true
all-append p [] ys h k = k
all-append p (x ∷ xs) ys h k =
    rw (and-left (p x) (all p xs) h, all-append p xs ys (and-right (p x) (all p xs) h) k) refl

pub all-append_left {ℓ} :
    {A : Type ℓ} (p : A → Bool) (xs ys : List A) → all p (xs ++ ys) ≡ true → all p xs ≡ true
all-append_left p [] ys h = refl
all-append_left p (x ∷ xs) ys h =
    rw
      (
        and-left (p x) (all p (xs ++ ys)) h,
        all-append_left p xs ys (and-right (p x) (all p (xs ++ ys)) h),
      )
      refl

pub all-append_right {ℓ} :
    {A : Type ℓ} (p : A → Bool) (xs ys : List A) → all p (xs ++ ys) ≡ true → all p ys ≡ true
all-append_right p [] ys h = h
all-append_right p (x ∷ xs) ys h = all-append_right p xs ys (and-right (p x) (all p (xs ++ ys)) h)
