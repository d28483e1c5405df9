-- ===== src/Base/Grouping.antt =====
-- `SELECT DISTINCT` and the keys of a `GROUP BY`: the first occurrences, by a Boolean equality.
mod Mapped
pub use Mapped.*
use local_network_kafka_moni.Base.Tests.{Bool-cases, and-left, and-right}
use local_network_kafka_moni.Base.Lists.{any, all, filter, length}
use Prim.Native.Nat.{suc}
use mathlib.Core.Path.{◌≡◌, refl, sym, ap, ◌∙◌, subst}
use mathlib.Core.Logic.{◌⊎◌, inl, inr}
use mathlib.Core.Bool.{Bool, true, false, not, ◌||◌, ◌&&◌}
use mathlib.Core.List.{List, [], ◌∷◌, ◌++◌, map, Memᴰ}
use native.Mathlib.Omega.{arith}

pub record IsEquality {ℓ} {A : Type ℓ} (eq : A → A → Bool) : Type ℓ where
  pub reflexive : (a : A) → eq a a ≡ true
  pub sound : (a b : A) → eq a b ≡ true → a ≡ b

module _ {ℓ} {A : Type ℓ} (eq : A → A → Bool) where
  abbrev pub member : A → List A → Bool
  member a xs = any (λ x. eq x a) xs

  abbrev pub distinct : List A → List A
  distinct [] = []
  distinct (x ∷ xs) = x ∷ filter (λ y. not (eq y x)) (distinct xs)

  -- No element stands twice.
  abbrev pub Unique : List A → Type 0
  Unique [] = Unit
  Unique (x ∷ xs) = (member x xs ≡ false) × Unique xs

  -- The test that a unique constraint makes.
  abbrev pub unique : List A → Bool
  unique [] = true
  unique (x ∷ xs) = not (member x xs) && unique xs

  pub unique-of : (xs : List A) → Unique xs → unique xs ≡ true
  unique-of [] h = refl
  unique-of (x ∷ xs) h = rw (h.0, unique-of xs h.1) refl

  pub Unique-of_unique : (xs : List A) → unique xs ≡ true → Unique xs
  Unique-of_unique [] h = tt
  Unique-of_unique (x ∷ xs) h = (ground arith, Unique-of_unique xs (ground arith))

  module _ (e : IsEquality eq) where
    pub member-filter_other :
        (a b : A) (xs : List A)
        → eq a b ≡ false
        → member a (filter (λ y. not (eq y b)) xs) ≡ member a xs
    member-filter_other a b [] h = refl
    member-filter_other a b (x ∷ xs) h = elim (Bool-cases (eq x b)) [
      | inl k ↦
          let other : eq x a ≡ false = elim (Bool-cases (eq x a)) [
            | inl m ↦ subst (λ c. eq c b ≡ false → eq x a ≡ false) (e.sound x a m) (λ n. cc) h
            | inr m ↦ m
          ] in
          rw (k, other) (member-filter_other a b xs h)
      | inr k ↦ rw k (ap (λ t. eq x a || t) (member-filter_other a b xs h))
    ]

    member-filter_self : (b : A) (xs : List A) → member b (filter (λ y. not (eq y b)) xs) ≡ false
    member-filter_self b [] = refl
    member-filter_self b (x ∷ xs) = elim (Bool-cases (eq x b)) [
      | inl k ↦ rw k (member-filter_self b xs)
      | inr k ↦ rw (k, k) (member-filter_self b xs)
    ]

    pub equality_sym : (a b : A) → eq a b ≡ eq b a
    equality_sym a b = elim (Bool-cases (eq a b)) [
      | inl k ↦ subst (λ c. eq a c ≡ eq c a) (e.sound a b k) refl
      | inr k ↦ elim (Bool-cases (eq b a)) [
        | inl m ↦ subst (λ c. eq c b ≡ eq b c) (e.sound b a m) refl
        | inr m ↦ k ∙ sym m
      ]
    ]

    pub member-distinct : (a : A) (xs : List A) → member a (distinct xs) ≡ member a xs
    member-distinct a [] = refl
    member-distinct a (x ∷ xs) = elim (Bool-cases (eq x a)) [
      | inl k ↦ rw k refl
      | inr k ↦
          ap (λ t. eq x a || t)
            (member-filter_other a x (distinct xs) (equality_sym a x ∙ k) ∙ member-distinct a xs)
    ]

    member-filter_none :
        (p : A → Bool) (a : A) (xs : List A) → member a xs ≡ false → member a (filter p xs) ≡ false
    member-filter_none p a [] h = refl
    member-filter_none p a (x ∷ xs) h = ground (arith, member-filter_none p a xs)

    pub filter-Unique : (p : A → Bool) (xs : List A) → Unique xs → Unique (filter p xs)
    filter-Unique p [] h = tt
    filter-Unique p (x ∷ xs) h = elim (Bool-cases (p x)) [
      | inl k ↦ rw k (member-filter_none p x xs h.0, filter-Unique p xs h.1)
      | inr k ↦ rw k (filter-Unique p xs h.1)
    ]

    pub distinct-Unique : (xs : List A) → Unique (distinct xs)
    distinct-Unique [] = tt
    distinct-Unique (x ∷ xs) = (
      member-filter_self x (distinct xs),
      filter-Unique (λ y. not (eq y x)) (distinct xs) (distinct-Unique xs),
    )

    filter-absent : (x : A) (xs : List A) → member x xs ≡ false → filter (λ y. not (eq y x)) xs ≡ xs
    filter-absent x [] h = refl
    filter-absent x (y ∷ ys) h =
        let other : eq y x ≡ false = ground (arith, h) in
        rw other (ap (λ l. y ∷ l) (filter-absent x ys (ground (arith, h))))

    -- A list without repetition is left as it is.
    pub distinct_id : (xs : List A) → Unique xs → distinct xs ≡ xs
    distinct_id [] h = refl
    distinct_id (x ∷ xs) h =
        ap (λ l. x ∷ filter (λ y. not (eq y x)) l) (distinct_id xs h.1)
        ∙ ap (λ l. x ∷ l) (filter-absent x xs h.0)

    -- A test holds of every image of a list when it holds of the image of each member.
    pub all-map_member {κ} :
        {B : Type κ} (f : A → B) (p : B → Bool) (xs : List A)
        → ((a : A) → member a xs ≡ true → p (f a) ≡ true)
        → all p (map f xs) ≡ true
    all-map_member f p [] h = refl
    all-map_member f p (x ∷ xs) h =
        let first : p (f x) ≡ true = h x (rw (e.reflexive x) refl) in
        let rest : all p (map f xs) ≡ true =
          all-map_member f p xs (λ a k. h a (ground (arith, k))) in
        rw (first, rest) refl

module _ {ℓ} {A : Type ℓ} (eq : A → A → Bool) where
  pub member-append :
      (a : A) (xs ys : List A) → member eq a (xs ++ ys) ≡ (member eq a xs || member eq a ys)
  member-append a [] ys = refl
  member-append a (x ∷ xs) ys = ground (arith, member-append a xs ys)

  pub Unique-append :
      (xs ys : List A)
      → Unique eq xs
      → Unique eq ys
      → ((a : A) → member eq a xs ≡ true → member eq a ys ≡ false)
      → IsEquality eq
      → Unique eq (xs ++ ys)
  Unique-append [] ys hx hy apart e = hy
  Unique-append (x ∷ xs) ys hx hy apart e =
      let outside : member eq x ys ≡ false = apart x (rw (e.reflexive x) refl) in
      (
        rw (member-append x xs ys, hx.0, outside) refl,
        Unique-append xs ys hx.1 hy (λ a h. apart a (ground (arith, h))) e,
      )

  -- What a test says of all elements, it says of each member.
  pub all-member :
      (p : A → Bool) (xs : List A) (a : A)
      → IsEquality eq
      → all p xs ≡ true
      → member eq a xs ≡ true
      → p a ≡ true
  all-member p [] a e h m = cc
  all-member p (x ∷ xs) a e h m = elim (Bool-cases (eq x a)) [
    | inl k ↦ subst (λ b. p b ≡ true) (e.sound x a k) (and-left (p x) (all p xs) h)
    | inr k ↦ all-member p xs a e (and-right (p x) (all p xs) h) (ground (arith, m, k))
  ]

  pub member-map {κ} :
      {B : Type κ} (f : B → A) (b : B) (bs : List B)
      → IsEquality eq
      → Memᴰ b bs
      → member eq (f b) (map f bs) ≡ true
  member-map f b [] e m = elim m [ ]
  member-map f b (x ∷ xs) e (Memᴰ.head k) = rw (sym (ap f k), e.reflexive (f b)) refl
  member-map f b (x ∷ xs) e (Memᴰ.tail m) = rw (member-map f b xs e m) (ground arith)

  pub all-distinct : (p : A → Bool) (xs : List A) → all p xs ≡ true → all p (distinct eq xs) ≡ true
  all-distinct p [] h = refl
  all-distinct p (x ∷ xs) h =
      let kept =
        all-filter p (λ y. not (eq y x)) (distinct eq xs)
          (all-distinct p xs (and-right (p x) (all p xs) h)) in
      rw (and-left (p x) (all p xs) h, kept) refl

pub pair-IsEquality {ℓ κ} :
    {A : Type ℓ} {B : Type κ} (eq : A → A → Bool) (eq' : B → B → Bool)
    → IsEquality eq
    → IsEquality eq'
    → IsEquality (λ (x : A × B) (y : A × B). eq x.0 y.0 && eq' x.1 y.1)
pair-IsEquality eq eq' e e' = record {
  reflexive = λ x. (rw (e.reflexive x.0, e'.reflexive x.1) refl);
  sound = λ x y h.
      let first = e.sound x.0 y.0 (and-left (eq x.0 y.0) (eq' x.1 y.1) h) in
      let second = e'.sound x.1 y.1 (and-right (eq x.0 y.0) (eq' x.1 y.1) h) in
      λ i. (first i, second i);
}
