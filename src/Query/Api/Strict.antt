-- ===== src/Query/Api/Strict.antt =====
-- Lists without two elements of the same rank, sorted by a strict order.
use local_network_kafka_moni.Base.{
  ℕ, zero, suc, ◌≡◌, refl, sym, ap, subst, take-All, inl, inr, Bool, true, false, not, ◌&&◌, ◌||◌,
  List, [], ◌∷◌, some, All, All-mono, filter, filter-All, take, drop, Bool-cases, arith,
}
use local_network_kafka_moni.Base.Sort.{insert, sort, insert-All, sort-All, IsSorted}
use local_network_kafka_moni.Query.Repository.Order.{IsStrictOrder, lt_trans}
use local_network_kafka_moni.Query.Api.{last_of}

pub filter-true :
    {A : Type 0} (p : A → Bool) (xs : List A) → All (λ x. p x ≡ true) xs → filter p xs ≡ xs
filter-true p [] h = refl
filter-true p (x ∷ xs) h = rw h.0 (ap (λ l. x ∷ l) (filter-true p xs h.1))

pub filter-filter :
    {A : Type 0} (p q : A → Bool) (xs : List A)
    → filter p (filter q xs) ≡ filter (λ x. q x && p x) xs
filter-filter p q [] = refl
filter-filter p q (x ∷ xs) = elim (Bool-cases (q x)) [
  | inl e ↦ elim (Bool-cases (p x)) [
    | inl k ↦ rw (e, k) (ap (λ l. x ∷ l) (filter-filter p q xs))
    | inr k ↦ rw (e, k) (filter-filter p q xs)
  ]
  | inr e ↦ rw e (filter-filter p q xs)
]

some_inj : {A : Type 0} {x y : A} → some x ≡ some y → x ≡ y
some_inj e = cc

pub last_of-All :
    {A : Type 0} (P : A → Type 0) (xs : List A) (x : A) → All P xs → last_of xs ≡ some x → P x
unfolding last_of
last_of-All P [] x h e = cc
last_of-All P (y ∷ []) x h e = subst P (some_inj e) h.0
last_of-All P (y ∷ z ∷ xs) x h e = last_of-All P (z ∷ xs) x h.1 e

-- Any two elements are ordered one way or the other.
abbrev pub AllApart : {A : Type 0} → (A → A → Bool) → List A → Type 0
AllApart lt [] = Unit
AllApart lt (x ∷ xs) = All (λ y. (lt x y || lt y x) ≡ true) xs × AllApart lt xs

pub filter-AllApart :
    {A : Type 0} (lt : A → A → Bool) (p : A → Bool) (xs : List A)
    → AllApart lt xs
    → AllApart lt (filter p xs)
filter-AllApart lt p [] h = tt
filter-AllApart lt p (x ∷ xs) h = elim (Bool-cases (p x)) [
  | inl e ↦ rw e (filter-All _ p xs h.0, filter-AllApart lt p xs h.1)
  | inr e ↦ rw e (filter-AllApart lt p xs h.1)
]

module _ {A : Type 0} (lt le : A → A → Bool) (s : IsStrictOrder lt)
    (is_le : (a b : A) → le a b ≡ not (lt b a)) where
  insert-IsSorted_strict :
      (a : A) (xs : List A)
      → All (λ y. (lt a y || lt y a) ≡ true) xs
      → IsSorted lt xs
      → IsSorted lt (insert le a xs)
  unfolding insert
  insert-IsSorted_strict a [] apart h = (tt, tt)
  insert-IsSorted_strict a (x ∷ xs) apart h = elim (Bool-cases (lt x a)) [
    | inl e ↦
        rw (is_le a x, e)
          (insert-All le (λ y. lt x y ≡ true) a xs e h.0, insert-IsSorted_strict a xs apart.1 h.1)
    | inr e ↦
        let first : lt a x ≡ true = ground (arith, apart.0) in
        rw (is_le a x, e) ((first, All-mono _ _ (λ y k. lt_trans lt s a x y first k) xs h.0), h)
  ]

  pub sort-IsSorted_strict : (xs : List A) → AllApart lt xs → IsSorted lt (sort le xs)
  unfolding sort
  sort-IsSorted_strict [] h = tt
  sort-IsSorted_strict (x ∷ xs) h =
      insert-IsSorted_strict x (sort le xs) (sort-All le _ xs h.0) (sort-IsSorted_strict xs h.1)

  lt_irrefl : (a : A) → lt a a ≡ false
  lt_irrefl a = elim (Bool-cases (lt a a)) [ inl e ↦ s.asym a a e | inr e ↦ e ]

  -- The elements after the last one of a first part are those of the second part.
  pub filter-after_last :
      (n : ℕ) (xs : List A) (x : A)
      → IsSorted lt xs
      → last_of (take (suc n) xs) ≡ some x
      → filter (lt x) xs ≡ drop (suc n) xs
  unfolding last_of
  filter-after_last n [] x h e = refl
  filter-after_last zero (y ∷ ys) x h e =
      subst (λ w. filter (lt w) (y ∷ ys) ≡ ys) (some_inj e)
        (rw (lt_irrefl y) (filter-true (lt y) ys h.0))
  filter-after_last (suc n) (y ∷ []) x h e = rw (sym (some_inj e), lt_irrefl y) refl
  filter-after_last (suc n) (y ∷ z ∷ zs) x h e =
      let below : lt y x ≡ true =
        last_of-All (λ w. lt y w ≡ true) (take (suc n) (z ∷ zs)) x (take-All _ (suc n) (z ∷ zs) h.0)
          e in
      rw (s.asym y x below) (filter-after_last n (z ∷ zs) x h.1 e)
