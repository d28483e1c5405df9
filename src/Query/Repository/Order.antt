-- ===== src/Query/Repository/Order.antt =====
-- The order of the listing is a strict order, and a sort by it may be taken in two parts.
use local_network_kafka_moni.Base.{
  ◌≡◌, refl, sym, ap, ◌∙◌, inl, inr, Bool, true, false, not, ◌||◌, List, [], ◌∷◌, ◌++◌, All,
  All-mono, All-filter, filter-All, filter, Bool-cases, ltb, arith,
}
use local_network_kafka_moni.Base.Sort.{insert, sort, sort-All, IsSorted, sort-IsSorted}
use local_network_kafka_moni.Query.Models.{Text, CursorKey}
use local_network_kafka_moni.Query.Repository.{lex, source_value, columns_lt, key_lt}

-- A strict order whose indifference is transitive.
pub record IsStrictOrder {A : Type 0} (lt : A → A → Bool) : Type 0 where
  pub asym : (a b : A) → lt a b ≡ true → lt b a ≡ false
  pub cotrans : (a b c : A) → lt a c ≡ true → (lt a b || lt b c) ≡ true

module _ {A : Type 0} (lt : A → A → Bool) (s : IsStrictOrder lt) where
  pub lt_trans : (a b c : A) → lt a b ≡ true → lt b c ≡ true → lt a c ≡ true
  lt_trans a b c h k = let split = s.cotrans a c b h in let back = s.asym b c k in ground arith

-- `cotrans` as an equation that holds without a hypothesis.
lt_of :
    {A : Type 0} (f : A → A → Bool)
    → IsStrictOrder f
    → (a b c : A) → (not (f a c) || f a b || f b c) ≡ true
lt_of f s a b c = elim (Bool-cases (f a c)) [
  | inl e ↦ let split = s.cotrans a b c e in ground arith
  | inr e ↦ rw e refl
]

pub lex-IsStrictOrder :
    {A : Type 0} (f g : A → A → Bool) → IsStrictOrder f → IsStrictOrder g → IsStrictOrder (lex f g)
lex-IsStrictOrder f g sf sg = record {
  asym = λ a b h. elim (Bool-cases (f a b)) [
    | inl e ↦ let back = sf.asym a b e in ground arith
    | inr e ↦ let back = sg.asym a b (ground arith) in ground arith
  ];
  cotrans = λ a b c h. elim (Bool-cases (f a c)) [
    | inl e ↦
        let split = sf.cotrans a b c e in
        elim (Bool-cases (f a b)) [ inl k ↦ ground arith | inr k ↦ ground arith ]
    | inr e ↦
        let split = sg.cotrans a b c (ground arith) in
        let left = lt_of f sf b c a in let right = lt_of f sf c a b in ground arith
  ];
}

comap-IsStrictOrder :
    {A B : Type 0} (lt : B → B → Bool) (f : A → B)
    → IsStrictOrder lt
    → IsStrictOrder (λ a b. lt (f a) (f b))
comap-IsStrictOrder lt f s = record {
  asym = λ a b h. s.asym (f a) (f b) h;
  cotrans = λ a b c h. s.cotrans (f a) (f b) (f c) h;
}

date-IsStrictOrder : IsStrictOrder {A = CursorKey} (λ a b. ltb b.date_utc a.date_utc)
date-IsStrictOrder = record { asym = λ a b h. ground arith; cotrans = λ a b c h. ground arith }

pub key_lt-IsStrictOrder :
    (text_lt : Text → Text → Bool) → IsStrictOrder text_lt → IsStrictOrder (key_lt text_lt)
unfolding key_lt columns_lt
key_lt-IsStrictOrder text_lt s = lex-IsStrictOrder _ _ date-IsStrictOrder (
    lex-IsStrictOrder _ _ (comap-IsStrictOrder text_lt (λ a. a.agent_id) s) (
      lex-IsStrictOrder _ _ (comap-IsStrictOrder text_lt (λ a. a.endpoint_id) s) (
        lex-IsStrictOrder _ _ (comap-IsStrictOrder text_lt (λ a. source_value a.source_kind) s)
          (comap-IsStrictOrder text_lt (λ a. a.probe_type) s))))

module _ {A : Type 0} (le : A → A → Bool) where
  insert-left :
      (a : A) (xs ys : List A)
      → All (λ y. le a y ≡ true) ys
      → insert le a (xs ++ ys) ≡ insert le a xs ++ ys
  unfolding insert
  insert-left a [] [] h = refl
  insert-left a [] (y ∷ ys) h = rw h.0 refl
  insert-left a (x ∷ xs) ys h = elim (Bool-cases (le a x)) [
    | inl e ↦ rw e refl
    | inr e ↦ rw e (ap (λ l. x ∷ l) (insert-left a xs ys h))
  ]

  insert-right :
      (a : A) (xs ys : List A)
      → All (λ x. le a x ≡ false) xs
      → insert le a (xs ++ ys) ≡ xs ++ insert le a ys
  unfolding insert
  insert-right a [] ys h = refl
  insert-right a (x ∷ xs) ys h = rw h.0 (ap (λ l. x ∷ l) (insert-right a xs ys h.1))

  insert-front : (a : A) (xs : List A) → All (λ x. le a x ≡ true) xs → insert le a xs ≡ a ∷ xs
  unfolding insert
  insert-front a [] h = refl
  insert-front a (x ∷ xs) h = rw h.0 refl

  -- The elements of two kinds, those of the first before those of the second.
  module _ (p q : A → Bool)
      (before : (a b : A) → p a ≡ true → q b ≡ true → (le a b ≡ true) × (le b a ≡ false))
      (apart : (a : A) → p a ≡ true → q a ≡ false) where
    pub sort-split :
        (xs : List A)
        → sort le (filter (λ x. p x || q x) xs) ≡ sort le (filter p xs) ++ sort le (filter q xs)
    unfolding sort
    sort-split [] = refl
    sort-split (x ∷ xs) = elim (Bool-cases (p x)) [
      | inl e ↦
          rw (e, apart x e)
            (ap (insert le x) (sort-split xs)
              ∙ insert-left x _ _ (
                  sort-All le _ _
                    (All-mono _ _ (λ b h. (before x b e h).0) (filter q xs) (All-filter q xs))))
      | inr e ↦ elim (Bool-cases (q x)) [
        | inl k ↦
            rw (e, k)
              (ap (insert le x) (sort-split xs)
                ∙ insert-right x _ _ (
                    sort-All le _ _
                      (All-mono _ _ (λ a h. (before a x h k).1) (filter p xs) (All-filter p xs))))
        | inr k ↦ rw (e, k) (sort-split xs)
      ]
    ]

  -- A filter of a sorted list, with one element more.
  module _ (p : A → Bool) (trans : (a b c : A) → le a b ≡ true → le b c ≡ true → le a c ≡ true)
      (total : (a b : A) → le a b ≡ false → le b a ≡ true) where
    below :
        (a x : A) (xs : List A)
        → le a x ≡ true
        → All (λ y. le x y ≡ true) xs
        → All (λ y. le a y ≡ true) xs
    below a x xs h k = All-mono _ _ (λ y m. trans a x y h m) xs k

    filter-insert_kept :
        (a : A) (xs : List A)
        → p a ≡ true
        → IsSorted le xs
        → filter p (insert le a xs) ≡ insert le a (filter p xs)
    unfolding insert
    filter-insert_kept a [] e h = rw e refl
    filter-insert_kept a (x ∷ xs) e h = elim (Bool-cases (le a x)) [
      | inl k ↦ elim (Bool-cases (p x)) [
        | inl m ↦ rw (k, e, m, k) refl
        | inr m ↦
            rw (k, e, m)
              (sym (insert-front a (filter p xs) (filter-All _ p xs (below a x xs k h.0))))
      ]
      | inr k ↦ elim (Bool-cases (p x)) [
        | inl m ↦ rw (k, m, k) (ap (λ l. x ∷ l) (filter-insert_kept a xs e h.1))
        | inr m ↦ rw (k, m) (filter-insert_kept a xs e h.1)
      ]
    ]

    filter-insert_dropped :
        (a : A) (xs : List A) → p a ≡ false → filter p (insert le a xs) ≡ filter p xs
    unfolding insert
    filter-insert_dropped a [] e = rw e refl
    filter-insert_dropped a (x ∷ xs) e = elim (Bool-cases (le a x)) [
      | inl k ↦ rw (k, e) refl
      | inr k ↦ rw k (ground (arith, filter-insert_dropped a xs e))
    ]

    pub filter-sort : (xs : List A) → filter p (sort le xs) ≡ sort le (filter p xs)
    unfolding sort
    filter-sort [] = refl
    filter-sort (x ∷ xs) = elim (Bool-cases (p x)) [
      | inl e ↦ rw e (
          filter-insert_kept x (sort le xs) e (sort-IsSorted le le trans (λ a b h. h) total xs)
          ∙ ap (insert le x) (filter-sort xs))
      | inr e ↦ rw e (filter-insert_dropped x (sort le xs) e ∙ filter-sort xs)
    ]
