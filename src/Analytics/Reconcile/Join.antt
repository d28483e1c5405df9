-- ===== src/Analytics/Reconcile/Join.antt =====
-- The full join of a table with itself, by a key that no two rows share: each row is paired with itself.
use local_network_kafka_moni.Base.{
  Bool, true, false, not, List, [], ◌∷◌, map, Option, some, ◌≡◌, refl, sym, subst, all, any, filter,
  arith, inl, inr, Bool-cases, Memᴰ,
}
use local_network_kafka_moni.Base.Grouping.{IsEquality, Unique, member, member-map, all-append}
use local_network_kafka_moni.Analytics.Reconcile.{
  matches, pair_with, left_rows, right_rows, full_join,
}

module _ {K X : Type 0} (eq : K → K → Bool) (e : IsEquality eq) (key : X → K) where
  filter_key-absent :
      (k : K) (xs : List X) → member eq k (map key xs) ≡ false → filter (λ y. eq (key y) k) xs ≡ []
  filter_key-absent k [] h = refl
  filter_key-absent k (x ∷ xs) h =
      let other : eq (key x) k ≡ false = ground (arith, h) in
      rw other (filter_key-absent k xs (ground (arith, h)))

  pub matches_self :
      (x : X) (xs : List X) → Unique eq (map key xs) → Memᴰ x xs → matches eq key key x xs ≡ x ∷ []
  unfolding matches
  matches_self x [] u m = elim m [ ]
  matches_self x (y ∷ xs) u (Memᴰ.head k) =
      subst (λ z. filter (λ v. eq (key v) (key z)) (y ∷ xs) ≡ z ∷ []) (sym k)
        (rw (e.reflexive (key y), filter_key-absent (key y) xs u.0) refl)
  matches_self x (y ∷ xs) u (Memᴰ.tail m) =
      let there = member-map eq key x xs e m in
      let other : eq (key y) (key x) ≡ false = elim (Bool-cases (eq (key y) (key x))) [
        | inl k ↦
            let one_key = e.sound (key y) (key x) k in
            let nowhere = subst (λ b. member eq b (map key xs) ≡ false) one_key u.0 in cc
        | inr k ↦ k
      ] in
      rw other (matches_self x xs u.1 m)

  pub any-Mem : (y : X) (xs : List X) → Memᴰ y xs → any (λ x. eq (key y) (key x)) xs ≡ true
  any-Mem y [] m = elim m [ ]
  any-Mem y (x ∷ xs) (Memᴰ.head k) =
      rw (subst (λ z. eq (key y) (key z) ≡ true) k (e.reflexive (key y))) refl
  any-Mem y (x ∷ xs) (Memᴰ.tail m) = rw (any-Mem y xs m) (ground arith)

  right-nothing :
      (xs ys : List X) → ((x : X) → Memᴰ x ys → Memᴰ x xs) → right_rows eq key key xs ys ≡ []
  unfolding right_rows
  right-nothing xs [] m = refl
  right-nothing xs (y ∷ ys) m =
      rw (any-Mem y xs (m y (Memᴰ.head refl))) (right-nothing xs ys (λ z k. m z (Memᴰ.tail k)))

  module _ (mismatch : (Option X) × (Option X) → Bool)
      (same_row : (x : X) → mismatch (some x, some x) ≡ false) where
    left-agreed :
        (xs ys : List X)
        → Unique eq (map key ys)
        → ((x : X) → Memᴰ x xs → Memᴰ x ys)
        → all (λ pair. not (mismatch pair)) (left_rows eq key key xs ys) ≡ true
    unfolding left_rows pair_with
    left-agreed [] ys u m = refl
    left-agreed (x ∷ xs) ys u m =
        rw (matches_self x ys u (m x (Memᴰ.head refl)), same_row x)
          (left-agreed xs ys u (λ z k. m z (Memᴰ.tail k)))

    pub full_join-agreed :
        (xs : List X)
        → Unique eq (map key xs)
        → all (λ pair. not (mismatch pair)) (full_join eq key key xs xs) ≡ true
    unfolding full_join
    full_join-agreed xs u =
        all-append _ (left_rows eq key key xs xs) _ (left-agreed xs xs u (λ x m. m))
          (rw (right-nothing xs xs (λ x m. m)) refl)
