-- ===== src/Query/Api/Follow.antt =====
-- Following the cursors lists every matching row once, in order.
use local_network_kafka_moni.Base.{
  ℕ, zero, suc, ◌≤◌, ◌<◌, ◌≡◌, refl, sym, ap, ◌∙◌, subst, inl, inr, Bool, true, false, not, ◌&&◌,
  List, [], ◌∷◌, ◌++◌, Option, none, some, All, All-mono, All-filter, take-All, filter, filter-cong,
  take, drop, length, append_nil, ltb, leb, Bool-cases, arith,
}
use local_network_kafka_moni.Base.Sort.{sort, sort-All, IsSorted, length-sort}
use local_network_kafka_moni.Query.Models.{
  Text, DailyReliabilityFilters, CursorKey, DailyReliabilityRow,
}
use local_network_kafka_moni.Query.Repository.{matches, key_lt, row_le}
use local_network_kafka_moni.Query.Repository.Order.{
  IsStrictOrder, lt_trans, key_lt-IsStrictOrder, filter-sort,
}
use local_network_kafka_moni.Query.Repository.Pages.{after, rest, list_daily-rest}
use local_network_kafka_moni.Query.Api.{last_of, next_key, follow}
use local_network_kafka_moni.Query.Api.Strict.{
  filter-filter, last_of-All, AllApart, filter-AllApart, sort-IsSorted_strict, filter-after_last,
}

take-drop : {A : Type 0} (n : ℕ) (xs : List A) → take n xs ++ drop n xs ≡ xs
take-drop zero xs = refl
take-drop (suc n) [] = refl
take-drop (suc n) (x ∷ xs) = ap (λ l. x ∷ l) (take-drop n xs)

take_short : {A : Type 0} (n : ℕ) (xs : List A) → ltb n (length xs) ≡ false → take n xs ≡ xs
take_short zero [] h = refl
take_short zero (x ∷ xs) h = absurd (ground (arith, h))
take_short (suc n) [] h = refl
take_short (suc n) (x ∷ xs) h = ap (λ l. x ∷ l) (take_short n xs (ground (arith, h)))

length-drop_lt :
    {A : Type 0} (n : ℕ) (xs : List A)
    → ltb (suc n) (length xs) ≡ true
    → length (drop (suc n) xs) < length xs
length-drop_lt n [] h = ground (arith, h)
length-drop_lt zero (x ∷ xs) h = omega arith
length-drop_lt (suc n) (x ∷ xs) h =
    let shorter = length-drop_lt n xs (ground (arith, h)) in omega arith

last_of-take :
    {A : Type 0} (n : ℕ) (xs : List A)
    → ltb (suc n) (length xs) ≡ true
    → (x : A) × (last_of (take (suc n) xs) ≡ some x)
unfolding last_of
last_of-take n [] h = absurd (ground (arith, h))
last_of-take zero (x ∷ xs) h = (x, refl)
last_of-take (suc n) (x ∷ []) h = absurd (ground (arith, h))
last_of-take (suc n) (x ∷ y ∷ xs) h = last_of-take n (y ∷ xs) (ground (arith, h))

-- The keys of any two rows are ordered: the view groups by the key.
abbrev pub row_lt :
    {F : Type 0} → (Text → Text → Bool) → DailyReliabilityRow F → DailyReliabilityRow F → Bool
row_lt text_lt a b = key_lt text_lt a.key b.key

module _ {F : Type 0} (text_lt : Text → Text → Bool) (strict : IsStrictOrder text_lt)
    (filters : DailyReliabilityFilters) (view : List (DailyReliabilityRow F))
    (apart : AllApart (row_lt text_lt) view) where
  row_lt-IsStrictOrder : IsStrictOrder (row_lt {F = F} text_lt)
  row_lt-IsStrictOrder = record {
    asym = λ a b h. (key_lt-IsStrictOrder text_lt strict).asym a.key b.key h;
    cotrans = λ a b c h. (key_lt-IsStrictOrder text_lt strict).cotrans a.key b.key c.key h;
  }

  row_le_trans :
      (a b c : DailyReliabilityRow F)
      → row_le text_lt a b ≡ true
      → row_le text_lt b c ≡ true
      → row_le text_lt a c ≡ true
  unfolding row_le
  row_le_trans a b c h k = elim (Bool-cases (key_lt text_lt c.key a.key)) [
    | inl e ↦ let split = row_lt-IsStrictOrder.cotrans c b a e in ground arith
    | inr e ↦ rw e refl
  ]

  row_le_total :
      (a b : DailyReliabilityRow F) → row_le text_lt a b ≡ false → row_le text_lt b a ≡ true
  unfolding row_le
  row_le_total a b h = let back = row_lt-IsStrictOrder.asym b a (ground arith) in rw back refl

  row_le-not : (a b : DailyReliabilityRow F) → row_le text_lt a b ≡ not (row_lt text_lt b a)
  unfolding row_le
  row_le-not a b = refl

  rest-IsSorted :
      (cursor : Option CursorKey) → IsSorted (row_lt text_lt) (rest text_lt filters cursor view)
  unfolding rest row_le
  rest-IsSorted cursor =
      sort-IsSorted_strict (row_lt text_lt) (row_le text_lt) row_lt-IsStrictOrder (λ a b. refl) _
        (filter-AllApart (row_lt text_lt) _ view apart)

  rest-after :
      (cursor : Option CursorKey)
      → All (λ row. after text_lt cursor row.key ≡ true) (rest text_lt filters cursor view)
  unfolding rest
  rest-after cursor = sort-All (row_le text_lt) _ _ (
      All-mono _ (λ row. after text_lt cursor row.key ≡ true) (λ row h. (ground (arith, h))) _
        (All-filter (λ row. matches filters row.key && after text_lt cursor row.key) view))

  later :
      (cursor : Option CursorKey) (x row : DailyReliabilityRow F)
      → after text_lt cursor x.key ≡ true
      → ((matches filters row.key && after text_lt cursor row.key) && row_lt text_lt x row)
        ≡ (matches filters row.key && row_lt text_lt x row)
  unfolding after
  later none x row h = ground arith
  later (some key) x row h = elim (Bool-cases (row_lt text_lt x row)) [
    | inl e ↦
        let whole =
          lt_trans (key_lt text_lt) (key_lt-IsStrictOrder text_lt strict) key x.key row.key h e in
        rw (whole, e) (ground arith)
    | inr e ↦ rw e (ground arith)
  ]

  -- The rows after a row of the listing.
  rest-filter :
      (cursor : Option CursorKey) (x : DailyReliabilityRow F)
      → after text_lt cursor x.key ≡ true
      → filter (row_lt text_lt x) (rest text_lt filters cursor view)
        ≡ rest text_lt filters (some x.key) view
  unfolding rest after
  rest-filter cursor x h =
      filter-sort (row_le text_lt) (row_lt text_lt x) row_le_trans row_le_total _
      ∙ ap (sort (row_le text_lt)) (
          filter-filter (row_lt text_lt x) _ view
          ∙ filter-cong _ _ (λ row. later cursor x row h) view)

  rest-next :
      (cursor : Option CursorKey) (n : ℕ) (x : DailyReliabilityRow F)
      → last_of (take (suc n) (rest text_lt filters cursor view)) ≡ some x
      → rest text_lt filters (some x.key) view ≡ drop (suc n) (rest text_lt filters cursor view)
  rest-next cursor n x e =
      let rows = rest text_lt filters cursor view in
      sym (
        rest-filter cursor x
          (last_of-All _ (take (suc n) rows) x (take-All _ (suc n) rows (rest-after cursor)) e))
      ∙ filter-after_last (row_lt text_lt) (row_le text_lt) row_lt-IsStrictOrder
          (λ a b. row_le-not a b) n rows x (rest-IsSorted cursor) e

  follow-rest :
      (n : ℕ)
      → suc n ≤ 200
      → (fuel : ℕ) (cursor : Option CursorKey) → length (rest text_lt filters cursor view) < fuel
      → follow text_lt filters (suc n) view fuel cursor ≡ rest text_lt filters cursor view
  unfolding follow next_key
  follow-rest n small zero cursor enough = absurd (omega arith)
  follow-rest n small (suc fuel) cursor enough =
      let rows = rest text_lt filters cursor view in
      let fits : (leb 1 (suc n) && leb (suc n) 200) ≡ true = ground arith in
      elim (Bool-cases (ltb (suc n) (length rows))) [
        | inl e ↦
            let (x, found) = last_of-take n rows e in
            let shorter = length-drop_lt n rows e in
            let after_x = rest-next cursor n x found in
            rw (list_daily-rest text_lt filters cursor (suc n) view, follow, fits, e, found)
              (ap (λ l. take (suc n) rows ++ l)
                  (follow-rest n small fuel (some x.key) (rw after_x (omega arith)) ∙ after_x)
                ∙ take-drop (suc n) rows)
        | inr e ↦
            rw (list_daily-rest text_lt filters cursor (suc n) view, follow, fits, e)
              (append_nil (take (suc n) rows) ∙ take_short (suc n) rows e)
      ]

rest-none :
    {F : Type 0} (text_lt : Text → Text → Bool) (filters : DailyReliabilityFilters)
    (view : List (DailyReliabilityRow F))
    → rest text_lt filters none view
      ≡ sort (row_le text_lt) (filter (λ row. matches filters row.key) view)
unfolding rest after
rest-none text_lt filters view =
    ap (sort (row_le text_lt)) (filter-cong _ _ (λ row. (ground arith)) view)

-- A client that follows the cursors from the first page on gets every row of the view that matches the
-- filters, once and in the order of the listing, whatever page size of 1 to 200 it asks for: as many
-- requests as there are such rows, and one more, are enough. The texts are strictly ordered by the
-- collation, and no two rows of the view have the same key.
pub follow-lists :
    {F : Type 0} (text_lt : Text → Text → Bool) (filters : DailyReliabilityFilters) (limit fuel : ℕ)
    (view : List (DailyReliabilityRow F))
    → IsStrictOrder text_lt
    → AllApart (row_lt text_lt) view
    → 1 ≤ limit
    → limit ≤ 200
    → length (filter (λ row. matches filters row.key) view) < fuel
    → follow text_lt filters limit view fuel none
      ≡ sort (row_le text_lt) (filter (λ row. matches filters row.key) view)
follow-lists text_lt filters zero fuel view strict apart pos small enough = absurd (omega arith)
follow-lists text_lt filters (suc n) fuel view strict apart pos small enough =
    let same = rest-none text_lt filters view in
    follow-rest text_lt strict filters view apart n small fuel none
      (rw same (subst (λ k. k < fuel) (sym (length-sort (row_le text_lt) _)) enough))
    ∙ same
