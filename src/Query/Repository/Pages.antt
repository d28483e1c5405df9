-- ===== src/Query/Repository/Pages.antt =====
-- The two statements of a continued listing, as one sequence of rows.
use local_network_kafka_moni.Base.{
  ℕ, suc, ◌+◌, ◌-◌, ◌≡◌, refl, sym, ap, ◌∙◌, inl, inr, Bool, true, false, ◌&&◌, ◌||◌, List, ◌++◌,
  Option, none, some, ltb, leb, length, take, filter, filter-cong, append_nil, take-append,
  take-take-suc, length-take, Bool-cases, if◌then◌else◌, arith,
}
use local_network_kafka_moni.Base.Sort.{sort}
use local_network_kafka_moni.Query.Models.{
  Text, DailyReliabilityFilters, CursorKey, DailyReliabilityRow,
}
use local_network_kafka_moni.Query.Repository.{
  page, invalid_limit, matches, key_lt, row_le, same_date_after, older_date, select, fetch_from,
  fetch, list_daily,
}
use local_network_kafka_moni.Query.Repository.Order.{sort-split}

-- The keys after the cursor, all of them without one.
unfoldable pub after : (Text → Text → Bool) → Option CursorKey → CursorKey → Bool
after text_lt none key = true
after text_lt (some cursor) key = key_lt text_lt cursor key

-- The rows of the view that match the filters and come after the cursor, in the order of the listing.
unfoldable pub rest :
    {F : Type 0}
    → (Text → Text → Bool)
    → DailyReliabilityFilters
    → Option CursorKey
    → List (DailyReliabilityRow F)
    → List (DailyReliabilityRow F)
unfolding after
rest text_lt filters cursor view =
    sort (row_le text_lt)
      (filter (λ row. matches filters row.key && after text_lt cursor row.key) view)

module _ {F : Type 0} (text_lt : Text → Text → Bool) (filters : DailyReliabilityFilters) where
  older_last :
      (cursor : CursorKey) (a b : DailyReliabilityRow F)
      → (matches filters a.key && same_date_after text_lt cursor a.key) ≡ true
      → (matches filters b.key && older_date cursor b.key) ≡ true
      → (row_le text_lt a b ≡ true) × (row_le text_lt b a ≡ false)
  unfolding row_le key_lt same_date_after older_date
  older_last cursor a b h k = (ground arith, ground arith)

  two_parts :
      (cursor : CursorKey) (row : DailyReliabilityRow F)
      → (matches filters row.key && key_lt text_lt cursor row.key) ≡ (
          (matches filters row.key && same_date_after text_lt cursor row.key)
          || (matches filters row.key && older_date cursor row.key))
  unfolding key_lt same_date_after older_date
  two_parts cursor row = ground arith

  no_overlap :
      (cursor : CursorKey) (row : DailyReliabilityRow F)
      → (matches filters row.key && same_date_after text_lt cursor row.key) ≡ true
      → (matches filters row.key && older_date cursor row.key) ≡ false
  unfolding same_date_after older_date
  no_overlap cursor row h = ground arith

  rest-split :
      (cursor : CursorKey) (view : List (DailyReliabilityRow F))
      → rest text_lt filters (some cursor) view
        ≡ sort
            (row_le text_lt)
            (filter (λ row. matches filters row.key && same_date_after text_lt cursor row.key) view)
          ++ sort
              (row_le text_lt)
              (filter (λ row. matches filters row.key && older_date cursor row.key) view)
  unfolding rest
  rest-split cursor view =
      ap (sort (row_le text_lt)) (filter-cong _ _ (two_parts cursor) view)
      ∙ sort-split (row_le text_lt) _ _ (older_last cursor) (no_overlap cursor) view

  fetch_from-rest :
      (cursor : CursorKey) (n : ℕ) (view : List (DailyReliabilityRow F))
      → fetch_from text_lt filters cursor n view ≡ take n (rest text_lt filters (some cursor) view)
  unfolding fetch_from select
  fetch_from-rest cursor n view =
      let first =
        sort (row_le text_lt) (
          filter (λ row. matches filters row.key && same_date_after text_lt cursor row.key) view) in
      let second =
        sort (row_le text_lt)
          (filter (λ row. matches filters row.key && older_date cursor row.key) view) in
      let whole : take n (rest text_lt filters (some cursor) view)
          ≡ take n first ++ take (n - length (take n first)) second =
        ap (take n) (rest-split cursor view) ∙ take-append n first second in
      elim (Bool-cases (ltb 0 (n - length (take n first)))) [
        | inl e ↦ rw e (sym whole)
        | inr e ↦
            let full : n - length (take n first) ≡ 0 = ground (arith, e) in
            rw e (
              sym
                (whole ∙ ap (λ k. take n first ++ take k second) full ∙ append_nil (take n first)))
      ]

  fetch-rest :
      (cursor : Option CursorKey) (n : ℕ) (view : List (DailyReliabilityRow F))
      → fetch text_lt filters cursor n view ≡ take n (rest text_lt filters cursor view)
  unfolding fetch select rest after
  fetch-rest none n view =
      ap (λ l. take n (sort (row_le text_lt) l)) (filter-cong _ _ (λ row. (ground arith)) view)
  fetch-rest (some cursor) n view = fetch_from-rest cursor n view

-- A page of at most 1 to 200 rows holds the first rows, as many as the limit allows, of those that
-- match the filters and come after the cursor in the order of the listing, and it says that there
-- are more exactly when some of these rows are left; any other limit is refused.
pub list_daily-rest :
    {F : Type 0} (text_lt : Text → Text → Bool) (filters : DailyReliabilityFilters)
    (cursor : Option CursorKey) (limit : ℕ) (view : List (DailyReliabilityRow F))
    → list_daily text_lt filters cursor limit view ≡ (
        if leb 1 limit && leb limit 200
        then page (record {
          rows = take limit (rest text_lt filters cursor view);
          has_more = ltb limit (length (rest text_lt filters cursor view));
        })
        else invalid_limit)
unfolding list_daily
list_daily-rest text_lt filters cursor limit view =
    elim (Bool-cases (leb 1 limit && leb limit 200)) [
      | inl e ↦
          let all_rows = rest text_lt filters cursor view in
          let next : limit + 1 ≡ suc limit = omega arith in
          let short = length-take (suc limit) all_rows in
          let more : ltb limit (length (take (suc limit) all_rows)) ≡ ltb limit (length all_rows) =
            ground arith in
          rw
            (
              e,
              fetch-rest text_lt filters cursor (limit + 1) view,
              next,
              take-take-suc limit all_rows,
              more,
            )
            refl
      | inr e ↦ rw e refl
    ]
