-- ===== src/Query/Repository.antt =====
-- services/query-api/src/netpulse_query_api/repository.py: one page of the view `v_daily_probe_reliability`. The
-- database is outside: `select` is the statement it is asked to run, on the rows of the view, and the
-- order of texts is that of its collation.
pub mod Order
pub mod Pages
use local_network_kafka_moni.Base.{
  ℕ, suc, ◌+◌, ◌-◌, Bool, true, false, not, ◌&&◌, ◌||◌, List, [], ◌∷◌, ◌++◌, Option, none, some,
  leb, ltb, ◌==◌, length, take, filter, if◌then◌else◌,
}
use local_network_kafka_moni.Base.Sort.{sort}
use local_network_kafka_moni.Query.Models.{
  SourceKind, network_measurement, service_check, Text, DailyReliabilityFilters, CursorKey,
  DailyReliabilityRow,
}
use local_network_kafka_moni.Query.Cursor.Format.{same}

pub record ReliabilityPage (F : Type 0) : Type 0 where
  pub rows : List (DailyReliabilityRow F)
  pub has_more : Bool

pub data Listing (F : Type 0) : Type 0 where
  page : ReliabilityPage F → Listing F
  -- `ValueError("limit must be an integer between 1 and 200")`
  invalid_limit : Listing F

-- The values of the enumeration, as code points.
unfoldable pub source_value : SourceKind → Text
source_value network_measurement =
    110 ∷ 101 ∷ 116 ∷ 119 ∷ 111 ∷ 114 ∷ 107 ∷ 95 ∷ 109 ∷ 101 ∷ 97 ∷ 115 ∷ 117 ∷ 114 ∷ 101 ∷ 109
    ∷ 101 ∷ 110 ∷ 116 ∷ []
source_value service_check =
    115 ∷ 101 ∷ 114 ∷ 118 ∷ 105 ∷ 99 ∷ 101 ∷ 95 ∷ 99 ∷ 104 ∷ 101 ∷ 99 ∷ 107 ∷ []

-- A condition of `WHERE` on a filter that may be absent.
unfoldable pub given : {A : Type 0} → Option A → (A → Bool) → Bool
given none test = true
given (some value) test = test value

unfoldable pub matches : DailyReliabilityFilters → CursorKey → Bool
unfolding given same source_value
matches filters key =
    given filters.from_date (λ value. leb value key.date_utc)
    && given filters.through_date (λ value. leb key.date_utc value)
    && given filters.agent_id (λ value. same key.agent_id value)
    && given filters.endpoint_id (λ value. same key.endpoint_id value)
    && given filters.source_kind (λ value. same (source_value key.source_kind) (source_value value))
    && given filters.probe_type (λ value. same key.probe_type value)

-- One order, and where it does not decide another one.
abbrev pub lex : {A : Type 0} → (A → A → Bool) → (A → A → Bool) → A → A → Bool
lex first second a b = first a b || (not (first b a) && second a b)

-- `_OLDER_DATE_CURSOR_SQL`
unfoldable pub older_date : CursorKey → CursorKey → Bool
older_date cursor key = ltb key.date_utc cursor.date_utc

module _ (text_lt : Text → Text → Bool) where
  -- The comparison of the four columns, `(...) < (...)`.
  unfoldable pub columns_lt : CursorKey → CursorKey → Bool
  unfolding source_value
  columns_lt =
      lex (λ a b. text_lt a.agent_id b.agent_id)
        (lex (λ a b. text_lt a.endpoint_id b.endpoint_id)
          (lex (λ a b. text_lt (source_value a.source_kind) (source_value b.source_kind))
            (λ a b. text_lt a.probe_type b.probe_type)))

  -- `ORDER BY date_utc DESC, agent_id ASC, ...`
  unfoldable pub key_lt : CursorKey → CursorKey → Bool
  unfolding columns_lt
  key_lt = lex (λ a b. ltb b.date_utc a.date_utc) columns_lt

  -- `_SAME_DATE_CURSOR_SQL`
  unfoldable pub same_date_after : CursorKey → CursorKey → Bool
  same_date_after cursor key = (key.date_utc == cursor.date_utc) && columns_lt cursor key

module _ {F : Type 0} (text_lt : Text → Text → Bool) where
  unfoldable pub row_le : DailyReliabilityRow F → DailyReliabilityRow F → Bool
  row_le a b = not (key_lt text_lt b.key a.key)

  -- `SELECT ... WHERE ... ORDER BY ... LIMIT ...`
  unfoldable pub select :
      (CursorKey → Bool) → ℕ → List (DailyReliabilityRow F) → List (DailyReliabilityRow F)
  select condition limit view = take limit (sort row_le (filter (λ row. condition row.key) view))

  unfoldable pub fetch_from :
      DailyReliabilityFilters
      → CursorKey
      → (target_count : ℕ) → List (DailyReliabilityRow F)
      → List (DailyReliabilityRow F)
  unfolding select matches same_date_after older_date
  fetch_from filters cursor target_count view =
      let records =
        select (λ key. matches filters key && same_date_after text_lt cursor key) target_count
          view in
      let remaining = target_count - length records in
      if ltb 0 remaining
      then records ++ select (λ key. matches filters key && older_date cursor key) remaining view
      else records

  unfoldable pub fetch :
      DailyReliabilityFilters
      → Option CursorKey
      → (target_count : ℕ) → List (DailyReliabilityRow F)
      → List (DailyReliabilityRow F)
  unfolding select matches
  fetch filters none target_count view = select (matches filters) target_count view
  fetch filters (some cursor) target_count view = fetch_from filters cursor target_count view

  -- The rows of the view are ones that `DailyReliabilityRow.model_validate` accepts.
  unfoldable pub list_daily :
      DailyReliabilityFilters
      → Option CursorKey
      → (limit : ℕ) → List (DailyReliabilityRow F)
      → Listing F
  list_daily filters cursor limit view =
      if not (leb 1 limit && leb limit 200)
      then invalid_limit
      else let records = fetch filters cursor (limit + 1) view in
        page (record { rows = take limit records; has_more = ltb limit (length records) })
