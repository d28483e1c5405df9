-- ===== src/Query/Api.antt =====
-- services/query-api/src/netpulse_query_api/api.py: the route `/v1/reliability/daily` once its query is read, and a client that
-- follows its cursors. A cursor is the key that it decodes to.
pub mod Strict
pub mod Follow
use local_network_kafka_moni.Base.{
  ℕ, zero, suc, Bool, true, false, List, [], ◌∷◌, ◌++◌, Option, none, some, nonempty, ◌&&◌,
  if◌then◌else◌,
}
use local_network_kafka_moni.Query.Models.{
  Text, DailyReliabilityFilters, CursorKey, DailyReliabilityRow,
}
use local_network_kafka_moni.Query.Repository.{
  ReliabilityPage, Listing, page, invalid_limit, list_daily,
}

-- `items[-1]`, if there is one.
unfoldable pub last_of {ℓ} : {A : Type ℓ} → List A → Option A
last_of [] = none
last_of (x ∷ []) = some x
last_of (x ∷ y ∷ xs) = last_of (y ∷ xs)

-- The key of `next_cursor`.
unfoldable pub next_key : {F : Type 0} → ReliabilityPage F → Option CursorKey
unfolding last_of
next_key p =
    if p.has_more then elim (last_of p.rows) [ none ↦ none | some row ↦ some row.key ] else none

module _ {F : Type 0} (text_lt : Text → Text → Bool) (filters : DailyReliabilityFilters) (limit : ℕ)
    (view : List (DailyReliabilityRow F)) where
  -- The rows of the pages from a cursor on, of at most as many pages as the fuel.
  unfoldable pub follow : (fuel : ℕ) → Option CursorKey → List (DailyReliabilityRow F)
  unfolding next_key
  follow zero cursor = []
  follow (suc fuel) cursor =
      let more = follow fuel in
      elim (list_daily text_lt filters cursor limit view) [
        | invalid_limit ↦ []
        | page p ↦ p.rows ++ elim (next_key p) [ none ↦ [] | some key ↦ more (some key) ]
      ]
