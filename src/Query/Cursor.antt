-- ===== src/Query/Cursor.antt =====
-- services/query-api/src/netpulse_query_api/cursor.py: the cursors that continue a listing. Bytes are numbers;
-- the standard library's base64, JSON and SHA-256 and pydantic's reading of a version 1 key are
-- parameters.
pub mod Format
pub mod RoundTrip
use local_network_kafka_moni.Base.{
  ℕ, zero, suc, ◌+◌, ◌-◌, ◌*◌, ◌/◌, ◌%◌, String, Bool, true, false, not, ◌&&◌, ◌||◌, List, [], ◌∷◌,
  ◌++◌, Option, none, some, leb, ltb, ◌==◌, str_eq, length, take, drop, all, any, if◌then◌else◌,
}
use local_network_kafka_moni.Base.Options.{◌>>=◌}
use local_network_kafka_moni.Query.Models.{
  SourceKind, network_measurement, service_check, Text, DailyReliabilityFilters, CursorKey,
  is_stored_identifier,
}
use local_network_kafka_moni.Query.Cursor.Format.{
  Bytes, Value, Json, Codec, same, hex_digit, to_hex, filter_fingerprint, v2_header, to_bytes3,
  from_bytes3, is_surrogate, join_scalars, encode_identifier, source_index, source_at, rstrip,
  padding, is_urlsafe, read_scalars, is_bad_scalar, read_identifier, integer, string, array, other,
  object, no_object,
}

pub data CursorError : Type 0 where
  invalid_cursor does_not_match_filters : CursorError

pub data Decoded : Type 0 where
  decoded : CursorKey → Decoded
  error : CursorError → Decoded

-- `date.fromordinal`, with the years 1 to 9999.
unfoldable pub fromordinal : ℕ → Option ℕ
fromordinal n = if leb 1 n && leb n 3652059 then some n else none

-- `CursorKey(...)`: the identifiers are checked.
unfoldable pub checked_key : (ℕ → Bool) → CursorKey → Option CursorKey
unfolding is_stored_identifier
checked_key is_space key =
    if is_stored_identifier is_space key.agent_id
      && is_stored_identifier is_space key.endpoint_id
      && is_stored_identifier is_space key.probe_type
    then some key
    else none

unfoldable pub decode_body :
    (ℕ → Bool) → (date_utc : ℕ) → SourceKind → Bytes → Option (CursorKey × Text)
unfolding read_identifier checked_key to_hex
decode_body is_space date_utc source_kind rest = do
  (agent_id, rest) ← read_identifier rest
  (endpoint_id, rest) ← read_identifier rest
  (probe_type, rest) ← read_identifier rest
  key ←
      if length rest == 32
      then checked_key is_space (record {
        date_utc = date_utc;
        agent_id = agent_id;
        endpoint_id = endpoint_id;
        source_kind = source_kind;
        probe_type = probe_type;
      })
      else none
  some (key, to_hex rest)

unfoldable pub decode_v2 : (ℕ → Bool) → Bytes → Option (CursorKey × Text)
unfolding fromordinal source_at same
decode_v2 is_space (m ∷ n ∷ p ∷ v ∷ a ∷ b ∷ c ∷ source ∷ rest) =
    if ltb (8 + length rest) 52 || not (same (m ∷ n ∷ p ∷ v ∷ []) v2_header) then none else do
      date_utc ← fromordinal (from_bytes3 a b c)
      source_kind ← source_at source
      decode_body is_space date_utc source_kind rest
decode_v2 is_space payload = none

-- `_object_without_duplicate_keys`
unfoldable pub without_duplicate_keys : List String → Bool
without_duplicate_keys [] = true
without_duplicate_keys (key ∷ keys) =
    not (any (λ other. str_eq other key) keys) && without_duplicate_keys keys

-- `_FINGERPRINT_PATTERN`
unfoldable pub is_fingerprint : Text → Bool
is_fingerprint value =
    (length value == 64) && all (λ c. (leb 48 c && leb c 57) || (leb 97 c && leb c 102)) value

module _ {V : Type 0} where
  unfoldable pub field : String → List (String × Value V) → Option (Value V)
  field name [] = none
  field name ((key, value) ∷ pairs) = if str_eq key name then some value else field name pairs

  unfoldable pub is_one : Value V → Bool
  is_one (integer n) = n == 1
  is_one _ = false

  unfoldable pub five_values : Value V → Option (List V)
  five_values (array values) = if length values == 5 then some values else none
  five_values _ = none

  unfoldable pub fingerprint_text : Value V → Option Text
  unfolding is_fingerprint
  fingerprint_text (string value) = if is_fingerprint value then some value else none
  fingerprint_text _ = none

  unfoldable pub decode_pairs : Codec V → Json V → Option (CursorKey × Text)
  unfolding field is_one five_values fingerprint_text
  decode_pairs codec no_object = none
  decode_pairs codec (object pairs) = do
    version ← field "v" pairs
    key_values ← field "k" pairs
    fingerprint ← field "f" pairs
    key_values ← if (length pairs == 3) && is_one version then five_values key_values else none
    fingerprint ← fingerprint_text fingerprint
    key ← codec.validate_key key_values
    some (key, fingerprint)

  unfoldable pub decode_v1 : Codec V → Bytes → Option (CursorKey × Text)
  unfolding decode_pairs without_duplicate_keys
  decode_v1 codec raw_payload = do
    payload ← codec.loads without_duplicate_keys raw_payload
    decode_pairs codec payload

unfoldable pub encode_payload :
    {V : Type 0} → Codec V → CursorKey → DailyReliabilityFilters → Option Bytes
unfolding encode_identifier source_index to_bytes3
encode_payload codec key filters = do
  agent ← encode_identifier key.agent_id
  endpoint ← encode_identifier key.endpoint_id
  probe ← encode_identifier key.probe_type
  some (
      v2_header
      ++ (to_bytes3 key.date_utc
          ++ (source_index key.source_kind
              ∷ (agent ++ (endpoint ++ (probe ++ codec.digest filters))))))

unfoldable pub encode_cursor :
    {V : Type 0} → Codec V → CursorKey → DailyReliabilityFilters → Option Text
unfolding rstrip
encode_cursor codec key filters = do
  payload ← encode_payload codec key filters
  some (rstrip (codec.urlsafe_b64encode payload))

unfoldable pub decode_payload : {V : Type 0} → Codec V → Bytes → Option (CursorKey × Text)
unfolding decode_v1 same
decode_payload codec payload =
    if same (take 3 payload) (take 3 v2_header)
    then decode_v2 codec.is_space payload
    else decode_v1 codec payload

-- The `try` block: every error is the same to the caller.
unfoldable pub decode_token : {V : Type 0} → Codec V → Text → Option (CursorKey × Text)
unfolding is_urlsafe padding rstrip same
decode_token codec token =
    if ltb 2048 (length token) || not (all is_urlsafe token) then none else do
      payload ← codec.b64decode (token ++ padding ((4 - length token % 4) % 4))
      if same (rstrip (codec.urlsafe_b64encode payload)) token
          then decode_payload codec payload
          else none

unfoldable pub decode_cursor : {V : Type 0} → Codec V → Text → DailyReliabilityFilters → Decoded
unfolding filter_fingerprint same
decode_cursor codec token filters = elim (decode_token codec token) [
  | none ↦ error invalid_cursor
  | some (key, fingerprint) ↦
      if same fingerprint (filter_fingerprint codec filters)
      then decoded key
      else error does_not_match_filters
]
