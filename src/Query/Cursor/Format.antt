-- ===== src/Query/Cursor/Format.antt =====
-- services/query-api/src/netpulse_query_api/cursor.py: the bytes and texts of a cursor, and the libraries that it
-- calls.
pub mod Parts
use local_network_kafka_moni.Base.{
  ℕ, zero, suc, ◌+◌, ◌-◌, ◌*◌, ◌/◌, ◌%◌, String, Bool, true, false, not, ◌&&◌, ◌||◌, List, [], ◌∷◌,
  ◌++◌, Option, none, some, leb, ltb, ◌==◌, str_eq, length, take, drop, all, any, if◌then◌else◌,
}
use local_network_kafka_moni.Base.Options.{◌>>=◌}
use local_network_kafka_moni.Query.Models.{
  SourceKind, network_measurement, service_check, Text, DailyReliabilityFilters, CursorKey,
  is_stored_identifier,
}

abbrev pub Bytes : Type 0
Bytes = List ℕ

-- A result of `json.loads` as `_decode_v1` looks at it: a value of the object, whose own elements are of
-- the library's type `V`, and the whole text.
pub data Value (V : Type 0) : Type 0 where
  integer : ℕ → Value V
  string : Text → Value V
  array : List V → Value V
  other : Value V

pub data Json (V : Type 0) : Type 0 where
  object : List (String × Value V) → Json V
  no_object : Json V

-- The libraries that the cursor calls.
pub record Codec (V : Type 0) : Type 0 where
  pub urlsafe_b64encode : Bytes → Text
  -- `base64.b64decode(_, altchars=b"-_", validate=True)`
  pub b64decode : Text → Option Bytes
  -- The SHA-256 of the canonical JSON of the filters.
  pub digest : DailyReliabilityFilters → Bytes
  -- `json.loads`, with the test that `object_pairs_hook` makes of the keys of an object.
  pub loads : (List String → Bool) → Bytes → Option (Json V)
  -- `CursorKey.model_validate` of the five values.
  pub validate_key : List V → Option CursorKey
  pub is_space : ℕ → Bool

-- Equality of sequences.
unfoldable pub same : List ℕ → List ℕ → Bool
same [] [] = true
same [] (y ∷ ys) = false
same (x ∷ xs) [] = false
same (x ∷ xs) (y ∷ ys) = (x == y) && same xs ys

-- `hexdigest()` and `bytes.hex()`
unfoldable pub hex_digit : ℕ → ℕ
hex_digit n = if ltb n 10 then 48 + n else 87 + n

unfoldable pub to_hex : Bytes → Text
unfolding hex_digit
to_hex [] = []
to_hex (byte ∷ bytes) = hex_digit (byte / 16) ∷ hex_digit (byte % 16) ∷ to_hex bytes

unfoldable pub filter_fingerprint : {V : Type 0} → Codec V → DailyReliabilityFilters → Text
unfolding to_hex
filter_fingerprint codec filters = to_hex (codec.digest filters)

-- `b"NPC\x02"`
abbrev pub v2_header : Bytes
v2_header = 78 ∷ 80 ∷ 67 ∷ 2 ∷ []

-- `value.to_bytes(3, "big")` and `int.from_bytes(_, "big")`
unfoldable pub to_bytes3 : ℕ → Bytes
to_bytes3 value = value / 65536 % 256 ∷ value / 256 % 256 ∷ value % 256 ∷ []

unfoldable pub from_bytes3 : ℕ → ℕ → ℕ → ℕ
from_bytes3 a b c = a * 65536 + b * 256 + c

unfoldable pub is_surrogate : ℕ → Bool
is_surrogate scalar = leb 55296 scalar && leb scalar 57343

unfoldable pub join_scalars : Text → Bytes
unfolding to_bytes3
join_scalars [] = []
join_scalars (scalar ∷ scalars) = to_bytes3 scalar ++ join_scalars scalars

unfoldable pub encode_identifier : Text → Option Bytes
unfolding is_surrogate join_scalars
encode_identifier value =
    if not (leb 1 (length value) && leb (length value) 128)
    then none
    else if any is_surrogate value
    then none
    else some (length value ∷ join_scalars value)

-- `_SOURCE_KINDS.index`, and the element at an index.
unfoldable pub source_index : SourceKind → ℕ
source_index network_measurement = 0
source_index service_check = 1

unfoldable pub source_at : ℕ → Option SourceKind
source_at zero = some network_measurement
source_at (suc zero) = some service_check
source_at (suc (suc n)) = none

-- `text.rstrip("=")`
unfoldable pub rstrip : Text → Text
rstrip [] = []
rstrip (c ∷ cs) = let rest = rstrip cs in if (c == 61) && (length rest == 0) then [] else c ∷ rest

-- `"=" * n`
unfoldable pub padding : ℕ → Text
padding zero = []
padding (suc n) = 61 ∷ padding n

-- `_URLSAFE_TOKEN_PATTERN`
unfoldable pub is_urlsafe : ℕ → Bool
is_urlsafe c =
    (leb 65 c && leb c 90)
    || (leb 97 c && leb c 122)
    || (leb 48 c && leb c 57)
    || (c == 95)
    || (c == 45)

-- One turn of the loop over the identifiers of a version 2 payload; `rest` is the payload from `offset`.
unfoldable pub read_scalars : ℕ → Bytes → Text
unfolding from_bytes3
read_scalars zero bytes = []
read_scalars (suc n) (a ∷ b ∷ c ∷ bytes) = from_bytes3 a b c ∷ read_scalars n bytes
read_scalars (suc n) bytes = []

unfoldable pub is_bad_scalar : ℕ → Bool
unfolding is_surrogate
is_bad_scalar scalar = ltb 1114111 scalar || is_surrogate scalar

unfoldable pub read_identifier : Bytes → Option (Text × Bytes)
unfolding read_scalars is_bad_scalar
read_identifier [] = none
read_identifier (size ∷ rest) =
    if leb (suc (length rest)) 32
    then none
    else if not (leb 1 size && leb size 128) || ltb (length rest) (3 * size + 32)
    then none
    else if any is_bad_scalar (read_scalars size rest)
    then none
    else some (read_scalars size rest, drop (3 * size) rest)
