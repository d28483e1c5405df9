-- ===== src/Tests/Listing.antt =====
-- The theorems about the query interface at concrete inputs: a base64 in full, and one row.
use local_network_kafka_moni.Base.{
  ℕ, zero, suc, ◌+◌, ◌-◌, ◌*◌, ◌/◌, ◌%◌, ◌≡◌, refl, Bool, true, false, ◌&&◌, ◌||◌, List, [], ◌∷◌,
  ◌++◌, Option, none, some, leb, ltb, ◌==◌, length, take, if◌then◌else◌, arith,
}
use local_network_kafka_moni.Base.Options.{◌>>=◌}
use local_network_kafka_moni.Base.{inl, inr, Bool-cases, filter}
use local_network_kafka_moni.Base.Sort.{sort}
use local_network_kafka_moni.Query.Repository.{matches, key_lt, row_le}
use local_network_kafka_moni.Query.Repository.Order.{IsStrictOrder}
use local_network_kafka_moni.Query.Api.{follow}
use local_network_kafka_moni.Query.Api.Strict.{AllApart}
use local_network_kafka_moni.Query.Api.Follow.{row_lt, follow-lists}
use local_network_kafka_moni.Query.Models.{
  Text, network_measurement, DailyReliabilityFilters, CursorKey, DailyReliabilityRow,
}
use local_network_kafka_moni.Query.Cursor.Format.{
  Bytes, Codec, same, filter_fingerprint, is_bad_scalar, rstrip, is_urlsafe, padding, join_scalars,
  to_bytes3, source_index,
}
use local_network_kafka_moni.Query.Cursor.{
  decoded, error, does_not_match_filters, encode_cursor, decode_cursor, checked_key,
}
use local_network_kafka_moni.Query.Cursor.RoundTrip.{
  IsKey, IsBase64, payload_of, decode_cursor-encode_cursor,
}
use local_network_kafka_moni.Query.Repository.{page, invalid_limit, list_daily}
use local_network_kafka_moni.Query.Repository.Pages.{rest, list_daily-rest}

-- The character of a 6-bit number, and back.
abbrev symbol : ℕ → ℕ
symbol n =
    if ltb n 26
    then n + 65
    else if ltb n 52
    then n + 71
    else if ltb n 62
    then n - 4
    else if n == 62
    then 45
    else 95

abbrev value : ℕ → Option ℕ
value c =
    if leb 65 c && leb c 90
    then some (c - 65)
    else if leb 97 c && leb c 122
    then some (c - 71)
    else if leb 48 c && leb c 57
    then some (c + 4)
    else if c == 45
    then some 62
    else if c == 95
    then some 63
    else none

abbrev urlsafe_b64encode : Bytes → Text
urlsafe_b64encode [] = []
urlsafe_b64encode (a ∷ []) = symbol (a / 4) ∷ symbol ((a % 4) * 16) ∷ 61 ∷ 61 ∷ []
urlsafe_b64encode (a ∷ b ∷ []) =
    symbol (a / 4) ∷ symbol ((a % 4) * 16 + b / 16) ∷ symbol ((b % 16) * 4) ∷ 61 ∷ []
urlsafe_b64encode (a ∷ b ∷ c ∷ bytes) =
    symbol (a / 4)
    ∷ symbol ((a % 4) * 16 + b / 16)
    ∷ symbol ((b % 16) * 4 + c / 64)
    ∷ symbol (c % 64)
    ∷ urlsafe_b64encode bytes

-- The bytes of a group of four characters, by the number of padding characters.
abbrev group : ℕ → ℕ → ℕ → ℕ → Option Bytes
group a b c d =
    let one_byte = value a >>= λ p. value b >>= λ q. some ((p * 4 + q / 16) ∷ []) in
    let two_bytes = value a >>= λ p.
    value b >>= λ q. value c >>= λ r. some ((p * 4 + q / 16) ∷ ((q % 16) * 16 + r / 4) ∷ []) in
    let three_bytes = value a >>= λ p. value b >>= λ q. value c >>= λ r.
    value d >>= λ s. some ((p * 4 + q / 16) ∷ ((q % 16) * 16 + r / 4) ∷ ((r % 4) * 64 + s) ∷ []) in
    if (c == 61) && (d == 61) then one_byte else if d == 61 then two_bytes else three_bytes

abbrev b64decode : Text → Option Bytes
b64decode [] = some []
b64decode (a ∷ b ∷ c ∷ d ∷ text) = do
  first ← group a b c d
  others ← b64decode text
  some (first ++ others)
b64decode text = none

abbrev zeros : ℕ → Bytes
zeros zero = []
zeros (suc n) = 0 ∷ zeros n

-- A digest that tells filters with an agent from filters without one.
abbrev digest : DailyReliabilityFilters → Bytes
digest filters = elim filters.agent_id [ none ↦ 200 ∷ zeros 31 | some agent ↦ 100 ∷ zeros 31 ]

abbrev codec : Codec ℕ
codec = record {
  urlsafe_b64encode = urlsafe_b64encode;
  b64decode = b64decode;
  digest = digest;
  loads = λ accepts bytes. none;
  validate_key = λ values. none;
  is_space = λ c. c == 32;
}

-- "wifi", "dns" and a probe's name with a character outside the basic plane.
abbrev key : CursorKey
key = record {
  date_utc = 739000;
  agent_id = 119 ∷ 105 ∷ 102 ∷ 105 ∷ [];
  endpoint_id = 100 ∷ 110 ∷ 115 ∷ [];
  source_kind = network_measurement;
  probe_type = 128640 ∷ [];
}

abbrev filters : DailyReliabilityFilters
filters = record {
  from_date = none;
  through_date = none;
  agent_id = none;
  endpoint_id = none;
  source_kind = none;
  probe_type = none;
}

abbrev others : DailyReliabilityFilters
others = record filters { agent_id = some (119 ∷ 105 ∷ 102 ∷ 105 ∷ []) }

key-IsKey : IsKey codec key
unfolding is_bad_scalar checked_key
key-IsKey = record {
  first_day = omega arith;
  last_day = omega arith;
  agent = record { some_length = omega arith; short = omega arith; scalars = refl };
  endpoint = record { some_length = omega arith; short = omega arith; scalars = refl };
  probe = record { some_length = omega arith; short = omega arith; scalars = refl };
  accepted = refl;
}

payload-IsBase64 : IsBase64 codec (payload_of codec key filters)
unfolding rstrip is_urlsafe padding join_scalars to_bytes3 source_index
payload-IsBase64 = record { alphabet = refl; padded = refl; size = omega arith; restores = refl }

decode_cursor-encode_cursor_example :
    (token : Text) × (encode_cursor codec key filters ≡ some token)
    × (decode_cursor codec token filters ≡ decoded key)
    × (decode_cursor codec token others ≡ (
        if same (filter_fingerprint codec filters) (filter_fingerprint codec others)
        then decoded key
        else error does_not_match_filters))
decode_cursor-encode_cursor_example =
    decode_cursor-encode_cursor codec key filters others key-IsKey refl payload-IsBase64

-- The order of code points.
abbrev pub text_lt : Text → Text → Bool
text_lt [] [] = false
text_lt [] (d ∷ ds) = true
text_lt (c ∷ cs) [] = false
text_lt (c ∷ cs) (d ∷ ds) = ltb c d || ((c == d) && text_lt cs ds)

abbrev daily_row : ℕ → DailyReliabilityRow ℕ
daily_row date = record {
  key = record key { date_utc = date };
  total_count = 10;
  success_count = 9;
  failure_count = 1;
  success_rate_pct = some 90;
  latency_count = 9;
  latency_sum_ms = some 180;
  mean_latency_ms = some 20;
  packet_loss_count = 0;
  packet_loss_sum_pct = none;
  mean_packet_loss_pct = none;
}

abbrev view : List (DailyReliabilityRow ℕ)
view = daily_row 738998 ∷ daily_row 739000 ∷ daily_row 738999 ∷ []

list_daily-rest_example : list_daily text_lt filters (some key) 1 view ≡ (
    if leb 1 1 && leb 1 200
    then page (record {
      rows = take 1 (rest text_lt filters (some key) view);
      has_more = ltb 1 (length (rest text_lt filters (some key) view));
    })
    else invalid_limit)
list_daily-rest_example = list_daily-rest text_lt filters (some key) 1 view

text_lt_asym : (a b : Text) → text_lt a b ≡ true → text_lt b a ≡ false
text_lt_asym [] [] h = refl
text_lt_asym [] (d ∷ ds) h = refl
text_lt_asym (c ∷ cs) [] h = cc
text_lt_asym (c ∷ cs) (d ∷ ds) h = elim (Bool-cases (text_lt cs ds)) [
  | inl e ↦ let back = text_lt_asym cs ds e in ground arith
  | inr e ↦ ground arith
]

text_lt_cotrans : (a b c : Text) → text_lt a c ≡ true → (text_lt a b || text_lt b c) ≡ true
text_lt_cotrans [] [] c h = h
text_lt_cotrans [] (x ∷ xs) c h = refl
text_lt_cotrans (x ∷ xs) b [] h = cc
text_lt_cotrans (x ∷ xs) [] (z ∷ zs) h = refl
text_lt_cotrans (x ∷ xs) (y ∷ ys) (z ∷ zs) h = elim (Bool-cases (text_lt xs zs)) [
  | inl e ↦ let split = text_lt_cotrans xs ys zs e in ground arith
  | inr e ↦ ground arith
]

pub text_lt-IsStrictOrder : IsStrictOrder text_lt
text_lt-IsStrictOrder = record { asym = text_lt_asym; cotrans = text_lt_cotrans }

view-AllApart : AllApart (row_lt text_lt) view
unfolding key_lt
view-AllApart = ((refl, (refl, tt)), ((refl, tt), (tt, tt)))

follow-lists_example :
    follow text_lt filters 2 view 4 none
    ≡ sort (row_le text_lt) (filter (λ row. matches filters row.key) view)
unfolding matches
follow-lists_example =
    follow-lists text_lt filters 2 4 view text_lt-IsStrictOrder view-AllApart (omega arith)
      (omega arith) (omega arith)
