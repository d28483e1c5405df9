-- ===== src/Query/Cursor/RoundTrip.antt =====
-- A version 2 cursor that is encoded is decoded to its key.
use local_network_kafka_moni.Base.{
  ◌+◌, ◌-◌, ◌*◌, ◌/◌, ◌%◌, ◌≤◌, ◌≡◌, refl, true, false, ◌∷◌, ◌++◌, some, ltb, le→leb, length,
  length-append, all, if◌then◌else◌, arith,
}
use local_network_kafka_moni.Query.Models.{Text, CursorKey, DailyReliabilityFilters}
use local_network_kafka_moni.Query.Cursor.Format.{
  Bytes, Codec, same, filter_fingerprint, to_bytes3, from_bytes3, join_scalars, source_index,
  rstrip, padding, is_urlsafe, v2_header,
}
use local_network_kafka_moni.Query.Cursor.{
  decoded, error, does_not_match_filters, fromordinal, checked_key, decode_body, decode_v2,
  encode_payload, encode_cursor, decode_payload, decode_token, decode_cursor,
}
use local_network_kafka_moni.Query.Cursor.Format.Parts.{
  IsIdentifier, same_refl, from_bytes3-to_bytes3, length-join_scalars, encode_identifier-some,
  read_identifier-encoded, source_at-source_index,
}

-- What the decoder asks of a key: a date of the years 1 to 9999, and identifiers that are not blank.
pub record IsKey {V : Type 0} (codec : Codec V) (key : CursorKey) : Type 0 where
  pub first_day : 1 ≤ key.date_utc
  pub last_day : key.date_utc ≤ 3652059
  pub agent : IsIdentifier key.agent_id
  pub endpoint : IsIdentifier key.endpoint_id
  pub probe : IsIdentifier key.probe_type
  pub accepted : checked_key codec.is_space key ≡ some key

-- What `base64` documents of the encoding of some bytes: the alphabet, the padding to a multiple of
-- four characters, the length, and that decoding restores the bytes.
pub record IsBase64 {V : Type 0} (codec : Codec V) (payload : Bytes) : Type 0 where
  pub alphabet : all is_urlsafe (rstrip (codec.urlsafe_b64encode payload)) ≡ true
  pub padded :
      let body = rstrip (codec.urlsafe_b64encode payload) in
      body ++ padding ((4 - length body % 4) % 4) ≡ codec.urlsafe_b64encode payload
  pub size : 3 * length (rstrip (codec.urlsafe_b64encode payload)) ≤ 4 * length payload + 2
  pub restores : codec.b64decode (codec.urlsafe_b64encode payload) ≡ some payload

-- The bytes of a key's identifiers, and the payload.
abbrev pub encoded : Text → Bytes → Bytes
encoded value rest = length value ∷ (join_scalars value ++ rest)

abbrev pub body_of : CursorKey → Bytes → Bytes
body_of key digest = encoded key.agent_id (encoded key.endpoint_id (encoded key.probe_type digest))

abbrev pub payload_of : {V : Type 0} → Codec V → CursorKey → DailyReliabilityFilters → Bytes
payload_of codec key filters =
    v2_header
    ++ (to_bytes3 key.date_utc
        ++ (source_index key.source_kind ∷ body_of key (codec.digest filters)))

length-encoded :
    (value : Text) (rest : Bytes) → length (encoded value rest) ≡ 1 + 3 * length value + length rest
length-encoded value rest =
    let joined = length-join_scalars value in
    let whole = length-append (join_scalars value) rest in omega arith

module _ {V : Type 0} (codec : Codec V) (key : CursorKey) (filters : DailyReliabilityFilters)
    (v : IsKey codec key) (full : length (codec.digest filters) ≡ 32) where
  encode_payload-payload_of : encode_payload codec key filters ≡ some (payload_of codec key filters)
  unfolding encode_payload
  encode_payload-payload_of =
      rw
        (
          encode_identifier-some key.agent_id v.agent,
          encode_identifier-some key.endpoint_id v.endpoint,
          encode_identifier-some key.probe_type v.probe,
        )
        refl

  decode_body-body_of :
      decode_body codec.is_space key.date_utc key.source_kind (body_of key (codec.digest filters))
      ≡ some (key, filter_fingerprint codec filters)
  unfolding decode_body filter_fingerprint
  decode_body-body_of =
      let digest = codec.digest filters in
      let last = length-encoded key.probe_type digest in
      let middle = length-encoded key.endpoint_id (encoded key.probe_type digest) in
      rw
        (
          read_identifier-encoded key.agent_id
              (encoded key.endpoint_id (encoded key.probe_type digest)) v.agent (omega arith),
          read_identifier-encoded key.endpoint_id (encoded key.probe_type digest) v.endpoint
              (omega arith),
          read_identifier-encoded key.probe_type digest v.probe (omega arith),
          full,
          v.accepted,
        )
        refl

  length-body_of :
      length (body_of key (codec.digest filters))
      ≡ 35 + 3 * (length key.agent_id + length key.endpoint_id + length key.probe_type)
  length-body_of =
      let digest = codec.digest filters in
      let last = length-encoded key.probe_type digest in
      let middle = length-encoded key.endpoint_id (encoded key.probe_type digest) in
      let first =
        length-encoded key.agent_id (encoded key.endpoint_id (encoded key.probe_type digest)) in
      omega arith

  decode_v2-payload_of :
      decode_v2 codec.is_space (payload_of codec key filters)
      ≡ some (key, filter_fingerprint codec filters)
  unfolding decode_v2 to_bytes3 same fromordinal
  decode_v2-payload_of =
      let a = v.agent.some_length in
      let e = v.endpoint.some_length in
      let p = v.probe.some_length in
      let size = length-body_of in
      let first = v.first_day in
      let last = v.last_day in
      let date : from_bytes3 (key.date_utc / 65536 % 256) (key.date_utc / 256 % 256)
            (key.date_utc % 256)
          ≡ key.date_utc =
        from_bytes3-to_bytes3 key.date_utc (omega arith) in
      let long : ltb
            (8 + (35 + 3 * (length key.agent_id + length key.endpoint_id + length key.probe_type)))
            52
          ≡ false =
        ground arith in
      rw
        (
          size,
          long,
          date,
          le→leb 1 key.date_utc v.first_day,
          le→leb key.date_utc 3652059 v.last_day,
          source_at-source_index key.source_kind,
          decode_body-body_of,
        )
        refl

  decode_payload-payload_of :
      decode_payload codec (payload_of codec key filters)
      ≡ some (key, filter_fingerprint codec filters)
  unfolding decode_payload same
  decode_payload-payload_of = decode_v2-payload_of

  decode_token-payload_of :
      IsBase64 codec (payload_of codec key filters)
      → decode_token codec (rstrip (codec.urlsafe_b64encode (payload_of codec key filters)))
        ≡ some (key, filter_fingerprint codec filters)
  unfolding decode_token to_bytes3
  decode_token-payload_of base =
      let a = v.agent.short in
      let e = v.endpoint.short in
      let p = v.probe.short in
      let body = length-body_of in
      let bound = base.size in
      rw
        (
          base.alphabet,
          base.padded,
          base.restores,
          same_refl (rstrip (codec.urlsafe_b64encode (payload_of codec key filters))),
          decode_payload-payload_of,
        )
        (ground arith)

-- A key whose date is one of the years 1 to 9999 and whose identifiers are not blank, of 1 to 128
-- characters, is encoded, and with the filters it was encoded with the cursor decodes to the key.
-- With other filters it decodes to the key if their fingerprint is the same, and otherwise to the
-- error that names the mismatch. Base64 is as documented and a digest has 32 bytes.
pub decode_cursor-encode_cursor :
    {V : Type 0} (codec : Codec V) (key : CursorKey) (filters others : DailyReliabilityFilters)
    → IsKey codec key
    → length (codec.digest filters) ≡ 32
    → IsBase64 codec (payload_of codec key filters)
    → (token : Text) × (encode_cursor codec key filters ≡ some token)
      × (decode_cursor codec token filters ≡ decoded key)
      × (decode_cursor codec token others ≡ (
          if same (filter_fingerprint codec filters) (filter_fingerprint codec others)
          then decoded key
          else error does_not_match_filters))
unfolding encode_cursor decode_cursor
decode_cursor-encode_cursor codec key filters others v full base = (
  rstrip (codec.urlsafe_b64encode (payload_of codec key filters)),
  rw (encode_payload-payload_of codec key filters v full) refl,
  rw
      (
        decode_cursor,
        decode_token-payload_of codec key filters v full base,
        same_refl (filter_fingerprint codec filters),
      )
      refl,
  rw (decode_cursor, decode_token-payload_of codec key filters v full base) refl,
)
