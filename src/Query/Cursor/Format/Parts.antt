-- ===== src/Query/Cursor/Format/Parts.antt =====
-- The parts of a version 2 payload: three-byte numbers and identifiers, written and read back.
use local_network_kafka_moni.Base.{
  ℕ, zero, suc, ◌+◌, ◌*◌, ◌/◌, ◌%◌, ◌≤◌, ◌<◌, ◌≡◌, refl, sym, ap, ◌∙◌, true, false, List, [], ◌∷◌,
  ◌++◌, some, length, length-append, drop, any, arith,
}
use local_network_kafka_moni.Query.Models.{Text, SourceKind, network_measurement, service_check}
use local_network_kafka_moni.Query.Cursor.Format.{
  same, to_bytes3, from_bytes3, join_scalars, is_surrogate, is_bad_scalar, encode_identifier,
  read_scalars, read_identifier, source_at, source_index,
}

pub same_refl : (xs : List ℕ) → same xs xs ≡ true
unfolding same
same_refl [] = refl
same_refl (x ∷ xs) = ground (arith, same_refl xs)

pub from_bytes3-to_bytes3 :
    (n : ℕ) → n < 16777216 → from_bytes3 (n / 65536 % 256) (n / 256 % 256) (n % 256) ≡ n
unfolding from_bytes3
from_bytes3-to_bytes3 n h = omega arith

-- A text that an identifier may be: its length and its code points.
pub record IsIdentifier (value : Text) : Type 0 where
  pub some_length : 1 ≤ length value
  pub short : length value ≤ 128
  pub scalars : any is_bad_scalar value ≡ false

scalar_small : (c : ℕ) → is_bad_scalar c ≡ false → c < 16777216
unfolding is_bad_scalar is_surrogate
scalar_small c h = ground (arith, h)

scalar_no_surrogate : (c : ℕ) → is_bad_scalar c ≡ false → is_surrogate c ≡ false
unfolding is_bad_scalar
scalar_no_surrogate c h = ground (arith, h)

no_surrogates : (value : Text) → any is_bad_scalar value ≡ false → any is_surrogate value ≡ false
no_surrogates [] h = refl
no_surrogates (c ∷ cs) h =
    let here : is_surrogate c ≡ false = scalar_no_surrogate c (ground (arith, h)) in
    ground (arith, no_surrogates cs (ground (arith, h)))

pub length-join_scalars : (value : Text) → length (join_scalars value) ≡ 3 * length value
unfolding join_scalars to_bytes3
length-join_scalars [] = refl
length-join_scalars (c ∷ cs) = omega (arith, length-join_scalars cs)

read_scalars-join_scalars :
    (value : Text) (rest : List ℕ)
    → any is_bad_scalar value ≡ false
    → read_scalars (length value) (join_scalars value ++ rest) ≡ value
unfolding read_scalars join_scalars to_bytes3
read_scalars-join_scalars [] rest h = refl
read_scalars-join_scalars (c ∷ cs) rest h =
    rw
      (
        from_bytes3-to_bytes3 c (scalar_small c (ground (arith, h))),
        read_scalars-join_scalars cs rest (ground (arith, h)),
      )
      refl

pub drop-append : (xs ys : List ℕ) (n : ℕ) → n ≡ length xs → drop n (xs ++ ys) ≡ ys
drop-append [] ys zero e = refl
drop-append [] ys (suc n) e = absurd (ground (arith, e))
drop-append (x ∷ xs) ys zero e = absurd (ground (arith, e))
drop-append (x ∷ xs) ys (suc n) e = drop-append xs ys n (omega (arith, e))

pub encode_identifier-some :
    (value : Text)
    → IsIdentifier value
    → encode_identifier value ≡ some (length value ∷ join_scalars value)
unfolding encode_identifier
encode_identifier-some value v =
    let enough = v.some_length in
    let short = v.short in ground (arith, no_surrogates value v.scalars)

-- An identifier is read back from a payload that goes on with at least 32 bytes.
pub read_identifier-encoded :
    (value : Text) (rest : List ℕ)
    → IsIdentifier value
    → 32 ≤ length rest
    → read_identifier (length value ∷ (join_scalars value ++ rest)) ≡ some (value, rest)
unfolding read_identifier
read_identifier-encoded value rest v room =
    let enough = v.some_length in
    let short = v.short in
    let size : length (join_scalars value ++ rest) ≡ 3 * length value + length rest =
      length-append (join_scalars value) rest
      ∙ ap (λ n. n + length rest) (length-join_scalars value) in
    let scalars = v.scalars in
    rw
      (
        read_scalars-join_scalars value rest v.scalars,
        drop-append (join_scalars value) rest (3 * length value) (sym (length-join_scalars value)),
        size,
      )
      (ground arith)

pub source_at-source_index : (kind : SourceKind) → source_at (source_index kind) ≡ some kind
unfolding source_at source_index
source_at-source_index network_measurement = refl
source_at-source_index service_check = refl
