-- ===== src/Tests/Hundredths.antt =====
-- Numbers in hundredths, positive and negative, as an instance of the interface of numbers.
use local_network_kafka_moni.Base.{
  ℕ, ◌+◌, ◌-◌, ◌*◌, ◌/◌, ◌≤◌, ◌≡◌, refl, ap, ◌⊎◌, inl, inr, Bool, true, false, leb, ltb,
  if◌then◌else◌, arith, leb→le, le→leb,
}
use native.Mathlib.Nat.{mul-le-mul}
use local_network_kafka_moni.Base.Number.{Number}

pub data ℤ : Type 0 where
  pos negsuc : ℕ → ℤ

abbrev pub le : ℤ → ℤ → Bool
le (pos a) (pos b) = leb a b
le (pos a) (negsuc b) = false
le (negsuc a) (pos b) = true
le (negsuc a) (negsuc b) = leb b a

abbrev pub opposite : ℤ → ℤ
opposite (pos a) = if ltb 0 a then negsuc (a - 1) else pos 0
opposite (negsuc a) = pos (a + 1)

abbrev pub plus : ℤ → ℤ → ℤ
plus (pos a) (pos b) = pos (a + b)
plus (pos a) (negsuc b) = if ltb b a then pos (a - b - 1) else negsuc (b - a)
plus (negsuc a) (pos b) = if ltb a b then pos (b - a - 1) else negsuc (a - b)
plus (negsuc a) (negsuc b) = negsuc (a + b + 1)

-- The product of two numbers of hundredths, cut towards zero.
abbrev pub times : ℤ → ℤ → ℤ
times (pos a) (pos b) = pos (a * b / 100)
times (pos a) (negsuc b) = opposite (pos (a * (b + 1) / 100))
times (negsuc a) (pos b) = opposite (pos ((a + 1) * b / 100))
times (negsuc a) (negsuc b) = pos ((a + 1) * (b + 1) / 100)

pub le_refl : (a : ℤ) → le a a ≡ true
le_refl (pos a) = ground arith
le_refl (negsuc a) = ground arith

pub le_trans : (a b c : ℤ) → le a b ≡ true → le b c ≡ true → le a c ≡ true
le_trans (pos a) (pos b) (pos c) h k = ground arith
le_trans (pos a) (pos b) (negsuc c) h k = k
le_trans (pos a) (negsuc b) c h k = cc
le_trans (negsuc a) b (pos c) h k = refl
le_trans (negsuc a) (pos b) (negsuc c) h k = cc
le_trans (negsuc a) (negsuc b) (negsuc c) h k = ground arith

pub le_total : (a b : ℤ) → (le a b ≡ true) ⊎ (le b a ≡ true)
le_total (pos a) (pos b) = ground arith
le_total (pos a) (negsuc b) = inr refl
le_total (negsuc a) (pos b) = inl refl
le_total (negsuc a) (negsuc b) = ground arith

pub plus_mono : (a b c d : ℤ) → le a b ≡ true → le c d ≡ true → le (plus a c) (plus b d) ≡ true
plus_mono (pos a) (pos b) (pos c) (pos d) h k = ground arith
plus_mono (pos a) (pos b) (negsuc c) (pos d) h k = ground arith
plus_mono (pos a) (pos b) (negsuc c) (negsuc d) h k = ground arith
plus_mono (pos a) (pos b) (pos c) (negsuc d) h k = cc
plus_mono (pos a) (negsuc b) c d h k = cc
plus_mono (negsuc a) (pos b) (pos c) (pos d) h k = ground arith
plus_mono (negsuc a) (pos b) (negsuc c) (pos d) h k = ground arith
plus_mono (negsuc a) (pos b) (negsuc c) (negsuc d) h k = ground arith
plus_mono (negsuc a) (pos b) (pos c) (negsuc d) h k = cc
plus_mono (negsuc a) (negsuc b) (pos c) (pos d) h k = ground arith
plus_mono (negsuc a) (negsuc b) (negsuc c) (pos d) h k = ground arith
plus_mono (negsuc a) (negsuc b) (negsuc c) (negsuc d) h k = ground arith
plus_mono (negsuc a) (negsuc b) (pos c) (negsuc d) h k = cc

pub le-plus : (a b : ℤ) → le (pos 0) b ≡ true → le a (plus a b) ≡ true
le-plus (pos a) (pos b) h = ground arith
le-plus (negsuc a) (pos b) h = ground arith
le-plus a (negsuc b) h = cc

pub times_nonneg :
    (a b : ℤ) → le (pos 0) a ≡ true → le (pos 0) b ≡ true → le (pos 0) (times a b) ≡ true
times_nonneg (pos a) (pos b) h k = ground arith
times_nonneg (negsuc a) b h k = cc
times_nonneg (pos a) (negsuc b) h k = cc

div_mono : (a b : ℕ) → a ≤ b → a / 100 ≤ b / 100
div_mono a b h = omega arith

pub times_mono :
    (a b c d : ℤ)
    → le (pos 0) a ≡ true
    → le (pos 0) c ≡ true
    → le a b ≡ true
    → le c d ≡ true
    → le (times a c) (times b d) ≡ true
times_mono (pos a) (pos b) (pos c) (pos d) p q h k =
    le→leb _ _ (div_mono (a * c) (b * d) (mul-le-mul (leb→le a b h) (leb→le c d k)))
times_mono (negsuc a) b c d p q h k = cc
times_mono (pos a) b (negsuc c) d p q h k = cc
times_mono (pos a) (negsuc b) (pos c) d p q h k = cc
times_mono (pos a) (pos b) (pos c) (negsuc d) p q h k = cc

pub times_one : (a : ℤ) → times a (pos 100) ≡ a
times_one (pos a) = ap pos (omega arith)
times_one (negsuc a) = ground arith

instance unfoldable pub hundredths : Number ℤ
hundredths = record {
  leb = le;
  of_ℕ = λ n. pos (n * 100);
  neg = opposite;
  half = pos 50;
  three_quarters = pos 75;
  quarter = pos 25;
  add = plus;
  mul = times;
  leb_refl = le_refl;
  leb_trans = le_trans;
  leb_total = le_total;
  of_ℕ_nonneg = λ n. ground arith;
  quarter_nonneg = refl;
  add_mono = plus_mono;
  le-add = le-plus;
  mul_nonneg = times_nonneg;
  mul_mono = times_mono;
  mul_one = times_one;
}
