-- ===== src/Base/Text.antt =====
-- Texts as keys: the Boolean test, and the sorted list of a set of texts.
use Prim.Native.Nat.{Ordering}
use Prim.Native.String.{String, compare}
use mathlib.Core.Bool.{Bool, false, ◌||◌}
use mathlib.Core.Path.{◌≡◌, refl, sym, ap, ◌∙◌}
use mathlib.Core.Logic.{◌≢◌, ◌⊎◌, inl, inr}
use mathlib.Core.List.{List, [], ◌∷◌}
use native.Mathlib.Omega.{arith}
use text.Mathlib.Text.{◌==◌}
pub use text.Mathlib.Text.{◌==◌ as str_eq}
pub use text.Mathlib.TextEquality.{eq_iff, path_by_compare}
pub use text.Mathlib.TextPositions.{eq_refl}

-- A text into a sorted list that holds each text once.
unfoldable pub insert_text : String → List String → List String
insert_text s [] = s ∷ []
insert_text s (t ∷ ts) = elim (compare s t) [
  | Ordering.lt ↦ s ∷ t ∷ ts
  | Ordering.eq ↦ t ∷ ts
  | Ordering.gt ↦ t ∷ insert_text s ts
]

-- `sorted({...})` over texts: by code points, without repetition.
unfoldable pub sorted_set : List String → List String
unfolding insert_text
sorted_set [] = []
sorted_set (s ∷ ss) = insert_text s (sorted_set ss)

-- `value in {...}`
abbrev pub mem_text : String → List String → Bool
mem_text s [] = false
mem_text s (t ∷ ts) = (t == s) || mem_text s ts

insert_text-ne-nil : (s : String) (ts : List String) → insert_text s ts ≢ []
unfolding insert_text
insert_text-ne-nil s [] e = cc
insert_text-ne-nil s (t ∷ ts) e = ground arith

pub sorted_set-ne-nil : (s : String) (ss : List String) → sorted_set (s ∷ ss) ≢ []
unfolding sorted_set
sorted_set-ne-nil s ss = insert_text-ne-nil s (sorted_set ss)

pub sorted_set-nil : sorted_set [] ≡ []
unfolding sorted_set
sorted_set-nil = refl

mem_text-insert_text :
    (a s : String) (ts : List String) → mem_text a (insert_text s ts) ≡ ((s == a) || mem_text a ts)
unfolding insert_text
mem_text-insert_text a s [] = refl
mem_text-insert_text a s (t ∷ ts) = elim (Ordering-cases (compare s t)) [
  | inl e ↦
      let step : insert_text s (t ∷ ts) ≡ s ∷ t ∷ ts = rw (insert_text, e) refl in
      ap (mem_text a) step
  | inr (inl e) ↦
      let step : insert_text s (t ∷ ts) ≡ t ∷ ts = rw (insert_text, e) refl in
      let same : s ≡ t = path_by_compare s t e in
      ap (mem_text a) step
      ∙ or_twice (t == a) (mem_text a ts)
      ∙ ap (λ x. (x == a) || ((t == a) || mem_text a ts)) (sym same)
  | inr (inr e) ↦
      let step : insert_text s (t ∷ ts) ≡ t ∷ insert_text s ts = rw (insert_text, e) refl in
      ap (mem_text a) step
      ∙ ap (λ b. (t == a) || b) (mem_text-insert_text a s ts)
      ∙ or_swap (t == a) (s == a) (mem_text a ts)
]
  where
    Ordering-cases : (o : Ordering) → (o ≡ Ordering.lt) ⊎ ((o ≡ Ordering.eq) ⊎ (o ≡ Ordering.gt))
    Ordering-cases Ordering.lt = inl refl
    Ordering-cases Ordering.eq = inr (inl refl)
    Ordering-cases Ordering.gt = inr (inr refl)

    or_twice : (x y : Bool) → (x || y) ≡ (x || (x || y))
    or_twice x y = ground arith

    or_swap : (x y z : Bool) → (x || (y || z)) ≡ (y || (x || z))
    or_swap x y z = ground arith

-- The set has the texts that it was made of.
pub mem_text-sorted_set :
    (a : String) (ss : List String) → mem_text a (sorted_set ss) ≡ mem_text a ss
unfolding sorted_set
mem_text-sorted_set a [] = refl
mem_text-sorted_set a (s ∷ ss) =
    mem_text-insert_text a s (sorted_set ss) ∙ ap (λ b. (s == a) || b) (mem_text-sorted_set a ss)
