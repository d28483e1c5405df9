-- ===== src/Base/Dict/Keys.antt =====
-- The keys of a dict, as a set of texts.
use local_network_kafka_moni.Base.Tests.{Bool-cases}
use local_network_kafka_moni.Base.Lists.{All, filter}
use local_network_kafka_moni.Base.Text.{mem_text, str_eq, eq_iff}
use local_network_kafka_moni.Base.Dict.{Dict, get, put, has, keys, Fresh, get-put, from_items}
use Prim.Native.String.{String}
use mathlib.Core.Path.{◌≡◌, refl, sym, ◌∙◌, ap}
use mathlib.Core.Logic.{inl, inr}
use mathlib.Core.Bool.{Bool, true, false, ◌||◌, ◌&&◌}
use mathlib.Core.List.{List, [], ◌∷◌, ◌++◌, map}
use native.Mathlib.Omega.{arith}

-- No text stands twice.
abbrev pub Distinct : List String → Type 0
Distinct [] = Unit
Distinct (x ∷ xs) = (mem_text x xs ≡ false) × Distinct xs

pub mem_text-append :
    (k : String) (xs ys : List String) → mem_text k (xs ++ ys) ≡ (mem_text k xs || mem_text k ys)
mem_text-append k [] ys = refl
mem_text-append k (x ∷ xs) ys = ground (arith, mem_text-append k xs ys)

-- A filter by a test on texts that is a function of the text.
pub mem_text-filter :
    (p : String → Bool) (k : String) (xs : List String)
    → mem_text k (filter p xs) ≡ (mem_text k xs && p k)
mem_text-filter p k [] = refl
mem_text-filter p k (x ∷ xs) = elim (Bool-cases (str_eq x k)) [
  | inl e ↦ let same : x ≡ k = (eq_iff x k).0 e in ground (arith, ap p same, mem_text-filter p k xs)
  | inr e ↦ ground (arith, mem_text-filter p k xs)
]

pub filter-Distinct : (p : String → Bool) (xs : List String) → Distinct xs → Distinct (filter p xs)
filter-Distinct p [] h = tt
filter-Distinct p (x ∷ xs) h = ground (arith, mem_text-filter p x xs, filter-Distinct p xs h.1)

pub append-Distinct :
    (xs ys : List String)
    → Distinct xs
    → Distinct ys
    → ((k : String) → mem_text k xs ≡ true → mem_text k ys ≡ false)
    → Distinct (xs ++ ys)
append-Distinct [] ys hx hy apart = hy
append-Distinct (x ∷ xs) ys hx hy apart = (
  mem_text-append x xs ys ∙ (rw hx.0 (apart x (rw ((eq_iff x x).1 refl)))),
  append-Distinct xs ys hx.1 hy (λ k m. apart k (ground (arith, m))),
)

module _ {ℓ} {V : Type ℓ} where
  pub has-keys : (k : String) (d : Dict V) → has k d ≡ mem_text k (keys d)
  unfolding get
  has-keys k [] = refl
  has-keys k ((j, v) ∷ d) = ground (arith, has-keys k d)

  pub has-put : (k j : String) (v : V) (d : Dict V) → has j (put k v d) ≡ (str_eq k j || has j d)
  has-put k j v d = ground (arith, get-put k j v d)

  pub keys-Distinct : (d : Dict V) → Fresh d → Distinct (keys d)
  keys-Distinct [] h = tt
  keys-Distinct ((k, v) ∷ d) h = (sym (has-keys k d) ∙ rw (h.0, has), keys-Distinct d h.1)

module _ {ℓ κ} {A : Type ℓ} {V : Type κ} (key : A → String) (val : A → V) where
  pub has-from_items :
      (k : String) (xs : List A) (d : Dict V)
      → has k (from_items key val xs d) ≡ (mem_text k (map key xs) || has k d)
  unfolding from_items
  has-from_items k [] d = refl
  has-from_items k (x ∷ xs) d =
      ground (arith, has-from_items k xs (put (key x) (val x) d), has-put (key x) k (val x) d)

-- Every entry stands under the key of its value.
abbrev pub Keyed {ℓ} : {V : Type ℓ} → (V → String) → Dict V → Type 0
Keyed key d = All (λ e. key e.1 ≡ e.0) d

module _ {ℓ} {V : Type ℓ} (key : V → String) where
  put-Keyed : (v : V) (d : Dict V) → Keyed key d → Keyed key (put (key v) v d)
  unfolding put
  put-Keyed v [] h = (refl, tt)
  put-Keyed v ((j, w) ∷ d) h = elim (Bool-cases (str_eq j (key v))) [
    | inl e ↦ rw e (sym ((eq_iff j (key v)).0 e), h.1)
    | inr e ↦ rw e (h.0, put-Keyed v d h.1)
  ]

  pub from_items-Keyed :
      (xs : List V) (d : Dict V) → Keyed key d → Keyed key (from_items key (λ v. v) xs d)
  unfolding from_items
  from_items-Keyed [] d h = h
  from_items-Keyed (x ∷ xs) d h = from_items-Keyed xs (put (key x) x d) (put-Keyed x d h)
