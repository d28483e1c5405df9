-- ===== src/Base/Dict.antt =====
-- A Python dict: an association list in the order of insertion. A key that is written again keeps
-- its place and takes the new value.
pub mod Keys
use Prim.Native.String.{String}
use mathlib.Core.Path.{◌≡◌, refl, subst}
use mathlib.Core.Bool.{Bool, true, false}
use mathlib.Core.Option.{Option, none, some}
use mathlib.Core.List.{List, [], ◌∷◌, map}
use native.Mathlib.Omega.{arith}
use text.Mathlib.Text.{◌==◌}
use text.Mathlib.TextEquality.{eq_iff}
use local_network_kafka_moni.Base.Tests.{if◌then◌else◌, Bool-cases}
use local_network_kafka_moni.Base.Lists.{All}
use mathlib.Core.Logic.{inl, inr}

abbrev pub Dict {ℓ} : Type ℓ → Type ℓ
Dict V = List (String × V)

module _ {ℓ} {V : Type ℓ} where
  -- d.get(k)
  unfoldable pub get : String → Dict V → Option V
  get k [] = none
  get k ((j, v) ∷ d) = if j == k then some v else get k d

  -- d[k] = v
  unfoldable pub put : String → V → Dict V → Dict V
  put k v [] = (k, v) ∷ []
  put k v ((j, w) ∷ d) = if j == k then (j, v) ∷ d else (j, w) ∷ put k v d

  abbrev pub keys : Dict V → List String
  keys d = map (λ e. e.0) d

  -- k in d
  abbrev pub has : String → Dict V → Bool
  has k d = elim (get k d) [ none ↦ false | some _ ↦ true ]

  -- No key stands twice.
  abbrev pub Fresh : Dict V → Type ℓ
  Fresh [] = Unit
  Fresh ((k, v) ∷ d) = (get k d ≡ none) × Fresh d

  pub get-put :
      (k j : String) (v : V) (d : Dict V) → get j (put k v d) ≡ (if k == j then some v else get j d)
  unfolding get put
  get-put k j v [] = refl
  get-put k j v ((i, w) ∷ d) = ground (arith, eq_iff k j, eq_iff i k, eq_iff i j, get-put k j v d)

  pub put-Fresh : (k : String) (v : V) (d : Dict V) → Fresh d → Fresh (put k v d)
  unfolding get put
  put-Fresh k v [] h = (refl, tt)
  put-Fresh k v ((j, w) ∷ d) h =
      ground (arith, eq_iff j k, eq_iff k j, get-put k j v d, put-Fresh k v d h.1)

module _ {ℓ κ} {A : Type ℓ} {V : Type κ} (key : A → String) (val : A → V) where
  -- {key(item): val(item) for item in items}, continued from a dict
  unfoldable pub from_items : List A → Dict V → Dict V
  from_items [] d = d
  from_items (x ∷ xs) d = from_items xs (put (key x) (val x) d)

  pub from_items-Fresh : (xs : List A) (d : Dict V) → Fresh d → Fresh (from_items xs d)
  unfolding from_items
  from_items-Fresh [] d h = h
  from_items-Fresh (x ∷ xs) d h =
      from_items-Fresh xs (put (key x) (val x) d) (put-Fresh (key x) (val x) d h)

module _ {ℓ κ} {V : Type ℓ} (P : V → Type κ) where
  -- Every value of the dict satisfies the predicate.
  abbrev pub Values : Dict V → Type κ
  Values d = All (λ e. P e.1) d

  pub get-Values : (k : String) (d : Dict V) (v : V) → Values d → get k d ≡ some v → P v
  unfolding get
  get-Values k [] v h e = cc
  get-Values k ((j, w) ∷ d) v h e = elim (Bool-cases (j == k)) [
    | inl same ↦ let e' : some w ≡ some v = rw (same, get) at e in subst P (cc) h.0
    | inr other ↦ get-Values k d v h.1 (rw (other, get) at e)
  ]

  pub put-Values : (k : String) (v : V) (d : Dict V) → P v → Values d → Values (put k v d)
  unfolding put
  put-Values k v [] p h = (p, tt)
  put-Values k v ((j, w) ∷ d) p h = elim (Bool-cases (j == k)) [
    | inl same ↦ rw same (p, h.1)
    | inr other ↦ rw other (h.0, put-Values k v d p h.1)
  ]

module _ {ℓ κ μ} {A : Type ℓ} {V : Type κ} (P : V → Type μ) (key : A → String) (val : A → V) where
  pub from_items-Values :
      (xs : List A) (d : Dict V)
      → All (λ x. P (val x)) xs
      → Values P d
      → Values P (from_items key val xs d)
  unfolding from_items
  from_items-Values [] d h hd = hd
  from_items-Values (x ∷ xs) d h hd =
      from_items-Values xs (put (key x) (val x) d) h.1 (put-Values P (key x) (val x) d h.0 hd)
