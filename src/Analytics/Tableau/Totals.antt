-- ===== src/Analytics/Tableau/Totals.antt =====
-- The groups of the daily dataset account for every probe of the rows that they are made of.
use local_network_kafka_moni.Base.{
  ℕ, ◌+◌, String, str_eq, if◌then◌else◌, Bool, true, false, not, List, [], ◌∷◌, map, Option, none,
  some, ◌≡◌, refl, ap, ◌∙◌, subst, length, filter, all, arith, inl, inr, Bool-cases, and-left,
  and-right, ◌==◌,
}
use local_network_kafka_moni.Base.Number.{Number}
use local_network_kafka_moni.Base.Sort.{insert, sort}
use local_network_kafka_moni.Base.Grouping.{
  IsEquality, equality_sym, pair-IsEquality, member, distinct, Unique, member-distinct, member-map,
  all-of_Mem, distinct-Unique,
}
use local_network_kafka_moni.Query.Models.{Text}
use local_network_kafka_moni.Analytics.Sources.Grain.{same_refl, eq_of_same, same-IsEquality}
use local_network_kafka_moni.Analytics.Warehouse.{same_date}
use local_network_kafka_moni.Analytics.Refresh.Dimensions.{date-IsEquality}
use local_network_kafka_moni.Query.Cursor.Format.{same}
use local_network_kafka_moni.Analytics.Tableau.{
  DailyReliabilitySource, Export, CsvValue, text, integer, float, empty, CsvDataset, csv_dataset,
  daily_columns, GroupKey, same_role, same_group, GroupTotals, sum_by, daily_key, group_lt,
  sorted_groups, members_of_group, totals_of, daily_row, daily_groups, daily_dataset,
}

eq_of_role : (a b : Option Text) → same_role a b ≡ true → a ≡ b
unfolding same_role
eq_of_role none none h = refl
eq_of_role none (some b) h = cc
eq_of_role (some a) none h = cc
eq_of_role (some a) (some b) h = ap some (eq_of_same a b h)

role_refl : (a : Option Text) → same_role a a ≡ true
unfolding same_role
role_refl none = refl
role_refl (some a) = same_refl a

pub role-IsEquality : IsEquality same_role
role-IsEquality = record { reflexive = role_refl; sound = eq_of_role }

group-IsEquality : IsEquality same_group
unfolding same_group
group-IsEquality = pair-IsEquality same_date _ date-IsEquality (
    pair-IsEquality same _ same-IsEquality (
      pair-IsEquality same_role _ role-IsEquality
        (pair-IsEquality same same same-IsEquality same-IsEquality)))

module _ {A : Type 0} (le : A → A → Bool) (f : A → ℕ) where
  sum_by-insert : (a : A) (xs : List A) → sum_by f (insert le a xs) ≡ f a + sum_by f xs
  unfolding insert sum_by
  sum_by-insert a [] = refl
  sum_by-insert a (x ∷ xs) = elim (Bool-cases (le a x)) [
    | inl e ↦ rw e refl
    | inr e ↦ rw (e, sum_by-insert a xs) (omega arith)
  ]

  pub sum_by-sort : (xs : List A) → sum_by f (sort le xs) ≡ sum_by f xs
  unfolding sort sum_by
  sum_by-sort [] = refl
  sum_by-sort (x ∷ xs) = sum_by-insert x (sort le xs) ∙ ap (λ n. f x + n) (sum_by-sort xs)

pub sum_by-map :
    {A B : Type 0} (g : A → B) (f : B → ℕ) (xs : List A)
    → sum_by f (map g xs) ≡ sum_by (λ x. f (g x)) xs
unfolding sum_by
sum_by-map g f [] = refl
sum_by-map g f (x ∷ xs) = ap (λ n. f (g x) + n) (sum_by-map g f xs)

module _ {K A : Type 0} (eq : K → K → Bool) (e : IsEquality eq) (key : A → K) (f : A → ℕ) where
  unfoldable pub part : K → List A → ℕ
  part k xs = sum_by f (filter (λ x. eq (key x) k) xs)

  sum_by-parts_absent :
      (a : A) (xs : List A) (ks : List K)
      → member eq (key a) ks ≡ false
      → sum_by (λ k. part k (a ∷ xs)) ks ≡ sum_by (λ k. part k xs) ks
  unfolding sum_by part
  sum_by-parts_absent a xs [] h = refl
  sum_by-parts_absent a xs (k ∷ ks) h =
      let other : eq (key a) k ≡ false = equality_sym eq e (key a) k ∙ ground (arith, h) in
      rw (other, sum_by-parts_absent a xs ks (ground (arith, h))) refl

  -- A row adds its value to the part of its key.
  sum_by-parts_row :
      (a : A) (xs : List A) (ks : List K)
      → Unique eq ks
      → member eq (key a) ks ≡ true
      → sum_by (λ k. part k (a ∷ xs)) ks ≡ f a + sum_by (λ k. part k xs) ks
  unfolding sum_by part
  sum_by-parts_row a xs [] u h = cc
  sum_by-parts_row a xs (k ∷ ks) u h = elim (Bool-cases (eq k (key a))) [
    | inl m ↦
        let mine : eq (key a) k ≡ true = equality_sym eq e (key a) k ∙ m in
        let nowhere : member eq (key a) ks ≡ false =
          subst (λ c. member eq c ks ≡ false) (e.sound k (key a) m) u.0 in
        rw (mine, sum_by-parts_absent a xs ks nowhere) (omega arith)
    | inr m ↦
        let other : eq (key a) k ≡ false = equality_sym eq e (key a) k ∙ m in
        rw (other, sum_by-parts_row a xs ks u.1 (ground (arith, h, m))) (omega arith)
  ]

  sum_by-parts_nil : (ks : List K) → sum_by (λ k. part k []) ks ≡ 0
  unfolding sum_by part
  sum_by-parts_nil [] = refl
  sum_by-parts_nil (k ∷ ks) = omega (arith, sum_by-parts_nil ks)

  pub sum_by-parts :
      (xs : List A) (ks : List K)
      → Unique eq ks
      → all (λ x. member eq (key x) ks) xs ≡ true
      → sum_by (λ k. part k xs) ks ≡ sum_by f xs
  unfolding sum_by
  sum_by-parts [] ks u h = sum_by-parts_nil ks
  sum_by-parts (x ∷ xs) ks u h =
      sum_by-parts_row x xs ks u (and-left (member eq (key x) ks) _ h)
      ∙ ap (λ n. f x + n) (sum_by-parts xs ks u (and-right (member eq (key x) ks) _ h))

module _ {R : Type 0} where
  -- A count that is written in a cell; other cells count for nothing.
  abbrev count_of : CsvValue R → ℕ
  count_of (integer n) = n
  count_of (text value) = 0
  count_of (float value) = 0
  count_of empty = 0

  -- The count of a row under the column of a name.
  abbrev pub counted : String → List String → List (CsvValue R) → ℕ
  counted name [] values = 0
  counted name (column ∷ columns) [] = 0
  counted name (column ∷ columns) (value ∷ values) =
      let later = counted name columns values in
      if str_eq column name then count_of value else later

  -- The sum of a column of a dataset, over the rows that were written.
  unfoldable pub column_sum : String → CsvDataset R → ℕ
  column_sum name dataset = sum_by (counted name dataset.columns) dataset.rows

module _ {R : Type 0} ⦃num : Number R⦄ where
  rows-wide :
      (export : Export R) (groups : List (GroupKey × GroupTotals R))
      → all
          (λ row. length row == length daily_columns)
          (map (λ group. daily_row export group.0 group.1) groups)
        ≡ true
  unfolding daily_row
  rows-wide export [] = refl
  rows-wide export (group ∷ groups) = rows-wide export groups

module _ {R : Type 0} ⦃num : Number R⦄ (export : Export R)
    (rows : List (DailyReliabilitySource R)) where
  all-keyed :
      all
        (λ row.
          member same_group
            (daily_key export row)
            (distinct same_group (map (daily_key export) rows)))
        rows
      ≡ true
  all-keyed = all-of_Mem _ rows (λ row m.
      member-distinct same_group group-IsEquality (daily_key export row)
        (map (daily_key export) rows)
      ∙ member-map same_group (daily_key export) row rows group-IsEquality m)

  -- A figure of the rows, summed over the groups.
  sum_by-groups :
      (f : DailyReliabilitySource R → ℕ)
      → sum_by (λ key. sum_by f (members_of_group export key rows)) (sorted_groups export rows)
        ≡ sum_by f rows
  unfolding members_of_group sorted_groups part
  sum_by-groups f =
      let keys = distinct same_group (map (daily_key export) rows) in
      sum_by-sort (λ a b. not (group_lt export b a))
        (λ key. sum_by f (members_of_group export key rows)) keys
      ∙ sum_by-parts same_group group-IsEquality (daily_key export) f rows keys
          (distinct-Unique same_group group-IsEquality (map (daily_key export) rows)) all-keyed

  dataset-some :
      daily_dataset export rows
      ≡ some (record {
        columns = daily_columns;
        rows = map (λ group. daily_row export group.0 group.1) (daily_groups export rows);
      })
  unfolding daily_dataset csv_dataset
  dataset-some = rw (rows-wide export (daily_groups export rows)) refl

  -- What the columns of the counts add up to in the daily dataset.
  pub daily_dataset-column_sum :
      (daily : CsvDataset R) × ((daily_dataset export rows ≡ some daily)
        × ((column_sum "total_probes" daily ≡ sum_by (λ row. row.total_count) rows)
            × ((column_sum "successful_probes" daily ≡ sum_by (λ row. row.success_count) rows)
                × (column_sum "failed_probes" daily ≡ sum_by (λ row. row.failure_count) rows))))
  unfolding daily_groups totals_of daily_row column_sum
  daily_dataset-column_sum =
      let keys = sorted_groups export rows in
      let groups = daily_groups export rows in
      let row_of : GroupKey × GroupTotals R → List (CsvValue R) =
        λ group. daily_row export group.0 group.1 in
      (
        _,
        (
          dataset-some,
          (
            sum_by-map row_of (counted "total_probes" daily_columns) groups
                ∙ sum_by-map _ (λ group. group.1.total) keys
                ∙ sum_by-groups (λ row. row.total_count),
            (
              sum_by-map row_of (counted "successful_probes" daily_columns) groups
                  ∙ sum_by-map _ (λ group. group.1.successes) keys
                  ∙ sum_by-groups (λ row. row.success_count),
              sum_by-map row_of (counted "failed_probes" daily_columns) groups
                  ∙ sum_by-map _ (λ group. group.1.failures) keys
                  ∙ sum_by-groups (λ row. row.failure_count),
            ),
          ),
        ),
      )
