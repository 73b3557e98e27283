-- ===== src/Operations/Fractional/Pick.antt =====
-- Which variants `fractional` gives.
use flagd.Prelude.{
  true, false, some, List, [], ◌∷◌, String, ◌≡◌, ◌≢◌, ◌⊎◌, inl, inr, refl, sym, subst, ap, ◌∙◌,
  arith, Bool-cases, Option-cases,
}
use flagd.Model.{Value, null, bool, str, num, arr, obj, Items, no_items, item, Fields, ℤ, pos}
use flagd.Operations.Fractional.{
  Floats, Hashing, FractionalEvaluationVariant, FractionalEvaluationDistribution, is_zero, add_int,
  weight_of, parse_distribution, parse_from, parse_fractional_evaluation_distributions, bucket_by,
  parse_fractional_evaluation_data, get_percentage, pick, distribute_value, evaluate, max_int32,
}

is_zero-eq : (n : ℤ) → is_zero n ≡ true → n ≡ pos 0
is_zero-eq n z = ground (arith, z)

nonzero : (n : ℤ) → is_zero n ≡ false → n ≢ pos 0
nonzero n z e = absurd (ground (arith, z, e))

-- The name stands with a weight other than zero.
abbrev Weighted : List FractionalEvaluationVariant → String → Type 0
Weighted [] name = ⊥
Weighted (v ∷ rest) name = ((v.variant ≡ name) × (v.weight ≢ pos 0)) ⊎ Weighted rest name

Weighted-along :
    (name : String) (vs ws : List FractionalEvaluationVariant)
    → vs ≡ ws
    → Weighted vs name
    → Weighted ws name
Weighted-along name vs ws e i = subst (λ us. Weighted us name) e i

module _ (h : Hashing) where
  -- An element of the values is an array of the name and a weight that `int` does not make zero.
  abbrev pub Lists : Items → String → Type 0
  Lists no_items name = ⊥
  Lists (item v rest) name =
      ((parts : Items) × (v ≡ arr (item (str name) parts)) × (weight_of h parts ≢ pos 0))
      ⊎ Lists rest name

  abbrev pub ListsIn : Value → String → Type 0
  ListsIn (arr values) name = Lists values name
  ListsIn v name = ⊥

  parse_distribution-Lists :
      (v : Value) (w : FractionalEvaluationVariant)
      → parse_distribution h v ≡ some w
      → (parts : Items) × (v ≡ arr (item (str w.variant) parts)) × (weight_of h parts ≡ w.weight)
  parse_distribution-Lists (arr (item (str name) rest)) w e =
      (rest, ground (arith, e), ground (arith, e))
  parse_distribution-Lists v w e = absurd (ground (arith, e))

  parse_distribution-listed :
      (v : Value) (w : FractionalEvaluationVariant) (name : String)
      → parse_distribution h v ≡ some w
      → (w.variant ≡ name) × (w.weight ≢ pos 0)
      → (parts : Items) × (v ≡ arr (item (str name) parts)) × (weight_of h parts ≢ pos 0)
  parse_distribution-listed v w name p (e, nz) =
      let (parts, same, weighs) = parse_distribution-Lists v w p in
      (parts, same ∙ ap (λ t. arr (item (str t) parts)) e, λ z. nz (sym weighs ∙ z))

  parse_from-Lists :
      (total : ℤ) (values : Items) (d : FractionalEvaluationDistribution) (name : String)
      → parse_from h total values ≡ some d
      → Weighted d.weighted_variants name
      → Lists values name
  unfolding parse_from
  parse_from-Lists total no_items d name e i =
      absurd (Weighted-along name d.weighted_variants [] (ground (arith, e)) i)
  parse_from-Lists total (item v rest) d name e i = elim (Option-cases (parse_distribution h v)) [
    | inl n ↦ absurd (ground (arith, e, n))
    | inr (w, p) ↦ elim (Option-cases (parse_from h (add_int total w.weight) rest)) [
      | inl n ↦ absurd (ground (arith, e, p, n))
      | inr (later, n) ↦
          elim (Weighted-along name d.weighted_variants (w ∷ later.weighted_variants)
            (ground (arith, e, p, n)) i) [
              | inl named ↦ inl (parse_distribution-listed v w name p named)
              | inr i' ↦ inr (parse_from-Lists (add_int total w.weight) rest later name n i')
            ]
    ]
  ]

  -- What is left of the values is part of them.
  bucket_by-Lists :
      (v : Value) (rest : Items) (data_map : Fields) (name : String)
      → Lists (bucket_by h v rest data_map).1 name
      → Lists (item v rest) name
  unfolding bucket_by
  bucket_by-Lists null rest data_map name i = inr i
  bucket_by-Lists (bool b) rest data_map name i = i
  bucket_by-Lists (str key) rest data_map name i = inr i
  bucket_by-Lists (num x) rest data_map name i = i
  bucket_by-Lists (arr vs) rest data_map name i = i
  bucket_by-Lists (obj fs) rest data_map name i = i

  parse_fractional_evaluation_data-ListsIn :
      (values context : Value) (key name : String) (d : FractionalEvaluationDistribution)
      → parse_fractional_evaluation_data h values context ≡ some (key, d)
      → Weighted d.weighted_variants name
      → ListsIn values name
  unfolding parse_fractional_evaluation_data parse_fractional_evaluation_distributions
  parse_fractional_evaluation_data-ListsIn (arr (item v (item w rest))) (obj data_map) key name d e
        i =
      let left = (bucket_by h v (item w rest) data_map).1 in
      elim (Option-cases (bucket_by h v (item w rest) data_map).0) [
        | inl n ↦ absurd (ground (arith, e, n))
        | inr (k, n) ↦ elim (Option-cases (parse_from h (pos 0) left)) [
          | inl m ↦ absurd (ground (arith, e, n, m))
          | inr (d', m) ↦ bucket_by-Lists v (item w rest) data_map name (
              parse_from-Lists (pos 0) left d' name m (
                Weighted-along name d.weighted_variants d'.weighted_variants
                  (ground (arith, e, n, m)) i))
        ]
      ]
  parse_fractional_evaluation_data-ListsIn values context key name d e i =
      absurd (ground (arith, e))

  module _ (f : Floats) where
    get_percentage-IsZero :
        (v : FractionalEvaluationVariant) (total : ℤ)
        → v.weight ≡ pos 0
        → f.IsZero (get_percentage h f v total)
    unfolding get_percentage
    get_percentage-IsZero v total e = elim (Bool-cases (is_zero total)) [
      | inl z ↦ rw z f.of_int-IsZero
      | inr z ↦
          rw (z, e)
            (f.div-IsZero (f.mul (f.of_int (pos 100)) (f.of_int (pos 0))) total
              (f.mul-IsZero (pos 100) (f.of_int (pos 0)) f.of_int-IsZero) (nonzero total z))
    ]

    -- A bucket that no range has reached yet goes to a weight other than zero, or to none.
    pick-Weighted :
        (bucket range_end : f.Float) (total : ℤ) (vs : List FractionalEvaluationVariant)
        → f.less bucket range_end ≡ false
        → (pick h f bucket total range_end vs ≡ "")
          ⊎ Weighted vs (pick h f bucket total range_end vs)
    unfolding pick
    pick-Weighted bucket range_end total [] above = inl refl
    pick-Weighted bucket range_end total (v ∷ rest) above =
        let next = f.add range_end (get_percentage h f v total) in
        elim (Bool-cases (f.less bucket next)) [
          | inl reached ↦ rw reached (
              inr (
                inl (
                  refl,
                  λ z. absurd (
                      ground (
                        arith,
                        reached,
                        above,
                        f.less-add bucket range_end (get_percentage h f v total)
                            (get_percentage-IsZero v total z),
                      )),
                )))
          | inr missed ↦ rw missed (elim (pick-Weighted bucket next total rest missed) [
            | inl e ↦ inl e
            | inr i ↦ inr (inr i)
          ])
        ]

    distribute_value-Weighted :
        (value : String) (d : FractionalEvaluationDistribution)
        → (distribute_value h f value d ≡ "")
          ⊎ Weighted d.weighted_variants (distribute_value h f value d)
    unfolding distribute_value
    distribute_value-Weighted value d =
        let hash = f.abs (f.of_int (h.string_sum32 value)) in
        let ratio = f.div hash (f.of_int (max_int32 h f)) in
        pick-Weighted (f.mul ratio (f.of_int (pos 100))) (f.of_int (pos 0)) d.total_weight
          d.weighted_variants
          (f.less-mul ratio 100
            (f.less-div hash 0x7fffffff (f.less-abs (f.of_int (h.string_sum32 value)))))

    -- `fractional` fails, gives the empty text, or gives the name of a variant that the values list
    -- with a weight other than zero.
    pub evaluate-Lists :
        (values context : Value)
        → (evaluate h f values context ≡ null)
          ⊎ (evaluate h f values context ≡ str "")
          ⊎ ((name : String) × (evaluate h f values context ≡ str name) × ListsIn values name)
    unfolding evaluate
    evaluate-Lists values context =
        elim (Option-cases (parse_fractional_evaluation_data h values context)) [
          | inl n ↦ inl (ground (arith, n))
          | inr ((key, d), n) ↦ inr (elim (distribute_value-Weighted key d) [
            | inl e ↦ inl (ground (arith, n, e))
            | inr i ↦ inr (
              distribute_value h f key d,
              ground (arith, n),
              parse_fractional_evaluation_data-ListsIn values context key
                  (distribute_value h f key d) d n i,
            )
          ])
        ]
