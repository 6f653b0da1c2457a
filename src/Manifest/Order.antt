-- ===== src/Manifest/Order.antt =====
-- `Compare`: the order in which Go ranges over its maps does not show in the changes.
use mathlib.Core.List.{Permᴰ}
use kubetidy.Base.{
  All, All-append, or_skip, ◌≡◌, refl, sym, ap, ◌∙◌, false, Option, none, some, List, [], ◌∷◌, ◌++◌,
  map,
}
use kubetidy.Base.Float.{Float64, IsIeee}
use kubetidy.Base.Maps.{
  lookup_text, HasUniqueKeys, put_text-HasUniqueKeys, IsEntry, HasUniqueKeys-entries,
}
use kubetidy.Base.Sort.{
  Perm-symm, Perm-map, Perm-append, Perm-All, Perm-filter_map, sort_by, sort_by-Perm, IsStrict,
  sort_by-eq_of_perm,
}
use kubetidy.Base.Text.{Text}
use kubetidy.Manifest.{
  WorkloadCost, cost_ref, CostChange, index_by_ref, head_change, removal, change_for, removal_of,
  removals, change_before, compare_costs,
}
use kubetidy.Manifest.Ranking.{IsSized, change_before-asym, change_before_trans, same_ref}

module _ {F : Type 0} where
  index_by_ref-HasUniqueKeys :
      (cs : List (WorkloadCost F)) (m : List (Text × WorkloadCost F))
      → HasUniqueKeys m
      → HasUniqueKeys (index_by_ref m cs)
  unfolding index_by_ref
  index_by_ref-HasUniqueKeys [] m h = h
  index_by_ref-HasUniqueKeys (c ∷ cs) m h =
      index_by_ref-HasUniqueKeys cs _ (put_text-HasUniqueKeys (cost_ref c) c m h)

module _ {F : Type 0} ⦃fl : Float64 F⦄ where
  -- The change that the two maps determine for a reference.
  abbrev pub change_at :
      List (Text × WorkloadCost F) → List (Text × WorkloadCost F) → Text → Option (CostChange F)
  unfolding lookup_text change_for
  change_at base head ref = elim (lookup_text ref head) [
    | some h ↦ some (change_for base (ref, h))
    | none ↦ elim (lookup_text ref base) [ none ↦ none | some b ↦ some (removal ref b) ]
  ]

  abbrev IsDetermined :
      List (Text × WorkloadCost F) → List (Text × WorkloadCost F) → CostChange F → Type 0
  unfolding change_at
  IsDetermined base head c = some c ≡ change_at base head c.ref

  change_for-ref :
      (base : List (Text × WorkloadCost F)) (e : Text × WorkloadCost F)
      → (change_for base e).ref ≡ e.0
  unfolding change_for head_change
  change_for-ref base (ref, h) = by_base (lookup_text ref base)
    where
      by_base : (o : Option (WorkloadCost F)) → (head_change ref h o).ref ≡ ref
      by_base none = refl
      by_base (some b) = refl

  change_at-head :
      (base head : List (Text × WorkloadCost F)) (ref : Text) (h : WorkloadCost F)
      → lookup_text ref head ≡ some h
      → change_at base head ref ≡ some (change_for base (ref, h))
  unfolding change_at
  change_at-head base head ref h e = rw (change_at, e) refl

  change_at-base :
      (base head : List (Text × WorkloadCost F)) (ref : Text) (b : WorkloadCost F)
      → lookup_text ref head ≡ none
      → lookup_text ref base ≡ some b
      → change_at base head ref ≡ some (removal ref b)
  unfolding change_at
  change_at-base base head ref b n e = rw (change_at, n, e) refl

  heads-IsDetermined :
      (base head xs : List (Text × WorkloadCost F))
      → All (IsEntry head) xs
      → All (IsDetermined base head) (map (change_for base) xs)
  unfolding IsDetermined IsEntry
  heads-IsDetermined base head [] h = tt
  heads-IsDetermined base head ((ref, c) ∷ xs) (e, h) = (
    sym (
        ap (change_at base head) (change_for-ref base (ref, c)) ∙ change_at-head base head ref c e),
    heads-IsDetermined base head xs h,
  )

  removals-IsDetermined :
      (base head xs : List (Text × WorkloadCost F))
      → All (IsEntry base) xs
      → All (IsDetermined base head) (removals head xs)
  unfolding IsDetermined IsEntry removals removal_of
  removals-IsDetermined base head [] h = tt
  removals-IsDetermined base head ((ref, b) ∷ xs) (e, h) =
      kept (removals-IsDetermined base head xs h) (lookup_text ref head) refl
    where
      kept :
          All (λ c. some c ≡ change_at base head c.ref) (removals head xs)
          → (o : Option (WorkloadCost F)) → lookup_text ref head ≡ o
          → All
              (λ c. some c ≡ change_at base head c.ref)
              (or_skip (elim o [ none ↦ some (removal ref b) | some h ↦ none ]) (removals head xs))
      kept rest none n = (sym (change_at-base base head ref b n e), rest)
      kept rest (some d) n = rest

  module _ (laws : IsIeee F) (base head : List (Text × WorkloadCost F)) where
    Stands : CostChange F → Type 0
    Stands c = IsSized c × IsDetermined base head c

    strict : IsStrict change_before Stands
    unfolding Stands
    strict = record {
      asym = λ x y p q. change_before-asym laws x y p.0 q.0;
      trans = λ x y z p q r. change_before_trans laws x y z p.0 q.0 r.0;
    }

    same_change :
        (x y : CostChange F)
        → Stands x
        → Stands y
        → change_before x y ≡ false
        → change_before y x ≡ false
        → x ≡ y
    unfolding Stands IsDetermined
    same_change x y p q h k =
        ap (λ (o : Option (CostChange F)). elim o [ some z ↦ z | none ↦ x ])
          (p.1 ∙ ap (change_at base head) (same_ref laws x y p.0 q.0 h k) ∙ sym q.1)

    both_parts :
        (cs : List (CostChange F))
        → All IsSized cs
        → All (IsDetermined base head) cs
        → All Stands cs
    unfolding Stands
    both_parts [] h k = tt
    both_parts (c ∷ cs) (p, h) (q, k) = ((p, q), both_parts cs h k)

    sorted_alike :
        (xs ys : List (CostChange F))
        → Permᴰ xs ys
        → All IsSized xs
        → All (IsDetermined base head) xs
        → sort_by change_before xs ≡ sort_by change_before ys
    sorted_alike xs ys d h k =
        sort_by-eq_of_perm change_before strict same_change d (both_parts xs h k)

-- An order in which `range` may give the entries of a map: each of them once.
abbrev pub IsRange :
    {F : Type 0} → (List (Text × WorkloadCost F) → List (Text × WorkloadCost F)) → Type 0
IsRange order = (m : _) → Permᴰ (order m) m

module _ {F : Type 0} ⦃fl : Float64 F⦄ where
  -- The changes of a comparison are the same, in the same order, in whatever two orders `range` gives
  -- the entries of the maps, provided that the sizes of the changes are numbers.
  pub compare_costs-order :
      IsIeee F
      → (order other : List (Text × WorkloadCost F) → List (Text × WorkloadCost F)) → IsRange order
      → IsRange other
      → (base head : List (WorkloadCost F)) → All IsSized (compare_costs order base head).changes
      → (compare_costs order base head).changes ≡ (compare_costs other base head).changes
  unfolding compare_costs
  compare_costs-order laws order other p q base head h =
      let bs = index_by_ref [] base in
      let hs = index_by_ref [] head in
      let heads = Permᴰ.trans (p hs) (Perm-symm (q hs)) in
      let bases = Permᴰ.trans (p bs) (Perm-symm (q bs)) in
      let changes = map (change_for bs) (order hs) ++ removals hs (order bs) in
      let sized = Perm-All IsSized (sort_by-Perm change_before changes) h in
      let entries_h =
        Perm-All (IsEntry hs) (Perm-symm (p hs))
          (HasUniqueKeys-entries hs (index_by_ref-HasUniqueKeys head [] tt)) in
      let entries_b =
        Perm-All (IsEntry bs) (Perm-symm (p bs))
          (HasUniqueKeys-entries bs (index_by_ref-HasUniqueKeys base [] tt)) in
      sorted_alike laws bs hs changes (map (change_for bs) (other hs) ++ removals hs (other bs))
        (Perm-append (Perm-map (change_for bs) heads) (Perm-filter_map (removal_of hs) bases)) sized
        (All-append (IsDetermined bs hs) (map (change_for bs) (order hs)) (removals hs (order bs))
          (heads-IsDetermined bs hs (order hs) entries_h)
          (removals-IsDetermined bs hs (order bs) entries_b))
