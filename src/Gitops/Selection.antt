-- ===== src/Gitops/Selection.antt =====
-- `selectRecommendations`: which recommendations a change set holds, and in what order.
use Prim.Native.Nat.{min}
use mathlib.Core.List.{Permᴰ}
use mathlib.Core.Path.{ap₂, subst}
use kubetidy.Base.{
  if◌then◌else◌, length, take, All, ℕ, zero, suc, ◌≡◌, refl, sym, ap, ◌∙◌, ◌⊎◌, inl, inr, Bool,
  true, false, ◌&&◌, ◌||◌, List, [], ◌∷◌, arith,
}
use kubetidy.Base.Float.{Float64, less_eq, nought, ◌≼◌, IsNumber, IsIeee}
use kubetidy.Base.FloatOrder.{decimal-IsNumber, le_of_not_lt, le_of_lt, not_lt_of_le}
use kubetidy.Base.Int.{ℤ, pos, negsuc, pos_part, ltb_ℤ}
use kubetidy.Base.Sort.{
  filter_by, filter_by-All, Perm-length, sort_by, IsSorted, sort_by-Perm, sort_by-All,
  sort_by-filter, IsStrict, sort_by-IsSorted,
}
use kubetidy.Gitops.{Options, is_kept, saves_more, select_recommendations}
use kubetidy.Model.{Recommendation}

take-all : {A : Type 0} (xs : List A) → take (length xs) xs ≡ xs
take-all [] = refl
take-all (x ∷ xs) = ap (λ r. x ∷ r) (take-all xs)

-- How many of the kept recommendations are selected.
abbrev pub limit : ℤ → ℕ → ℕ
limit (pos zero) kept = kept
limit (pos (suc n)) kept = min (suc n) kept
limit (negsuc n) kept = kept

limit-cases :
    (n : ℤ) (k : ℕ)
    → ((ltb_ℤ (pos 0) n && ltb_ℤ n (pos k)) ≡ true) × (pos_part n ≡ limit n k)
      ⊎ ((ltb_ℤ (pos 0) n && ltb_ℤ n (pos k)) ≡ false) × (k ≡ limit n k)
limit-cases (pos zero) k = ground arith
limit-cases (pos (suc n)) k = ground arith
limit-cases (negsuc n) k = ground arith

take-limit :
    {A : Type 0} (n : ℤ) (xs : List A)
    → (if ltb_ℤ (pos 0) n && ltb_ℤ n (pos (length xs)) then take (pos_part n) xs else xs)
      ≡ take (limit n (length xs)) xs
take-limit n xs = elim (limit-cases n (length xs)) [
  | inl (c, e) ↦ rw c (ap (λ k. take k xs) e)
  | inr (c, e) ↦ rw c (sym (take-all xs) ∙ ap (λ k. take k xs) e)
]

module _ {F : Type 0} ⦃fl : Float64 F⦄ where
  HasNumber : Recommendation F → Type 0
  HasNumber r = IsNumber r.monthly_savings

  -- The savings are those of the first argument.
  abbrev pub saves : F → Recommendation F → Bool
  saves v r = less_eq v r.monthly_savings && less_eq r.monthly_savings v

  saves_more-IsStrict : IsIeee F → IsStrict saves_more HasNumber
  unfolding HasNumber
  saves_more-IsStrict laws = record {
    asym = λ x y p q h.
        not_lt_of_le laws x.monthly_savings y.monthly_savings
          (le_of_lt laws y.monthly_savings x.monthly_savings h);
    trans = λ x y z p q r h k. not_lt_of_le laws x.monthly_savings z.monthly_savings (
        laws.le_trans z.monthly_savings y.monthly_savings x.monthly_savings
          (le_of_not_lt laws y.monthly_savings z.monthly_savings q r k)
          (le_of_not_lt laws x.monthly_savings y.monthly_savings p q h));
  }

  saves-apart :
      IsIeee F
      → (v : F) (x y : Recommendation F) → saves v x ≡ true
      → saves v y ≡ true
      → saves_more x y ≡ false
  saves-apart laws v x y h k =
      not_lt_of_le laws y.monthly_savings x.monthly_savings (
        laws.le_trans x.monthly_savings v y.monthly_savings (ground (arith, h)) (ground (arith, k)))

  -- No larger saving follows a smaller one.
  abbrev pub Descends : List (Recommendation F) → Type 0
  Descends [] = Unit
  Descends (x ∷ xs) =
      All (λ (y : Recommendation F). y.monthly_savings ≼ x.monthly_savings) xs × Descends xs

  below-All :
      IsIeee F
      → (x : Recommendation F) (ys : List (Recommendation F)) → HasNumber x
      → All HasNumber ys
      → All (λ y. saves_more y x ≡ false) ys
      → All (λ (y : Recommendation F). y.monthly_savings ≼ x.monthly_savings) ys
  unfolding HasNumber
  below-All laws x [] p h k = tt
  below-All laws x (y ∷ ys) p (q, h) (e, k) =
      (le_of_not_lt laws x.monthly_savings y.monthly_savings p q e, below-All laws x ys p h k)

  sorted-Descends :
      IsIeee F
      → (xs : List (Recommendation F)) → All HasNumber xs
      → IsSorted saves_more xs
      → Descends xs
  sorted-Descends laws [] h k = tt
  sorted-Descends laws (x ∷ xs) (p, h) (e, k) =
      (below-All laws x xs p h e, sorted-Descends laws xs h k)

  -- A recommendation that saves, costs nothing more, or is allowed to grow.
  abbrev pub is_wanted : Options → Recommendation F → Bool
  is_wanted opts r = opts.include_grow || less_eq nought r.monthly_savings

  kept-eq-wanted :
      IsIeee F
      → (opts : Options) (rs : List (Recommendation F)) → All HasNumber rs
      → filter_by (is_kept opts) rs ≡ filter_by (is_wanted opts) rs
  unfolding HasNumber
  kept-eq-wanted laws opts [] h = refl
  kept-eq-wanted laws opts (r ∷ rs) (p, h) =
      ap₂ (λ (b : Bool) (l : List (Recommendation F)). if opts.include_grow || b then r ∷ l else l)
        (ground (arith, laws.lt-eq-not-le r.monthly_savings nought p (decimal-IsNumber laws 0 0)))
        (kept-eq-wanted laws opts rs h)

  -- `selectRecommendations`, for recommendations whose savings are numbers, gives the first `limit`
  -- items of a list that has exactly the recommendations which do not cost more (all of them where
  -- growth is included), each as often as the scan has it, in which no larger saving follows a
  -- smaller one, and in which those with equal savings stand in the order of the scan; a top-n above
  -- zero is the limit where there are more.
  pub select_recommendations_lem :
      IsIeee F
      → (recs : List (Recommendation F)) (opts : Options)
      → All (λ (r : Recommendation F). IsNumber r.monthly_savings) recs
      → let wanted = filter_by (is_wanted opts) recs in
        (ranked : List (Recommendation F)) × (select_recommendations recs opts
          ≡ take (limit opts.top_n (length wanted)) ranked)
        × Permᴰ ranked wanted
        × Descends ranked
        × ((v : F) → filter_by (saves v) ranked ≡ filter_by (saves v) wanted)
  unfolding select_recommendations HasNumber
  select_recommendations_lem laws recs opts h =
      let kept = filter_by (is_kept opts) recs in
      let ranked = sort_by saves_more kept in
      let items = sort_by-Perm saves_more kept in
      let numbers = filter_by-All HasNumber (is_kept opts) recs h in
      let sorted = sort_by-IsSorted saves_more (saves_more-IsStrict laws) kept numbers in
      let same = kept-eq-wanted laws opts recs h in
      (
        ranked,
        take-limit opts.top_n ranked
            ∙ ap (λ n. take (limit opts.top_n n) ranked) (Perm-length items ∙ ap length same),
        subst (λ l. Permᴰ ranked l) same items,
        sorted-Descends laws ranked (sort_by-All saves_more HasNumber kept numbers) sorted,
        λ v.
            sort_by-filter saves_more (saves v) (saves-apart laws v) kept
            ∙ ap (filter_by (saves v)) same,
      )
