-- ===== src/Histogram/Buckets.antt =====
-- `bucketFor`: the bucket of a value.
use kubetidy.Base.{
  ltb, ltb→lt, Bool-cases, length, get_elem?, take, All, ℕ, zero, suc, ◌+◌, ◌≤◌, ◌<◌, ◌≡◌, refl, ap,
  ◌⊎◌, inl, inr, false, some, List, [], ◌∷◌, arith,
}
use kubetidy.Base.Float.{Float64, less_eq, ◌≼◌}
use kubetidy.Histogram.{Histogram, bucket_in, bucket_for}

module _ {F : Type 0} ⦃fl : Float64 F⦄ where
  -- The bound of bucket `i` takes the value.
  abbrev pub Takes : List F → ℕ → F → Type 0
  Takes bounds i value = (b : F) × (get_elem? bounds i ≡ some b) × (value ≼ b)

  -- The buckets before `i` are too small for the value.
  abbrev pub AllBelow : List F → ℕ → F → Type 0
  AllBelow bounds i value = All (λ b. less_eq value b ≡ false) (take i bounds)

  bucket_in_first :
      (bounds : List F) (value : F)
      → let i = bucket_in bounds value in
        (i ≤ length bounds) × AllBelow bounds i value × (Takes bounds i value ⊎ (i ≡ length bounds))
  unfolding bucket_in
  bucket_in_first [] value = (omega arith, tt, inr refl)
  bucket_in_first (b ∷ bs) value =
      let (le, below, last) = bucket_in_first bs value in
      elim (Bool-cases (less_eq value b)) [
        | inl fits ↦ rw fits (omega arith, tt, inl (b, refl, fits))
        | inr above ↦ rw above (
          omega arith,
          (above, below),
          elim last [ inl taken ↦ inl taken | inr e ↦ inr (ap suc e) ],
        )
      ]

  AllBelow-take :
      (bounds : List F) (i j : ℕ) (value : F)
      → j ≤ i
      → AllBelow bounds i value
      → AllBelow bounds j value
  AllBelow-take bounds i zero value h b = tt
  AllBelow-take [] i (suc j) value h b = tt
  AllBelow-take (x ∷ xs) zero (suc j) value h b = absurd (omega arith)
  AllBelow-take (x ∷ xs) (suc i) (suc j) value h b =
      (b.0, AllBelow-take xs i j value (omega arith) b.1)

  -- `bucketFor` gives the index of a bucket, never one out of range: the first whose bound is not
  -- below the value, or the last one where every earlier bound is below it.
  pub bucket_for_first :
      (h : Histogram F) (value : F)
      → 0 < length h.bounds
      → let i = bucket_for h value in
        (i < length h.bounds)
        × AllBelow h.bounds i value
        × (Takes h.bounds i value ⊎ (i + 1 ≡ length h.bounds))
  unfolding bucket_for
  bucket_for_first h value n =
      let (le, below, last) = bucket_in_first h.bounds value in
      elim (Bool-cases (ltb (bucket_in h.bounds value) (length h.bounds))) [
        | inl inside ↦ rw inside (
          ltb→lt _ _ inside,
          below,
          elim last [ inl taken ↦ inl taken | inr e ↦ absurd (ground arith) ],
        )
        | inr past ↦
            rw past (
              omega arith,
              AllBelow-take h.bounds _ _ value (ground arith) below,
              inr (omega arith),
            )
      ]
