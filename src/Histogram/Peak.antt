-- ===== src/Histogram/Peak.antt =====
-- `Max`: the largest value ever observed.
use mathlib.Core.List.{Memᴰ}
use kubetidy.Base.{
  if◌then◌else◌, Bool-cases, All, ◌≡◌, refl, ◌⊎◌, inl, inr, Bool, true, false, not, ◌&&◌, ◌||◌,
  List, [], ◌∷◌, arith,
}
use kubetidy.Base.Float.{Float64, less, less_eq, nought, ◌≼◌, IsNumber, IsIeee}
use kubetidy.Base.FloatOrder.{le_of_not_lt, le_of_lt}
use kubetidy.Base.Int.{ℤ}
use kubetidy.Histogram.{Histogram, observe_weighted}

-- A sample as the code takes it: a value, its weight and its time.
pub record Reading (F : Type 0) : Type 0 where
  pub value : F
  pub weight : F
  pub time : ℤ

module _ {F : Type 0} ⦃fl : Float64 F⦄ where
  -- `ObserveWeighted` takes the reading: its weight is positive, its value finite.
  abbrev pub is_taken : Reading F → Bool
  is_taken r = not (less_eq r.weight nought || (fl.is_nan r.value || fl.is_inf r.value))

  abbrev pub observe_reading : Histogram F → Reading F → Histogram F
  observe_reading h r = observe_weighted h r.value r.weight r.time

  -- The calls of `ObserveWeighted`, in their order.
  unfoldable pub observe_all : Histogram F → List (Reading F) → Histogram F
  observe_all h [] = h
  observe_all h (r ∷ rs) = observe_all (observe_reading h r) rs

  max_seen-observe_weighted :
      (h : Histogram F) (r : Reading F)
      → (observe_reading h r).max_seen
        ≡ (if is_taken r && less h.max_seen r.value then r.value else h.max_seen)
  unfolding observe_weighted
  max_seen-observe_weighted h r = ground arith

  -- The taken values among the readings.
  abbrev pub taken_values : List (Reading F) → List F
  taken_values [] = []
  taken_values (r ∷ rs) = if is_taken r then r.value ∷ taken_values rs else taken_values rs

  max_seen_member :
      (h : Histogram F) (rs : List (Reading F))
      → ((observe_all h rs).max_seen ≡ h.max_seen)
        ⊎ Memᴰ (observe_all h rs).max_seen (taken_values rs)
  unfolding observe_all
  max_seen_member h [] = inl refl
  max_seen_member h (r ∷ rs) = elim (max_seen_member (observe_reading h r) rs) [
    | inl same ↦
        rw same (
          rw (max_seen-observe_weighted h r) (first_or_kept (is_taken r) (less h.max_seen r.value)))
    | inr later ↦ inr (later_member (is_taken r) later)
  ]
    where
      first_or_kept :
          (taken greater : Bool)
          → ((if taken && greater then r.value else h.max_seen) ≡ h.max_seen)
            ⊎ Memᴰ
                (if taken && greater then r.value else h.max_seen)
                (if taken then r.value ∷ taken_values rs else taken_values rs)
      first_or_kept true true = inr (Memᴰ.head refl)
      first_or_kept true false = inl refl
      first_or_kept false greater = inl refl

      later_member :
          (taken : Bool) {x : F}
          → Memᴰ x (taken_values rs)
          → Memᴰ x (if taken then r.value ∷ taken_values rs else taken_values rs)
      later_member true m = Memᴰ.tail m
      later_member false m = m

  module _ (laws : IsIeee F) where
    open laws use {le_trans, nan-eq-not-number}

    max_seen_grows :
        (h : Histogram F) (r : Reading F)
        → IsNumber h.max_seen
        → h.max_seen ≼ (observe_reading h r).max_seen
    max_seen_grows h r n =
        rw (max_seen-observe_weighted h r) (ground (arith, le_of_lt laws h.max_seen r.value))

    max_seen_covers :
        (h : Histogram F) (r : Reading F)
        → IsNumber h.max_seen
        → is_taken r ≡ true
        → r.value ≼ (observe_reading h r).max_seen
    max_seen_covers h r n t =
        rw (max_seen-observe_weighted h r)
          (ground (arith, nan-eq-not-number r.value, le_of_not_lt laws h.max_seen r.value))

    max_seen_number :
        (h : Histogram F) (rs : List (Reading F))
        → IsNumber h.max_seen
        → h.max_seen ≼ (observe_all h rs).max_seen
    unfolding observe_all
    max_seen_number h [] n = n
    max_seen_number h (r ∷ rs) n =
        let up = max_seen_grows h r n in
        le_trans _ _ _ up (max_seen_number (observe_reading h r) rs (laws.number_of_le _ _ up).1)

    taken_covered :
        (h : Histogram F) (rs : List (Reading F))
        → IsNumber h.max_seen
        → All (λ x. x ≼ (observe_all h rs).max_seen) (taken_values rs)
    unfolding observe_all
    taken_covered h [] n = tt
    taken_covered h (r ∷ rs) n =
        let up = max_seen_grows h r n in
        let number = (laws.number_of_le _ _ up).1 in
        let rest = taken_covered (observe_reading h r) rs number in
        elim (Bool-cases (is_taken r)) [
          | inl taken ↦ rw taken (
            le_trans _ _ _ (max_seen_covers h r n taken)
                (max_seen_number (observe_reading h r) rs number),
            rest,
          )
          | inr ignored ↦ rw ignored rest
        ]

    -- Where the old maximum is not NaN, after any readings `Max` is not below what it was nor below any reading that was taken, and
    -- it is one of these: the exact peak, which nothing decays.
    pub max_seen_exact :
        (h : Histogram F) (rs : List (Reading F))
        → IsNumber h.max_seen
        → let peak = (observe_all h rs).max_seen in
          (h.max_seen ≼ peak)
          × All (λ x. x ≼ peak) (taken_values rs)
          × ((peak ≡ h.max_seen) ⊎ Memᴰ peak (taken_values rs))
    max_seen_exact h rs n = (max_seen_number h rs n, taken_covered h rs n, max_seen_member h rs)
