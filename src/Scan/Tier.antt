-- ===== src/Scan/Tier.antt =====
-- `dominantTier`: the tier that backs most recommendations, whatever the order of the map.
use mathlib.Core.List.{Memᴰ}
use mathlib.Core.Path.{subst}
use native.Mathlib.Decide.{dec_lt}
use native.Mathlib.Nat.{le_refl, le_trans}
use kubetidy.Base.{
  ℕ, ◌+◌, ◌*◌, ◌≤◌, ◌<◌, ◌≡◌, refl, sym, ap, ◌⊎◌, inl, inr, some, List, [], ◌∷◌, arith,
}
use kubetidy.Model.{EvidenceTier, static, snapshot, operator, historical, allocated, tier_rank}
use kubetidy.Scan.{tier_count, better_tier, best_tier, dominant_tier}

-- The tier of the larger count, and of two alike the higher one, has the larger weight.
abbrev pub weight_in : List EvidenceTier → EvidenceTier → ℕ
weight_in tiers t = 5 * tier_count t tiers + tier_rank t

-- Every tier of a recommendation is a key of the map.
abbrev pub Covers : List EvidenceTier → List EvidenceTier → Type 0
Covers keys tiers = (u : EvidenceTier) → 0 < tier_count u tiers → Memᴰ u keys

rank-lt : (t : EvidenceTier) → tier_rank t < 5
rank-lt static = omega arith
rank-lt snapshot = omega arith
rank-lt operator = omega arith
rank-lt historical = omega arith
rank-lt allocated = omega arith

rank_injective : (t u : EvidenceTier) → tier_rank t ≡ tier_rank u → t ≡ u
rank_injective t u h = ground arith

better_tier_weight :
    (tiers : List EvidenceTier) (best tier : EvidenceTier)
    → let r = better_tier tiers best tier in
      (weight_in tiers best ≤ weight_in tiers r) × (weight_in tiers tier ≤ weight_in tiers r)
unfolding better_tier
better_tier_weight tiers best tier = ground (arith, rank-lt best, rank-lt tier)

in_keys :
    {w : EvidenceTier → ℕ} {n : ℕ} (k : EvidenceTier) (ks : List EvidenceTier)
    → w k ≤ n
    → ((u : EvidenceTier) → Memᴰ u ks → w u ≤ n)
    → (u : EvidenceTier) → Memᴰ u (k ∷ ks)
    → w u ≤ n
in_keys {w = w} {n = n} k ks h hs u (Memᴰ.head e) = subst (λ v. w v ≤ n) (sym e) h
in_keys k ks h hs u (Memᴰ.tail m) = hs u m

best_tier_weight :
    (tiers keys : List EvidenceTier) (best : EvidenceTier)
    → let r = best_tier tiers keys best in
      (weight_in tiers best ≤ weight_in tiers r)
      × ((u : EvidenceTier) → Memᴰ u keys → weight_in tiers u ≤ weight_in tiers r)
unfolding best_tier
best_tier_weight tiers [] best = (le_refl _, λ u m. elim m [ ])
best_tier_weight tiers (k ∷ ks) best =
    let step = better_tier_weight tiers best k in
    let rest = best_tier_weight tiers ks (better_tier tiers best k) in
    (le_trans step.0 rest.0, in_keys k ks (le_trans step.1 rest.0) rest.1)

-- The first recommendation's tier counts at least once.
first-counts : (t : EvidenceTier) (ts : List EvidenceTier) → 0 < tier_count t (t ∷ ts)
unfolding tier_count
first-counts t ts = ground arith

best_tier_all :
    (keys : List EvidenceTier) (t : EvidenceTier) (ts : List EvidenceTier)
    → Covers keys (t ∷ ts)
    → (u : EvidenceTier) → weight_in (t ∷ ts) u ≤ weight_in (t ∷ ts) (best_tier (t ∷ ts) keys t)
best_tier_all keys t ts covers u =
    let all = best_tier_weight (t ∷ ts) keys t in
    elim (dec_lt 0 (tier_count u (t ∷ ts))) [
      | yes h ↦ all.1 u (covers u h)
      | no h ↦ ground (arith, all.0, rank-lt u, first-counts t ts)
    ]

-- A larger weight is a larger count, or the same count and a higher tier.
larger_weight :
    (tiers : List EvidenceTier) (u r : EvidenceTier)
    → weight_in tiers u ≤ weight_in tiers r
    → (tier_count u tiers < tier_count r tiers)
      ⊎ ((tier_count u tiers ≡ tier_count r tiers) × (tier_rank u ≤ tier_rank r))
larger_weight tiers u r h = elim (dec_lt (tier_count u tiers) (tier_count r tiers)) [
  | yes lt ↦ inl lt
  | no ge ↦ inr (ground (arith, rank-lt u, rank-lt r))
]

-- With any recommendations, in whatever order the loop visits the counts, as long as it visits every
-- tier that has any, `dominantTier` gives one and the same tier, and every other tier has fewer
-- recommendations, or as many and is lower.
pub dominant_tier_lem :
    (keys keys' : List EvidenceTier) (t : EvidenceTier) (ts : List EvidenceTier)
    → Covers keys (t ∷ ts)
    → Covers keys' (t ∷ ts)
    → (r : EvidenceTier) × (dominant_tier keys (t ∷ ts) ≡ some r)
      × (dominant_tier keys' (t ∷ ts) ≡ some r)
      × ((u : EvidenceTier)
          → (tier_count u (t ∷ ts) < tier_count r (t ∷ ts))
            ⊎ ((tier_count u (t ∷ ts) ≡ tier_count r (t ∷ ts)) × (tier_rank u ≤ tier_rank r)))
unfolding dominant_tier
dominant_tier_lem keys keys' t ts c c' =
    let r = best_tier (t ∷ ts) keys t in
    let s = best_tier (t ∷ ts) keys' t in
    let most = best_tier_all keys t ts c in
    let most' = best_tier_all keys' t ts c' in
    let same : tier_rank s ≡ tier_rank r = ground (arith, most s, most' r, rank-lt s, rank-lt r) in
    (r, refl, ap some (rank_injective s r same), λ u. larger_weight (t ∷ ts) u r (most u))
