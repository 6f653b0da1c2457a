-- ===== src/Rightsizer/Coverage.antt =====
-- What the proposed requests cover: order and bounds of `Recommend` under the laws of floats.
use mathlib.Core.Path.{ap₂}
use kubetidy.Base.{if◌then◌else◌, ℕ, ◌^◌, ◌≤◌, ◌≡◌, refl, ap, ◌⊎◌, false, arith}
use kubetidy.Base.Float.{Float64, ◌⊕◌, ◌⊗◌, decimal, nought, ◌≼◌, ◌≺◌, IsIeee}
use kubetidy.Base.FloatOrder.{le_of_lt, not_lt_of_le}
use kubetidy.Base.Int.{ℤ, pos, negsuc, ◌≤ℤ◌}
use kubetidy.Model.{is_snapshot, ResourceSpec, UsageStats, Policy}
use kubetidy.Rightsizer.{
  round_non_negative, round_up_mib, maturity_of, data_maturity, cpu_headroom_of, memory_headroom_of,
  cpu_request, memory_request, recommend,
}
use kubetidy.Rightsizer.Mebibytes.{round_up_mib_least, round_up_mib_mono}

abbrev pub limit : ℕ
limit = 2 ^ 62

module _ {F : Type 0} ⦃fl : Float64 F⦄ (laws : IsIeee F) where
  open laws use {
    number_of_le, le_trans, le_total, lt_number, nan-eq-not-number, round_mono, round_bounds,
    inf_bounds, mul_mono, le-mul, le-add_right, mul_nonneg, decimal_mono,
  }

  -- A value that rounds to an `int64` is rounded.
  round_non_negative-eq :
      (v : F)
      → nought ≼ v
      → v ≼ decimal limit 0
      → (round_non_negative v ≡ pos 0) ⊎ (round_non_negative v ≡ fl.round v)
  unfolding round_non_negative
  round_non_negative-eq v p q = ground arith

  pub round_non_negative_bounds :
      (v : F)
      → nought ≼ v
      → v ≼ decimal limit 0
      → (n : ℕ) × (round_non_negative v ≡ pos n) × (n ≤ limit)
  round_non_negative_bounds v p q = go (round_non_negative v) refl
    where
      go :
          (r : ℤ)
          → round_non_negative v ≡ r
          → (n : ℕ) × (round_non_negative v ≡ pos n) × (n ≤ limit)
      go (pos n) e = (n, e, ground (arith, round_non_negative-eq v p q, round_bounds v p q))
      go (negsuc n) e = absurd (ground (arith, round_non_negative-eq v p q, round_bounds v p q))

  pub round_non_negative_mono :
      (v w : F)
      → nought ≼ v
      → v ≼ w
      → w ≼ decimal limit 0
      → round_non_negative v ≤ℤ round_non_negative w
  unfolding round_non_negative
  round_non_negative_mono v w p h q = ground (
    arith,
    number_of_le v w h,
    nan-eq-not-number v,
    nan-eq-not-number w,
    le_trans v w (decimal limit 0) h q,
    le_trans nought v w p h,
    le_trans v w nought h,
    inf_bounds v p,
    inf_bounds w,
    round_mono v w p h q,
    round_bounds w,
    round_bounds v p,
  )

-- Usage of both metrics, with headrooms that are not negative and products that an `int64` holds.
pub record IsBounded {F : Type 0} ⦃fl : Float64 F⦄ (usage : UsageStats F) (policy : Policy F)
    : Type 0 where
  pub cpu_seen : nought ≺ usage.cpu_millicores.p95
  pub memory_seen : nought ≺ usage.memory_bytes.peak
  pub cpu_cushion : nought ≼ cpu_headroom_of usage policy
  pub memory_cushion : nought ≼ memory_headroom_of usage policy
  pub cpu_fits :
      (usage.cpu_millicores.p95 ⊗ (decimal 1 0 ⊕ cpu_headroom_of usage policy)) ≼ decimal limit 0
  pub memory_fits :
      (usage.memory_bytes.peak ⊗ (decimal 1 0 ⊕ memory_headroom_of usage policy)) ≼ decimal limit 0

-- Two observations of one container that differ in the measured usage alone, the second not below
-- the first.
pub record IsHeavier {F : Type 0} ⦃fl : Float64 F⦄ (u v : UsageStats F) : Type 0 where
  pub window : u.window ≡ v.window
  pub samples : u.samples ≡ v.samples
  pub tier : u.tier ≡ v.tier
  pub cpu : u.cpu_millicores.p95 ≼ v.cpu_millicores.p95
  pub memory : u.memory_bytes.peak ≼ v.memory_bytes.peak

module _ {F : Type 0} ⦃fl : Float64 F⦄ (laws : IsIeee F) where
  open laws use {number_of_le, le_trans, mul_mono, le-mul, le-add_right, mul_nonneg}

  -- A product with a headroom covers the measured value.
  le-headroom :
      (x h : F)
      → nought ≺ x
      → nought ≼ h
      → (x ⊗ (decimal 1 0 ⊕ h)) ≼ decimal limit 0
      → (nought ≼ x) × (x ≼ (x ⊗ (decimal 1 0 ⊕ h))) × (nought ≼ (decimal 1 0 ⊕ h))
  le-headroom x h p q fits =
      let x_ok = le_of_lt laws nought x p in
      let one = le-add_right (decimal 1 0) h (laws.mul_number _ _ (number_of_le _ _ fits).0).1 q in
      (
        x_ok,
        le-mul x (decimal 1 0 ⊕ h) x_ok one (number_of_le _ _ fits).0,
        le_trans _ _ _ (laws.decimal_mono 0 0 1 0 (omega arith)) one,
      )

  -- With the same headroom, the heavier of two values has the greater product.
  headroom_mono :
      (x y h : F)
      → nought ≺ x
      → x ≼ y
      → nought ≼ h
      → (x ⊗ (decimal 1 0 ⊕ h)) ≼ decimal limit 0
      → (y ⊗ (decimal 1 0 ⊕ h)) ≼ decimal limit 0
      → round_non_negative (x ⊗ (decimal 1 0 ⊕ h)) ≤ℤ round_non_negative (y ⊗ (decimal 1 0 ⊕ h))
  headroom_mono x y h p le q fx fy =
      let (x_ok, up, factor) = le-headroom x h p q fx in
      round_non_negative_mono laws (x ⊗ (decimal 1 0 ⊕ h)) (y ⊗ (decimal 1 0 ⊕ h))
        (le_trans _ _ _ x_ok up)
        (mul_mono x y (decimal 1 0 ⊕ h) factor le (number_of_le _ _ fx).0 (number_of_le _ _ fy).0)
        fy

  cpu_headroom-congr :
      (u v : UsageStats F) (policy : Policy F)
      → IsHeavier u v
      → cpu_headroom_of u policy ≡ cpu_headroom_of v policy
  unfolding cpu_headroom_of
  cpu_headroom-congr u v policy h =
      ap
        (λ t.
          if is_snapshot t
          then policy.cpu_headroom ⊕ policy.snapshot_headroom
          else policy.cpu_headroom)
        h.tier

  memory_headroom-congr :
      (u v : UsageStats F) (policy : Policy F)
      → IsHeavier u v
      → memory_headroom_of u policy ≡ memory_headroom_of v policy
  unfolding memory_headroom_of data_maturity
  memory_headroom-congr u v policy h =
      let same = ap₂ {C = F} maturity_of h.window h.samples in ground (arith, same, h.tier)

  mebibytes_mono :
      (v w : F)
      → nought ≼ v
      → v ≼ w
      → w ≼ decimal limit 0
      → round_up_mib (round_non_negative v) ≤ℤ round_up_mib (round_non_negative w)
  mebibytes_mono v w p h q =
      let (m, em, hm) = round_non_negative_bounds laws v p (le_trans _ _ _ h q) in
      let (n, en, hn) = round_non_negative_bounds laws w (le_trans _ _ _ p h) q in
      let le : m ≤ n = ground (arith, round_non_negative_mono laws v w p h q, em, en) in
      rw (em, en) (round_up_mib_mono m n le (omega arith))

  round-le-round_non_negative :
      (x v : F) → nought ≺ x → x ≼ v → v ≼ decimal limit 0 → fl.round x ≤ℤ round_non_negative v
  unfolding round_non_negative
  round-le-round_non_negative x v p h q =
      let x_ok = le_of_lt laws nought x p in
      let v_ok = le_trans nought x v x_ok h in
      ground (
        arith,
        number_of_le x v h,
        laws.nan-eq-not-number v,
        le_trans x v nought h,
        not_lt_of_le laws nought x,
        laws.inf_bounds v v_ok q,
        laws.round_mono x v x_ok h q,
      )

  round_non_negative-le-mib :
      (v : F)
      → nought ≼ v
      → v ≼ decimal limit 0
      → round_non_negative v ≤ℤ round_up_mib (round_non_negative v)
  round_non_negative-le-mib v p q =
      let (n, e, h) = round_non_negative_bounds laws v p q in
      let (r, f, lo, hi) = round_up_mib_least n (omega arith) in rw (e, f) (omega arith)

  -- Outside a snapshot, with usage of both metrics, headrooms that are not negative and products
  -- that an `int64` holds, `Recommend` proposes requests that cover what was measured: the
  -- processor's is not below the rounded 95th percentile, and the memory's is not below the rounded
  -- peak.
  pub recommend_covers :
      (current : ResourceSpec) (usage : UsageStats F) (policy : Policy F)
      → IsBounded usage policy
      → is_snapshot usage.tier ≡ false
      → let out = recommend current usage policy in
        (fl.round usage.cpu_millicores.p95 ≤ℤ out.requests.cpu_millicores)
        × (fl.round usage.memory_bytes.peak ≤ℤ out.requests.memory_bytes)
  unfolding recommend cpu_request memory_request
  recommend_covers current usage policy b e =
      let (cpu_ok, cpu_up, _) = le-headroom _ _ b.cpu_seen b.cpu_cushion b.cpu_fits in
      let (mem_ok, mem_up, _) = le-headroom _ _ b.memory_seen b.memory_cushion b.memory_fits in
      ground (
        arith,
        b.cpu_seen,
        b.memory_seen,
        round-le-round_non_negative _ _ b.cpu_seen cpu_up b.cpu_fits,
        round-le-round_non_negative _ _ b.memory_seen mem_up b.memory_fits,
        round_non_negative-le-mib _ (le_trans _ _ _ mem_ok mem_up) b.memory_fits,
      )

  -- `Recommend` is monotone: of two observations that differ in the measured usage alone, the one
  -- that measures more never gets a lower request, of either metric, in any tier, where both have
  -- usage of both metrics, headrooms that are not negative and products that an `int64` holds.
  pub recommend_mono :
      (current : ResourceSpec) (u v : UsageStats F) (policy : Policy F)
      → IsBounded u policy
      → IsBounded v policy
      → IsHeavier u v
      → let a = recommend current u policy in
        let b = recommend current v policy in
        (a.requests.cpu_millicores ≤ℤ b.requests.cpu_millicores)
        × (a.requests.memory_bytes ≤ℤ b.requests.memory_bytes)
  unfolding recommend cpu_request memory_request
  recommend_mono current u v policy bu bv h = ground (
    arith,
    h.tier,
    bu.cpu_seen,
    bv.cpu_seen,
    bu.memory_seen,
    bv.memory_seen,
    cpu_headroom-congr u v policy h,
    memory_headroom-congr u v policy h,
    cpu_step,
    memory_step,
  )
    where
      cpu_step :
          round_non_negative (u.cpu_millicores.p95 ⊗ (decimal 1 0 ⊕ cpu_headroom_of u policy))
          ≤ℤ round_non_negative (v.cpu_millicores.p95 ⊗ (decimal 1 0 ⊕ cpu_headroom_of v policy))
      cpu_step =
          let e = cpu_headroom-congr u v policy h in
          rw e
            (headroom_mono _ _ _ bu.cpu_seen h.cpu bv.cpu_cushion (rw e at bu.cpu_fits) bv.cpu_fits)

      memory_step :
          round_up_mib
            (round_non_negative (u.memory_bytes.peak ⊗ (decimal 1 0 ⊕ memory_headroom_of u policy)))
          ≤ℤ round_up_mib (
              round_non_negative
                (v.memory_bytes.peak ⊗ (decimal 1 0 ⊕ memory_headroom_of v policy)))
      memory_step =
          let e = memory_headroom-congr u v policy h in
          let fits = rw e at bu.memory_fits in
          let (ok, up, factor) = le-headroom _ _ bu.memory_seen bv.memory_cushion fits in
          rw e (
            mebibytes_mono _ _ (le_trans _ _ _ ok up)
              (mul_mono _ _ _ factor h.memory (number_of_le _ _ fits).0
                (number_of_le _ _ bv.memory_fits).0)
              bv.memory_fits)
