-- ===== src/Wording.antt =====
-- The texts of a recommendation: `buildEvidence`, `buildExplanation` and the formats of
-- internal/scan/scan.go, and `buildReason` of internal/rightsizer/rightsizer.go. The verbs of
-- `fmt.Sprintf` for numbers are the fields of Printer.
-- "%d", and "%.nf" for n digits
use kubetidy.Base.{◌==◌, if◌then◌else◌, ℕ, ◌*◌, ◌%◌, ◌&&◌, List, [], ◌∷◌, ◌++◌}
use kubetidy.Base.Float.{Float64, ◌⊕◌, ◌⊗◌, ◌⊘◌, less, less_eq, decimal, nought, of_int}
use kubetidy.Base.Int.{ℤ, pos, pos_part, ◌-ℤ◌, ◌*ℤ◌, quot, leb_ℤ, eqb_ℤ}
use kubetidy.Base.Text.{Text, codes, is_empty}
use kubetidy.Model.{
  EvidenceTier, is_snapshot, tier_text, ResourceSpec, UsageStats, Policy, ResourcePrice,
}
use kubetidy.Rightsizer.{hours, worst_cv}

pub record Printer (F : Type 0) : Type 0 where
  pub whole_number : ℤ → Text
  pub fixed_digits : ℕ → F → Text

-- Several texts in a row.
unfoldable pub concat_texts : List Text → Text
concat_texts [] = []
concat_texts (t ∷ ts) = t ++ concat_texts ts

module _ {F : Type 0} ⦃fl : Float64 F⦄ where
  -- `Duration.Minutes`
  unfoldable pub minutes : ℤ → F
  unfolding quot ◌-ℤ◌ ◌*ℤ◌
  minutes d =
      of_int (quot d 60_000_000_000)
      ⊕ (of_int (d -ℤ quot d 60_000_000_000 *ℤ pos 60_000_000_000) ⊘ decimal 60_000_000_000 0)

module _ {F : Type 0} ⦃fl : Float64 F⦄ (p : Printer F) where
  unfoldable pub pods_text : ℤ → Text
  pods_text n =
      if eqb_ℤ n (pos 1) then codes "1 pod sampled" else p.whole_number n ++ codes " pods sampled"

  unfoldable pub format_count : ℤ → Text
  format_count n =
      if leb_ℤ (pos 1_000_000) n
      then p.fixed_digits 1 (of_int n ⊘ decimal 1_000_000 0) ++ codes "M"
      else if leb_ℤ (pos 1000) n
      then p.fixed_digits 1 (of_int n ⊘ decimal 1000 0) ++ codes "k"
      else p.whole_number n

  unfoldable pub format_millicores : ℤ → Text
  unfolding quot
  format_millicores m =
      if leb_ℤ (pos 1000) m && ((pos_part m % 1000) == 0)
      then if eqb_ℤ (quot m 1000) (pos 1)
        then codes "1 core"
        else p.whole_number (quot m 1000) ++ codes " cores"
      else p.whole_number m ++ codes "m"

  unfoldable pub format_mem : F → Text
  format_mem bytes =
      if less_eq bytes nought
      then codes "0"
      else if less bytes (decimal (1024 * (1024 * 1024)) 0)
      then p.whole_number (fl.round (bytes ⊘ decimal (1024 * 1024) 0)) ++ codes "Mi"
      else p.fixed_digits 1 (bytes ⊘ decimal (1024 * (1024 * 1024)) 0) ++ codes "Gi"

  unfoldable pub format_window : ℤ → Text
  unfolding hours minutes
  format_window d =
      let day : F = hours d ⊘ decimal 24 0 in
      let hour_count : F = hours d in
      let minute_count : F = minutes d in
      if leb_ℤ d (pos 0)
      then codes "0"
      else if less_eq (decimal 1 0) day
      then p.whole_number (fl.round day) ++ codes "d"
      else if less_eq (decimal 1 0) hour_count
      then p.whole_number (fl.round hour_count) ++ codes "h"
      else if less_eq (decimal 1 0) minute_count
      then p.whole_number (fl.round minute_count) ++ codes "m"
      else codes "<1m"

  unfoldable pub build_evidence : UsageStats F → Text
  unfolding pods_text format_count format_millicores format_mem format_window concat_texts
  build_evidence st =
      let cpu = format_millicores (fl.round st.cpu_millicores.p95) in
      let mem = format_mem st.memory_bytes.peak in
      if is_snapshot st.tier
      then concat_texts (
          codes "live snapshot · cpu "
          ∷ cpu
          ∷ codes ", mem "
          ∷ mem
          ∷ codes " · "
          ∷ pods_text st.samples
          ∷ [])
      else concat_texts (
          codes "p95 cpu "
          ∷ cpu
          ∷ codes ", peak mem "
          ∷ mem
          ∷ codes " over "
          ∷ format_window st.window
          ∷ codes " · "
          ∷ format_count st.samples
          ∷ codes " samples"
          ∷ [])

  -- The headroom that the explanation names.
  unfoldable pub shown_headroom : EvidenceTier → F → F → F
  shown_headroom tier base extra = if is_snapshot tier then base ⊕ extra else base

  unfoldable pub snapshot_note : EvidenceTier → List Text
  snapshot_note tier =
      if is_snapshot tier
      then codes
          "single snapshot can miss peaks, so an extra safety buffer is applied and requests are floored."
        ∷ []
      else []

  unfoldable pub price_line : ResourcePrice F → Text
  unfolding concat_texts
  price_line price = concat_texts (
      codes "price = $"
      ∷ p.fixed_digits 2 price.cpu_core_month
      ∷ codes "/core-month, $"
      ∷ p.fixed_digits 2 price.mem_gib_month
      ∷ codes "/GiB-month"
      ∷ (if is_empty price.source then codes "." else codes " (" ++ (price.source ++ codes ")."))
      ∷ [])

  unfoldable pub build_explanation :
      ResourceSpec → ResourceSpec → UsageStats F → ResourcePrice F → Policy F → List Text
  unfolding shown_headroom snapshot_note price_line format_millicores format_mem concat_texts
  build_explanation current proposed st price policy =
      let cpu_headroom = shown_headroom st.tier policy.cpu_headroom policy.snapshot_headroom in
      let mem_headroom = shown_headroom st.tier policy.memory_headroom policy.snapshot_headroom in
      snapshot_note st.tier
      ++ (concat_texts (
            codes "cpu request = p95 "
            ∷ format_millicores (fl.round st.cpu_millicores.p95)
            ∷ codes " × (1 + "
            ∷ p.fixed_digits 0 (cpu_headroom ⊗ decimal 100 0)
            ∷ codes "% headroom) = "
            ∷ format_millicores proposed.requests.cpu_millicores
            ∷ codes " (was "
            ∷ format_millicores current.requests.cpu_millicores
            ∷ codes ")."
            ∷ [])
          ∷ concat_texts (
              codes "mem request = peak "
              ∷ format_mem st.memory_bytes.peak
              ∷ codes " × (1 + "
              ∷ p.fixed_digits 0 (mem_headroom ⊗ decimal 100 0)
              ∷ codes "% headroom) = "
              ∷ format_mem (of_int proposed.requests.memory_bytes)
              ∷ codes " (was "
              ∷ format_mem (of_int current.requests.memory_bytes)
              ∷ codes ")."
              ∷ [])
          ∷ price_line price
          ∷ [])

  unfoldable pub variance_text : F → Text
  variance_text cv =
      if less_eq cv nought && less_eq nought cv
      then codes "no variance data"
      else if less cv (decimal 25 2)
      then codes "low variance"
      else if less cv (decimal 75 2)
      then codes "moderate variance"
      else codes "high variance"

  -- `buildReason`
  unfoldable pub build_reason : UsageStats F → Text
  unfolding variance_text format_window concat_texts worst_cv
  build_reason usage = concat_texts (
      codes "tier "
      ∷ tier_text usage.tier
      ∷ codes "; window "
      ∷ format_window usage.window
      ∷ codes "; "
      ∷ p.whole_number usage.samples
      ∷ codes " samples; "
      ∷ variance_text (worst_cv usage)
      ∷ codes " (CV "
      ∷ p.fixed_digits 2 (worst_cv usage)
      ∷ codes ")"
      ∷ [])
