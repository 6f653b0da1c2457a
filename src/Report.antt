-- ===== src/Report.antt =====
-- internal/report/report.go: what the report says, apart from its layout. The verbs of `fmt.Sprintf`
-- for numbers are the fields of Printer.
pub mod Formats
mod Tests
use kubetidy.Base.{
  ltb, ◌==◌, if◌then◌else◌, length, get_elem?, take, replicate, ℕ, ◌+◌, ◌-◌, ◌*◌, ◌/◌, Bool, true,
  false, ◌&&◌, ◌||◌, Option, none, some, List, [], ◌∷◌, ◌++◌, map,
}
use kubetidy.Base.Float.{Float64, ◌⊘◌, less, less_eq, decimal, nought, of_int}
use kubetidy.Base.Int.{ℤ, pos, pos_part, ltb_ℤ}
use kubetidy.Base.Sort.{filter_by, sort_by}
use kubetidy.Base.Text.{Text, codes, text_less, is_empty}
use kubetidy.Cost.{monthly_savings}
use kubetidy.Gitops.Texts.{filter_empty, join_texts}
use kubetidy.Model.{
  EvidenceTier, static, snapshot, operator, historical, allocated, workload_ref, ConfidenceBand,
  low, medium, high, Recommendation, ScanResult, percent, band,
}
use kubetidy.Report.Formats.{window_text, format_dollars_abs}
use kubetidy.Wording.{Printer, concat_texts, format_count}

-- `strings.HasPrefix` and `strings.Contains`
unfoldable pub has_prefix : Text → Text → Bool
has_prefix s [] = true
has_prefix [] (d ∷ t) = false
has_prefix (c ∷ s) (d ∷ t) = let rest = has_prefix s t in (c == d) && rest

unfoldable pub contains : Text → Text → Bool
unfolding has_prefix
contains [] t = is_empty t
contains (c ∷ s) t = let rest = contains s t in has_prefix (c ∷ s) t || rest

-- `tierSource`
unfoldable pub tier_source : EvidenceTier → Text
tier_source operator = codes "kubetidy operator (Tier 0, no Prometheus)"
tier_source historical = codes "Prometheus (Tier 1)"
tier_source allocated = codes "OpenCost (Tier 2)"
tier_source snapshot = codes "metrics-server snapshot (limited — single reading)"
tier_source static = codes "spec only (no usage data)"

-- Which columns of the distribution are shown.
pub record StatCols : Type 0 where
  pub avg : Bool
  pub p99 : Bool

unfoldable pub bar_cells : ℕ
bar_cells = 10

-- `scoreBar`
unfoldable pub score_bar : ℤ → Text
unfolding bar_cells concat_texts
score_bar score =
    let kept = if ltb_ℤ (pos 100) score then 100 else pos_part score in
    let filled = (kept * bar_cells + 50) / 100 in
    let cells = if ltb bar_cells filled then bar_cells else filled in
    concat_texts (replicate cells (codes "▇") ++ replicate (bar_cells - cells) (codes "░"))

-- The glyph and the word of a band.
unfoldable pub band_label : ConfidenceBand → Text
band_label high = codes "█ high "
band_label medium = codes "▓ med "
band_label low = codes "▒ low "

module _ {F : Type 0} where
  -- `observedWindow`, from the longest window so far.
  unfoldable pub observed_window : ℤ → List (Recommendation F) → ℤ
  observed_window longest [] = longest
  observed_window longest (r ∷ rs) =
      observed_window (if ltb_ℤ longest r.usage.window then r.usage.window else longest) rs

  abbrev pub sample_counts : List (Recommendation F) → List ℤ
  sample_counts recs =
      filter_by (λ n. ltb_ℤ (pos 0) n) (map (λ (r : Recommendation F). r.usage.samples) recs)

  -- `typicalSamples`: the upper median of the counts.
  unfoldable pub typical_samples : List (Recommendation F) → ℤ
  unfolding sort_by
  typical_samples recs =
      let counts = sort_by ltb_ℤ (sample_counts recs) in
      elim (get_elem? counts (length counts / 2)) [ none ↦ pos 0 | some n ↦ n ]

  -- `workloadLabel`
  unfoldable pub workload_label : Recommendation F → Text
  workload_label rec = if is_empty rec.workload.name then rec.container_name else rec.workload.name

  -- `findRecommendation`
  unfoldable pub find_recommendation : Text → List (Recommendation F) → Option (Recommendation F)
  unfolding contains workload_ref
  find_recommendation query [] = none
  find_recommendation query (r ∷ rs) =
      if contains r.container_name query
        || (contains r.workload.name query || contains (workload_ref r.workload) query)
      then some r
      else find_recommendation query rs

module _ {F : Type 0} ⦃fl : Float64 F⦄ where
  -- `presentStatCols`, from the columns so far.
  unfoldable pub present_stat_cols : StatCols → List (Recommendation F) → StatCols
  present_stat_cols cols [] = cols
  present_stat_cols cols (r ∷ rs) =
      let c = r.usage.cpu_millicores in
      let m = r.usage.memory_bytes in
      present_stat_cols
        (record {
          avg = (less nought c.avg || less nought m.avg) || cols.avg;
          p99 = (less nought c.p99 || less nought m.p99) || cols.p99;
        })
        rs

  -- The order of the report: larger savings first, then by label.
  unfoldable pub shown_before : Recommendation F → Recommendation F → Bool
  unfolding workload_label text_less
  shown_before i j =
      if less_eq i.monthly_savings j.monthly_savings && less_eq j.monthly_savings i.monthly_savings
      then text_less (workload_label i) (workload_label j)
      else less j.monthly_savings i.monthly_savings

  -- `topRecommendations`
  unfoldable pub top_recommendations : List (Recommendation F) → ℤ → List (Recommendation F)
  unfolding shown_before sort_by
  top_recommendations recs n =
      let out = sort_by shown_before recs in
      if ltb_ℤ (pos 0) n && ltb_ℤ n (pos (length out)) then take (pos_part n) out else out

  -- `factor`
  unfoldable pub factor : F → F → F
  factor current proposed =
      if less_eq proposed nought || less_eq current nought then nought else current ⊘ proposed

module _ {F : Type 0} ⦃fl : Float64 F⦄ (p : Printer F) where
  -- `takeaway`
  unfoldable pub takeaway : List (Recommendation F) → Text
  takeaway [] = codes "nothing to rightsize"
  takeaway (r ∷ []) = codes "1 workload to rightsize"
  takeaway (r ∷ s ∷ rs) =
      p.whole_number (pos (length (r ∷ s ∷ rs))) ++ codes " workloads to rightsize"

  -- `sourceLine`
  unfoldable pub source_line : ScanResult F → Text
  unfolding tier_source observed_window typical_samples window_text format_count concat_texts
  source_line result =
      let w = observed_window (pos 0) result.recommendations in
      let n = typical_samples result.recommendations in
      let known =
        if ltb_ℤ (pos 0) n
        then concat_texts (codes ", ~" ∷ format_count p n ∷ codes " samples/workload" ∷ [])
        else [] in
      tier_source result.tier
      ++ (if ltb_ℤ (pos 0) w
          then concat_texts (codes " · " ∷ window_text p w ∷ codes " history" ∷ known ∷ [])
          else [])

  -- `savingsCell`
  unfoldable pub savings_cell : Recommendation F → Text
  unfolding format_dollars_abs concat_texts
  savings_cell rec =
      if less rec.monthly_savings nought
      then concat_texts
          (codes "↑ +" ∷ format_dollars_abs p rec.monthly_savings ∷ codes "/mo (grow)" ∷ [])
      else format_dollars_abs p rec.monthly_savings ++ codes "/mo"

  -- `factorPhrase`
  unfoldable pub factor_phrase : Text → F → Text
  unfolding concat_texts
  factor_phrase metric f =
      if less_eq (decimal 15 1) f
      then concat_texts
          (codes "~" ∷ p.fixed_digits 0 f ∷ codes "× over-allocated on " ∷ metric ∷ [])
      else if less nought f && less_eq f (decimal 67 2)
      then concat_texts (
          codes "~"
          ∷ p.fixed_digits 0 (decimal 1 0 ⊘ f)
          ∷ codes "× under-provisioned on "
          ∷ metric
          ∷ [])
      else []

  -- `verdict`
  unfoldable pub verdict : Recommendation F → Text
  unfolding factor factor_phrase filter_empty join_texts
  verdict rec =
      let cpu =
        factor (of_int rec.current.requests.cpu_millicores)
          (of_int rec.proposed.requests.cpu_millicores) in
      let mem =
        factor (of_int rec.current.requests.memory_bytes)
          (of_int rec.proposed.requests.memory_bytes) in
      join_texts (codes " · ")
        (filter_empty (factor_phrase (codes "cpu") cpu ∷ factor_phrase (codes "mem") mem ∷ []))

  -- `confidenceCell`
  unfoldable pub confidence_cell : Recommendation F → Text
  unfolding band_label band percent
  confidence_cell rec =
      band_label (band rec.confidence) ++ (p.whole_number (percent rec.confidence) ++ codes "%")
