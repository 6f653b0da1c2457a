-- ===== src/Gitops/Texts.antt =====
-- internal/gitops/gitops.go: the texts of a pull request, and the names of files.
use kubetidy.Base.{
  ltb, leb, ◌==◌, if◌then◌else◌, length, take, drop, ℕ, zero, suc, ◌-◌, ◌*◌, ◌&&◌, ◌||◌, List, [],
  ◌∷◌, ◌++◌, map,
}
use kubetidy.Base.Float.{Float64, ◌⊕◌, ◌⊘◌, less, decimal, nought, of_int}
use kubetidy.Base.Int.{ℤ, pos, quot, ltb_ℤ, leb_ℤ, eqb_ℤ, add64, sub64}
use kubetidy.Base.Text.{Text, codes, is_empty}
use kubetidy.Model.{EvidenceTier, is_snapshot, workload_ref, Recommendation, ScanResult, percent}
use kubetidy.Wording.{Printer, concat_texts}

-- `filterEmpty`
unfoldable pub filter_empty : List Text → List Text
filter_empty [] = []
filter_empty (s ∷ ss) = if is_empty s then filter_empty ss else s ∷ filter_empty ss

-- `strings.Join(parts, sep)`
unfoldable pub join_texts : Text → List Text → Text
join_texts sep [] = []
join_texts sep (s ∷ []) = s
join_texts sep (s ∷ t ∷ ts) = s ++ (sep ++ join_texts sep (t ∷ ts))

unfoldable pub file_rune : ℕ → ℕ
file_rune r =
    if (leb 97 r && leb r 122) || ((leb 48 r && leb r 57) || ((r == 45) || (r == 46)))
    then r
    else 45

-- `sanitize`, for `strings.ToLower`
unfoldable pub sanitize : (Text → Text) → Text → Text
unfolding file_rune
sanitize to_lower s = map file_rune (to_lower s)

-- `contextOr`
unfoldable pub context_or : Text → Text
context_or ctx = if is_empty ctx then codes "(current context)" else ctx

-- The loop of `dollars`: groups of three digits from the end, in front of the groups so far.
unfoldable pub digit_groups : ℕ → Text → List Text → List Text
digit_groups zero s parts = s ∷ parts
digit_groups (suc fuel) s parts =
    let cut = length s - 3 in
    let rest = digit_groups fuel (take cut s) (drop cut s ∷ parts) in
    if ltb 3 (length s) then rest else s ∷ parts

module _ {F : Type 0} ⦃fl : Float64 F⦄ (p : Printer F) where
  -- The rounded amount, away from zero at a half.
  unfoldable pub dollar_amount : F → ℤ
  unfolding sub64
  dollar_amount v =
      if less v nought
      then sub64 (pos 0) (fl.truncate (fl.neg v ⊕ decimal 5 1))
      else fl.truncate (v ⊕ decimal 5 1)

  -- `dollars`
  unfoldable pub dollars : F → Text
  unfolding dollar_amount sub64 digit_groups join_texts
  dollars v =
      let n = dollar_amount v in
      let is_negative = ltb_ℤ n (pos 0) in
      let s = p.whole_number (if is_negative then sub64 (pos 0) n else n) in
      let out = codes "$" ++ join_texts (codes ",") (digit_groups (length s) s []) in
      if is_negative then codes "-" ++ out else out

  -- `savingsLabel`
  unfoldable pub savings_label : Recommendation F → Text
  unfolding dollars
  savings_label rec =
      if less rec.monthly_savings nought
      then codes "+" ++ (dollars (fl.neg rec.monthly_savings) ++ codes "/mo (grow)")
      else dollars rec.monthly_savings ++ codes "/mo"

  unfoldable pub cpu_change : Recommendation F → Text
  unfolding concat_texts
  cpu_change rec = concat_texts (
      p.whole_number rec.current.requests.cpu_millicores
      ∷ codes "m → "
      ∷ p.whole_number rec.proposed.requests.cpu_millicores
      ∷ codes "m"
      ∷ [])

  unfoldable pub mem_text : ℤ → Text
  unfolding add64 sub64 quot
  mem_text bytes =
      if leb_ℤ bytes (pos 0)
      then codes "0"
      else if ltb_ℤ bytes (pos (1024 * 1024 * 1024))
      then p.whole_number (quot (sub64 (add64 bytes (pos (1024 * 1024))) (pos 1)) (1024 * 1024))
        ++ codes "Mi"
      else p.fixed_digits 1 (of_int bytes ⊘ decimal (1024 * 1024 * 1024) 0) ++ codes "Gi"

  unfoldable pub mem_change : Recommendation F → Text
  unfolding mem_text
  mem_change rec =
      mem_text rec.current.requests.memory_bytes
      ++ (codes " → " ++ mem_text rec.proposed.requests.memory_bytes)

  -- `prTitle`
  unfoldable pub pull_title : F → ℤ → Text
  unfolding dollars concat_texts
  pull_title total_saved n = concat_texts (
      codes "Rightsize "
      ∷ p.whole_number n
      ∷ codes " "
      ∷ (if eqb_ℤ n (pos 1) then codes "workload" else codes "workloads")
      ∷ codes " — save ~"
      ∷ dollars total_saved
      ∷ codes "/month"
      ∷ [])

  abbrev pub table_row : Recommendation F → Text
  unfolding concat_texts cpu_change mem_change savings_label percent
  table_row rec = concat_texts (
      codes "| `"
      ∷ workload_ref rec.workload
      ∷ codes "` | `"
      ∷ rec.container_name
      ∷ codes "` | "
      ∷ cpu_change rec
      ∷ codes " | "
      ∷ mem_change rec
      ∷ codes " | "
      ∷ savings_label rec
      ∷ codes " | "
      ∷ p.whole_number (percent rec.confidence)
      ∷ codes "% |\n"
      ∷ [])

  unfoldable pub snapshot_warning : EvidenceTier → List Text
  snapshot_warning tier =
      if is_snapshot tier
      then codes
          "> ⚠\u{fe0f} These numbers come from a single metrics-server snapshot (Tier 0), not historical peaks. "
        ∷ codes
            "Review carefully and prefer a Prometheus-backed scan (`--prometheus-url`) before merging.\n\n"
        ∷ []
      else []

  unfoldable pub how_to_apply : Text → List Text
  how_to_apply dir =
      codes "## How to apply\n\n"
      ∷ codes "Each change is an isolated strategic-merge patch under `"
      ∷ dir
      ∷ codes "/`. Apply all:\n\n```sh\nfor f in "
      ∷ dir
      ∷ codes "/*.json; do\n"
      ∷ codes "  kubectl patch -f \"$f\" --type=strategic --patch-file \"$f\"\n"
      ∷ codes "done\n```\n\n"
      ∷ codes
          "Or merge this PR if these files are tracked by your GitOps controller (Argo CD / Flux).\n\n"
      ∷ []

  unfoldable pub how_to_revert : List Text
  how_to_revert =
      codes "## How to revert\n\n"
      ∷ codes
          "Every change only adjusts resource requests/limits and is fully reversible: revert this commit, "
      ∷ codes
          "or re-apply your previous values. kubetidy never deletes workloads or mutates anything else.\n"
      ∷ []

  -- `prBody`
  unfoldable pub pull_body : ScanResult F → List (Recommendation F) → Text → F → Text
  unfolding context_or dollars table_row snapshot_warning how_to_apply how_to_revert concat_texts
  pull_body result recs dir total_saved = concat_texts (
      codes "## kubetidy rightsizing\n\n"
      ∷ codes
          "Generated by [kubetidy](https://github.com/mayur-tolexo/kubetidy) from a read-only scan of `"
      ∷ context_or result.context
      ∷ codes "`.\n\n**Estimated savings: ~"
      ∷ dollars total_saved
      ∷ codes "/month** across "
      ∷ p.whole_number (pos (length recs))
      ∷ codes " workload(s).\n\n"
      ∷ (snapshot_warning result.tier
          ++ (codes "| Workload | Container | CPU | Memory | Savings | Confidence |\n"
              ∷ codes "|---|---|---|---|---|---|\n"
              ∷ (map table_row recs ++ (codes "\n" ∷ (how_to_apply dir ++ how_to_revert))))))
