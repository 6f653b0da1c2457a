-- ===== src/Gitops.antt =====
-- internal/gitops/gitops.go: the change set of a scan, one patch file for each selected
-- recommendation and the texts of a pull request. `filepath.Join`, the patches and the printing of
-- numbers are parameters.
pub mod Texts
pub mod Selection
pub mod Dollars
mod Tests
use kubetidy.Base.{if◌then◌else◌, length, take, ℕ, Bool, not, ◌&&◌, ◌||◌, List, [], ◌∷◌, ◌++◌}
use kubetidy.Base.Float.{Float64, ◌⊕◌, less, nought}
use kubetidy.Base.Int.{ℤ, pos, pos_part, ltb_ℤ}
use kubetidy.Base.Sort.{filter_by, sort_by}
use kubetidy.Base.Text.{Text, codes, text_eq, is_empty}
use kubetidy.Cost.{monthly_savings}
use kubetidy.Gitops.Texts.{filter_empty, join_texts, sanitize, pull_title, pull_body}
use kubetidy.Model.{workload_ref, Recommendation, ScanResult}
use kubetidy.Patch.{Renderer, strategic_merge_patch}
use kubetidy.Scan.{Answer, found, failed}
use kubetidy.Wording.{Printer, concat_texts}

pub record File : Type 0 where
  pub path : Text
  pub contents : Text

pub record ChangeSet (F : Type 0) : Type 0 where
  pub files : List File
  pub pr_body : Text
  pub pr_title : Text
  pub total_monthly_saved : F
  pub count : ℕ

pub record Options : Type 0 where
  pub patch_dir : Text
  pub top_n : ℤ
  pub include_grow : Bool

abbrev pub no_changes : {F : Type 0} ⦃fl : Float64 F⦄ → ChangeSet F
no_changes = record {
  files = [];
  pr_body = [];
  pr_title = [];
  total_monthly_saved = nought;
  count = 0;
}

module _ {F : Type 0} ⦃fl : Float64 F⦄ where
  -- What `!opts.IncludeGrow && r.MonthlySavings < 0` skips.
  abbrev pub is_kept : Options → Recommendation F → Bool
  is_kept opts r = opts.include_grow || not (less r.monthly_savings nought)

  -- `out[i].MonthlySavings > out[j].MonthlySavings`
  abbrev pub saves_more : Recommendation F → Recommendation F → Bool
  saves_more i j = less j.monthly_savings i.monthly_savings

  -- `selectRecommendations`
  unfoldable pub select_recommendations :
      List (Recommendation F) → Options → List (Recommendation F)
  unfolding sort_by
  select_recommendations recs opts =
      let out = sort_by saves_more (filter_by (is_kept opts) recs) in
      if ltb_ℤ (pos 0) opts.top_n && ltb_ℤ opts.top_n (pos (length out))
      then take (pos_part opts.top_n) out
      else out

  -- `patchFileName`
  unfoldable pub patch_file_name : (Text → Text) → Recommendation F → Text
  unfolding text_eq filter_empty join_texts sanitize
  patch_file_name to_lower rec =
      let named = is_empty rec.container_name || text_eq rec.container_name rec.workload.name in
      let parts =
        to_lower rec.workload.kind
        ∷ rec.workload.namespace
        ∷ rec.workload.name
        ∷ (if named then [] else rec.container_name ∷ []) in
      sanitize to_lower (join_texts (codes "-") (filter_empty parts)) ++ codes ".json"

module _ {F : Type 0} ⦃fl : Float64 F⦄ (p : Printer F) where
  -- The loop of `Build`: the files, and the sum of the savings.
  unfoldable pub files_loop :
      Renderer
      → (Text → Text)
      → (Text → Text → Text)
      → Text
      → ChangeSet F
      → List (Recommendation F)
      → Answer (ChangeSet F)
  unfolding strategic_merge_patch patch_file_name
  files_loop r to_lower path_join dir cs [] = found cs
  files_loop r to_lower path_join dir cs (rec ∷ recs) =
      let name = path_join dir (patch_file_name to_lower rec) in
      let saved =
        if less nought rec.monthly_savings
        then cs.total_monthly_saved ⊕ rec.monthly_savings
        else cs.total_monthly_saved in
      elim (strategic_merge_patch r rec) [
        | failed err ↦ failed (
            concat_texts (
              codes "gitops: building patch for "
              ∷ workload_ref rec.workload
              ∷ codes ": "
              ∷ err
              ∷ []))
        | found contents ↦
            files_loop r to_lower path_join dir
              (record cs {
                files =
                    cs.files ++ (record { path = name; contents = contents ++ codes "\n" } ∷ []);
                total_monthly_saved = saved;
              })
              recs
      ]

  abbrev pub with_texts :
      ScanResult F → List (Recommendation F) → Text → Answer (ChangeSet F) → Answer (ChangeSet F)
  unfolding pull_title pull_body
  with_texts result recs dir (failed err) = failed err
  with_texts result recs dir (found cs) = found (record cs {
    pr_title = pull_title p cs.total_monthly_saved (pos (length recs));
    pr_body = pull_body p result recs dir cs.total_monthly_saved;
  })

  abbrev pub patch_dir_of : Options → Text
  patch_dir_of opts = if is_empty opts.patch_dir then codes "kubetidy-patches" else opts.patch_dir

  -- `Build`
  unfoldable pub build_changes :
      Renderer
      → (Text → Text)
      → (Text → Text → Text)
      → ScanResult F
      → Options
      → Answer (ChangeSet F)
  unfolding select_recommendations files_loop with_texts
  build_changes r to_lower path_join result opts =
      let dir = patch_dir_of opts in
      let recs = select_recommendations result.recommendations opts in
      with_texts result recs dir
        (files_loop r to_lower path_join dir (record no_changes { count = length recs }) recs)
