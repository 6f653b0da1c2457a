-- ===== src/Patch.antt =====
-- internal/patch/patch.go: the strategic-merge patch of a recommendation, and the command that
-- applies it. `json.Marshal` of the document and the quantities of Kubernetes are parameters.
use kubetidy.Base.{if◌then◌else◌, List, [], ◌∷◌, ◌++◌}
use kubetidy.Base.Int.{ℤ, pos, ltb_ℤ}
use kubetidy.Base.Text.{Text, codes, text_eq, is_empty}
use kubetidy.Model.{
  kind_deployment, kind_stateful_set, kind_daemon_set, ResourceAmounts, Recommendation,
}
use kubetidy.Scan.{Answer, found, failed}
use kubetidy.Wording.{concat_texts}

-- The documents: one container under the pod template. A map is an association list, where `nil`
-- and the empty map are the same.
pub record ResourcesDoc : Type 0 where
  pub requests : List (Text × Text)
  pub limits : List (Text × Text)

pub record ContainerDoc : Type 0 where
  pub name : Text
  pub resources : ResourcesDoc

-- `spec.template.spec.containers`
pub record PatchDoc : Type 0 where
  pub containers : List ContainerDoc

-- `json.Marshal`, and the canonical forms of a decimal and of a binary quantity.
pub record Renderer : Type 0 where
  pub marshal : PatchDoc → Answer Text
  pub milli_quantity : ℤ → Text
  pub binary_quantity : ℤ → Text

-- `kindArg`
unfoldable pub kind_arg : Text → Text
unfolding text_eq
kind_arg k =
    if text_eq k kind_deployment
    then codes "deployment"
    else if text_eq k kind_stateful_set
    then codes "statefulset"
    else if text_eq k kind_daemon_set
    then codes "daemonset"
    else k

unfoldable pub namespace_flag : Text → Text
namespace_flag ns = if is_empty ns then [] else codes " -n " ++ ns

module _ (r : Renderer) where
  -- An amount that is set.
  unfoldable pub amount_entry : Text → (ℤ → Text) → ℤ → List (Text × Text)
  amount_entry key quantity n = if ltb_ℤ (pos 0) n then (key, quantity n) ∷ [] else []

  -- `quantityMap`
  unfoldable pub quantity_map : ResourceAmounts → List (Text × Text)
  unfolding amount_entry
  quantity_map a =
      amount_entry (codes "cpu") r.milli_quantity a.cpu_millicores
      ++ amount_entry (codes "memory") r.binary_quantity a.memory_bytes

  module _ {F : Type 0} where
    abbrev pub patch_doc : Recommendation F → PatchDoc
    unfolding quantity_map
    patch_doc rec = record {
      containers =
          record {
            name = rec.container_name;
            resources = record {
              requests = quantity_map rec.proposed.requests;
              limits = quantity_map rec.proposed.limits;
            };
          }
          ∷ [];
    }

    -- `StrategicMergePatch`
    unfoldable pub strategic_merge_patch : Recommendation F → Answer Text
    unfolding patch_doc
    strategic_merge_patch rec =
        if is_empty rec.container_name
        then failed (codes "patch: recommendation has no container name")
        else r.marshal (patch_doc rec)

    -- `KubectlCommand`
    unfoldable pub kubectl_command : Recommendation F → Answer Text
    unfolding strategic_merge_patch namespace_flag kind_arg concat_texts
    kubectl_command rec = elim (strategic_merge_patch rec) [
      | failed err ↦ failed err
      | found p ↦ found (
          concat_texts (
            codes "kubectl patch "
            ∷ kind_arg rec.workload.kind
            ∷ codes " "
            ∷ rec.workload.name
            ∷ namespace_flag rec.workload.namespace
            ∷ codes " --type=strategic -p '"
            ∷ p
            ∷ codes "'"
            ∷ []))
    ]
