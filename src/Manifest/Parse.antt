-- ===== src/Manifest/Parse.antt =====
-- internal/manifest/manifest.go: the workloads of decoded documents. The decoder, the
-- reads of a decoded object and the parser of quantities are the fields of Decoder.
use kubetidy.Base.{
  ltb, if◌then◌else◌, filter_map, ◌-◌, ◌%◌, ◌^◌, Bool, not, ◌||◌, Option, none, some, List, [], ◌∷◌,
  ◌++◌,
}
use kubetidy.Base.Int.{ℤ, pos, negsuc}
use kubetidy.Base.Maps.{lookup_text}
use kubetidy.Base.Text.{Text, codes, text_eq, is_empty, has_key}
use kubetidy.Model.{ResourceAmounts, Container, Workload}
use kubetidy.Scan.{Answer, found, failed}

pub record Decoder (Object Item : Type 0) : Type 0 where
  -- `len(obj.Object) == 0`
  pub is_blank : Object → Bool
  pub kind : Object → Text
  pub name : Object → Text
  pub namespace : Object → Text
  -- `NestedInt64` of the replicas, where it is found
  pub replicas : Object → Option ℤ
  -- `NestedSlice` of the containers, where it is found without an error; none for what is no map
  pub containers : Object → Option (List (Option Item))
  -- `NestedString` and `NestedStringMap`
  pub item_name : Item → Text
  pub requests : Item → Option (List (Text × Text))
  pub limits : Item → Option (List (Text × Text))
  -- `ParseQuantity` with `MilliValue`, and with `Value`
  pub milli_value : Text → Option ℤ
  pub value : Text → Option ℤ

unfoldable pub workload_kinds : List Text
workload_kinds =
    codes "Deployment" ∷ codes "StatefulSet" ∷ codes "DaemonSet" ∷ codes "ReplicaSet" ∷ []

unfoldable pub namespace_or_default : Text → Text
namespace_or_default ns = if is_empty ns then codes "default" else ns

-- `int32(r)`
unfoldable pub wrap32 : ℤ → ℤ
wrap32 (pos n) = let m = n % 2 ^ 32 in if ltb m (2 ^ 31) then pos m else negsuc (2 ^ 32 - 1 - m)
wrap32 (negsuc n) = let m = n % 2 ^ 32 in if ltb m (2 ^ 31) then negsuc m else pos (2 ^ 32 - 1 - m)

abbrev pub zero_or : Option ℤ → ℤ
zero_or none = pos 0
zero_or (some n) = n

-- The amount of a key, zero where it is missing or unparseable.
abbrev pub parsed : (Text → Option ℤ) → Option Text → ℤ
parsed parse none = pos 0
parsed parse (some v) = zero_or (parse v)

module _ {Object Item : Type 0} (d : Decoder Object Item) where
  unfoldable pub amounts_from : List (Text × Text) → ResourceAmounts
  unfolding lookup_text
  amounts_from m = record {
    cpu_millicores = parsed d.milli_value (lookup_text (codes "cpu") m);
    memory_bytes = parsed d.value (lookup_text (codes "memory") m);
  }

  unfoldable pub amounts_in : Option (List (Text × Text)) → ResourceAmounts
  unfolding amounts_from
  amounts_in none = record { cpu_millicores = pos 0; memory_bytes = pos 0 }
  amounts_in (some m) = amounts_from m

  unfoldable pub container_from_map : Item → Container
  unfolding amounts_in
  container_from_map cm = record {
    name = d.item_name cm;
    requests = amounts_in (d.requests cm);
    limits = amounts_in (d.limits cm);
  }

  unfoldable pub replicas_of : Object → ℤ
  unfolding text_eq wrap32
  replicas_of obj =
      if text_eq (d.kind obj) (codes "DaemonSet")
      then pos 1
      else elim (d.replicas obj) [ none ↦ pos 1 | some r ↦ wrap32 r ]

  unfoldable pub with_containers : Object → List Container → Option Workload
  unfolding replicas_of namespace_or_default
  with_containers obj [] = none
  with_containers obj (c ∷ cs) = some (record {
    kind = d.kind obj;
    name = d.name obj;
    namespace = namespace_or_default (d.namespace obj);
    replicas = replicas_of obj;
    containers = c ∷ cs;
    selector = [];
    node_labels = [];
  })

  -- `workloadFromUnstructured`, which gives no error.
  unfoldable pub workload_from_object : Object → Option Workload
  unfolding with_containers container_from_map
  workload_from_object obj = elim (d.containers obj) [
    | none ↦ none
    | some items ↦ with_containers obj (
        filter_map
          (λ (o : Option Item). elim o [ none ↦ none | some cm ↦ some (container_from_map cm) ])
          items)
  ]

  unfoldable pub read_document : Object → Option Workload
  unfolding workload_from_object has_key workload_kinds
  read_document obj =
      if d.is_blank obj || not (has_key (d.kind obj) workload_kinds)
      then none
      else workload_from_object obj

  -- `ParseWorkloads`, for what the decoder gives up to the end of the stream.
  unfoldable pub parse_workloads : List Workload → List (Answer Object) → Answer (List Workload)
  unfolding read_document
  parse_workloads out [] = found out
  parse_workloads out (failed err ∷ docs) = failed (codes "manifest: decoding document: " ++ err)
  parse_workloads out (found obj ∷ docs) =
      parse_workloads (elim (read_document obj) [ none ↦ out | some w ↦ out ++ (w ∷ []) ]) docs
