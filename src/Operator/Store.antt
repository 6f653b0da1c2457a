-- ===== src/Operator/Store.antt =====
-- internal/operator/store.go: the store on the dynamic client. The client and the converter of typed
-- objects are parameters. Spec and status are written through different endpoints, as the status is
-- a subresource.
pub mod Encoding
pub mod Fields
pub mod Json
pub mod Laws
pub mod Slot
mod Tests
use kubetidy.Base.{if◌then◌else◌, Option, none, some, [], ◌++◌}
use kubetidy.Base.Float.{Float64}
use kubetidy.Base.Text.{Text, codes, text_eq}
use kubetidy.Profile.{
  UsageProfile, Value, Entries, no_entry, entry, lookup_key, to_unstructured, from_unstructured,
}
use kubetidy.Recommend.{RecommendationObject}
use kubetidy.Scan.{Answer, found, failed}
use kubetidy.Summary.{SummaryStatus}

-- What the server answers to a read.
pub data Reply (A : Type 0) : Type 0 where
  present : A → Reply A
  not_found : Reply A
  refused : Text → Reply A

-- An object with the version of its metadata.
pub record ApiObject (F : Type 0) : Type 0 where
  pub version : Text
  pub content : Entries F

-- The resource interface of one kind and namespace of a cluster in a state.
pub record Client (F : Type 0) (S : Type 0) : Type 0 where
  pub get : S → Text → Text → Reply (ApiObject F)
  pub create : S → Text → ApiObject F → S × Answer (ApiObject F)
  pub update : S → Text → ApiObject F → S × Answer (ApiObject F)
  pub update_status : S → Text → ApiObject F → S × Answer (ApiObject F)

-- `m[key] = v`
unfoldable pub set_entry : {F : Type 0} → Text → Value F → Entries F → Entries F
unfolding text_eq
set_entry key v no_entry = entry key v no_entry
set_entry key v (entry k u m) =
    let rest = set_entry key v m in if text_eq k key then entry k v m else entry k u rest

-- `to.Object["status"] = from.Object["status"]`, for an object that has a status.
unfoldable pub copy_status : {F : Type 0} → Entries F → Entries F → Entries F
unfolding lookup_key set_entry
copy_status from to = elim (lookup_key (codes "status") from) [
  | none ↦ to
  | some v ↦ set_entry (codes "status") v to
]

-- The wording of a writer's errors.
pub record Wordings : Type 0 where
  pub create : Text
  pub create_status : Text
  pub read : Text
  pub update : Text
  pub update_status : Text

abbrev pub wordings : Text → Text → Text → Wordings
wordings what status_what path = record {
  create = codes "operator: create " ++ (what ++ path);
  create_status = codes "operator: set " ++ (status_what ++ path);
  read = codes "operator: get-before-update " ++ (what ++ path);
  update = codes "operator: update " ++ (what ++ path);
  update_status = codes "operator: update " ++ (status_what ++ path);
}

abbrev pub object_path : Text → Text → Text
object_path ns name = codes " " ++ (ns ++ (codes "/" ++ name))

abbrev pub profile_words : {F : Type 0} → UsageProfile F → Wordings
profile_words profile =
    wordings (codes "usageprofile") (codes "usageprofile status")
      (object_path profile.namespace profile.name)

abbrev pub with_content : {F : Type 0} → ApiObject F → Entries F → ApiObject F
with_content o c = record o { content = c }

module _ {F : Type 0} {S : Type 0} (client : Client F S) where
  -- The end of a write: the status, whose error is reported with the given words.
  unfoldable pub write_status : S → Text → Text → ApiObject F → S × Option Text
  write_status s ns what o = elim ((client.update_status s ns o).1) [
    | failed err ↦ ((client.update_status s ns o).0, some (what ++ (codes ": " ++ err)))
    | found o' ↦ ((client.update_status s ns o).0, none)
  ]

  unfoldable pub after_write :
      Text → Text → Text → Entries F → S × Answer (ApiObject F) → S × Option Text
  unfolding write_status copy_status
  after_write ns what status_what desired (s, failed err) = (s, some (what ++ (codes ": " ++ err)))
  after_write ns what status_what desired (s, found written_obj) =
      write_status s ns status_what
        (with_content written_obj (copy_status desired written_obj.content))

  -- `Save` and `SaveRecommendation`: create or update, and then the status.
  unfoldable pub upsert : S → Wordings → Text → Entries F → Reply (ApiObject F) → S × Option Text
  unfolding after_write
  upsert s words ns desired not_found =
      after_write ns words.create words.create_status desired
        (client.create s ns (record { version = []; content = desired }))
  upsert s words ns desired (refused err) = (s, some (words.read ++ (codes ": " ++ err)))
  upsert s words ns desired (present existing) =
      after_write ns words.update words.update_status desired
        (client.update s ns (record { version = existing.version; content = desired }))

  -- `SaveRecommendation`, for a converter of typed objects.
  unfoldable pub save_recommendation_object :
      (RecommendationObject F → Answer (Entries F)) → S → RecommendationObject F → S × Option Text
  unfolding upsert
  save_recommendation_object convert s rec = elim (convert rec) [
    | failed err ↦ (
      s,
      some (
          codes "operator: encoding recommendation"
          ++ (object_path rec.namespace rec.name ++ (codes ": " ++ err))),
    )
    | found u ↦
        upsert s
          (wordings (codes "recommendation") (codes "recommendation status")
            (object_path rec.namespace rec.name))
          rec.namespace u (client.get s rec.namespace rec.name)
  ]

  unfoldable pub summary_namespace : Text
  summary_namespace = codes "kubetidy-system"

  unfoldable pub summary_name : Text
  summary_name = codes "cluster"

  -- The end of `SaveSummary`: an existing summary gets a new status alone.
  unfoldable pub upsert_summary : S → Entries F → Reply (ApiObject F) → S × Option Text
  unfolding after_write write_status copy_status summary_namespace
  upsert_summary s u not_found =
      after_write summary_namespace (codes "operator: create cluster summary")
        (codes "operator: set cluster summary status") u
        (client.create s summary_namespace (record { version = []; content = u }))
  upsert_summary s u (refused err) =
      (s, some (codes "operator: get-before-update cluster summary: " ++ err))
  upsert_summary s u (present existing) =
      write_status s summary_namespace (codes "operator: update cluster summary status")
        (with_content existing (copy_status u existing.content))

  unfoldable pub save_summary_status :
      (SummaryStatus F → Answer (Entries F)) → S → SummaryStatus F → S × Option Text
  unfolding upsert_summary summary_namespace summary_name
  save_summary_status convert s status = elim (convert status) [
    | failed err ↦ (s, some (codes "operator: encoding cluster summary: " ++ err))
    | found u ↦ upsert_summary s u (client.get s summary_namespace summary_name)
  ]

module _ {F : Type 0} ⦃fl : Float64 F⦄ {S : Type 0} (client : Client F S) where
  -- `Save`
  unfoldable pub save_profile : S → UsageProfile F → S × Option Text
  unfolding upsert to_unstructured
  save_profile s profile =
      upsert client s (profile_words profile) profile.namespace (to_unstructured profile)
        (client.get s profile.namespace profile.name)

  -- `Get`
  unfoldable pub get_profile : S → Text → Text → Answer (Option (UsageProfile F))
  unfolding from_unstructured
  get_profile s ns name = elim (client.get s ns name) [
    | not_found ↦ found none
    | refused err ↦
        failed (codes "operator: get usageprofile" ++ (object_path ns name ++ (codes ": " ++ err)))
    | present o ↦ found (some (from_unstructured o.content))
  ]
