-- ===== src/Operator/Store/Laws.antt =====
-- `Save` and `Get` against the server: what is saved without an error is read back.
use mathlib.Core.Path.{subst, subst⁻¹}
use kubetidy.Base.{◌≡◌, refl, ap, ◌∙◌, inl, inr, Option, none, some, [], arith}
use kubetidy.Base.Float.{Float64}
use kubetidy.Base.Text.{Text, codes, text_eq}
use kubetidy.Operator.Store.{
  Reply, present, not_found, refused, ApiObject, Client, set_entry, copy_status, Wordings,
  profile_words, with_content, write_status, after_write, upsert, save_profile, get_profile,
}
use kubetidy.Operator.Store.Fields.{lookup-set_entry_same, lookup-set_entry_other}
use kubetidy.Operator.Store.Json.{
  SameOption, SameMap, both_map, SameStatus, SameProfile, as_map_kept, status_from_map-SameStatus,
  spec_kept,
}
use kubetidy.Profile.{
  UsageProfile, Value, object, Entries, lookup_key, as_map, nested_map, nested_string,
  status_to_map, to_unstructured, status_from_map, target_in, spec_in, status_in, metadata_text,
  from_unstructured,
}
use kubetidy.Profile.RoundTrip.{from_unstructured-to_unstructured}
use kubetidy.Scan.{Answer, found, failed, Answer-cases}

module _ {F : Type 0} ⦃fl : Float64 F⦄ where
  unfoldable pub metadata_of : Entries F → Text → Text
  unfolding nested_map metadata_text
  metadata_of m key = metadata_text (nested_map m (codes "metadata")) key

  -- Two objects have the same name, namespace and spec.
  pub record SameBody (a b : Entries F) : Type 0 where
    pub name : metadata_of a (codes "name") ≡ metadata_of b (codes "name")
    pub namespace : metadata_of a (codes "namespace") ≡ metadata_of b (codes "namespace")
    pub spec : lookup_key (codes "spec") a ≡ lookup_key (codes "spec") b

  pub set_status-SameBody :
      (v : Value F) (m : Entries F) → SameBody (set_entry (codes "status") v m) m
  unfolding metadata_of nested_map
  set_status-SameBody v m =
      let meta = lookup-set_entry_other (codes "metadata") (codes "status") v m refl in
      record {
        name = ap (λ o. metadata_text (as_map o) (codes "name")) meta;
        namespace = ap (λ o. metadata_text (as_map o) (codes "namespace")) meta;
        spec = lookup-set_entry_other (codes "spec") (codes "status") v m refl;
      }

module _ {F : Type 0} ⦃fl : Float64 F⦄ where
  -- The stored object has the name and the namespace of what was sent, and its spec up to JSON.
  pub record IsStoredAs (sent stored : Entries F) : Type 0 where
    pub name : metadata_of stored (codes "name") ≡ metadata_of sent (codes "name")
    pub namespace : metadata_of stored (codes "namespace") ≡ metadata_of sent (codes "namespace")
    pub spec : SameOption (lookup_key (codes "spec") sent) (lookup_key (codes "spec") stored)

-- What the API documents of a kind with a status subresource: a create or an update is answered
-- with the stored object, which has the name, the namespace and the spec of the request; a status
-- update is answered with the stored object, which has the status of the request and keeps the rest.
-- Spec and status travel as JSON, so a whole float64 of the request may be an int64 in the answer.
pub record IsServer {F : Type 0} ⦃fl : Float64 F⦄ {S : Type 0} (client : Client F S) : Type 0 where
  pub create_stores :
      (s : S) (ns : Text) (o : ApiObject F) (s' : S) (o' : ApiObject F)
      → client.create s ns o ≡ (s', found o')
      → (client.get s' ns (metadata_of o.content (codes "name")) ≡ present o')
        × IsStoredAs o.content o'.content
  pub update_stores :
      (s : S) (ns : Text) (o : ApiObject F) (s' : S) (o' : ApiObject F)
      → client.update s ns o ≡ (s', found o')
      → (client.get s' ns (metadata_of o.content (codes "name")) ≡ present o')
        × IsStoredAs o.content o'.content
  pub status_stores :
      (s : S) (ns : Text) (o stored : ApiObject F) (s' : S) (o' : ApiObject F)
      → client.get s ns (metadata_of o.content (codes "name")) ≡ present stored
      → client.update_status s ns o ≡ (s', found o')
      → (client.get s' ns (metadata_of o.content (codes "name")) ≡ present o')
        × SameBody o'.content stored.content
        × ((v : Value F)
            → lookup_key (codes "status") o.content ≡ some v
            → SameOption (some v) (lookup_key (codes "status") o'.content))

module _ {F : Type 0} ⦃fl : Float64 F⦄ {S : Type 0} (client : Client F S) (laws : IsServer client)
    (profile : UsageProfile F) where
  abbrev desired : Entries F
  desired = to_unstructured profile

  abbrev status_value : Value F
  status_value = object (status_to_map profile.status)

  desired-status : lookup_key (codes "status") desired ≡ some status_value
  unfolding to_unstructured lookup_key text_eq
  desired-status = refl

  desired-name : metadata_of desired (codes "name") ≡ profile.name
  unfolding to_unstructured lookup_key text_eq metadata_of nested_map nested_string metadata_text
  desired-name = refl

  copy_status-desired :
      (m : Entries F) → copy_status desired m ≡ set_entry (codes "status") status_value m
  unfolding copy_status
  copy_status-desired m = rw (copy_status, desired-status) refl

  -- `Get` gives the profile, up to `==` of its figures.
  abbrev ReadsBack : S → Type 0
  ReadsBack s' =
      (p : UsageProfile F) × (get_profile client s' profile.namespace profile.name ≡ found (some p))
      × SameProfile profile p

  status_back : status_from_map (status_to_map profile.status) ≡ profile.status
  unfolding from_unstructured to_unstructured lookup_key text_eq nested_map status_in
  status_back = ap (λ u. u.status) (from_unstructured-to_unstructured profile)

  status_kept :
      {o : Option (Entries F)}
      → SameMap (some (status_to_map profile.status)) o
      → SameStatus profile.status (status_in o)
  unfolding status_in status_to_map lookup_key text_eq
  status_kept (both_map {n = n} h) =
      subst (λ s. SameStatus s (status_from_map n)) status_back
        (status_from_map-SameStatus (status_to_map profile.status) n refl h)

  -- What is read of an object that has the body and the status of the profile.
  read-SameProfile :
      (stored m : Entries F)
      → IsStoredAs desired stored
      → SameBody m stored
      → SameOption (some status_value) (lookup_key (codes "status") m)
      → SameProfile profile (from_unstructured m)
  unfolding from_unstructured nested_map metadata_of to_unstructured lookup_key text_eq
      nested_string metadata_text spec_in target_in
  read-SameProfile stored m body same status = record {
    name = same.name ∙ body.name;
    namespace = same.namespace ∙ body.namespace;
    spec = ap (λ o. spec_in (as_map o)) same.spec ∙ spec_kept (as_map_kept body.spec);
    status = status_kept (as_map_kept status);
  }

  -- A read of a stored object gives its profile.
  present-get :
      (s : S) (o : ApiObject F)
      → client.get s profile.namespace profile.name ≡ present o
      → get_profile client s profile.namespace profile.name
        ≡ found (some (from_unstructured o.content))
  unfolding get_profile
  present-get s o e = rw (get_profile, e) refl

  -- After a status update that is answered, the profile is read back.
  answered-get :
      (s s' : S) (stored o' : ApiObject F)
      → client.get s profile.namespace profile.name ≡ present stored
      → IsStoredAs desired stored.content
      → client.update_status s profile.namespace
          (with_content stored (copy_status desired stored.content))
        ≡ (s', found o')
      → ReadsBack s'
  answered-get s s' stored o' reads body e =
      let sent = with_content stored (copy_status desired stored.content) in
      let sent_body : SameBody sent.content stored.content =
        subst⁻¹ (λ m. SameBody m stored.content) (copy_status-desired stored.content)
          (set_status-SameBody status_value stored.content) in
      let name : metadata_of sent.content (codes "name") ≡ profile.name =
        sent_body.name ∙ body.name ∙ desired-name in
      let sent_status : lookup_key (codes "status") sent.content ≡ some status_value =
        ap (lookup_key (codes "status")) (copy_status-desired stored.content)
        ∙ lookup-set_entry_same (codes "status") status_value stored.content in
      let (at, same, status) =
        laws.status_stores s profile.namespace sent stored s' o'
          (subst⁻¹ (λ n. client.get s profile.namespace n ≡ present stored) name reads) e in
      (
        from_unstructured o'.content,
        present-get s' o' (subst (λ n. client.get s' profile.namespace n ≡ present o') name at),
        read-SameProfile stored.content o'.content body same (status status_value sent_status),
      )

  -- After the status is written, the profile is read back.
  written-get :
      (s s' : S) (what : Text) (stored : ApiObject F)
      → client.get s profile.namespace profile.name ≡ present stored
      → IsStoredAs desired stored.content
      → write_status client s profile.namespace what
          (with_content stored (copy_status desired stored.content))
        ≡ (s', none)
      → ReadsBack s'
  unfolding write_status
  written-get s s' what stored reads body h =
      let reply =
        client.update_status s profile.namespace
          (with_content stored (copy_status desired stored.content)) in
      elim (Answer-cases reply.1) [
        | inl (o', e) ↦
            let k : reply.0 ≡ s' = ap (λ p. p.0) (rw (write_status, e) at h) in
            answered-get s s' stored o' reads body (λ i. (k i, e i))
        | inr (err, e) ↦ let k = ap (λ p. p.1) (rw (write_status, e) at h) in absurd (ground arith)
      ]

  -- After a create or an update that stores the body, the status is written and all is read back.
  after-get :
      (s' : S) (what status_what : Text) (r : S × Answer (ApiObject F))
      → ((o' : ApiObject F)
          → r.1 ≡ found o'
          → (client.get r.0 profile.namespace profile.name ≡ present o')
            × IsStoredAs desired o'.content)
      → after_write client profile.namespace what status_what desired r ≡ (s', none)
      → ReadsBack s'
  unfolding after_write
  after-get s' what status_what (s, failed err) stores h = absurd (ground (arith, ap (λ p. p.1) h))
  after-get s' what status_what (s, found o') stores h =
      let (reads, body) = stores o' refl in written-get s s' status_what o' reads body h

  named :
      (s : S) (o' : ApiObject F)
      → client.get s profile.namespace (metadata_of desired (codes "name")) ≡ present o'
      → client.get s profile.namespace profile.name ≡ present o'
  named s o' r = subst (λ n. client.get s profile.namespace n ≡ present o') desired-name r

  upsert-get :
      (s s' : S) (words : Wordings) (r : Reply (ApiObject F))
      → upsert client s words profile.namespace desired r ≡ (s', none)
      → ReadsBack s'
  unfolding upsert
  upsert-get s s' words (refused err) h = absurd (ground (arith, ap (λ p. p.1) h))
  upsert-get s s' words not_found h =
      let o : ApiObject F = record { version = []; content = desired } in
      let r = client.create s profile.namespace o in
      after-get s' words.create words.create_status r
        (λ o' e.
          let (reads, body) = laws.create_stores s profile.namespace o r.0 o' (λ i. (r.0, e i)) in
          (named r.0 o' reads, body))
        h
  upsert-get s s' words (present existing) h =
      let o : ApiObject F = record { version = existing.version; content = desired } in
      let r = client.update s profile.namespace o in
      after-get s' words.update words.update_status r
        (λ o' e.
          let (reads, body) = laws.update_stores s profile.namespace o r.0 o' (λ i. (r.0, e i)) in
          (named r.0 o' reads, body))
        h

  -- On a server with a status subresource, a `Save` that reports no error, whether it creates the
  -- object or updates it, makes `Get` give the whole profile: its names, its target, its times, its
  -- sample count, its containers and their histograms as they were saved, and every figure as it
  -- was saved or as a number equal to it, which the JSON stored as a whole number.
  pub get_profile-save_profile :
      (s s' : S)
      → save_profile client s profile ≡ (s', none)
      → (p : UsageProfile F) × (get_profile client s' profile.namespace profile.name
          ≡ found (some p))
        × SameProfile profile p
  unfolding save_profile
  get_profile-save_profile s s' h =
      upsert-get s s' (profile_words profile) (client.get s profile.namespace profile.name) h
