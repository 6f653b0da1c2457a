-- ===== src/Operator/Store/Slot.antt =====
-- A server of one object, which stores what the encoding gives and whose status only a status update
-- sets: it meets the laws of a server.
use mathlib.Core.Path.{subst, subst⁻¹}
use kubetidy.Base.{Option-cases, ◌≡◌, refl, sym, ap, ◌∙◌, inl, inr, Option, none, some, [], arith}
use kubetidy.Base.Fixed.{Fixed, fixed_float}
use kubetidy.Base.Text.{Text, codes}
use kubetidy.Operator.Store.{
  Reply, present, not_found, refused, ApiObject, Client, set_entry, copy_status,
}
use kubetidy.Operator.Store.Encoding.{json_entries, json_entries-SameEntries}
use kubetidy.Operator.Store.Fields.{lookup-set_entry_same}
use kubetidy.Operator.Store.Json.{SameOption, as_map_kept, metadata_kept}
use kubetidy.Operator.Store.Laws.{metadata_of, SameBody, set_status-SameBody, IsStoredAs, IsServer}
use kubetidy.Profile.{Value, object, Entries, no_entry, lookup_key, nested_map}
use kubetidy.Scan.{Answer, found, failed}

abbrev pub Slot : Type 0
Slot = Option (ApiObject Fixed)

abbrev pub no_status_in : ApiObject Fixed → ApiObject Fixed
no_status_in o = record {
  version = codes "1";
  content = set_entry (codes "status") (object no_entry) (json_entries o.content);
}

abbrev pub slot_get : Slot → Text → Text → Reply (ApiObject Fixed)
slot_get none ns name = not_found
slot_get (some o) ns name = present o

abbrev pub with_status : ApiObject Fixed → ApiObject Fixed → ApiObject Fixed
with_status stored o = record stored {
  content = copy_status (json_entries o.content) stored.content;
}

abbrev pub slot_status : Slot → Text → ApiObject Fixed → Slot × Answer (ApiObject Fixed)
slot_status none ns o = (none, failed (codes "not found"))
slot_status (some stored) ns o = (some (with_status stored o), found (with_status stored o))

abbrev pub slot : Client Fixed Slot
slot = record {
  get = slot_get;
  create = λ s ns o. (some (no_status_in o), found (no_status_in o));
  update = λ s ns o. (some (no_status_in o), found (no_status_in o));
  update_status = slot_status;
}

answered : {o p : ApiObject Fixed} → found o ≡ found p → o ≡ p
answered {o} {p} e = ap (λ (a : Answer (ApiObject Fixed)). elim a [ found q ↦ q | failed t ↦ o ]) e

abbrev stored_body : ApiObject Fixed → Slot × Answer (ApiObject Fixed)
stored_body o = (some (no_status_in o), found (no_status_in o))

-- The stored object is what the encoding gives, with no status.
no_status-IsStoredAs :
    (m : Entries Fixed)
    → IsStoredAs m (set_entry (codes "status") (object no_entry) (json_entries m))
unfolding metadata_of nested_map
no_status-IsStoredAs m =
    let body = set_status-SameBody (object no_entry) (json_entries m) in
    let meta = as_map_kept (json_entries-SameEntries m (codes "metadata")) in
    record {
      name = body.name ∙ metadata_kept (codes "name") meta;
      namespace = body.namespace ∙ metadata_kept (codes "namespace") meta;
      spec =
          subst (SameOption (lookup_key (codes "spec") m)) (sym body.spec)
            (json_entries-SameEntries m (codes "spec"));
    }

stores_body :
    (o : ApiObject Fixed) (s' : Slot) (o' : ApiObject Fixed)
    → stored_body o ≡ (s', found o')
    → (slot_get s' [] [] ≡ present o') × IsStoredAs o.content o'.content
stores_body o s' o' e =
    let q : no_status_in o ≡ o' = answered (ap (λ p. p.1) e) in
    (
      ap (λ s. slot_get s [] []) (sym (ap (λ p. p.0) e)) ∙ ap present q,
      subst (λ (x : ApiObject Fixed). IsStoredAs o.content x.content) q
          (no_status-IsStoredAs o.content),
    )

slot_get-any : (s : Slot) (ns name : Text) → slot_get s ns name ≡ slot_get s [] []
slot_get-any none ns name = refl
slot_get-any (some o) ns name = refl

copied-status :
    (v : Value Fixed) (from to : Entries Fixed)
    → lookup_key (codes "status") from ≡ some v
    → copy_status from to ≡ set_entry (codes "status") v to
unfolding copy_status
copied-status v from to e = rw (copy_status, e) refl

no_status-copied :
    (from to : Entries Fixed) → lookup_key (codes "status") from ≡ none → copy_status from to ≡ to
unfolding copy_status
no_status-copied from to e = rw (copy_status, e) refl

presented : {o p : ApiObject Fixed} → present o ≡ present p → o ≡ p
presented {o} {p} e =
    ap (λ (a : Reply (ApiObject Fixed)). elim a [ present q ↦ q | not_found ↦ o | refused t ↦ o ]) e

same_body : (m : Entries Fixed) → SameBody m m
same_body m = record { name = refl; namespace = refl; spec = refl }

copy_status-SameBody : (from to : Entries Fixed) → SameBody (copy_status from to) to
copy_status-SameBody from to = elim (Option-cases (lookup_key (codes "status") from)) [
  | inl n ↦ subst⁻¹ (λ m. SameBody m to) (no_status-copied from to n) (same_body to)
  | inr (v, e) ↦ subst⁻¹ (λ m. SameBody m to) (copied-status v from to e) (set_status-SameBody v to)
]

-- The copied status is what the encoding gives.
encoded-status :
    (v : Value Fixed) (from to : Entries Fixed)
    → lookup_key (codes "status") from ≡ some v
    → SameOption (some v) (lookup_key (codes "status") (copy_status (json_entries from) to))
encoded-status v from to h =
    let sent : SameOption (some v) (lookup_key (codes "status") (json_entries from)) =
      subst (λ o. SameOption o (lookup_key (codes "status") (json_entries from))) h
        (json_entries-SameEntries from (codes "status")) in
    elim (Option-cases (lookup_key (codes "status") (json_entries from))) [
      | inl n ↦ elim (subst (SameOption (some v)) n sent) [ ]
      | inr (w, e) ↦
          subst⁻¹ (SameOption (some v))
            (ap (lookup_key (codes "status")) (copied-status w (json_entries from) to e)
              ∙ lookup-set_entry_same (codes "status") w to)
            (subst (SameOption (some v)) e sent)
    ]

stores_status :
    (s : Slot) (o stored : ApiObject Fixed) (s' : Slot) (o' : ApiObject Fixed)
    → slot_get s [] [] ≡ present stored
    → slot_status s [] o ≡ (s', found o')
    → (slot_get s' [] [] ≡ present o')
      × SameBody o'.content stored.content
      × ((v : Value Fixed)
          → lookup_key (codes "status") o.content ≡ some v
          → SameOption (some v) (lookup_key (codes "status") o'.content))
unfolding copy_status
stores_status none o stored s' o' r e = absurd (ground (arith, r))
stores_status (some st) o stored s' o' r e =
    let p : st ≡ stored = presented r in
    let q : with_status st o ≡ o' = answered (ap (λ p. p.1) e) in
    (
      ap (λ s. slot_get s [] []) (sym (ap (λ p. p.0) e)) ∙ ap present q,
      subst (λ (x : ApiObject Fixed). SameBody x.content stored.content) q
          (subst (λ (x : ApiObject Fixed). SameBody (with_status st o).content x.content) p
            (copy_status-SameBody (json_entries o.content) st.content)),
      λ v h.
          subst
            (λ (x : ApiObject Fixed). SameOption (some v) (lookup_key (codes "status") x.content)) q
            (encoded-status v o.content st.content h),
    )

same_status : (s : Slot) (ns : Text) (o : ApiObject Fixed) → slot_status s [] o ≡ slot_status s ns o
same_status none ns o = refl
same_status (some stored) ns o = refl

pub slot-IsServer : IsServer slot
slot-IsServer = record {
  create_stores =
      λ s ns o s' o' e. let (r, b) = stores_body o s' o' e in (slot_get-any s' _ _ ∙ r, b);
  update_stores =
      λ s ns o s' o' e. let (r, b) = stores_body o s' o' e in (slot_get-any s' _ _ ∙ r, b);
  status_stores = λ s ns o stored s' o' r e.
      let (g, b, v) =
        stores_status s o stored s' o' (sym (slot_get-any s _ _) ∙ r) (same_status s ns o ∙ e) in
      (slot_get-any s' _ _ ∙ g, b, v);
}
