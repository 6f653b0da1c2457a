-- ===== src/Operator/Store/Encoding.antt =====
-- An encoding that meets `SameValue`: a number that is whole comes back as an int64. The server of
-- the examples stores what it decodes.
use kubetidy.Base.{if◌then◌else◌, Bool-cases, inl, inr}
use kubetidy.Base.Float.{Float64, of_int}
use kubetidy.Base.Text.{text_eq}
use kubetidy.Operator.Store.Json.{
  SameValue, same_text, same_whole, same_number, as_whole, same_object, same_array, both_none,
  both_some, SameItems, no_items, more_items, SameEntries,
}
use kubetidy.Profile.{
  Value, text, whole, number, object, array, Entries, no_entry, entry, Items, no_item, item,
  lookup_key,
}

module _ {F : Type 0} ⦃fl : Float64 F⦄ where
  abbrev json_number : F → Value F
  json_number x = if fl.eq (of_int (fl.truncate x)) x then whole (fl.truncate x) else number x

  json_number-SameValue : (x : F) → SameValue (number x) (json_number x)
  json_number-SameValue x = elim (Bool-cases (fl.eq (of_int (fl.truncate x)) x)) [
    | inl t ↦ rw t (as_whole t)
    | inr f ↦ rw f same_number
  ]

  unfoldable mutual
    pub json_value : Value F → Value F
    json_value (text s) = text s
    json_value (whole n) = whole n
    json_value (number x) = json_number x
    json_value (object m) = object (json_entries m)
    json_value (array is) = array (json_items is)

    pub json_entries : Entries F → Entries F
    json_entries no_entry = no_entry
    json_entries (entry k v m) = entry k (json_value v) (json_entries m)

    pub json_items : Items F → Items F
    json_items no_item = no_item
    json_items (item v is) = item (json_value v) (json_items is)

  mutual
    unfolding json_value lookup_key

    pub json_value-SameValue : (v : Value F) → SameValue v (json_value v)
    json_value-SameValue (text s) = same_text
    json_value-SameValue (whole n) = same_whole
    json_value-SameValue (number x) = json_number-SameValue x
    json_value-SameValue (object m) = same_object (json_entries-SameEntries m)
    json_value-SameValue (array is) = same_array (json_items-SameItems is)

    pub json_entries-SameEntries : (m : Entries F) → SameEntries m (json_entries m)
    json_entries-SameEntries no_entry key = both_none
    json_entries-SameEntries (entry k v m) key =
        let here = json_value-SameValue v in
        let there = json_entries-SameEntries m key in
        elim (Bool-cases (text_eq k key)) [ inl t ↦ rw t (both_some here) | inr f ↦ rw f there ]

    json_items-SameItems : (is : Items F) → SameItems is (json_items is)
    json_items-SameItems no_item = no_items
    json_items-SameItems (item v is) = more_items (json_value-SameValue v) (json_items-SameItems is)
