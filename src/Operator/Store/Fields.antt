-- ===== src/Operator/Store/Fields.antt =====
-- Laws of the maps of unstructured objects.
use kubetidy.Base.{Bool-cases, ◌≡◌, refl, ap, ◌∙◌, inl, inr, false, some}
use kubetidy.Base.Text.{Text, text_eq, text_eq_iff}
use kubetidy.Operator.Store.{set_entry}
use kubetidy.Profile.{Value, Entries, no_entry, entry, lookup_key}

module _ {F : Type 0} where
  pub lookup-set_entry_same :
      (key : Text) (v : Value F) (m : Entries F) → lookup_key key (set_entry key v m) ≡ some v
  unfolding lookup_key set_entry
  lookup-set_entry_same key v no_entry = rw ((text_eq_iff key key).1 refl) refl
  lookup-set_entry_same key v (entry k u m) = elim (Bool-cases (text_eq k key)) [
    | inl same ↦ rw (same, same) refl
    | inr other ↦ rw (other, other) (lookup-set_entry_same key v m)
  ]

  pub lookup-set_entry_other :
      (j key : Text) (v : Value F) (m : Entries F)
      → text_eq key j ≡ false
      → lookup_key j (set_entry key v m) ≡ lookup_key j m
  unfolding lookup_key set_entry
  lookup-set_entry_other j key v no_entry h = rw h refl
  lookup-set_entry_other j key v (entry k u m) h = elim (Bool-cases (text_eq k key)) [
    | inl same ↦
        let kj : text_eq k j ≡ false = ap (λ x. text_eq x j) ((text_eq_iff k key).0 same) ∙ h in
        rw (same, kj) refl
    | inr other ↦ rw other (elim (Bool-cases (text_eq k j)) [
      | inl t ↦ rw t refl
      | inr f ↦ rw f (lookup-set_entry_other j key v m h)
    ])
  ]
