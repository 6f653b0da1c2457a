-- ===== src/Base/Maps.antt =====
-- Go's maps with texts as keys, as association lists in which every key has one entry.
use kubetidy.Base.{
  if◌then◌else◌, Bool-cases, All, ◌≡◌, refl, sym, ap, ◌∙◌, inl, inr, false, Option, none, some,
  List, [], ◌∷◌, arith,
}
use kubetidy.Base.Text.{Text, text_eq, text_eq_iff}

-- `m[k]`
unfoldable pub lookup_text {ℓ} : {A : Type ℓ} → Text → List (Text × A) → Option A
unfolding text_eq
lookup_text k [] = none
lookup_text k ((j, v) ∷ m) = if text_eq j k then some v else lookup_text k m

-- `m[k] = v`
unfoldable pub put_text {ℓ} : {A : Type ℓ} → Text → A → List (Text × A) → List (Text × A)
unfolding text_eq
put_text k v [] = (k, v) ∷ []
put_text k v ((j, u) ∷ m) =
    let rest = put_text k v m in if text_eq j k then (j, v) ∷ m else (j, u) ∷ rest

text_eq-flip : (s t : Text) → text_eq s t ≡ false → text_eq t s ≡ false
text_eq-flip s t h = elim (Bool-cases (text_eq t s)) [
  | inl same ↦ absurd (ground (arith, (text_eq_iff s t).1 (sym ((text_eq_iff t s).0 same))))
  | inr other ↦ other
]

-- The entries of a map have different keys.
abbrev pub HasUniqueKeys : {A : Type 0} → List (Text × A) → Type 0
unfolding lookup_text
HasUniqueKeys [] = Unit
HasUniqueKeys ((k, c) ∷ m) = (lookup_text k m ≡ none) × HasUniqueKeys m

module _ {A : Type 0} where
  pub lookup_text-put_same :
      (k : Text) (c : A) (m : List (Text × A)) → lookup_text k (put_text k c m) ≡ some c
  unfolding lookup_text put_text
  lookup_text-put_same k c [] = rw ((text_eq_iff k k).1 refl) refl
  lookup_text-put_same k c ((i, b) ∷ m) = elim (Bool-cases (text_eq i k)) [
    | inl same ↦ rw (same, same) refl
    | inr other ↦ rw (other, other) (lookup_text-put_same k c m)
  ]

  pub lookup_text-put_other :
      (j k : Text) (c : A) (m : List (Text × A))
      → text_eq k j ≡ false
      → lookup_text j (put_text k c m) ≡ lookup_text j m
  unfolding lookup_text put_text
  lookup_text-put_other j k c [] h = rw h refl
  lookup_text-put_other j k c ((i, b) ∷ m) h = elim (Bool-cases (text_eq i k)) [
    | inl same ↦
        let ij : text_eq i j ≡ false = ap (λ x. text_eq x j) ((text_eq_iff i k).0 same) ∙ h in
        rw (same, ij) refl
    | inr other ↦ rw other (elim (Bool-cases (text_eq i j)) [
      | inl t ↦ rw t refl
      | inr f ↦ rw f (lookup_text-put_other j k c m h)
    ])
  ]

  pub put_text-HasUniqueKeys :
      (k : Text) (c : A) (m : List (Text × A)) → HasUniqueKeys m → HasUniqueKeys (put_text k c m)
  unfolding put_text lookup_text
  put_text-HasUniqueKeys k c [] h = (refl, tt)
  put_text-HasUniqueKeys k c ((i, b) ∷ m) (u, us) = elim (Bool-cases (text_eq i k)) [
    | inl same ↦ rw same (u, us)
    | inr other ↦ rw other (
      lookup_text-put_other i k c m (text_eq-flip i k other) ∙ u,
      put_text-HasUniqueKeys k c m us,
    )
  ]

  unfoldable pub IsEntry : List (Text × A) → Text × A → Type 0
  unfolding lookup_text
  IsEntry m e = lookup_text e.0 m ≡ some e.1

  -- An entry of a map is an entry of it with one more key.
  IsEntry-cons :
      (k : Text) (c : A) (m xs : List (Text × A))
      → lookup_text k m ≡ none
      → All (IsEntry m) xs
      → All (IsEntry ((k, c) ∷ m)) xs
  unfolding lookup_text IsEntry
  IsEntry-cons k c m [] u h = tt
  IsEntry-cons k c m ((j, b) ∷ xs) u (e, h) = elim (Bool-cases (text_eq k j)) [
    | inl same ↦
        absurd (none_found j (ap (λ x. lookup_text x m) (sym ((text_eq_iff k j).0 same)) ∙ u) e)
    | inr other ↦ (rw other e, IsEntry-cons k c m xs u h)
  ]
    where
      none_found : (j : Text) → lookup_text j m ≡ none → lookup_text j m ≡ some b → ⊥
      none_found j n s = absurd (ground (arith, n, s))

  pub HasUniqueKeys-entries : (m : List (Text × A)) → HasUniqueKeys m → All (IsEntry m) m
  unfolding lookup_text IsEntry
  HasUniqueKeys-entries [] h = tt
  HasUniqueKeys-entries ((k, c) ∷ m) (u, h) =
      (rw ((text_eq_iff k k).1 refl) refl, IsEntry-cons k c m m u (HasUniqueKeys-entries m h))
