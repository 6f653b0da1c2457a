-- ===== src/Profile/Naming.antt =====
-- `ObjectName` and `sanitizeDNS`: every workload gets a valid name.
-- The last rune is neither "-" nor ".", and there is one.
use kubetidy.Base.{
  if◌then◌else◌, Bool-cases, All, ℕ, ◌≡◌, refl, inl, inr, true, false, [], ◌∷◌, ◌++◌,
}
use kubetidy.Base.Text.{Text, codes}
use kubetidy.Profile.{
  is_name_rune, replace_runes, is_trimmed_rune, trim_left, drop_trimmed, trim_right, or_x,
  sanitize_dns, object_name,
}

abbrev pub EndsWell : Text → Type 0
EndsWell [] = ⊥
EndsWell (r ∷ []) = is_trimmed_rune r ≡ false
EndsWell (r ∷ c ∷ s) = EndsWell (c ∷ s)

abbrev pub StartsWell : Text → Type 0
StartsWell [] = ⊥
StartsWell (r ∷ s) = is_trimmed_rune r ≡ false

abbrev pub IsNameText : Text → Type 0
IsNameText s = All (λ r. is_name_rune r ≡ true) s

-- A name of lowercase letters, digits, "-" and ".", with a letter or digit at both ends.
pub record IsDnsName (s : Text) : Type 0 where
  pub runes : IsNameText s
  pub starts : StartsWell s
  pub ends : EndsWell s

kept_or_dash : (r : ℕ) → is_name_rune (if is_name_rune r then r else 45) ≡ true
unfolding is_name_rune
kept_or_dash r = elim (Bool-cases (is_name_rune r)) [ inl t ↦ rw (t) t | inr f ↦ rw (f) refl ]

replace_runes-IsNameText : (s : Text) → IsNameText (replace_runes s)
unfolding replace_runes
replace_runes-IsNameText [] = tt
replace_runes-IsNameText (r ∷ s) = (kept_or_dash r, replace_runes-IsNameText s)

-- What is left of a text: nothing, or it starts well.
abbrev StartsIfAny : Text → Type 0
StartsIfAny [] = Unit
StartsIfAny (r ∷ s) = is_trimmed_rune r ≡ false

trim_left-IsNameText : (s : Text) → IsNameText s → IsNameText (trim_left s)
unfolding trim_left
trim_left-IsNameText [] h = tt
trim_left-IsNameText (r ∷ s) (p, h) = elim (Bool-cases (is_trimmed_rune r)) [
  | inl t ↦ rw t (trim_left-IsNameText s h)
  | inr f ↦ rw f (p, h)
]

trim_left-StartsIfAny : (s : Text) → StartsIfAny (trim_left s)
unfolding trim_left
trim_left-StartsIfAny [] = tt
trim_left-StartsIfAny (r ∷ s) = elim (Bool-cases (is_trimmed_rune r)) [
  | inl t ↦ rw t (trim_left-StartsIfAny s)
  | inr f ↦ rw f f
]

abbrev EndsIfAny : Text → Type 0
EndsIfAny [] = Unit
EndsIfAny (r ∷ s) = EndsWell (r ∷ s)

drop_trimmed_lem :
    (r : ℕ) (s : Text)
    → is_name_rune r ≡ true
    → IsNameText s
    → EndsIfAny s
    → IsNameText (drop_trimmed r s) × EndsIfAny (drop_trimmed r s)
unfolding drop_trimmed
drop_trimmed_lem r [] p h e = elim (Bool-cases (is_trimmed_rune r)) [
  | inl t ↦ rw t (tt, tt)
  | inr f ↦ rw f ((p, tt), f)
]
drop_trimmed_lem r (c ∷ s) p h e = ((p, h), e)

trim_right_lem : (s : Text) → IsNameText s → IsNameText (trim_right s) × EndsIfAny (trim_right s)
unfolding trim_right
trim_right_lem [] h = (tt, tt)
trim_right_lem (r ∷ s) (p, h) =
    let (n, e) = trim_right_lem s h in drop_trimmed_lem r (trim_right s) p n e

-- The first rune is kept, when it is no rune to trim.
drop_trimmed-StartsIfAny :
    (r : ℕ) (s : Text) → is_trimmed_rune r ≡ false → StartsIfAny (drop_trimmed r s)
unfolding drop_trimmed
drop_trimmed-StartsIfAny r [] h = rw h h
drop_trimmed-StartsIfAny r (c ∷ s) h = h

trim_right-StartsIfAny : (s : Text) → StartsIfAny s → StartsIfAny (trim_right s)
unfolding trim_right
trim_right-StartsIfAny [] h = tt
trim_right-StartsIfAny (r ∷ s) h = drop_trimmed-StartsIfAny r (trim_right s) h

or_x-IsDnsName : (s : Text) → IsNameText s → StartsIfAny s → EndsIfAny s → IsDnsName (or_x s)
unfolding is_name_rune is_trimmed_rune
or_x-IsDnsName [] n s e = record { runes = (refl, tt); starts = refl; ends = refl }
or_x-IsDnsName (r ∷ t) n s e = record { runes = n; starts = s; ends = e }

-- Whatever the lowering of letters does, the name of any kind and name has only lowercase letters,
-- digits, "-" and ".", is not empty, and starts and ends with a letter or a digit.
pub object_name-IsDnsName :
    (to_lower : Text → Text) (kind name : Text) → IsDnsName (object_name to_lower kind name)
unfolding object_name sanitize_dns
object_name-IsDnsName to_lower kind name =
    let s = replace_runes (to_lower (to_lower kind ++ (codes "-" ++ name))) in
    let n = trim_left-IsNameText s (replace_runes-IsNameText _) in
    let (m, e) = trim_right_lem (trim_left s) n in
    or_x-IsDnsName _ m (trim_right-StartsIfAny _ (trim_left-StartsIfAny s)) e
