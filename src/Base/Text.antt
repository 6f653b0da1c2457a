-- ===== src/Base/Text.antt =====
-- Go's strings as lists of code points, with the string operations that the code uses.
use Prim.Native.Char.{code}
use Prim.Native.String.{String}
use mathlib.Core.List.{Memᴰ}
use kubetidy.Base.{
  ltb, ◌==◌, ==_iff, Bool-cases, ℕ, ◌≡◌, refl, ◌↔◌, inl, inr, Bool, true, false, ◌&&◌, ◌||◌, List,
  [], ◌∷◌, ◌++◌, arith,
}

abbrev pub Text : Type 0
Text = List ℕ

-- The code points of a literal.
abbrev pub codes : String → Text
codes String.[] = []
codes (String.◌∷◌ c s) = code c ∷ codes s

unfoldable pub text_eq : Text → Text → Bool
text_eq [] [] = true
text_eq [] (d ∷ t) = false
text_eq (c ∷ s) [] = false
text_eq (c ∷ s) (d ∷ t) = (c == d) && text_eq s t

pub text_eq_iff : (s t : Text) → (text_eq s t ≡ true) ↔ (s ≡ t)
unfolding text_eq
text_eq_iff [] [] = ground arith
text_eq_iff [] (d ∷ t) = ground arith
text_eq_iff (c ∷ s) [] = ground arith
text_eq_iff (c ∷ s) (d ∷ t) = ground (arith, ==_iff c d, text_eq_iff s t)

-- Go's `<` on strings, whose bytes are in the order of the code points.
unfoldable pub text_less : Text → Text → Bool
text_less s [] = false
text_less [] (d ∷ t) = true
text_less (c ∷ s) (d ∷ t) = let rest = text_less s t in ltb c d || ((c == d) && rest)

abbrev pub is_empty : Text → Bool
is_empty [] = true
is_empty (c ∷ s) = false

-- A Go map from texts to `true`, by its keys.
unfoldable pub has_key : Text → List Text → Bool
has_key k [] = false
has_key k (j ∷ js) = text_eq k j || has_key k js

has_key_here :
    (k j : Text) (js : List Text)
    → ((has_key k js ≡ true) → Memᴰ k js)
    → (text_eq k j || has_key k js) ≡ true
    → Memᴰ k (j ∷ js)
has_key_here k j js later h = elim (Bool-cases (text_eq k j)) [
  | inl same ↦ Memᴰ.head ((text_eq_iff k j).0 same)
  | inr other ↦ Memᴰ.tail (later (rw other at h))
]

here_has_key :
    (k j : Text) (js : List Text)
    → (Memᴰ k js → has_key k js ≡ true)
    → Memᴰ k (j ∷ js)
    → (text_eq k j || has_key k js) ≡ true
here_has_key k j js later (Memᴰ.head e) = rw ((text_eq_iff k j).1 e) refl
here_has_key k j js later (Memᴰ.tail m) = ground (arith, later m)

pub has_key_iff : (k : Text) (ks : List Text) → (has_key k ks ≡ true) ↔ Memᴰ k ks
unfolding has_key
has_key_iff k [] = (λ h. absurd (ground arith), λ m. elim m [ ])
has_key_iff k (j ∷ js) =
    let later = has_key_iff k js in (has_key_here k j js later.0, here_has_key k j js later.1)

pub has_key_not_iff : (k : Text) (ks : List Text) → (has_key k ks ≡ false) ↔ ¬ Memᴰ k ks
has_key_not_iff k ks = (
  λ h m. absurd (ground (arith, (has_key_iff k ks).1 m)),
  λ n. elim (Bool-cases (has_key k ks)) [ inl t ↦ absurd (n ((has_key_iff k ks).0 t)) | inr f ↦ f ],
)

-- The code point of "/".
abbrev pub NoSlash : Text → Type 0
NoSlash s = ¬ Memᴰ 47 s

-- "a/b" is read back where `a` has no slash.
pub slash_injective :
    (a b c d : Text)
    → NoSlash a
    → NoSlash c
    → a ++ (codes "/" ++ b) ≡ c ++ (codes "/" ++ d)
    → (a ≡ c) × (b ≡ d)
slash_injective [] b [] d na nc e = (refl, ground arith)
slash_injective [] b (x ∷ c) d na nc e = absurd (nc (Memᴰ.head (ground arith)))
slash_injective (x ∷ a) b [] d na nc e = absurd (na (Memᴰ.head (ground arith)))
slash_injective (x ∷ a) b (y ∷ c) d na nc e =
    let (same, rest) =
      slash_injective a b c d (λ m. na (Memᴰ.tail m)) (λ m. nc (Memᴰ.tail m)) (ground arith) in
    (ground arith, rest)
