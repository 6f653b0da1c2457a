-- ===== src/Manifest/Ranking.antt =====
-- The comparison by which `Compare` sorts the changes.
use kubetidy.Base.{if◌then◌else◌, ◌≡◌, refl, Bool, true, false, ◌&&◌, [], ◌∷◌, arith}
use kubetidy.Base.Float.{Float64, less, less_eq, ◌≼◌, IsNumber, IsIeee}
use kubetidy.Base.Text.{Text, text_less}
use kubetidy.Manifest.{CostChange, abs, change_before}

-- The laws of `<` on strings.
text_less_asym : (s t : Text) → text_less s t ≡ true → text_less t s ≡ false
unfolding text_less
text_less_asym [] [] h = refl
text_less_asym [] (d ∷ t) h = refl
text_less_asym (c ∷ s) [] h = absurd (ground arith)
text_less_asym (c ∷ s) (d ∷ t) h = ground (arith, text_less_asym s t)

text_less_trans :
    (s t u : Text) → text_less t s ≡ false → text_less u t ≡ false → text_less u s ≡ false
unfolding text_less
text_less_trans (c ∷ s) [] u h k = absurd (ground (arith, h))
text_less_trans [] t [] h k = refl
text_less_trans [] t (e ∷ u) h k = refl
text_less_trans (c ∷ s) (d ∷ t) [] h k = absurd (ground (arith, k))
text_less_trans (c ∷ s) (d ∷ t) (e ∷ u) h k = ground (arith, text_less_trans s t u)

text_less_same : (s t : Text) → text_less s t ≡ false → text_less t s ≡ false → s ≡ t
unfolding text_less
text_less_same [] [] h k = refl
text_less_same [] (d ∷ t) h k = absurd (ground (arith, h))
text_less_same (c ∷ s) [] h k = absurd (ground (arith, k))
text_less_same (c ∷ s) (d ∷ t) h k = ground (arith, text_less_same s t)

module _ {F : Type 0} ⦃fl : Float64 F⦄ where
  -- The size of a change is a number.
  abbrev pub IsSized : CostChange F → Type 0
  unfolding abs
  IsSized c = IsNumber (abs c.delta)

  -- What the comparison says of two sizes, with what it says of the references.
  size-before : F → F → Bool → Bool
  size-before a b t = if less_eq a b && less_eq b a then t else less b a

  module _ (laws : IsIeee F) where
    follows :
        (a b : F) (t : Bool)
        → IsNumber a
        → IsNumber b
        → size-before a b t ≡ false
        → (a ≼ b) × (b ≼ a → t ≡ false)
    unfolding size-before
    follows a b t p q h = ground (arith, laws.lt-eq-not-le b a q p, laws.le_total a b p q)

    not_before : (a b : F) (t : Bool) → a ≼ b → (b ≼ a → t ≡ false) → size-before a b t ≡ false
    unfolding size-before
    not_before a b t h k =
        let (p, q) = laws.number_of_le a b h in ground (arith, laws.lt-eq-not-le b a q p)

    sizes_asym :
        (a b : F) (t u : Bool)
        → IsNumber a
        → IsNumber b
        → (t ≡ true → u ≡ false)
        → size-before a b t ≡ true
        → size-before b a u ≡ false
    unfolding size-before
    sizes_asym a b t u p q s h =
        ground (arith, laws.lt-eq-not-le b a q p, laws.lt-eq-not-le a b p q, laws.le_total a b p q)

    pub change_before-asym :
        (x y : CostChange F)
        → IsSized x
        → IsSized y
        → change_before x y ≡ true
        → change_before y x ≡ false
    unfolding change_before size-before
    change_before-asym x y p q h =
        sizes_asym (abs x.delta) (abs y.delta) (text_less x.ref y.ref) (text_less y.ref x.ref) p q
          (text_less_asym x.ref y.ref) h

    pub change_before_trans :
        (x y z : CostChange F)
        → IsSized x
        → IsSized y
        → IsSized z
        → change_before y x ≡ false
        → change_before z y ≡ false
        → change_before z x ≡ false
    unfolding change_before size-before
    change_before_trans x y z p q r h k =
        let (yx, t) = follows (abs y.delta) (abs x.delta) (text_less y.ref x.ref) q p h in
        let (zy, u) = follows (abs z.delta) (abs y.delta) (text_less z.ref y.ref) r q k in
        not_before (abs z.delta) (abs x.delta) (text_less z.ref x.ref)
          (laws.le_trans (abs z.delta) (abs y.delta) (abs x.delta) zy yx)
          (λ xz.
            text_less_trans x.ref y.ref z.ref
              (t (laws.le_trans (abs x.delta) (abs z.delta) (abs y.delta) xz zy))
              (u (laws.le_trans (abs y.delta) (abs x.delta) (abs z.delta) yx xz)))

    -- Changes neither of which stands in front of the other have the same reference.
    pub same_ref :
        (x y : CostChange F)
        → IsSized x
        → IsSized y
        → change_before x y ≡ false
        → change_before y x ≡ false
        → x.ref ≡ y.ref
    unfolding change_before size-before
    same_ref x y p q h k =
        let (xy, t) = follows (abs x.delta) (abs y.delta) (text_less x.ref y.ref) p q h in
        let (yx, u) = follows (abs y.delta) (abs x.delta) (text_less y.ref x.ref) q p k in
        text_less_same x.ref y.ref (t yx) (u xy)
