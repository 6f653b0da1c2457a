-- ===== src/Gitops/Dollars.antt =====
-- `dollars`: the groups of the digits.
use mathlib.Core.List.{append_assoc}
use kubetidy.Base.{
  ltb, ltb→lt, Bool-cases, length, take, drop, All, length-take, take-append-drop, length-drop, ℕ,
  zero, suc, ◌-◌, ◌≤◌, ◌≡◌, refl, sym, ap, ◌∙◌, inl, inr, List, [], ◌∷◌, ◌++◌, arith,
}
use kubetidy.Base.Text.{Text}
use kubetidy.Gitops.Texts.{digit_groups}
use kubetidy.Wording.{concat_texts}

module _ where
  -- Every group but the first has three digits.
  abbrev pub AreThrees : List Text → Type 0
  AreThrees = All (λ g. length g ≡ 3)

  -- The first group has at most three digits, and every other one has three.
  abbrev pub AreGroups : List Text → Type 0
  AreGroups [] = ⊥
  AreGroups (g ∷ gs) = (length g ≤ 3) × AreThrees gs

  -- Enough fuel, as each round cuts three digits: a digit group is never longer than three, and the groups together are the digits in their order.
  pub digit_groups_lem :
      (fuel : ℕ) (s : Text) (parts : List Text)
      → length s ≤ fuel
      → AreThrees parts
      → AreGroups (digit_groups fuel s parts)
        × (concat_texts (digit_groups fuel s parts) ≡ s ++ concat_texts parts)
  unfolding digit_groups concat_texts
  digit_groups_lem zero s parts l h = ((omega (arith, l), h), refl)
  digit_groups_lem (suc fuel) s parts l h = elim (Bool-cases (ltb 3 (length s))) [
    | inr short ↦ rw short ((ground arith, h), refl)
    | inl long ↦
        let cut = length s - 3 in
        let tail_three : length (drop cut s) ≡ 3 =
          omega (arith, length-drop cut s, ltb→lt 3 (length s) long) in
        let (groups, same) =
          digit_groups_lem fuel (take cut s) (drop cut s ∷ parts)
            (omega (arith, length-take cut s, l)) (tail_three, h) in
        let joined : take cut s ++ (drop cut s ++ concat_texts parts) ≡ s ++ concat_texts parts =
          sym (append_assoc (take cut s) (drop cut s) (concat_texts parts))
          ∙ ap (λ x. x ++ concat_texts parts) (take-append-drop cut s) in
        rw long (groups, same ∙ joined)
  ]
