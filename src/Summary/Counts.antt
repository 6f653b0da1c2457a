-- ===== src/Summary/Counts.antt =====
-- `countWorkloads` and the waste of a summary, against the objects of `Build` and the scan.
use kubetidy.Base.{
  Bool-cases, length, suc, ◌≡◌, refl, sym, ap, ◌∙◌, inl, inr, false, List, [], ◌∷◌, map, arith,
}
use kubetidy.Base.Float.{Float64}
use kubetidy.Base.Text.{Text, text_eq, text_eq_iff, has_key}
use kubetidy.Model.{Recommendation}
use kubetidy.Recommend.{Group, ref_of, key_of, add_to_group, group_loop, build}
use kubetidy.Summary.{add_seen, seen_loop, count_workloads}

text_eq_sym : (s t : Text) → text_eq s t ≡ text_eq t s
text_eq_sym s t = elim (Bool-cases (text_eq s t)) [
  | inl e ↦ e ∙ sym ((text_eq_iff t s).1 (sym ((text_eq_iff s t).0 e)))
  | inr n ↦ elim (Bool-cases (text_eq t s)) [
    | inl e ↦ absurd (ground (arith, (text_eq_iff s t).1 (sym ((text_eq_iff t s).0 e))))
    | inr m ↦ n ∙ sym m
  ]
]

seen-tail :
    (key k : Text) (ks : List Text)
    → text_eq k key ≡ false
    → add_seen key (k ∷ ks) ≡ k ∷ add_seen key ks
unfolding add_seen has_key
seen-tail key k ks other = elim (Bool-cases (has_key key ks)) [
  | inl t ↦ rw (text_eq_sym key k, other, t) refl
  | inr f ↦ rw (text_eq_sym key k, other, f) refl
]

module _ {F : Type 0} where
  abbrev keys : List (Group F) → List Text
  keys gs = map (λ (g : Group F). key_of g) gs

  keys-add :
      (gs : List (Group F)) (r : Recommendation F)
      → keys (add_to_group gs r) ≡ add_seen (ref_of r) (keys gs)
  unfolding add_to_group add_seen has_key
  keys-add [] r = refl
  keys-add (g ∷ gs) r = elim (Bool-cases (text_eq (key_of g) (ref_of r))) [
    | inl same ↦ rw (text_eq_sym (ref_of r) (key_of g), same) refl
    | inr other ↦ rw (other) (
        ap (λ ks. key_of g ∷ ks) (keys-add gs r)
        ∙ sym (seen-tail (ref_of r) (key_of g) (keys gs) other))
  ]

  keys-loop :
      (rs : List (Recommendation F)) (gs : List (Group F))
      → keys (group_loop gs rs) ≡ seen_loop (keys gs) rs
  unfolding group_loop seen_loop
  keys-loop [] gs = refl
  keys-loop (r ∷ rs) gs =
      keys-loop rs (add_to_group gs r) ∙ ap (λ ks. seen_loop ks rs) (keys-add gs r)

length-map : {A B : Type 0} (f : A → B) (xs : List A) → length (map f xs) ≡ length xs
length-map f [] = refl
length-map f (x ∷ xs) = ap suc (length-map f xs)

module _ {F : Type 0} ⦃fl : Float64 F⦄ where
  -- The workload count of a summary is the number of Recommendation objects that are built from the
  -- same recommendations.
  pub count_workloads-build :
      (to_lower : Text → Text) (source generated_at : Text) (recs : List (Recommendation F))
      → count_workloads recs ≡ length (build to_lower source generated_at recs)
  unfolding count_workloads build
  count_workloads-build to_lower source generated_at recs =
      ap length (sym (keys-loop recs []))
      ∙ length-map _ (group_loop [] recs)
      ∙ sym (length-map _ (group_loop [] recs))
