-- ===== src/Recommend/Groups.antt =====
-- `Build`: which recommendations each object is built from.
use mathlib.Core.List.{append-nil, append_assoc, Memᴰ}
use kubetidy.Base.{
  if◌then◌else◌, Bool-cases, ◌≡◌, refl, sym, ap, ◌∙◌, ◌⊎◌, inl, inr, true, false, List, [], ◌∷◌,
  ◌++◌, map, arith,
}
use kubetidy.Base.Text.{Text, text_eq, text_eq_iff}
use kubetidy.Model.{Recommendation}
use kubetidy.Recommend.{Group, ref_of, key_of, add_to_group, group_loop}
use mathlib.Core.List.Memᴰ

apart_keys : (k j key : Text) → text_eq k j ≡ false → text_eq k key ≡ true → text_eq j key ≡ false
apart_keys k j key other t = elim (Bool-cases (text_eq j key)) [
  | inl u ↦
      let e = (text_eq_iff k key).0 t ∙ sym ((text_eq_iff j key).0 u) in
      absurd (ground (arith, (text_eq_iff k j).1 e))
  | inr f ↦ f
]

module _ {F : Type 0} where
  -- The recommendations of a workload's group.
  abbrev pub grouped_under : Text → List (Group F) → List (Recommendation F)
  grouped_under key [] = []
  grouped_under key (g ∷ gs) = if text_eq (key_of g) key then g.recs else grouped_under key gs

  -- The recommendations of a workload, in their order.
  abbrev pub of_workload : Text → List (Recommendation F) → List (Recommendation F)
  of_workload key [] = []
  of_workload key (r ∷ rs) =
      let rest = of_workload key rs in if text_eq (ref_of r) key then r ∷ rest else rest

  abbrev pub HasKey : Text → List (Group F) → Type 0
  HasKey key gs = Memᴰ key (map (λ (g : Group F). key_of g) gs)

  -- No two groups are of one workload, so each workload gets one object.
  abbrev pub AreDistinct : List (Group F) → Type 0
  AreDistinct [] = Unit
  AreDistinct (g ∷ gs) = (¬ HasKey (key_of g) gs) × AreDistinct gs

  add-HasKey :
      (key : Text) (gs : List (Group F)) (r : Recommendation F)
      → HasKey key (add_to_group gs r)
      → (key ≡ ref_of r) ⊎ HasKey key gs
  unfolding add_to_group
  add-HasKey key [] r (Memᴰ.head e) = inl e
  add-HasKey key [] r (Memᴰ.tail m) = elim m [ ]
  add-HasKey key (g ∷ gs) r m = elim (Bool-cases (text_eq (key_of g) (ref_of r))) [
    | inl same ↦ inr (rw same at m)
    | inr other ↦ elim (Memᴰ.cases_cons (rw other at m)) [
      | inl e ↦ inr (Memᴰ.head e)
      | inr k ↦ elim (add-HasKey key gs r k) [ inl e ↦ inl e | inr n ↦ inr (Memᴰ.tail n) ]
    ]
  ]

  add-AreDistinct :
      (gs : List (Group F)) (r : Recommendation F)
      → AreDistinct gs
      → AreDistinct (add_to_group gs r)
  unfolding add_to_group
  add-AreDistinct [] r d = (λ m. elim m [ ], tt)
  add-AreDistinct (g ∷ gs) r (n, d) = elim (Bool-cases (text_eq (key_of g) (ref_of r))) [
    | inl same ↦ rw same (n, d)
    | inr other ↦ rw other (
      λ m. elim (add-HasKey (key_of g) gs r m) [
        | inl e ↦ absurd (ground (arith, (text_eq_iff (key_of g) (ref_of r)).1 e))
        | inr k ↦ n k
      ],
      add-AreDistinct gs r d,
    )
  ]

  -- One round adds the recommendation at the end of its workload's group, and to no other.
  add-grouped :
      (key : Text) (gs : List (Group F)) (r : Recommendation F)
      → grouped_under key (add_to_group gs r) ≡ grouped_under key gs ++ of_workload key (r ∷ [])
  unfolding add_to_group
  add-grouped key [] r = refl
  add-grouped key (g ∷ gs) r = elim (Bool-cases (text_eq (key_of g) (ref_of r))) [
    | inl same ↦
        let alike = ap (λ k. text_eq k key) ((text_eq_iff (key_of g) (ref_of r)).0 same) in
        elim (Bool-cases (text_eq (ref_of r) key)) [
          | inl t ↦ rw (same, alike ∙ t, t) refl
          | inr f ↦ rw (same, alike ∙ f, f) (sym (append-nil _))
        ]
    | inr other ↦ elim (Bool-cases (text_eq (key_of g) key)) [
      | inl t ↦ rw (other, t, apart_keys (key_of g) (ref_of r) key other t) (sym (append-nil _))
      | inr n ↦ rw (other, n) (add-grouped key gs r)
    ]
  ]

  of_workload-cons :
      (key : Text) (r : Recommendation F) (rs : List (Recommendation F))
      → of_workload key (r ∷ []) ++ of_workload key rs ≡ of_workload key (r ∷ rs)
  of_workload-cons key r rs = elim (Bool-cases (text_eq (ref_of r) key)) [
    | inl t ↦ rw t refl
    | inr f ↦ rw f refl
  ]

  loop-grouped :
      (key : Text) (rs : List (Recommendation F)) (gs : List (Group F))
      → grouped_under key (group_loop gs rs) ≡ grouped_under key gs ++ of_workload key rs
  unfolding group_loop
  loop-grouped key [] gs = sym (append-nil _)
  loop-grouped key (r ∷ rs) gs =
      loop-grouped key rs (add_to_group gs r)
      ∙ ap (λ l. l ++ of_workload key rs) (add-grouped key gs r)
      ∙ append_assoc (grouped_under key gs) (of_workload key (r ∷ [])) (of_workload key rs)
      ∙ ap (λ l. grouped_under key gs ++ l) (of_workload-cons key r rs)

  loop-AreDistinct :
      (rs : List (Recommendation F)) (gs : List (Group F))
      → AreDistinct gs
      → AreDistinct (group_loop gs rs)
  unfolding group_loop
  loop-AreDistinct [] gs d = d
  loop-AreDistinct (r ∷ rs) gs d = loop-AreDistinct rs (add_to_group gs r) (add-AreDistinct gs r d)

  -- `Build` makes one group for each workload: no two groups have the same reference, and the group
  -- of a reference holds exactly the recommendations with it, in their order.
  pub group_loop_lem :
      (rs : List (Recommendation F))
      → AreDistinct (group_loop [] rs)
        × ((key : Text) → grouped_under key (group_loop [] rs) ≡ of_workload key rs)
  group_loop_lem rs = (loop-AreDistinct rs [] tt, λ key. loop-grouped key rs [])
