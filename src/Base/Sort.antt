-- ===== src/Base/Sort.antt =====
-- Go's `sort.SliceStable` for a test that says which of two items comes first, and its laws.
use mathlib.Core.List.{Permᴰ}
use mathlib.Core.Path.{ap₂, subst}
use kubetidy.Base.{
  if◌then◌else◌, Bool-cases, length, All, or_skip, filter_map, suc, ◌≡◌, refl, sym, ap, ◌∙◌, inl,
  inr, Bool, true, false, Option, none, some, List, [], ◌∷◌, ◌++◌, map, arith,
}

module _ {ℓ} {A : Type ℓ} where
  pub same_items : (xs : List A) → Permᴰ xs xs
  same_items [] = Permᴰ.nil
  same_items (x ∷ xs) = Permᴰ.cons refl (same_items xs)

  Perm-or_skip : (o : Option A) {xs ys : List A} → Permᴰ xs ys → Permᴰ (or_skip o xs) (or_skip o ys)
  Perm-or_skip none d = d
  Perm-or_skip (some a) d = Permᴰ.cons refl d

  or_skip-swap :
      (o p : Option A) (xs : List A) → Permᴰ (or_skip o (or_skip p xs)) (or_skip p (or_skip o xs))
  or_skip-swap none p xs = same_items (or_skip p xs)
  or_skip-swap (some a) none xs = same_items (a ∷ xs)
  or_skip-swap (some a) (some b) xs = Permᴰ.swap refl refl

module _ {ℓ} {A : Type ℓ} where
  -- The items that pass a test, in their order.
  abbrev pub filter_by : (A → Bool) → List A → List A
  filter_by keep [] = []
  filter_by keep (x ∷ xs) = if keep x then x ∷ filter_by keep xs else filter_by keep xs

  pub filter_by-All {κ} :
      (P : A → Type κ) (keep : A → Bool) (xs : List A) → All P xs → All P (filter_by keep xs)
  filter_by-All P keep [] h = tt
  filter_by-All P keep (x ∷ xs) (p, h) = elim (Bool-cases (keep x)) [
    | inl k ↦ rw k (p, filter_by-All P keep xs h)
    | inr n ↦ rw n (filter_by-All P keep xs h)
  ]

  pub Perm-symm : {xs ys : List A} → Permᴰ xs ys → Permᴰ ys xs
  Perm-symm Permᴰ.nil = Permᴰ.nil
  Perm-symm (Permᴰ.cons e d) = Permᴰ.cons (sym e) (Perm-symm d)
  Perm-symm (Permᴰ.swap e f) = Permᴰ.swap (sym f) (sym e)
  Perm-symm (Permᴰ.trans c d) = Permᴰ.trans (Perm-symm d) (Perm-symm c)

  pub Perm-map {κ} :
      {B : Type κ} (f : A → B) {xs ys : List A} → Permᴰ xs ys → Permᴰ (map f xs) (map f ys)
  Perm-map f Permᴰ.nil = Permᴰ.nil
  Perm-map f (Permᴰ.cons e d) = Permᴰ.cons (ap f e) (Perm-map f d)
  Perm-map f (Permᴰ.swap e g) = Permᴰ.swap (ap f e) (ap f g)
  Perm-map f (Permᴰ.trans c d) = Permᴰ.trans (Perm-map f c) (Perm-map f d)

  append_right : {xs ys : List A} (zs : List A) → Permᴰ xs ys → Permᴰ (xs ++ zs) (ys ++ zs)
  append_right zs Permᴰ.nil = same_items zs
  append_right zs (Permᴰ.cons e d) = Permᴰ.cons e (append_right zs d)
  append_right zs (Permᴰ.swap e f) = Permᴰ.swap e f
  append_right zs (Permᴰ.trans c d) = Permᴰ.trans (append_right zs c) (append_right zs d)

  append_left : (xs : List A) {ys zs : List A} → Permᴰ ys zs → Permᴰ (xs ++ ys) (xs ++ zs)
  append_left [] d = d
  append_left (x ∷ xs) d = Permᴰ.cons refl (append_left xs d)

  pub Perm-append : {xs ys zs ws : List A} → Permᴰ xs ys → Permᴰ zs ws → Permᴰ (xs ++ zs) (ys ++ ws)
  Perm-append {ys = ys} {zs} d e = Permᴰ.trans (append_right zs d) (append_left ys e)

  pub Perm-All {κ} : (P : A → Type κ) {xs ys : List A} → Permᴰ xs ys → All P xs → All P ys
  Perm-All P Permᴰ.nil h = tt
  Perm-All P (Permᴰ.cons e d) (p, h) = (subst P e p, Perm-All P d h)
  Perm-All P (Permᴰ.swap e f) (p, (q, h)) = (subst P f q, (subst P e p, h))
  Perm-All P (Permᴰ.trans c d) h = Perm-All P d (Perm-All P c h)

  pub Perm-filter_map {κ} :
      {B : Type κ} (f : A → Option B) {xs ys : List A}
      → Permᴰ xs ys
      → Permᴰ (filter_map f xs) (filter_map f ys)
  Perm-filter_map f Permᴰ.nil = Permᴰ.nil
  Perm-filter_map f (Permᴰ.cons {a = a} {b} {l₁} {l₂} e d) =
      subst (λ c. Permᴰ (filter_map f (a ∷ l₁)) (filter_map f (c ∷ l₂))) e
        (Perm-or_skip (f a) (Perm-filter_map f d))
  Perm-filter_map f (Permᴰ.swap {a = a} {b} {a'} {b'} {l} e g) =
      subst (λ c. Permᴰ (filter_map f (a ∷ b ∷ l)) (filter_map f (a' ∷ c ∷ l))) e
        (subst (λ c. Permᴰ (filter_map f (a ∷ b ∷ l)) (filter_map f (c ∷ a ∷ l))) g
          (or_skip-swap (f a) (f b) (filter_map f l)))
  Perm-filter_map f (Permᴰ.trans c d) = Permᴰ.trans (Perm-filter_map f c) (Perm-filter_map f d)

  pub Perm-length : {xs ys : List A} → Permᴰ xs ys → length xs ≡ length ys
  Perm-length Permᴰ.nil = refl
  Perm-length (Permᴰ.cons e d) = ap suc (Perm-length d)
  Perm-length (Permᴰ.swap e f) = refl
  Perm-length (Permᴰ.trans c d) = Perm-length c ∙ Perm-length d

module _ {ℓ} {A : Type ℓ} (before : A → A → Bool) where
  -- An item stands after the items that come before it, and in front of the later ones that are its
  -- equals.
  unfoldable pub insert_by : A → List A → List A
  insert_by x [] = x ∷ []
  insert_by x (y ∷ ys) = let rest = insert_by x ys in if before y x then y ∷ rest else x ∷ y ∷ ys

  unfoldable pub sort_by : List A → List A
  unfolding insert_by
  sort_by [] = []
  sort_by (x ∷ xs) = insert_by x (sort_by xs)

  -- No item must come before one that stands in front of it.
  abbrev pub IsSorted : List A → Type 0
  IsSorted [] = Unit
  IsSorted (x ∷ xs) = All (λ y. before y x ≡ false) xs × IsSorted xs

  insert_by-Perm : (x : A) (xs : List A) → Permᴰ (insert_by x xs) (x ∷ xs)
  unfolding insert_by
  insert_by-Perm x [] = Permᴰ.cons refl Permᴰ.nil
  insert_by-Perm x (y ∷ ys) = elim (Bool-cases (before y x)) [
    | inl up ↦ rw up (Permᴰ.trans (Permᴰ.cons refl (insert_by-Perm x ys)) (Permᴰ.swap refl refl))
    | inr down ↦ rw down (same_items (x ∷ y ∷ ys))
  ]

  pub sort_by-Perm : (xs : List A) → Permᴰ (sort_by xs) xs
  unfolding sort_by
  sort_by-Perm [] = Permᴰ.nil
  sort_by-Perm (x ∷ xs) =
      Permᴰ.trans (insert_by-Perm x (sort_by xs)) (Permᴰ.cons refl (sort_by-Perm xs))

  insert_by-All {κ} :
      (P : A → Type κ) (x : A) (xs : List A) → P x → All P xs → All P (insert_by x xs)
  unfolding insert_by
  insert_by-All P x [] p h = (p, tt)
  insert_by-All P x (y ∷ ys) p (q, h) = elim (Bool-cases (before y x)) [
    | inl up ↦ rw up (q, insert_by-All P x ys p h)
    | inr down ↦ rw down (p, (q, h))
  ]

  pub sort_by-All {κ} : (P : A → Type κ) (xs : List A) → All P xs → All P (sort_by xs)
  unfolding sort_by
  sort_by-All P [] h = tt
  sort_by-All P (x ∷ xs) (p, h) = insert_by-All P x (sort_by xs) p (sort_by-All P xs h)

  -- Items of one kind, none of which comes before another, keep their order.
  insert_by-filter :
      (keep : A → Bool)
      → ((x y : A) → keep x ≡ true → keep y ≡ true → before x y ≡ false)
      → (x : A) (xs : List A) → filter_by keep (insert_by x xs) ≡ filter_by keep (x ∷ xs)
  unfolding insert_by
  insert_by-filter keep apart x [] = refl
  insert_by-filter keep apart x (y ∷ ys) = elim (Bool-cases (before y x)) [
    | inr down ↦ rw down refl
    | inl up ↦ rw up (elim (Bool-cases (keep y)) [
      | inr n ↦ rw n (insert_by-filter keep apart x ys)
      | inl k ↦ elim (Bool-cases (keep x)) [
        | inl l ↦ absurd (ground (arith, apart y x k l))
        | inr m ↦ rw (k, m) (ap (λ r. y ∷ r) (insert_by-filter keep apart x ys ∙ rw m refl))
      ]
    ])
  ]

  pub sort_by-filter :
      (keep : A → Bool)
      → ((x y : A) → keep x ≡ true → keep y ≡ true → before x y ≡ false)
      → (xs : List A) → filter_by keep (sort_by xs) ≡ filter_by keep xs
  unfolding sort_by
  sort_by-filter keep apart [] = refl
  sort_by-filter keep apart (x ∷ xs) =
      insert_by-filter keep apart x (sort_by xs)
      ∙ ap (λ r. if keep x then x ∷ r else r) (sort_by-filter keep apart xs)

  -- A test that is a strict order on the items that have a property, where what comes before no
  -- other is an equal.
  pub record IsStrict {κ} (P : A → Type κ) : Type (ℓ ⊔ κ) where
    pub asym : (x y : A) → P x → P y → before x y ≡ true → before y x ≡ false
    pub trans :
        (x y z : A) → P x → P y → P z → before y x ≡ false → before z y ≡ false → before z x ≡ false

  module _ {κ} {P : A → Type κ} (strict : IsStrict P) where
    later-All :
        (x y : A) (ys : List A)
        → P x
        → P y
        → All P ys
        → before y x ≡ false
        → All (λ z. before z y ≡ false) ys
        → All (λ z. before z x ≡ false) ys
    later-All x y [] p q qs d h = tt
    later-All x y (z ∷ zs) p q (r, rs) d (e, h) =
        (strict.trans x y z p q r d e, later-All x y zs p q rs d h)

    insert_by-IsSorted :
        (x : A) (xs : List A) → P x → All P xs → IsSorted xs → IsSorted (insert_by x xs)
    unfolding insert_by
    insert_by-IsSorted x [] p q h = (tt, tt)
    insert_by-IsSorted x (y ∷ ys) p (q, qs) (h, hs) = elim (Bool-cases (before y x)) [
      | inl up ↦ rw up (
        insert_by-All (λ z. before z y ≡ false) x ys (strict.asym y x q p up) h,
        insert_by-IsSorted x ys p qs hs,
      )
      | inr down ↦ rw down ((down, later-All x y ys p q qs down h), (h, hs))
    ]

    pub sort_by-IsSorted : (xs : List A) → All P xs → IsSorted (sort_by xs)
    unfolding sort_by
    sort_by-IsSorted [] h = tt
    sort_by-IsSorted (x ∷ xs) (p, h) =
        insert_by-IsSorted x (sort_by xs) p (sort_by-All P xs h) (sort_by-IsSorted xs h)

    -- Where two items neither of which comes before the other are the same, the sorted list does not
    -- depend on the order of the items.
    module _ (same : (x y : A) → P x → P y → before x y ≡ false → before y x ≡ false → x ≡ y) where
      insert_front :
          (x y : A) (zs : List A)
          → P x
          → P y
          → (if before y x then y ∷ x ∷ zs else x ∷ y ∷ zs)
            ≡ (if before x y then x ∷ y ∷ zs else y ∷ x ∷ zs)
      insert_front x y zs p q = elim (Bool-cases (before y x)) [
        | inl up ↦ rw (up, strict.asym y x q p up) refl
        | inr down ↦ elim (Bool-cases (before x y)) [
          | inl up ↦ rw (down, up) refl
          | inr flat ↦
              rw (down, flat)
                (ap₂ (λ u v. u ∷ v ∷ zs) (same x y p q flat down) (sym (same x y p q flat down)))
        ]
      ]

      before_trans :
          (x y z : A) → P x → P y → P z → before z y ≡ true → before z x ≡ false → before x y ≡ true
      before_trans x y z p q r h k = elim (Bool-cases (before x y)) [
        | inl up ↦ up
        | inr down ↦ absurd (ground (arith, strict.trans y x z q p r down k))
      ]

      insert_twice :
          (x y : A) (zs : List A)
          → P x
          → P y
          → All P zs
          → insert_by x (insert_by y zs) ≡ insert_by y (insert_by x zs)
      unfolding insert_by
      insert_twice x y [] p q h = insert_front x y [] p q
      insert_twice x y (z ∷ zs) p q (r, h) = elim (Bool-cases (before z y)) [
        | inl zy ↦ elim (Bool-cases (before z x)) [
          | inl zx ↦ rw (zy, zx, zy) (ap (λ l. z ∷ l) (insert_twice x y zs p q h))
          | inr xz ↦ rw (zy, xz, before_trans x y z p q r zy xz, zy) refl
        ]
        | inr yz ↦ elim (Bool-cases (before z x)) [
          | inl zx ↦ rw (yz, zx, yz, before_trans y x z q p r zx yz) refl
          | inr xz ↦ rw (yz, xz, yz) (insert_front x y (z ∷ zs) p q)
        ]
      ]

      pub sort_by-eq_of_perm : {xs ys : List A} → Permᴰ xs ys → All P xs → sort_by xs ≡ sort_by ys
      unfolding sort_by
      sort_by-eq_of_perm Permᴰ.nil h = refl
      sort_by-eq_of_perm (Permᴰ.cons e d) (p, h) = ap₂ insert_by e (sort_by-eq_of_perm d h)
      sort_by-eq_of_perm (Permᴰ.swap {l = l} e f) (p, (q, h)) =
          insert_twice _ _ (sort_by l) p q (sort_by-All P l h)
          ∙ ap₂ (λ u v. insert_by u (insert_by v (sort_by l))) f e
      sort_by-eq_of_perm (Permᴰ.trans c d) h =
          sort_by-eq_of_perm c h ∙ sort_by-eq_of_perm d (Perm-All P c h)
