-- ===== src/Base/Lists.antt =====
-- Lists measured and indexed by native numbers, under the library's names.
use Prim.Native.Nat.{ℕ, zero, suc, ◌+◌, ◌-◌, min}
use mathlib.Core.Path.{◌≡◌, refl, sym, ap, ◌∙◌, subst}
use mathlib.Core.Logic.{◌↔◌}
use mathlib.Core.List.{List, [], ◌∷◌, ◌++◌, Memᴰ}
use mathlib.Core.Option.{Option, none, some}
use native.Mathlib.Omega.{arith}

module _ {ℓ} {A : Type ℓ} where
  abbrev pub length : List A → ℕ
  length [] = 0
  length (x ∷ xs) = suc (length xs)

  abbrev pub get_elem? : List A → ℕ → Option A
  get_elem? [] i = none
  get_elem? (x ∷ xs) zero = some x
  get_elem? (x ∷ xs) (suc i) = get_elem? xs i

  -- A write out of bounds changes nothing.
  abbrev pub set : List A → ℕ → A → List A
  set [] i v = []
  set (x ∷ xs) zero v = v ∷ xs
  set (x ∷ xs) (suc i) v = x ∷ set xs i v

  abbrev pub take : ℕ → List A → List A
  take zero xs = []
  take (suc n) [] = []
  take (suc n) (x ∷ xs) = x ∷ take n xs

  abbrev pub drop : ℕ → List A → List A
  drop zero xs = xs
  drop (suc n) [] = []
  drop (suc n) (x ∷ xs) = drop n xs

  abbrev pub replicate : ℕ → A → List A
  replicate zero a = []
  replicate (suc n) a = a ∷ replicate n a

  -- A predicate that holds at every item.
  abbrev pub All {κ} : (A → Type κ) → List A → Type κ
  All P [] = Unit
  All P (x ∷ xs) = P x × All P xs

module _ {ℓ} {A : Type ℓ} where
  pub length-append : (xs ys : List A) → length (xs ++ ys) ≡ length xs + length ys
  length-append [] ys = omega arith
  length-append (x ∷ xs) ys = omega (arith, length-append xs ys)

  pub length-set : (xs : List A) (i : ℕ) (v : A) → length (set xs i v) ≡ length xs
  length-set [] i v = refl
  length-set (x ∷ xs) zero v = refl
  length-set (x ∷ xs) (suc i) v = ap suc (length-set xs i v)

  pub length-replicate : (n : ℕ) (a : A) → length (replicate n a) ≡ n
  length-replicate zero a = refl
  length-replicate (suc n) a = ap suc (length-replicate n a)

  pub length-take : (n : ℕ) (xs : List A) → length (take n xs) ≡ min n (length xs)
  length-take zero xs = omega arith
  length-take (suc n) [] = omega arith
  length-take (suc n) (x ∷ xs) = omega (arith, length-take n xs)

  pub take-append-drop : (n : ℕ) (xs : List A) → take n xs ++ drop n xs ≡ xs
  take-append-drop zero xs = refl
  take-append-drop (suc n) [] = refl
  take-append-drop (suc n) (x ∷ xs) = ap (λ r. x ∷ r) (take-append-drop n xs)

  pub length-drop : (n : ℕ) (xs : List A) → length (drop n xs) ≡ length xs - n
  length-drop zero xs = omega arith
  length-drop (suc n) [] = omega arith
  length-drop (suc n) (x ∷ xs) = omega (arith, length-drop n xs)

  pub All-append {κ} : (P : A → Type κ) (xs ys : List A) → All P xs → All P ys → All P (xs ++ ys)
  All-append P [] ys _ q = q
  All-append P (x ∷ xs) ys (p, ps) q = (p, All-append P xs ys ps q)

  pub All-take {κ} : (P : A → Type κ) (n : ℕ) (xs : List A) → All P xs → All P (take n xs)
  All-take P zero xs h = tt
  All-take P (suc n) [] h = tt
  All-take P (suc n) (x ∷ xs) (p, ps) = (p, All-take P n xs ps)

  pub All-mem {κ} : (P : A → Type κ) {a : A} (xs : List A) → All P xs → Memᴰ a xs → P a
  All-mem P (x ∷ xs) (p, h) (Memᴰ.head e) = subst P (sym e) p
  All-mem P (x ∷ xs) (p, h) (Memᴰ.tail m) = All-mem P xs h m
  All-mem P [] h m = elim m [ ]

  pub mem-append_left : {a : A} (xs ys : List A) → Memᴰ a xs → Memᴰ a (xs ++ ys)
  mem-append_left (x ∷ xs) ys (Memᴰ.head e) = Memᴰ.head e
  mem-append_left (x ∷ xs) ys (Memᴰ.tail m) = Memᴰ.tail (mem-append_left xs ys m)
  mem-append_left [] ys m = elim m [ ]

  pub mem-append_last : (a : A) (xs : List A) → Memᴰ a (xs ++ (a ∷ []))
  mem-append_last a [] = Memᴰ.head refl
  mem-append_last a (x ∷ xs) = Memᴰ.tail (mem-append_last a xs)

abbrev pub or_skip {ℓ} : {A : Type ℓ} → Option A → List A → List A
or_skip none bs = bs
or_skip (some b) bs = b ∷ bs

module _ {ℓ κ} {A : Type ℓ} {B : Type κ} where
  -- A loop that appends one item of each round that does not `continue`.
  abbrev pub filter_map : (A → Option B) → List A → List B
  filter_map f [] = []
  filter_map f (x ∷ xs) = or_skip (f x) (filter_map f xs)

  pub mem_filter_map :
      (f : A → Option B) (xs : List A) (b : B)
      → Memᴰ b (filter_map f xs) ↔ ((a : A) × Memᴰ a xs × (f a ≡ some b))
  mem_filter_map f xs b = (forth xs, λ p. back xs p.0 p.1 p.2)
    where
      split :
          (a : A) (xs : List A) (o : Option B)
          → f a ≡ o
          → (Memᴰ b (filter_map f xs) → (a : A) × Memᴰ a xs × (f a ≡ some b))
          → Memᴰ b (or_skip o (filter_map f xs))
          → (c : A) × Memᴰ c (a ∷ xs) × (f c ≡ some b)
      split a xs none e next m = let (c, k, h) = next m in (c, Memᴰ.tail k, h)
      split a xs (some d) e next (Memᴰ.head k) = (a, Memᴰ.head refl, e ∙ ap some (sym k))
      split a xs (some d) e next (Memᴰ.tail m) = let (c, k, h) = next m in (c, Memᴰ.tail k, h)

      forth : (xs : List A) → Memᴰ b (filter_map f xs) → (a : A) × Memᴰ a xs × (f a ≡ some b)
      forth [] m = elim m [ ]
      forth (x ∷ xs) m = split x xs (f x) refl (forth xs) m

      skip : (o : Option B) {bs : List B} → Memᴰ b bs → Memᴰ b (or_skip o bs)
      skip none m = m
      skip (some d) m = Memᴰ.tail m

      back : (xs : List A) (a : A) → Memᴰ a xs → f a ≡ some b → Memᴰ b (filter_map f xs)
      back [] a m h = elim m [ ]
      back (c ∷ xs) a (Memᴰ.head k) h = rw (sym k, h) (Memᴰ.head refl)
      back (c ∷ xs) a (Memᴰ.tail m) h = skip (f c) (back xs a m h)
