-- ===== src/Cleanup/Storage.antt =====
-- `unusedPVCs`: which claims the sweep reports.
-- A pod of the namespace has a volume of the claim.
use mathlib.Core.List.{Memᴰ}
use mathlib.Core.Path.{subst}
use kubetidy.Base.{
  else_some_iff, mem_filter_map, ◌≡◌, refl, sym, ap, ◌∙◌, ◌↔◌, inl, inr, Option, none, some, List,
  [], ◌∷◌, arith,
}
use kubetidy.Base.Float.{Float64}
use kubetidy.Base.Text.{Text, has_key_not_iff, NoSlash, slash_injective}
use kubetidy.Cleanup.{
  Finding, Pod, Claim, Inputs, Kubernetes, claim_key, volume_keys, used_claims, claim_finding,
  unused, unused_pvcs,
}
use mathlib.Core.List.Memᴰ

abbrev pub IsMounted : List Pod → Text → Text → Type 0
IsMounted pods namespace claim =
    (p : Pod) × Memᴰ p pods × (p.namespace ≡ namespace) × Memᴰ (some claim) p.volumes

mem-volume_keys :
    (namespace claim : Text) (vs : List (Option Text))
    → Memᴰ (some claim) vs
    → Memᴰ (claim_key namespace claim) (volume_keys namespace vs)
unfolding volume_keys
mem-volume_keys namespace claim [] m = elim m [ ]
mem-volume_keys namespace claim (none ∷ vs) (Memᴰ.head e) = absurd (ground arith)
mem-volume_keys namespace claim (some c ∷ vs) (Memᴰ.head e) = Memᴰ.head (ground arith)
mem-volume_keys namespace claim (none ∷ vs) (Memᴰ.tail m) = mem-volume_keys namespace claim vs m
mem-volume_keys namespace claim (some c ∷ vs) (Memᴰ.tail m) =
    Memᴰ.tail (mem-volume_keys namespace claim vs m)

volume_keys-mem :
    (namespace key : Text) (vs : List (Option Text))
    → Memᴰ key (volume_keys namespace vs)
    → (c : Text) × Memᴰ (some c) vs × (key ≡ claim_key namespace c)
unfolding volume_keys
volume_keys-mem namespace key [] m = elim m [ ]
volume_keys-mem namespace key (none ∷ vs) m =
    let (c, k, e) = volume_keys-mem namespace key vs m in (c, Memᴰ.tail k, e)
volume_keys-mem namespace key (some d ∷ vs) (Memᴰ.head e) = (d, Memᴰ.head refl, e)
volume_keys-mem namespace key (some d ∷ vs) (Memᴰ.tail m) =
    let (c, k, e) = volume_keys-mem namespace key vs m in (c, Memᴰ.tail k, e)

mounted-used :
    (pods : List Pod) (namespace claim : Text)
    → IsMounted pods namespace claim
    → Memᴰ (claim_key namespace claim) (used_claims pods)
unfolding used_claims
mounted-used [] namespace claim (p, m, s, v) = elim m [ ]
mounted-used (q ∷ qs) namespace claim (p, Memᴰ.head e, s, v) = Memᴰ.append_left _ (
    subst (λ n. Memᴰ (claim_key n claim) (volume_keys q.namespace q.volumes))
      (ap (λ (r : Pod). r.namespace) (sym e) ∙ s)
      (mem-volume_keys q.namespace claim q.volumes
        (subst (λ (r : Pod). Memᴰ (some claim) r.volumes) e v)))
mounted-used (q ∷ qs) namespace claim (p, Memᴰ.tail m, s, v) =
    Memᴰ.append_right (volume_keys q.namespace q.volumes)
      (mounted-used qs namespace claim (p, m, s, v))

-- Every namespace of a pod is a name without a slash.
abbrev pub PlainPods : List Pod → Type 0
PlainPods pods = (p : Pod) → Memᴰ p pods → NoSlash p.namespace

used-IsMounted :
    (pods : List Pod) (namespace claim : Text)
    → PlainPods pods
    → NoSlash namespace
    → Memᴰ (claim_key namespace claim) (used_claims pods)
    → IsMounted pods namespace claim
unfolding used_claims
used-IsMounted [] namespace claim plain n m = elim m [ ]
used-IsMounted (q ∷ qs) namespace claim plain n m =
    elim (Memᴰ.append_cases (volume_keys q.namespace q.volumes) m) [
      | inl here ↦
          let (c, v, e) = volume_keys-mem q.namespace _ q.volumes here in
          let (s, t) = slash_injective _ _ _ _ n (plain q (Memᴰ.head refl)) e in
          (q, Memᴰ.head refl, sym s, subst (λ x. Memᴰ (some x) q.volumes) (sym t) v)
      | inr there ↦
          let (p, k, s, v) =
            used-IsMounted qs namespace claim (λ p k. plain p (Memᴰ.tail k)) n there in
          (p, Memᴰ.tail k, s, v)
    ]

module _ {F : Type 0} ⦃fl : Float64 F⦄ (k8s : Kubernetes F) (i : Inputs F) where
  -- Where no namespace has a slash, the sweep reports exactly the claims that no pod of their own
  -- namespace mounts, each with its size and its price: no mounted claim is called unused.
  pub unused_pvcs_lem :
      PlainPods i.pods
      → ((c : Claim) → Memᴰ c i.pvcs → NoSlash c.namespace)
      → (f : Finding F)
      → Memᴰ f (unused_pvcs k8s i) ↔ (
          (c : Claim) × Memᴰ c i.pvcs
          × (¬ IsMounted i.pods c.namespace c.name)
          × (claim_finding k8s i.storage_per_gib_month c ≡ f))
  unfolding unused_pvcs unused
  unused_pvcs_lem plain claims f =
      let kept =
        mem_filter_map (unused k8s (used_claims i.pods) i.storage_per_gib_month) i.pvcs f in
      (
        λ m.
            let (c, k, e) = kept.0 m in
            let (shut, same) = (else_some_iff _ _ _).0 e in
            (
              c,
              k,
              λ mounted.
                  (has_key_not_iff _ _).0 shut (mounted-used i.pods c.namespace c.name mounted),
              same,
            ),
        λ (c, k, n, e). kept.1 (
          c,
          k,
          (else_some_iff _ _ _).1 (
            (has_key_not_iff _ _).1
                (λ u. n (used-IsMounted i.pods c.namespace c.name plain (claims c k) u)),
            e,
          ),
        ),
      )
