-- ===== src/Generation/Laws.antt =====
-- What the map generations read from names amount to.
use Prim.Native.Nat.{max}
use osrm_operator.Base.{
  ℕ, ◌+◌, ◌≤◌, ◌<◌, List, [], ◌∷◌, some, true, false, ◌≡◌, ◌↔◌, ◌⊎◌, inl, inr, refl, sym, ◌∙◌, ap,
  arith, All, Any, bad_generation, Result, ok, err, panic, bind, Bool-cases, if◌then◌else◌,
}
use osrm_operator.Base.Int.{ℤ, pos, negsuc, ltb_ℤ}
use osrm_operator.Text.{Text, codes}
use osrm_operator.Text.Decimal.{atoi, itoa, max_int64}
use osrm_operator.Text.Decimal.RoundTrip.{atoi-itoa, itoa-LacksDash, itoa-ne-nil}
use osrm_operator.Kube.{ObjectMeta, PersistentVolumeClaim, Deployment, Volume}
use osrm_operator.Api.{child_resource_name}
use osrm_operator.Api.Names.{IsComponent, IsSuffix, last-child_resource_name}
use osrm_operator.Generation.{
  get_resource_name_suffix, get_active_map_generation, get_instance_active_map_generation,
  raise_highest, compute_future_map_generation, get_next_map_generation,
}

pub itoa-IsSuffix : (n : ℕ) → IsSuffix (itoa (pos n))
itoa-IsSuffix n = record { filled = itoa-ne-nil n; dashless = itoa-LacksDash n }

-- The generation that a child's name was made with is read back from the name, whatever dashes the
-- names of the parent and the component hold.
pub suffix-child_resource_name :
    (m : ObjectMeta) (component suffix : Text)
    → IsComponent component
    → IsSuffix suffix
    → get_resource_name_suffix (child_resource_name m component suffix) ≡ suffix
unfolding get_resource_name_suffix
suffix-child_resource_name = last-child_resource_name

-- The claim bears the name of the child for some component and the generation `n`.
pub record IsClaimOf (m : ObjectMeta) (pvc : PersistentVolumeClaim) (n : ℕ) : Type 0 where
  pub component : Text
  pub usable : IsComponent component
  pub fits : n ≤ max_int64
  pub named : pvc.meta.name ≡ child_resource_name m component (itoa (pos n))

pub atoi-suffix :
    (m : ObjectMeta) (pvc : PersistentVolumeClaim) (n : ℕ)
    → IsClaimOf m pvc n
    → atoi (get_resource_name_suffix pvc.meta.name) ≡ (pos n, true)
atoi-suffix m pvc n h =
    rw (h.named, suffix-child_resource_name m h.component (itoa (pos n)) h.usable (itoa-IsSuffix n))
      (atoi-itoa n h.fits)

-- The claims are those of the generations listed, one for each.
abbrev pub AreClaimsOf : ObjectMeta → List PersistentVolumeClaim → List ℕ → Type 0
AreClaimsOf m [] [] = Unit
AreClaimsOf m (pvc ∷ pvcs) (n ∷ ns) = IsClaimOf m pvc n × AreClaimsOf m pvcs ns
AreClaimsOf m _ _ = ⊥

-- `h` is the highest of the numbers, and 1 at least.
pub record IsHighest (h : ℕ) (ns : List ℕ) : Type 0 where
  pub positive : 1 ≤ h
  pub above : All (λ n. n ≤ h) ns
  pub attained : (h ≡ 1) ⊎ Any (λ n. n ≡ h) ns

maximum : ℕ → List ℕ → ℕ
maximum h [] = h
maximum h (n ∷ ns) = maximum (max h n) ns

le-maximum : (h : ℕ) (ns : List ℕ) → h ≤ maximum h ns
unfolding maximum
le-maximum h [] = omega arith
le-maximum h (n ∷ ns) = omega (arith, le-maximum (max h n) ns)

maximum-above : (h : ℕ) (ns : List ℕ) → All (λ n. n ≤ maximum h ns) ns
unfolding maximum
maximum-above h [] = tt
maximum-above h (n ∷ ns) = (omega (arith, le-maximum (max h n) ns), maximum-above (max h n) ns)

maximum-attained : (h : ℕ) (ns : List ℕ) → (maximum h ns ≡ h) ⊎ Any (λ n. n ≡ maximum h ns) ns
unfolding maximum
maximum-attained h [] = inl refl
maximum-attained h (n ∷ ns) = elim (maximum-attained (max h n) ns) [
  | inr a ↦ inr (inr a)
  | inl e ↦ larger (omega arith) e
]
  where
    larger :
        (max h n ≡ h) ⊎ (max h n ≡ n)
        → maximum (max h n) ns ≡ max h n
        → (maximum (max h n) ns ≡ h) ⊎ Any (λ k. k ≡ maximum (max h n) ns) (n ∷ ns)
    larger (inl a) e = inl (e ∙ a)
    larger (inr b) e = inr (inl (sym (e ∙ b)))

raise_highest-maximum :
    (m : ObjectMeta) (h : ℕ) (pvcs : List PersistentVolumeClaim) (ns : List ℕ)
    → AreClaimsOf m pvcs ns
    → raise_highest (pos h) pvcs ≡ ok (pos (maximum h ns))
unfolding raise_highest maximum
raise_highest-maximum m h [] [] c = refl
raise_highest-maximum m h [] (n ∷ ns) c = absurd c
raise_highest-maximum m h (pvc ∷ pvcs) [] c = absurd c
raise_highest-maximum m h (pvc ∷ pvcs) (n ∷ ns) (c, cs) =
    let step : (if ltb_ℤ (pos h) (pos n) then pos n else pos h) ≡ pos (max h n) = ground arith in
    rw (atoi-suffix m pvc n c) (rw step (raise_highest-maximum m (max h n) pvcs ns cs))

-- For claims that bear the names of a resource's children, the future generation is the highest
-- generation among them, and 1 where there is none.
pub compute_future_map_generation-IsHighest :
    (m : ObjectMeta) (pvcs : List PersistentVolumeClaim) (ns : List ℕ)
    → AreClaimsOf m pvcs ns
    → (h : ℕ) × (compute_future_map_generation pvcs ≡ ok (itoa (pos h))) × IsHighest h ns
unfolding compute_future_map_generation
compute_future_map_generation-IsHighest m pvcs ns c = (
  maximum 1 ns,
  rw (raise_highest-maximum m 1 pvcs ns c),
  record {
    positive = le-maximum 1 ns;
    above = maximum-above 1 ns;
    attained = maximum-attained 1 ns;
  },
)

-- The suffix of the claim's name is no number.
abbrev pub IsUnnumbered : PersistentVolumeClaim → Type 0
IsUnnumbered pvc = (atoi (get_resource_name_suffix pvc.meta.name)).1 ≡ false

abbrev pub IsGenerationError {ℓ} : {A : Type ℓ} → Result A → Type 0
IsGenerationError (ok a) = ⊥
IsGenerationError (err e) = (suffix : Text) × (e ≡ bad_generation suffix)
IsGenerationError panic = ⊥

raise_highest-error :
    (h : ℤ) (pvcs : List PersistentVolumeClaim)
    → IsGenerationError (raise_highest h pvcs) ↔ Any IsUnnumbered pvcs
unfolding raise_highest
raise_highest-error h [] = (λ e. e, λ a. a)
raise_highest-error h (pvc ∷ pvcs) =
    let n = atoi (get_resource_name_suffix pvc.meta.name) in
    let rest = raise_highest-error (if ltb_ℤ h n.0 then n.0 else h) pvcs in
    elim (Bool-cases n.1) [
      | inl y ↦ (
        λ e. inr (rest.0 (rw y at e)),
        λ a. rw y (rest.1 (elim a [ inl u ↦ absurd (cc) | inr u ↦ u ])),
      )
      | inr u ↦ (λ e. inl u, λ a. rw u (get_resource_name_suffix pvc.meta.name, refl))
    ]

-- The future generation is an error, and that of a suffix that is no number, exactly when the name
-- of some claim ends in no number; nothing else fails.
pub compute_future_map_generation_error :
    (pvcs : List PersistentVolumeClaim)
    → IsGenerationError (compute_future_map_generation pvcs) ↔ Any IsUnnumbered pvcs
unfolding compute_future_map_generation
compute_future_map_generation_error pvcs =
    let (sound, complete) = raise_highest-error (pos 1) pvcs in
    (
      λ e. sound (through (raise_highest (pos 1) pvcs) e),
      λ a. back (raise_highest (pos 1) pvcs) (complete a),
    )
  where
    through : (r : Result ℤ) → IsGenerationError (bind r (λ n. ok (itoa n))) → IsGenerationError r
    through (ok n) e = e
    through (err e) h = h
    through panic h = h

    back : (r : Result ℤ) → IsGenerationError r → IsGenerationError (bind r (λ n. ok (itoa n)))
    back (ok n) e = absurd e
    back (err e) h = h
    back panic h = h

-- Below the largest `int` the next generation is the successor; at the largest it wraps around to
-- the least, and what is no number has the next generation 1.
pub get_next_map_generation_lem :
    (n : ℕ) (s : Text)
    → n < max_int64
    → (atoi s).1 ≡ false
    → (get_next_map_generation (itoa (pos n)) ≡ itoa (pos (n + 1)))
      × (get_next_map_generation (itoa (pos max_int64)) ≡ itoa (negsuc max_int64))
      × (get_next_map_generation s ≡ codes "1")
unfolding get_next_map_generation
get_next_map_generation_lem n s h u = (
  rw (atoi-itoa n (omega arith)) (ap itoa (ground arith)),
  rw (atoi-itoa max_int64 (omega arith)) refl,
  rw u,
)

-- The first volume of the deployment is the claim `name`.
abbrev pub Mounts : Deployment → Text → Type 0
Mounts d name =
    (v : Volume) × (vs : List Volume) × (d.template.volumes ≡ v ∷ vs) × (v.claim_name ≡ some name)

-- Where the first deployment mounts the claim of a generation, that is the active generation, for
-- a cluster and for an instance.
pub active-Mounts :
    (m : ObjectMeta) (component : Text) (n : ℕ) (d : Deployment) (ds : List Deployment)
    → IsComponent component
    → n ≤ max_int64
    → Mounts d (child_resource_name m component (itoa (pos n)))
    → (get_active_map_generation (d ∷ ds) ≡ ok (itoa (pos n)))
      × (get_instance_active_map_generation (some d) ≡ ok (itoa (pos n)))
unfolding get_active_map_generation get_instance_active_map_generation
active-Mounts m component n d ds hc fits (v, vs, e, named) =
    let suffix = suffix-child_resource_name m component (itoa (pos n)) hc (itoa-IsSuffix n) in
    (
      rw e (rw named (rw suffix (rw (atoi-itoa n fits)))),
      rw e (rw named (rw suffix (rw (atoi-itoa n fits)))),
    )
