-- ===== src/Progress/Numbering.antt =====
-- The generations of the claims that a round sees.
use osrm_operator.Base.{ℕ, ◌≤◌, List, [], ◌∷◌, ◌≡◌, inl, inr, sym, ◌∙◌, ap, arith, All, Any, ok}
use mathlib.Core.Path.{subst}
use osrm_operator.Base.Int.{ℤ, pos, negsuc}
use osrm_operator.Text.{Text}
use osrm_operator.Text.Decimal.{itoa, max_int64}
use osrm_operator.Kube.{ObjectMeta, PersistentVolumeClaim}
use osrm_operator.Api.{ProfileSpec, child_resource_name}
use osrm_operator.Api.Names.{IsComponent}
use osrm_operator.Generation.{compute_future_map_generation}
use osrm_operator.Generation.Laws.{
  IsClaimOf, AreClaimsOf, atoi-suffix, compute_future_map_generation-IsHighest,
}
use osrm_operator.Builders.{map_builders, built_name}
use osrm_operator.Progress.{AreNumbered, HasGeneration, BuildsClaim}

abbrev magnitude : ℤ → ℕ
magnitude (pos n) = n
magnitude (negsuc n) = n

-- Some number of a list is at most another that bounds the list.
Any-below : (h k : ℕ) (ns : List ℕ) → Any (λ n. n ≡ k) ns → All (λ n. n ≤ h) ns → k ≤ h
Any-below h k [] a b = absurd a
Any-below h k (n ∷ ns) (inl e) (b, bs) = omega arith
Any-below h k (n ∷ ns) (inr a) (b, bs) = Any-below h k ns a bs

module _ (m : ObjectMeta) where
  -- A claim is of one generation.
  claim_unique :
      (v : PersistentVolumeClaim) (n n' : ℕ) → IsClaimOf m v n → IsClaimOf m v n' → n ≡ n'
  claim_unique v n n' c c' =
      ap (λ x. magnitude x.0) (sym (atoi-suffix m v n c) ∙ atoi-suffix m v n' c')

  -- The generations of the claims, one for each.
  numbers :
      (h : ℕ) (claims : List PersistentVolumeClaim)
      → AreNumbered m h claims
      → (ns : List ℕ) × AreClaimsOf m claims ns
        × All (λ n. n ≤ h) ns
        × (HasGeneration m h claims → Any (λ n. n ≡ h) ns)
  numbers h [] numbered = ([], tt, tt, λ a. a)
  numbers h (v ∷ claims) ((n, claim, below), numbered) =
      let (ns, are, bound, top) = numbers h claims numbered in
      (
        n ∷ ns,
        (claim, are),
        (below, bound),
        λ a. elim a [ inl c ↦ inl (claim_unique v n h claim c) | inr b ↦ inr (top b) ],
      )

  -- The future generation of claims up to `h`, of which one has it.
  pub compute_future_map_generation-newest :
      (h : ℕ) (claims : List PersistentVolumeClaim)
      → 1 ≤ h
      → AreNumbered m h claims
      → HasGeneration m h claims
      → compute_future_map_generation claims ≡ ok (itoa (pos h))
  compute_future_map_generation-newest h claims positive numbered newest =
      let (ns, are, bound, top) = numbers h claims numbered in
      let (h', computed, highest) = compute_future_map_generation-IsHighest m claims ns are in
      let low : h ≤ h' = Any-below h' h ns (top newest) highest.above in
      let high : h' ≤ h = elim highest.attained [
        | inl e ↦ omega arith
        | inr a ↦ Any-below h h' ns a bound
      ] in
      let same : h' ≡ h = omega arith in
      subst (λ k. compute_future_map_generation claims ≡ ok (itoa (pos k))) same computed

  -- A claim is of the generation that its name bears, whichever claim bore the name before.
  renamed :
      (u v : PersistentVolumeClaim) (n : ℕ)
      → u.meta.name ≡ v.meta.name
      → IsClaimOf m u n
      → IsClaimOf m v n
  renamed u v n e c = record {
    component = c.component;
    usable = c.usable;
    fits = c.fits;
    named = sym e ∙ c.named;
  }

  pub renamed-numbered :
      (h : ℕ) (v : PersistentVolumeClaim) (claims : List PersistentVolumeClaim)
      → Any (λ u. u.meta.name ≡ v.meta.name) claims
      → AreNumbered m h claims
      → (n : ℕ) × IsClaimOf m v n × (n ≤ h)
  renamed-numbered h v [] a numbered = absurd a
  renamed-numbered h v (u ∷ claims) (inl e) ((n, claim, below), numbered) =
      (n, renamed u v n e claim, below)
  renamed-numbered h v (u ∷ claims) (inr a) (c, numbered) = renamed-numbered h v claims a numbered

  -- A claim that is built for a profile and a generation is of that generation.
  pub built-numbered :
      (n : ℕ) (v : PersistentVolumeClaim) (ps : List ProfileSpec)
      → n ≤ max_int64
      → All (λ p. IsComponent p.name) ps
      → Any (BuildsClaim m v.meta.name) (map_builders (itoa (pos n)) ps)
      → IsClaimOf m v n
  unfolding map_builders built_name
  built-numbered n v [] fits usable a = absurd a
  built-numbered n v (p ∷ ps) fits (u, us) (inl (k, e)) = record {
    component = p.name;
    usable = u;
    fits = fits;
    named = sym e;
  }
  built-numbered n v (p ∷ ps) fits (u, us) (inr (inl (k, e))) = record {
    component = p.name;
    usable = u;
    fits = fits;
    named = sym e;
  }
  built-numbered n v (p ∷ ps) fits (u, us) (inr (inr a)) = built-numbered n v ps fits us a

  -- A claim of the name for a component is of the generation.
  pub named-newest :
      (n : ℕ) (component : Text) (claims : List PersistentVolumeClaim)
      → n ≤ max_int64
      → IsComponent component
      → Any (λ v. v.meta.name ≡ child_resource_name m component (itoa (pos n))) claims
      → HasGeneration m n claims
  named-newest n component [] fits usable a = absurd a
  named-newest n component (v ∷ claims) fits usable (inl e) =
      inl (record { component = component; usable = usable; fits = fits; named = e })
  named-newest n component (v ∷ claims) fits usable (inr a) =
      inr (named-newest n component claims fits usable a)
