-- ===== src/Upgrade/Enough.antt =====
-- The depth of the recursion of `mport_update_down` in libmport/upgrade.c, and the fuel for it.
use mport.Base.{
  ℕ, zero, suc, ◌<◌, Bool, true, false, ◌≡◌, refl, Option, none, some, List, [], ◌∷◌, All, arith,
  if◌then◌else◌,
}
use mport.Store.{Package}
use mport.Upgrade.{
  Calls, Progress, has_name, and_after, each_depend, behind_depends, update_down, moved_each,
  update_rest, upgrades, upgraded, upgrade,
}

-- every package that a package depends on has a smaller rank
unfoldable pub Ranked : {S : Type 0} → Calls S → (Package → ℕ) → Type 0
Ranked {S} c rank =
    (s : S) (p : Package) (ps : List Package)
    → c.downdepends s p ≡ some (some ps)
    → All (λ d. rank d < rank p) ps

unfoldable EndsSome : {S : Type 0} → Option (Progress S) → Type 0
EndsSome {S} o = (e : Progress S) × (o ≡ some e)

module _ {S : Type 0} (c : Calls S) where
  bind_some :
      (o : Option (Progress S)) (k : Progress S → Option (Progress S))
      → EndsSome o
      → ((e : Progress S) → EndsSome (k e))
      → EndsSome (and_after o k)
  unfolding and_after EndsSome
  bind_some none k (e, d) f = absurd (ground arith)
  bind_some (some x) k (e, d) f = f x

  if_some :
      (b : Bool) (o q : Option (Progress S))
      → EndsSome o
      → EndsSome q
      → EndsSome (if b then o else q)
  if_some true o q f g = f
  if_some false o q f g = g

  here : (d : Progress S) → EndsSome (some d)
  unfolding EndsSome
  here d = (d, refl)

  each_some :
      (f : Package → Progress S → Option (Progress S)) (ps : List Package) (d : Progress S)
      → All (λ p. (e : Progress S) → EndsSome (f p e)) ps
      → EndsSome (each_depend c f ps d)
  unfolding each_depend
  each_some f [] d k = here d
  each_some f (p ∷ ps) d (k, ks) =
      if_some (has_name p.name d.names) _ _ (each_some f ps d ks)
        (bind_some (f p d) _ (k d) (λ e. each_some f ps _ ks))

  behind_some :
      (f : Package → Progress S → Option (Progress S)) (p : Package)
      (o : Option (Option (List Package))) (d : Progress S)
      → ((ps : List Package)
          → o ≡ some (some ps)
          → All (λ q. (e : Progress S) → EndsSome (f q e)) ps)
      → EndsSome (behind_depends c f p o d)
  unfolding behind_depends
  behind_some f p none d k = here d
  behind_some f p (some none) d k = here _
  behind_some f p (some (some ps)) d k =
      bind_some (each_depend c f ps d) _ (each_some f ps d (k ps refl)) (λ e. here _)

  module _ (rank : Package → ℕ) (r : Ranked c rank) where
    down_some : (n : ℕ) (p : Package) (d : Progress S) → rank p < n → EndsSome (update_down n c p d)
    unfolding update_down Ranked
    down_some zero p d k = absurd (omega (arith, k))
    down_some (suc n) p d k =
        behind_some (update_down n c) p (c.downdepends d.state p) d
          (λ ps e. all_end (λ q b x. down_some n q x b) ps (r d.state p ps e))
      where
        all_end :
            ((q : Package) → rank q < n → (x : Progress S) → EndsSome (update_down n c q x))
            → (ps : List Package) → All (λ q. rank q < rank p) ps
            → All (λ q. (e : Progress S) → EndsSome (update_down n c q e)) ps
        all_end f [] a = tt
        all_end f (q ∷ qs) (a, bs) = (f q (omega (arith, a, k)), all_end f qs bs)

    rest_some :
        (n : ℕ) (ps : List Package) (d : Progress S)
        → All (λ p. rank p < n) ps
        → EndsSome (update_rest n c ps d)
    unfolding update_rest
    rest_some n [] d k = here d
    rest_some n (p ∷ ps) d (k, ks) = if_some (has_name p.name d.names) _ _ (rest_some n ps d ks) (
        if_some (c.is_newer d.state p) _ _
          (bind_some (update_down n c p d) _ (down_some n p d k) (λ e. rest_some n ps e ks))
          (rest_some n ps d ks))

-- Where each package that a package depends on has a smaller rank than it, whatever the state, and
-- every installed package has a rank below the fuel, the upgrade is never too deep.
pub upgrade-enough :
    {S : Type 0} (c : Calls S) (rank : Package → ℕ) (n : ℕ) (ps : List Package) (s : S)
    → Ranked c rank
    → All (λ p. rank p < n) ps
    → (d : Progress S) × (upgrade n c (some ps) s ≡ upgrades d)
unfolding upgrade upgraded EndsSome
upgrade-enough c rank n ps s r k =
    let (d, e) =
      rest_some c rank r n ps (moved_each c ps (record { updated = 0; names = []; state = s })) k in
    (d, (λ i. upgraded (e i)))
