-- ===== src/Preconditions/Depends/Order.antt =====
-- What `mport_check_preconditions` of libmport/check_preconditions.c decides for the flags of an update.
use mathlib.Core.Path.{subst, sym, ◌∙◌}
use mport.Base.{
  Bool, true, false, ◌≡◌, ◌≢◌, refl, ◌↔◌, ◌⊎◌, inl, inr, Bool-cases, some, List, [], ◌∷◌, All,
  Exists, arith, if◌then◌else◌,
}
use mport.Base.Int.{ℤ, pos, lt_int}
use mport.Base.Text.{Bytes, str_eq, str_eq_iff}
use mport.Db.{ok, err, undefined, runs, ◌>>◌, ◌>>=◌}
use mport.Version.Compare.{done, version_cmp, parse_version}
use mport.Version.Compare.Bounds.{ends_in_separator, version_cmp_total}
use mport.Preconditions.{
  System, Meta, PackageRow, Check, conflicts, older, no_older, filter_rows, check_conflicts,
}
use mport.Preconditions.Depends.{
  is_less, is_older, first_row, one_step, older_than, of_package, check_depends,
  check_if_older_installed, has_flag, run_if, check_preconditions,
}
use mport.Preconditions.Depends.Satisfied.{
  NoFault, PassDepends, NoConflict, check_depends_iff, check_conflicts_iff,
}

pub both_ok : (m k : Check) → ((m >> k) ≡ ok tt) ↔ ((m ≡ ok tt) × (k ≡ ok tt))
both_ok (ok tt) k = (λ h. (refl, h), λ h. h.1)
both_ok (err e) k = (λ h. absurd (ground arith), λ h. absurd (ground arith))
both_ok undefined k = (λ h. absurd (ground arith), λ h. absurd (ground arith))

-- the installed version is less than the package's
unfoldable pub Less : Bytes → Bytes → Type 0
Less a b = (z : ℤ) × (version_cmp a b ≡ done z) × (lt_int z (pos 0) ≡ true)

-- a row of the package that is for another OS release, or of an older version
unfoldable pub IsOlder : Meta → Bytes → PackageRow → Type 0
IsOlder pack os p = (p.pkg ≡ pack.name) × ((p.os_release ≢ os) ⊎ Less p.version pack.version)

module _ (pack : Meta) (os : Bytes)
    (comparable : ends_in_separator (parse_version pack.version).version ≡ false) where
  older_decided :
      (p : PackageRow)
      → ends_in_separator (parse_version p.version).version ≡ false
      → (b : Bool) × (is_older pack os p ≡ ok b)
        × ((b ≡ true) ↔ ((p.os_release ≢ os) ⊎ Less p.version pack.version))
  unfolding is_older is_less Less
  older_decided p k = elim (Bool-cases (str_eq p.os_release os)) [
    | inl e ↦
        let (z, c) = version_cmp_total p.version pack.version k comparable in
        (
          lt_int z (pos 0),
          rw (e, c) refl,
          (
            λ t. inr (z, c, t),
            λ x. elim x [
              | inl n ↦ absurd (n ((str_eq_iff p.os_release os).0 e))
              | inr (y, d, t) ↦ same_result z y (cc (c, d)) t
            ],
          ),
        )
    | inr e ↦ (
      true,
      rw e refl,
      (λ t. inl (λ q. absurd (ground (arith, e, (str_eq_iff p.os_release os).1 q))), λ x. refl),
    )
  ]
    where
      same_result : (z y : ℤ) → y ≡ z → lt_int y (pos 0) ≡ true → lt_int z (pos 0) ≡ true
      same_result z y e t = subst (λ x. lt_int x (pos 0) ≡ true) e t

  -- the first row for which the condition holds, among those of the package
  IsOlder-iff :
      (ps : List PackageRow)
      → All (λ p. ends_in_separator (parse_version p.version).version ≡ false) ps
      → (first_row no_older
            (is_older pack os)
            (filter_rows (λ (p : PackageRow). str_eq p.pkg pack.name) ps)
          ≡ ok tt)
        ↔ Exists (IsOlder pack os) ps
  unfolding first_row IsOlder
  IsOlder-iff [] k = (λ h. absurd (ground (arith, h)), λ h. absurd h)
  IsOlder-iff (p ∷ ps) (k, ks) = elim (Bool-cases (str_eq p.pkg pack.name)) [
    | inl e ↦
        let (b, c, iff) = older_decided p k in
        rw e (first_decided b (IsOlder-iff ps ks) p c ((str_eq_iff p.pkg pack.name).0 e) iff)
    | inr e ↦ rw e (
      λ h. inr ((IsOlder-iff ps ks).0 h),
      λ h. elim h [
        | inl (same, x) ↦ absurd (ground (arith, e, (str_eq_iff p.pkg pack.name).1 same))
        | inr rest ↦ (IsOlder-iff ps ks).1 rest
      ],
    )
  ]
    where
      first_decided :
          (b : Bool) {rest : Check} {X : Type 0}
          → (rest ≡ ok tt) ↔ X
          → (p : PackageRow) → is_older pack os p ≡ ok b
          → p.pkg ≡ pack.name
          → (b ≡ true) ↔ ((p.os_release ≢ os) ⊎ Less p.version pack.version)
          → ((is_older pack os p >>= (λ found. if found then ok tt else rest)) ≡ ok tt)
            ↔ (((p.pkg ≡ pack.name) × ((p.os_release ≢ os) ⊎ Less p.version pack.version)) ⊎ X)
      first_decided true r p c n iff = (λ h. inl (n, iff.0 refl), λ h. rw c refl)
      first_decided false {rest} r p c n iff = (
        λ h.
            let passed : (is_older pack os p >>= (λ found. if found then ok tt else rest)) ≡ rest =
              rw c refl in
            inr (r.0 (sym passed ∙ h)),
        λ h. rw c (elim h [ inl (same, x) ↦ absurd (ground (arith, iff.1 x)) | inr x ↦ r.1 x ]),
      )

check_older_iff :
    (sys : System) (pack : Meta) (os : Bytes)
    → sys.fault older ≡ runs
    → sys.os_release ≡ some os
    → ends_in_separator (parse_version pack.version).version ≡ false
    → All (λ p. ends_in_separator (parse_version p.version).version ≡ false) sys.packages
    → (check_if_older_installed sys pack ≡ ok tt) ↔ Exists (IsOlder pack os) sys.packages
unfolding check_if_older_installed older_than one_step
check_older_iff sys pack os o known k ks = simp (known, o) (IsOlder-iff pack os k sys.packages ks)

-- Where SQLite reports no error, the OS release is known, and the versions of the package and of the
-- installed packages can be compared, the checks that an update asks for (the flags 14) pass exactly
-- where a row of the package is of an older version or for another OS release, no conflict that the
-- bundle lists for it matches an installed package, and each dependency is satisfied, up to one whose
-- requirement is too short to be judged, if there is one and no earlier error.
pub check_preconditions_iff :
    (sys : System) (pack : Meta) (os : Bytes)
    → NoFault sys
    → sys.fault older ≡ runs
    → sys.fault conflicts ≡ runs
    → sys.os_release ≡ some os
    → ends_in_separator (parse_version pack.version).version ≡ false
    → All (λ p. ends_in_separator (parse_version p.version).version ≡ false) sys.packages
    → (check_preconditions sys pack 14 ≡ ok tt) ↔ (
        Exists (IsOlder pack os) sys.packages
        × All (NoConflict sys pack.name) sys.stub_conflicts
        × PassDepends sys os (filter_rows (of_package pack.name) sys.stub_depends))
unfolding check_preconditions has_flag run_if
check_preconditions_iff sys pack os fine o c known k ks =
    let (f, g) = check_older_iff sys pack os o known k ks in
    let (u, v) = check_conflicts_iff sys pack c in
    let (x, y) = check_depends_iff sys os fine pack known in
    (
      λ h.
          let (a, r) = (both_ok (check_if_older_installed sys pack) _).0 h in
          let (b, d) = (both_ok (check_conflicts sys pack) _).0 r in
          (f a, u b, x ((both_ok (check_depends sys pack) (ok tt)).0 d).0),
      λ (a, b, d). (both_ok (check_if_older_installed sys pack) _).1 (
        g a,
        (both_ok (check_conflicts sys pack) _).1
            (v b, (both_ok (check_depends sys pack) (ok tt)).1 (y d, refl)),
      ),
    )
