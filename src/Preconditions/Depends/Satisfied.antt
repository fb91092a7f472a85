-- ===== src/Preconditions/Depends/Satisfied.antt =====
-- What it means that the dependencies of a package are satisfied, and that nothing conflicts with
-- it: the checks of libmport/check_preconditions.c decide that, where SQLite reports no error.
use mport.Base.{
  Bool, true, false, ◌⊎◌, ◌&&◌, Option, none, some, List, [], ◌∷◌, ◌++◌, ◌≡◌, refl, ◌↔◌, inl, inr,
  Bool-cases, arith, All, if◌then◌else◌,
}
use mport.Base.Text.{Bytes, str_eq, str_eq_iff}
use mport.Db.{Result, ok, err, undefined, ◌>>=◌, runs, select, all_rows}
use mport.Version.Compare.{done}
use mport.Version.Require.{met, impossible, require_check}
use mport.Preconditions.{
  System, Meta, Reason, Check, PackageRow, DependRow, ConflictRow, depends, lookup, conflicts,
  filter_rows, check_conflicts, conflict_rows, first_conflict,
}
use mport.Preconditions.Depends.{
  provides, version_verdict, return_current, installed_version, lookup_step, check_depend,
  depend_loop, depends_on, of_package, check_depends,
}

-- the first row that provides a name
abbrev pub first_provider : Bytes → List PackageRow → Option PackageRow
first_provider name [] = none
first_provider name (p ∷ ps) = if provides name p then some p else first_provider name ps

abbrev pub VersionMet : Bytes → Option Bytes → Type 0
VersionMet have none = Unit
VersionMet have (some wanted) = require_check have wanted ≡ done met

-- the requirement is too short to be judged
abbrev pub VersionShort : Bytes → Option Bytes → Type 0
VersionShort have none = ⊥
VersionShort have (some wanted) = require_check have wanted ≡ done impossible

-- A clean package of the name (or of the name behind its flavor) is installed, for this OS release,
-- and its version has the relation to the requirement.
abbrev pub IsProvided :
    (Bytes → Option Bytes → Type 0) → Bytes → Option Bytes → Option PackageRow → Type 0
IsProvided P os wanted none = ⊥
IsProvided P os wanted (some p) = (p.os_release ≡ os) × P p.version wanted

-- it meets the requirement, if there is one
abbrev pub Satisfied : System → Bytes → DependRow → Type 0
Satisfied sys os d =
    IsProvided VersionMet os d.depend_pkgversion (first_provider d.depend_pkgname sys.packages)

abbrev pub TooShort : System → Bytes → DependRow → Type 0
TooShort sys os d =
    IsProvided VersionShort os d.depend_pkgversion (first_provider d.depend_pkgname sys.packages)

-- Each dependency is satisfied, up to one whose requirement is too short, if there is one: there the
-- check returns the current error, and the others are not looked at.
abbrev pub PassDepends : System → Bytes → List DependRow → Type 0
PassDepends sys os [] = Unit
PassDepends sys os (d ∷ ds) =
    (Satisfied sys os d × PassDepends sys os ds) ⊎ (TooShort sys os d × (sys.has_error ≡ false))

VersionMet-iff :
    (d : DependRow) (have : Bytes) (wanted : Option Bytes)
    → (installed_version d have wanted ≡ ok true) ↔ VersionMet have wanted
unfolding installed_version version_verdict
VersionMet-iff d have none = (λ h. tt, λ h. refl)
VersionMet-iff d have (some v) = ground arith

VersionShort-iff :
    (d : DependRow) (have : Bytes) (wanted : Option Bytes)
    → (installed_version d have wanted ≡ ok false) ↔ VersionShort have wanted
unfolding installed_version version_verdict
VersionShort-iff d have none = ground arith
VersionShort-iff d have (some v) = ground arith

module _ (t : Bool) (P : Bytes → Option Bytes → Type 0)
    (judged : (d : DependRow) (have : Bytes) (wanted : Option Bytes)
      → (installed_version d have wanted ≡ ok t) ↔ P have wanted) where
  lookup_first :
      (d : DependRow) (os : Bytes) (ps : List PackageRow)
      → (lookup_step d os (select runs (filter_rows (provides d.depend_pkgname) ps)) ≡ ok t)
        ↔ IsProvided P os d.depend_pkgversion (first_provider d.depend_pkgname ps)
  unfolding lookup_step
  lookup_first d os [] = (λ h. ground arith, λ h. absurd h)
  lookup_first d os (p ∷ ps) = elim (Bool-cases (provides d.depend_pkgname p)) [
    | inl e ↦ rw e (elim (Bool-cases (str_eq p.os_release os)) [
      | inl same ↦ rw same (
        λ h. ((str_eq_iff p.os_release os).0 same, (judged d p.version d.depend_pkgversion).0 h),
        λ h. (judged d p.version d.depend_pkgversion).1 h.1,
      )
      | inr other ↦
          rw other (λ h. absurd (ground arith), λ h. ground (arith, str_eq_iff p.os_release os))
    ])
    | inr e ↦ rw e (lookup_first d os ps)
  ]

-- a turn of the loop
turn_iff :
    (m : Result Reason Bool) (rest : Check) (b : Bool)
    → ((m >>= (λ go. if go then rest else return_current b)) ≡ ok tt)
      ↔ (((m ≡ ok true) × (rest ≡ ok tt)) ⊎ ((m ≡ ok false) × (b ≡ false)))
unfolding return_current
turn_iff (ok true) rest b =
    (λ h. inl (refl, h), λ x. elim x [ inl (e, h) ↦ h | inr (e, h) ↦ absurd (ground (arith, e)) ])
turn_iff (ok false) rest true = ground arith
turn_iff (ok false) rest false = ground arith
turn_iff (err e) rest b = ground arith
turn_iff undefined rest b = ground arith

-- SQLite reports no error while dependencies are checked.
pub record NoFault (sys : System) : Type 0 where
  pub prepares : sys.fault depends ≡ runs
  pub prepares_lookup : sys.fault lookup ≡ runs
  pub binds : (name : Bytes) → sys.bind_fails name ≡ false
  pub looks_up : (name : Bytes) → sys.lookup_fault name ≡ runs

module _ (sys : System) (os : Bytes) (fine : NoFault sys) where
  check_depend_iff :
      (d : DependRow)
      → ((check_depend sys os d ≡ ok true) ↔ Satisfied sys os d)
        × ((check_depend sys os d ≡ ok false) ↔ TooShort sys os d)
  unfolding check_depend
  check_depend_iff d =
      rw (fine.binds d.depend_pkgname, fine.looks_up d.depend_pkgname)
        (
          lookup_first true VersionMet VersionMet-iff d os sys.packages,
          lookup_first false VersionShort VersionShort-iff d os sys.packages,
        )

  depend_loop_iff :
      (ds : List DependRow) → (depend_loop sys os (all_rows ds) ≡ ok tt) ↔ PassDepends sys os ds
  unfolding depend_loop
  depend_loop_iff [] = (λ h. tt, λ h. refl)
  depend_loop_iff (d ∷ ds) =
      let ((f, g), (k, l)) = check_depend_iff d in
      let (to, from) =
        turn_iff (check_depend sys os d) (depend_loop sys os (all_rows ds)) sys.has_error in
      let (u, v) = depend_loop_iff ds in
      (
        λ h. elim (to h) [
          | inl (e, rest) ↦ inl (f e, u rest)
          | inr (e, none_set) ↦ inr (k e, none_set)
        ],
        λ h. elim h [
          | inl (e, rest) ↦ from (inl (g e, v rest))
          | inr (e, none_set) ↦ from (inr (l e, none_set))
        ],
      )

  -- Where SQLite reports no error and the OS release is known, the check of the dependencies passes
  -- exactly where each dependency that the bundle lists for the package is satisfied (a clean package
  -- provides it, the first such is for this OS release, and meets the required version), up to one
  -- whose requirement is too short to be judged: there it passes without looking at the others, if
  -- there is no earlier error.
  pub check_depends_iff :
      (pack : Meta)
      → sys.os_release ≡ some os
      → (check_depends sys pack ≡ ok tt)
        ↔ PassDepends sys os (filter_rows (of_package pack.name) sys.stub_depends)
  unfolding check_depends depends_on
  check_depends_iff pack known =
      simp (known, fine.prepares, fine.prepares_lookup)
        (depend_loop_iff (filter_rows (of_package pack.name) sys.stub_depends))

-- the two patterns of a conflict do not both match an installed package
abbrev pub NoClash : System → ConflictRow → PackageRow → Type 0
NoClash sys c p = (sys.glob p.pkg c.conflict_pkg && sys.glob p.version c.conflict_version) ≡ false

clash_rows_iff :
    (sys : System) (c : ConflictRow) (ps : List PackageRow)
    → (filter_rows
          (λ (p : PackageRow).
            sys.glob p.pkg c.conflict_pkg && sys.glob p.version c.conflict_version)
          ps
        ≡ [])
      ↔ All (NoClash sys c) ps
clash_rows_iff sys c [] = (λ h. tt, λ h. refl)
clash_rows_iff sys c (p ∷ ps) =
    elim (Bool-cases (sys.glob p.pkg c.conflict_pkg && sys.glob p.version c.conflict_version)) [
      | inl e ↦ rw e (λ h. absurd (ground arith), λ h. absurd (ground arith))
      | inr e ↦
          rw e (λ h. (refl, (clash_rows_iff sys c ps).0 h), λ h. (clash_rows_iff sys c ps).1 h.1)
    ]

append_nil_iff {ℓ} : {A : Type ℓ} (xs ys : List A) → (xs ++ ys ≡ []) ↔ ((xs ≡ []) × (ys ≡ []))
append_nil_iff [] ys = (λ h. (refl, h), λ h. h.1)
append_nil_iff (x ∷ xs) ys = (λ h. absurd (ground arith), λ h. absurd (ground arith))

abbrev pub NoConflict : System → Bytes → ConflictRow → Type 0
NoConflict sys name c = c.pkg ≡ name → All (NoClash sys c) sys.packages

conflict_rows_iff :
    (sys : System) (name : Bytes) (cs : List ConflictRow)
    → (conflict_rows sys name cs ≡ []) ↔ All (NoConflict sys name) cs
unfolding conflict_rows
conflict_rows_iff sys name [] = (λ h. tt, λ h. refl)
conflict_rows_iff sys name (c ∷ cs) = elim (Bool-cases (str_eq c.pkg name)) [
  | inl e ↦ rw e (
    λ h.
        let (h₁, h₂) = (append_nil_iff _ (conflict_rows sys name cs)).0 h in
        (λ _. (clash_rows_iff sys c sys.packages).0 h₁, (conflict_rows_iff sys name cs).0 h₂),
    λ (h₁, h₂). (append_nil_iff _ (conflict_rows sys name cs)).1 (
      (clash_rows_iff sys c sys.packages).1 (h₁ ((str_eq_iff c.pkg name).0 e)),
      (conflict_rows_iff sys name cs).1 h₂,
    ),
  )
  | inr e ↦ rw e (
    λ h. (
      λ same. absurd (ground (arith, str_eq_iff c.pkg name)),
      (conflict_rows_iff sys name cs).0 h,
    ),
    λ h. (conflict_rows_iff sys name cs).1 h.1,
  )
]

first_conflict_iff : (ps : List PackageRow) → (first_conflict (select runs ps) ≡ ok tt) ↔ (ps ≡ [])
unfolding first_conflict
first_conflict_iff [] = (λ h. refl, λ h. refl)
first_conflict_iff (p ∷ ps) = (λ h. absurd (ground arith), λ h. absurd (ground arith))

-- Where SQLite reports no error, the check of the conflicts passes exactly where no conflict that the
-- bundle lists for the package matches an installed package by both its patterns.
pub check_conflicts_iff :
    (sys : System) (pack : Meta)
    → sys.fault conflicts ≡ runs
    → (check_conflicts sys pack ≡ ok tt) ↔ All (NoConflict sys pack.name) sys.stub_conflicts
unfolding check_conflicts
check_conflicts_iff sys pack fine = rw fine (
    let (f, g) = first_conflict_iff (conflict_rows sys pack.name sys.stub_conflicts) in
    let (h, k) = conflict_rows_iff sys pack.name sys.stub_conflicts in (λ x. h (f x), λ x. g (k x)))
