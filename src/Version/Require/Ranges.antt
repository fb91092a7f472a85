-- ===== src/Version/Require/Ranges.antt =====
-- What `mport_version_require_check` of libmport/version_cmp.c makes of one bound and of two.
use native.Mathlib.Numerals.{add-one}
use mport.Base.{
  ℕ, suc, ◌+◌, ◌≡◌, ◌≢◌, refl, Bool, true, false, some, [], ◌∷◌, ◌++◌, length, All, Lacks, arith,
  drop_behind, get_or-append, set-append, length-append, ap, ◌∙◌,
}
use mport.Base.Text.{Bytes, cstr-Lacks}
use mport.Version.Compare.{Outcome, version_cmp}
use mport.Version.Require.{
  Verdict, Operator, lt, le, gt, ge, judge, Marks, no_marks, mark, find_marks, found, behind_start,
  behind, bound_at, cut, second_bound, plain_bound_at, first_bound, unless_not_met, check_multi,
  check_single, is_multi, require_check, first_mark, second_mark,
}

-- text with no mark in it
abbrev pub Plain : Bytes → Type 0
Plain = All (λ c. (c ≢ 0) × (c ≢ b'<') × (c ≢ b'=') × (c ≢ b'>'))

Plain-Lacks : (s : Bytes) → Plain s → Lacks 0 s
Plain-Lacks [] h = tt
Plain-Lacks (c ∷ s) (hc, hs) = (hc.0, Plain-Lacks s hs)

mark-Plain : (i c : ℕ) (m : Marks) → (c ≢ 0) × (c ≢ b'<') × (c ≢ b'=') × (c ≢ b'>') → mark i c m ≡ m
unfolding mark
mark-Plain i c m h = ground arith

find_marks-Plain :
    (i j : ℕ) (s t : Bytes) (m : Marks)
    → Plain s
    → i + length s ≡ j
    → find_marks i (s ++ t) m ≡ find_marks j t m
unfolding find_marks
find_marks-Plain i j [] t m h e = let e' : i ≡ j = omega arith in rw e'
find_marks-Plain i j (c ∷ s) t m (hc, hs) e =
    ap (find_marks (suc i) (s ++ t)) (mark-Plain i c m hc)
    ∙ find_marks-Plain (suc i) j s t m hs (omega arith)

find_marks-Plain_end : (i : ℕ) (s : Bytes) (m : Marks) → Plain s → find_marks i s m ≡ m
unfolding find_marks
find_marks-Plain_end i [] m h = refl
find_marks-Plain_end i (c ∷ s) m (hc, hs) =
    ap (find_marks (suc i) s) (mark-Plain i c m hc) ∙ find_marks-Plain_end (suc i) s m hs

-- the text of an operator in front of a version
abbrev pub operator_text : Operator → Bytes
operator_text lt = b'<' ∷ []
operator_text le = b'<' ∷ b'=' ∷ []
operator_text gt = b'>' ∷ []
operator_text ge = b'>' ∷ b'=' ∷ []

operator_marks : Operator → Marks
operator_marks lt = record no_marks { less₀ = some 0 }
operator_marks le = record no_marks { less₀ = some 0; equal₀ = some 1 }
operator_marks gt = record no_marks { greater₀ = some 0 }
operator_marks ge = record no_marks { greater₀ = some 0; equal₀ = some 1 }

find_marks-operator :
    (op : Operator) (v : Bytes)
    → Plain v
    → find_marks 0 (operator_text op ++ v) no_marks ≡ operator_marks op
unfolding find_marks mark operator_marks first_mark second_mark
find_marks-operator lt v h = find_marks-Plain_end 1 v _ h
find_marks-operator le v h = find_marks-Plain_end 2 v _ h
find_marks-operator gt v h = find_marks-Plain_end 1 v _ h
find_marks-operator ge v h = find_marks-Plain_end 2 v _ h

-- A requirement of one operator and a version, which is not empty and holds no mark, is judged by
-- that operator on the comparison of the two versions.
pub require_check-single :
    (baseline : Bytes) (op : Operator) (c : ℕ) (v : Bytes)
    → Plain (c ∷ v)
    → require_check baseline (operator_text op ++ c ∷ v) ≡ judge op (version_cmp baseline (c ∷ v))
unfolding require_check check_single operator_marks is_multi found
require_check-single baseline lt c v h = rw (find_marks-operator lt (c ∷ v) h) (ground arith)
require_check-single baseline le c v h = rw (find_marks-operator le (c ∷ v) h) (ground arith)
require_check-single baseline gt c v h = rw (find_marks-operator gt (c ∷ v) h) (ground arith)
require_check-single baseline ge c v h = rw (find_marks-operator ge (c ∷ v) h) (ground arith)

-- Where a mark stands behind `pre`, the text behind the mark is what is compared.
bound_at-append :
    (baseline pre : Bytes) (mk c : ℕ) (v : Bytes) (strict loose : Operator)
    → Plain (c ∷ v)
    → bound_at baseline (some (length pre)) strict loose (pre ++ mk ∷ c ∷ v)
      ≡ judge strict (version_cmp baseline (c ∷ v))
unfolding bound_at
bound_at-append baseline pre mk c v strict loose h =
    rw
      (
        set-append pre mk (c ∷ v) 0,
        add-one,
        get_or-append pre 0 (c ∷ v) 0,
        drop_behind pre 0 (c ∷ v),
        cstr-Lacks (c ∷ v) (Plain-Lacks (c ∷ v) h),
      )
      (ground arith)

plain_bound_at-append :
    (baseline pre : Bytes) (mk : ℕ) (v : Bytes) (op : Operator)
    → Plain v
    → plain_bound_at baseline (some (length pre)) op (pre ++ mk ∷ v)
      ≡ judge op (version_cmp baseline v)
unfolding plain_bound_at
plain_bound_at-append baseline pre mk v op h =
    rw (set-append pre mk v 0, add-one, drop_behind pre 0 v, cstr-Lacks v (Plain-Lacks v h))

-- a lower bound, as it is written in front of an upper one
abbrev pub lower_bound : Bool → Bytes → Bytes
lower_bound true lo = b'>' ∷ b'=' ∷ lo
lower_bound false lo = b'>' ∷ lo

range_marks : Bool → ℕ → Marks
range_marks true k = record no_marks { greater₀ = some 0; equal₀ = some 1; less₀ = some k }
range_marks false k = record no_marks { greater₀ = some 0; less₀ = some k }

find_marks-range :
    (inclusive : Bool) (lo hi : Bytes)
    → Plain lo
    → Plain hi
    → find_marks 0 (lower_bound inclusive lo ++ b'<' ∷ hi) no_marks
      ≡ range_marks inclusive (length (lower_bound inclusive lo))
unfolding find_marks mark range_marks first_mark second_mark
find_marks-range true lo hi hl hh =
    find_marks-Plain 2 (suc (suc (length lo))) lo (b'<' ∷ hi) _ hl (omega arith)
    ∙ find_marks-Plain_end _ hi _ hh
find_marks-range false lo hi hl hh =
    find_marks-Plain 1 (suc (length lo)) lo (b'<' ∷ hi) _ hl (omega arith)
    ∙ find_marks-Plain_end _ hi _ hh

second_bound-range :
    (inclusive : Bool) (k : ℕ)
    → second_bound (range_marks inclusive (suc k))
      ≡ record { place = some (suc k); strict = lt; loose = le }
unfolding second_bound range_marks behind_start behind
second_bound-range true k = ground arith
second_bound-range false k = ground arith

first_bound-range :
    (baseline : Bytes) (inclusive : Bool) (k : ℕ) (s : Bytes) (ret : Outcome Verdict)
    → first_bound baseline (range_marks inclusive (suc k)) s ret
      ≡ plain_bound_at baseline (some (suc k)) lt s
unfolding first_bound range_marks behind_start
first_bound-range baseline true k s ret = ground arith
first_bound-range baseline false k s ret = ground arith

unless_not_met_twice : (o : Outcome Verdict) → unless_not_met o o ≡ o
unfolding unless_not_met
unless_not_met_twice o = ground arith

-- one clause for each form of the lower bound, since `length` computes there
module _ (baseline : Bytes) (inclusive : Bool) (b : ℕ) (lo : Bytes) (c : ℕ) (hi : Bytes) where
  check_multi-range :
      Plain (c ∷ hi)
      → check_multi baseline (range_marks inclusive (length (b ∷ lo))) (b ∷ lo ++ b'<' ∷ c ∷ hi)
        ≡ judge lt (version_cmp baseline (c ∷ hi))
  unfolding check_multi cut
  check_multi-range h =
      rw
        (
          second_bound-range inclusive (length lo),
          first_bound-range baseline inclusive (length lo),
          bound_at-append baseline (b ∷ lo) b'<' c hi lt le h,
          set-append (b ∷ lo) b'<' (c ∷ hi) 0,
          plain_bound_at-append baseline (b ∷ lo) 0 (c ∷ hi) lt h,
        )
        (unless_not_met_twice (judge lt (version_cmp baseline (c ∷ hi))))

-- A range `>lo<hi` or `>=lo<hi`, where no version holds a mark and `hi` is not empty, is judged by
-- its upper bound alone: the lower bound has no effect on the result.
pub require_check-range :
    (baseline : Bytes) (inclusive : Bool) (lo : Bytes) (c : ℕ) (hi : Bytes)
    → Plain lo
    → Plain (c ∷ hi)
    → require_check baseline (lower_bound inclusive lo ++ b'<' ∷ c ∷ hi)
      ≡ judge lt (version_cmp baseline (c ∷ hi))
unfolding require_check found is_multi range_marks
require_check-range baseline true lo c hi hl hh = rw (find_marks-range true lo (c ∷ hi) hl hh) (
    ground (
      arith,
      length-append lo (b'<' ∷ c ∷ hi),
      check_multi-range baseline true b'>' (b'=' ∷ lo) c hi hh,
    ))
require_check-range baseline false lo c hi hl hh = rw (find_marks-range false lo (c ∷ hi) hl hh) (
    ground
      (arith, length-append lo (b'<' ∷ c ∷ hi), check_multi-range baseline false b'>' lo c hi hh))
