-- ===== src/Version/Require.antt =====
-- libmport/version_cmp.c: `mport_version_require_check`, which holds a version against a requirement.
mod Tests
pub mod Ranges
use mport.Base.{
  ℕ, suc, ◌+◌, Bool, true, false, ◌&&◌, ◌||◌, Option, none, some, [], ◌∷◌, ltb, ◌==◌, if◌then◌else◌,
  length, drop, set, get_or,
}
use mport.Base.Int.{ℤ, pos, lt_int, le_int}
use mport.Base.Text.{Bytes, cstr}
use mport.Version.Compare.{Outcome, done, out_of_bounds, no_fuel, version_cmp}

-- The int that is returned: 0, -1, 1 (too short to be a requirement) or MPORT_ERR_FATAL.
pub data Verdict : Type 0 where
  met not_met impossible fatal : Verdict

pub data Operator : Type 0 where
  lt le gt ge : Operator

-- `(cmp OP 0) ? 0 : -1`
pub judge : Operator → Outcome ℤ → Outcome Verdict
judge lt (done r) = done (if lt_int r (pos 0) then met else not_met)
judge le (done r) = done (if le_int r (pos 0) then met else not_met)
judge gt (done r) = done (if lt_int (pos 0) r then met else not_met)
judge ge (done r) = done (if le_int (pos 0) r then met else not_met)
judge op out_of_bounds = out_of_bounds
judge op no_fuel = no_fuel

-- The arrays `greater`, `less` and `equal`; `none` stands for -1.
pub record Marks : Type 0 where
  pub greater₀ : Option ℕ
  pub greater₁ : Option ℕ
  pub less₀ : Option ℕ
  pub less₁ : Option ℕ
  pub equal₀ : Option ℕ
  pub equal₁ : Option ℕ

abbrev pub no_marks : Marks
no_marks = record {
  greater₀ = none;
  greater₁ = none;
  less₀ = none;
  less₁ = none;
  equal₀ = none;
  equal₁ = none;
}

-- the first of a kind stays; the second is the last one found
pub first_mark : Option ℕ → ℕ → Option ℕ
first_mark none i = some i
first_mark (some j) i = some j

pub second_mark : Option ℕ → Option ℕ → ℕ → Option ℕ
second_mark none second i = second
second_mark (some j) second i = some i

pub mark : ℕ → ℕ → Marks → Marks
mark i c m =
    if c == b'>'
    then record m {
      greater₀ = first_mark m.greater₀ i;
      greater₁ = second_mark m.greater₀ m.greater₁ i;
    }
    else if c == b'<'
    then record m { less₀ = first_mark m.less₀ i; less₁ = second_mark m.less₀ m.less₁ i }
    else if c == b'='
    then record m { equal₀ = first_mark m.equal₀ i; equal₁ = second_mark m.equal₀ m.equal₁ i }
    else m

-- the `for` loop, from place `i` on
pub find_marks : ℕ → Bytes → Marks → Marks
find_marks i [] m = m
find_marks i (c ∷ s) m = find_marks (suc i) s (mark i c m)

pub found : Option ℕ → Bool
found none = false
found (some i) = true

-- `p > 0` and `p > q`
pub behind_start : Option ℕ → Bool
behind_start none = false
behind_start (some i) = ltb 0 i

pub behind : Option ℕ → Option ℕ → Bool
behind none q = false
behind (some i) none = true
behind (some i) (some j) = ltb j i

-- `s[x] = '\0'` and the comparison with the text behind it; `strict` and `loose` are for no `=`
-- and for an `=` behind the mark
pub bound_at : Bytes → Option ℕ → Operator → Operator → Bytes → Outcome Verdict
bound_at baseline none strict loose s = done met
bound_at baseline (some x) strict loose s =
    let s' = set s x 0 in
    if get_or s' (x + 1) 0 == b'='
    then judge loose (version_cmp baseline (cstr (drop (x + 2) s')))
    else judge strict (version_cmp baseline (cstr (drop (x + 1) s')))

pub cut : Option ℕ → Bytes → Bytes
cut none s = s
cut (some x) s = set s x 0

-- which mark is held to be the second bound, and the operators of its two forms
pub record Bound : Type 0 where
  pub place : Option ℕ
  pub strict : Operator
  pub loose : Operator

pub second_bound : Marks → Bound
second_bound m =
    if behind_start m.less₁
    then record { place = m.less₁; strict = lt; loose = le }
    else if behind m.less₀ m.greater₀
    then record { place = m.less₀; strict = lt; loose = le }
    else if behind_start m.greater₁
    then record { place = m.greater₁; strict = gt; loose = ge }
    else if behind m.greater₀ m.less₀
    then record { place = m.greater₀; strict = gt; loose = ge }
    else record { place = none; strict = lt; loose = le }

-- the comparison behind the first mark, which looks at no `=`
pub plain_bound_at : Bytes → Option ℕ → Operator → Bytes → Outcome Verdict
plain_bound_at baseline none op s = done met
plain_bound_at baseline (some x) op s =
    judge op (version_cmp baseline (cstr (drop (x + 1) (set s x 0))))

-- the last block: it replaces `ret`, unless neither kind of mark stands behind the start
pub first_bound : Bytes → Marks → Bytes → Outcome Verdict → Outcome Verdict
first_bound baseline m s ret =
    if behind_start m.greater₀
    then plain_bound_at baseline m.greater₀ gt s
    else if behind_start m.less₀
    then plain_bound_at baseline m.less₀ lt s
    else ret

-- `if (ret == -1) return (ret);`
pub unless_not_met : Outcome Verdict → Outcome Verdict → Outcome Verdict
unless_not_met (done met) rest = rest
unless_not_met ret rest = ret

pub check_multi : Bytes → Marks → Bytes → Outcome Verdict
check_multi baseline m s =
    let b = second_bound m in
    let ret = bound_at baseline b.place b.strict b.loose s in
    unless_not_met ret (first_bound baseline m (cut b.place s) ret)

pub check_single : Bytes → Bytes → Outcome Verdict
check_single baseline s =
    if get_or s 0 0 == b'<'
    then (if get_or s 1 0 == b'='
        then judge le (version_cmp baseline (drop 2 s))
        else judge lt (version_cmp baseline (drop 1 s)))
    else if get_or s 0 0 == b'>'
    then (if get_or s 1 0 == b'='
        then judge ge (version_cmp baseline (drop 2 s))
        else judge gt (version_cmp baseline (drop 1 s)))
    else done fatal

pub is_multi : Marks → Bool
is_multi m =
    found m.greater₁ || found m.less₁ || found m.equal₁ || (found m.greater₀ && found m.less₀)

unfoldable pub require_check : Bytes → Bytes → Outcome Verdict
require_check baseline require =
    let m = find_marks 0 require no_marks in
    if ltb (length require) 2
    then done impossible
    else if found m.greater₀ || found m.less₀ || found m.equal₀
    then (if is_multi m then check_multi baseline m require else check_single baseline require)
    else done fatal
