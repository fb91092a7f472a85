-- ===== src/AssetExec/Limit.antt =====
-- The limit of `mport_run_asset_exec` in libmport/util.c over the calls of one process.
use mport.Base.{
  ℕ, ◌+◌, ◌<◌, Bool, true, false, ◌≡◌, refl, Option, none, some, List, [], ◌∷◌, ◌==◌, if◌then◌else◌,
  length, arith,
}
use mport.Base.Text.{Bytes}
use mport.AssetExec.Expanded.{within, expanded, expand-within}
use mport.AssetExec.{
  add_command, exec_then, Place, expand, Exec, runs_command, no_limit, is_undefined, expanded_exec,
  exec_within, run_asset_exec, run_asset_execs,
}

pub total_length : List Bytes → ℕ
total_length [] = 0
total_length (s ∷ ss) = length s + total_length ss

-- a command within a limit leaves the rest of it
within-some :
    (o : Option Bytes) (max left : ℕ) (s : Bytes)
    → within o max ≡ some (s, left)
    → (length s + left ≡ max) × (0 < left)
unfolding within
within-some none max left s e = absurd (ground arith)
within-some (some u) max left s e = grind arith

exec-some :
    (o : Option (Bytes × ℕ)) (s : Bytes) (left : ℕ)
    → expanded_exec o ≡ runs_command s left
    → o ≡ some (s, left)
unfolding expanded_exec
exec-some none s left e = absurd (ground arith)
exec-some (some (u, m)) s left e = ground arith

limit_kept :
    (b : Bool) (o : Option ℕ) (max : ℕ) → b ≡ false → (if b then o else some max) ≡ some max
limit_kept true o max e = absurd (ground arith)
limit_kept false o max e = refl

positive : (max : ℕ) → 0 < max → (max == 0) ≡ false
positive max h = ground arith

-- the limit of a call
unfoldable pub limit_of : Option ℕ → ℕ → Option ℕ
limit_of arg_max max = if max == 0 then arg_max else some max

run-left :
    (arg_max : Option ℕ) (pl : Place) (max limit : ℕ) (fmt s : Bytes) (left : ℕ)
    → limit_of arg_max max ≡ some limit
    → 0 < limit
    → run_asset_exec arg_max pl max fmt ≡ runs_command s left
    → (length s + left ≡ limit) × (0 < left)
unfolding run_asset_exec exec_within limit_of
run-left arg_max pl max limit fmt s left l h e =
    let kept : exec_within pl fmt (if max == 0 then arg_max else some max)
        ≡ exec_within pl fmt (some limit) =
      λ i. exec_within pl fmt (l i) in
    within-some (expanded pl fmt) limit left s
      (cc (expand-within pl fmt limit h, exec-some (expand pl fmt limit) s left (cc (kept, e))))

added-some :
    (s : Bytes) (o : Option (List Bytes × ℕ)) (ss : List Bytes) (last : ℕ)
    → add_command s o ≡ some (ss, last)
    → (rest : List Bytes) × (o ≡ some (rest, last)) × (ss ≡ s ∷ rest)
unfolding add_command
added-some s none ss last e = absurd (ground arith)
added-some s (some (ts, m)) ss last e = (ts, cc e, cc e)

exec_then-some :
    (r : Exec) (k : ℕ → Option (List Bytes × ℕ)) (ss : List Bytes) (last : ℕ)
    → exec_then r k ≡ some (ss, last)
    → (s : Bytes) × (left : ℕ) × (rest : List Bytes) × (r ≡ runs_command s left)
      × (k left ≡ some (rest, last))
      × (ss ≡ s ∷ rest)
unfolding exec_then
exec_then-some (runs_command s left) k ss last e =
    let (rest, o, c) = added-some s (k left) ss last e in (s, left, rest, refl, o, c)
exec_then-some no_limit k ss last e = absurd (ground arith)
exec_then-some is_undefined k ss last e = absurd (ground arith)

total_eq : (ss ts : List Bytes) → ss ≡ ts → total_length ss ≡ total_length ts
total_eq ss ts e = λ i. total_length (e i)

-- the calls behind the first
later-total :
    (arg_max : Option ℕ) (max : ℕ) (calls : List (Place × Bytes)) (ss : List Bytes) (last : ℕ)
    → 0 < max
    → run_asset_execs arg_max max calls ≡ some (ss, last)
    → (total_length ss + last ≡ max) × (0 < last)
unfolding run_asset_execs total_length limit_of
later-total arg_max max [] ss last h e =
    let left : max ≡ last = cc e in
    let none_run : total_length ss ≡ 0 = total_eq ss [] (cc e) in
    (omega (arith, left, none_run), omega (arith, left, h))
later-total arg_max max ((pl, fmt) ∷ calls) ss last h e =
    let (s, left, rest, r, k, c) =
      exec_then-some (run_asset_exec arg_max pl max fmt)
        (λ left. run_asset_execs arg_max left calls) ss last e in
    let (x, y) =
      run-left arg_max pl max max fmt s left (limit_kept (max == 0) arg_max max (positive max h)) h
        r in
    let (v, u) = later-total arg_max left calls rest last y k in
    let lengths : total_length ss ≡ length s + total_length rest = total_eq ss (s ∷ rest) c in
    (omega (arith, lengths, x, v), u)

-- Where the first of the calls has a limit above 0, which it asks of the system where the static
-- `max` is 0, as in the first call of a process, and every call runs a command, whatever its format,
-- directory and file, the lengths of all commands and what is left at the end make up the limit: it
-- never comes back.
pub run_asset_execs-total :
    (arg_max : Option ℕ) (max limit : ℕ) (pl : Place) (fmt : Bytes) (calls : List (Place × Bytes))
    (ss : List Bytes) (last : ℕ)
    → limit_of arg_max max ≡ some limit
    → 0 < limit
    → run_asset_execs arg_max max ((pl, fmt) ∷ calls) ≡ some (ss, last)
    → (total_length ss + last ≡ limit) × (0 < last)
unfolding run_asset_execs total_length
run_asset_execs-total arg_max max limit pl fmt calls ss last l h e =
    let (s, left, rest, r, k, c) =
      exec_then-some (run_asset_exec arg_max pl max fmt)
        (λ left. run_asset_execs arg_max left calls) ss last e in
    let (x, y) = run-left arg_max pl max limit fmt s left l h r in
    let (v, u) = later-total arg_max left calls rest last y k in
    let lengths : total_length ss ≡ length s + total_length rest = total_eq ss (s ∷ rest) c in
    (omega (arith, lengths, x, v), u)
