-- ===== src/AssetExec.antt =====
-- libmport/util.c: `mport_run_asset_exec`, which builds the command of an @exec or @unexec entry.
pub mod Expanded
pub mod Limit
mod Tests
use mport.Base.{
  ℕ, zero, suc, ◌+◌, ◌-◌, Option, none, some, List, [], ◌∷◌, ◌++◌, ◌==◌, if◌then◌else◌, length,
  drop, ltb,
}
use mport.Base.Text.{Bytes}

-- What is read: basename(3), the working directory, and the last file with its whole path.
pub record Place : Type 0 where
  pub basename : Bytes → Bytes
  pub cwd : Bytes
  pub last_file : Bytes

-- The text that `%` and a byte stand for; `none` for behaviour that C leaves undefined: %B reads a
-- buffer that is never filled, and %F reads behind a path that is shorter than the directory.
unfoldable pub directive : Place → ℕ → Option Bytes
directive pl d =
    if d == b'F'
    then (if ltb (length pl.cwd) (length pl.last_file)
        then some (drop (length pl.cwd + 1) pl.last_file)
        else none)
    else if d == b'D'
    then some pl.cwd
    else if d == b'B'
    then none
    else if d == b'f'
    then some (pl.basename pl.last_file)
    else some (d ∷ [])

unfoldable pub prepend : Bytes → Option (Bytes × ℕ) → Option (Bytes × ℕ)
prepend s none = none
prepend s (some (t, left)) = some (s ++ t, left)

-- The text is copied to the buffer, and `max` goes down by its length. Where it reaches 0, the NUL
-- at the end is written behind the buffer.
unfoldable pub put : Option Bytes → ℕ → (ℕ → Option (Bytes × ℕ)) → Option (Bytes × ℕ)
unfolding prepend
put none max k = none
put (some s) max k = if ltb (length s) max then prepend s (k (max - length s)) else none

-- the loop, with the byte behind a `%` read in the same turn
unfoldable pub expand : Place → Bytes → ℕ → Option (Bytes × ℕ)
unfolding put directive
expand pl [] max = some ([], max)
expand pl (c ∷ []) max = if c == b'%' then none else put (some (c ∷ [])) max (expand pl [])
expand pl (c ∷ d ∷ fmt) max =
    if c == b'%'
    then put (directive pl d) max (expand pl fmt)
    else put (some (c ∷ [])) max (expand pl (d ∷ fmt))

-- How a call ends: with a command that is run and the value that is left in the static `max`, with
-- an error, or in undefined behaviour.
pub data Exec : Type 0 where
  runs_command : Bytes → ℕ → Exec
  no_limit : Exec
  is_undefined : Exec

unfoldable pub expanded_exec : Option (Bytes × ℕ) → Exec
expanded_exec none = is_undefined
expanded_exec (some (s, left)) = runs_command s left

unfoldable pub exec_within : Place → Bytes → Option ℕ → Exec
unfolding expanded_exec expand
exec_within pl fmt none = no_limit
exec_within pl fmt (some max) = expanded_exec (expand pl fmt max)

-- mport_run_asset_exec up to the command. `max` is static: 0 in the first call, when the limit is
-- asked of the system, and afterwards what the last call has left.
unfoldable pub run_asset_exec : Option ℕ → Place → ℕ → Bytes → Exec
unfolding exec_within
run_asset_exec arg_max pl max fmt = exec_within pl fmt (if max == 0 then arg_max else some max)

unfoldable pub add_command : Bytes → Option (List Bytes × ℕ) → Option (List Bytes × ℕ)
add_command s none = none
add_command s (some (ss, last)) = some (s ∷ ss, last)

unfoldable pub exec_then : Exec → (ℕ → Option (List Bytes × ℕ)) → Option (List Bytes × ℕ)
unfolding add_command
exec_then (runs_command s left) k = add_command s (k left)
exec_then no_limit k = none
exec_then is_undefined k = none

-- The calls of one process, in order, where each runs a command; each has its own format, directory
-- and file.
unfoldable pub run_asset_execs : Option ℕ → ℕ → List (Place × Bytes) → Option (List Bytes × ℕ)
unfolding run_asset_exec exec_then
run_asset_execs arg_max max [] = some ([], max)
run_asset_execs arg_max max ((pl, fmt) ∷ calls) =
    exec_then (run_asset_exec arg_max pl max fmt) (λ left. run_asset_execs arg_max left calls)
