-- ===== src/AssetExec/Tests.antt =====
-- `mport_run_asset_exec` of libmport/util.c at small commands.
use mport.Base.{◌+◌, ◌<◌, ◌≡◌, refl, none, some, [], ◌∷◌, arith}
use mport.Base.Text.{codes}
use mport.AssetExec.{Place, directive, expand, run_asset_execs}
use mport.AssetExec.Expanded.{expanded, within, joined, expand-within}
use mport.AssetExec.Limit.{total_length, limit_of, run_asset_execs-total}

abbrev place : Place
place = record {
  basename = λ s. codes "foo";
  cwd = codes "/usr/local";
  last_file = codes "/usr/local/bin/foo";
}

expand-within_example :
    expand place (codes "ls %D/%F") 100 ≡ within (expanded place (codes "ls %D/%F")) 100
expand-within_example = expand-within place (codes "ls %D/%F") 100 (omega arith)

ls : expanded place (codes "ls %D/%F") ≡ some (codes "ls /usr/local/bin/foo")
unfolding expanded directive joined
ls = refl

abbrev other_place : Place
other_place = record { basename = λ s. codes "a"; cwd = codes "/etc"; last_file = codes "/etc/a" }

-- the first call of the process asks the system
echo_twice :
    run_asset_execs (some 20) 0 ((place, codes "echo %f") ∷ (other_place, codes "ls %D") ∷ [])
    ≡ some (codes "echo foo" ∷ codes "ls /etc" ∷ [], 5)
unfolding run_asset_execs directive
echo_twice = refl

run_asset_execs-total_example :
    (total_length (codes "echo foo" ∷ codes "ls /etc" ∷ []) + 5 ≡ 20) × (0 < 5)
unfolding limit_of
run_asset_execs-total_example =
    run_asset_execs-total (some 20) 0 20 place (codes "echo %f") ((other_place, codes "ls %D") ∷ [])
      (codes "echo foo" ∷ codes "ls /etc" ∷ []) 5 refl (omega arith) echo_twice

-- a third command of eight bytes leaves no room for its NUL
echo_thrice :
    run_asset_execs
      (some 20)
      0
      ((place, codes "echo %f") ∷ (place, codes "echo") ∷ (place, codes "echo %f") ∷ [])
    ≡ none
unfolding run_asset_execs directive
echo_thrice = refl
