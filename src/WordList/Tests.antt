-- ===== src/WordList/Tests.antt =====
-- `mport_parselist` of libmport/util.c on small lists.
use mport.Base.{◌≡◌, refl, [], ◌∷◌, ◌++◌}
use mport.Base.Text.{codes}
use mport.WordList.{is_gap, list, is_undefined, parselist}
use mport.WordList.RoundTrip.{IsWord, written, parsed, freed, parselist-written}

parselist-written_example :
    (parselist (written (codes "foo" ∷ codes "bar" ∷ [])) ≡ list (codes "foo" ∷ codes "bar" ∷ []) 2)
    × (parselist (written (codes "foo" ∷ codes "bar" ∷ []) ++ codes " ") ≡ is_undefined)
unfolding IsWord is_gap parsed freed
parselist-written_example =
    parselist-written (codes "foo" ∷ codes "bar" ∷ [])
      ((refl, (refl, (refl, tt))), ((refl, (refl, (refl, tt))), tt))

gaps : parselist (codes "  foo\n bar ") ≡ list (codes "foo" ∷ codes "bar" ∷ []) 2
unfolding parselist
gaps = refl
