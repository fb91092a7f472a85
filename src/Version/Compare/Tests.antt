-- ===== src/Version/Compare/Tests.antt =====
-- Runs of libmport/version_cmp.c, and its theorems at concrete versions.
use mport.Base.{◌≡◌, refl, inr}
use mport.Base.Int.{ℤ, pos, negsuc}
use mport.Base.Text.{Bytes, codes, rindex, cstr, strtol_int, strtol_at_digit, is_digit}
use mport.Version.Compare.{
  Outcome, done, out_of_bounds, parse_version, cut_at, number_at, cmp_ints, is_separator,
  skip_separators, take_part, next_part, or_else, cmp_loop, cmp_versions, then_ints, version_cmp,
}
use mport.Version.Compare.Order.{reversed, version_cmp_antisymm}
use mport.Version.Compare.Bounds.{version_cmp_total}
use mport.Version.Compare.Transitive.{version_cmp_trans}

-- everything that a run computes with
run : Bytes → Bytes → Outcome ℤ
unfolding version_cmp parse_version cut_at number_at rindex cstr strtol_int strtol_at_digit is_digit
    cmp_ints is_separator skip_separators take_part next_part or_else cmp_loop cmp_versions
    then_ints
run = version_cmp

newer : version_cmp (codes "1.10_2") (codes "1.9_3") ≡ done (pos 1)
unfolding run
newer = refl

newer_epoch : version_cmp (codes "1.10_2") (codes "1.9_3,1") ≡ done (negsuc 0)
unfolding run
newer_epoch = refl

older_revision : version_cmp (codes "1.9_1") (codes "1.9_3") ≡ done (negsuc 0)
unfolding run
older_revision = refl

older_number : version_cmp (codes "1.9_3") (codes "1.10_2") ≡ done (negsuc 0)
unfolding run
older_number = refl

-- the loop reads behind the end of a version that ends in a separator
reads_behind_the_end : version_cmp (codes "1.0.") (codes "1") ≡ out_of_bounds
unfolding run
reads_behind_the_end = refl

-- a part from 2^31 on wraps around to a negative int
wraps_around : version_cmp (codes "3000000000") (codes "1") ≡ done (negsuc 0)
unfolding run
wraps_around = refl

version_cmp_antisymm_example :
    version_cmp (codes "2.0") (codes "1.9_3") ≡ reversed (version_cmp (codes "1.9_3") (codes "2.0"))
version_cmp_antisymm_example = version_cmp_antisymm (codes "1.9_3") (codes "2.0")

version_cmp_trans_example : version_cmp (codes "1.9_1") (codes "1.10_2") ≡ done (negsuc 0)
version_cmp_trans_example =
    version_cmp_trans (codes "1.9_1") (codes "1.9_3") (codes "1.10_2") (negsuc 0) (negsuc 0)
      older_revision older_number (inr refl) (inr refl)

version_cmp_total_example : (r : ℤ) × (version_cmp (codes "1.9_1") (codes "2.0.b") ≡ done r)
unfolding run
version_cmp_total_example = version_cmp_total (codes "1.9_1") (codes "2.0.b") refl refl
