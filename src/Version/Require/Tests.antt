-- ===== src/Version/Require/Tests.antt =====
-- The theorems on `mport_version_require_check` of libmport/version_cmp.c at concrete requirements.
use mport.Base.{◌≡◌, true, arith}
use mport.Base.Text.{codes}
use mport.Version.Compare.{version_cmp}
use mport.Version.Require.{lt, judge, require_check}
use mport.Version.Require.Ranges.{require_check-range}

-- the example of the source's comment, where 0.2.1 is not at least 1.4.0
require_check-range_example :
    require_check (codes "0.2.1") (codes ">=1.4.0<1.5")
    ≡ judge lt (version_cmp (codes "0.2.1") (codes "1.5"))
require_check-range_example =
    require_check-range (codes "0.2.1") true (codes "1.4.0") b'1' (codes ".5") (omega arith)
      (omega arith)
