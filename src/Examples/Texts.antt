-- ===== src/Examples/Texts.antt =====
-- The parser of environments at a text with blanks and capitals.
use pgspawn.Prelude.{◌≡◌, ◌↔◌, ok, map}
use pgspawn.Environment.{staging, from_str, trim, lower, codes, as_str}
use pgspawn.Environment.Names.{from_str-ignores_case}

from_str-ignores_case_example :
    (from_str " Staging\n" ≡ ok staging)
    ↔ (map lower (codes (trim " Staging\n")) ≡ codes (as_str staging))
from_str-ignores_case_example = from_str-ignores_case " Staging\n" staging
