-- ===== src/Langs/Tests.antt =====
-- The theorems on language codes at concrete inputs.
use civika.Prelude.{◌≡◌, not, ◌&&◌, [], map, if◌then◌else◌}
use civika.Text.{codes, eqb, trim_space, split}
use civika.Samples.{plain_runtime}
use civika.Langs.{contains, normalize, parse_supported}
use civika.Langs.Lists.{contains-parse_supported}

contains-parse_supported_example :
    contains (parse_supported plain_runtime (codes "fr, DE") []) (codes "de") ≡ (
      not (eqb (codes "de") [])
      && contains
          (map (normalize plain_runtime) (
            if eqb (trim_space (codes "fr, DE")) []
            then []
            else split (trim_space (codes "fr, DE")) b','))
          (codes "de"))
contains-parse_supported_example =
    contains-parse_supported plain_runtime (codes "fr, DE") [] (codes "de")
