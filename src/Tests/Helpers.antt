-- ===== src/Tests/Helpers.antt =====
-- Helpers of class Util in src/util.h at concrete inputs.
use vpl_jail_system.Prelude.{Bytes, codes, refl, false, ◌≡◌, ◌∷◌, ◌++◌}
use vpl_jail_system.Util.Text.{compare_constant_time, remove_crs}

test_compare : compare_constant_time (codes "key") (codes "kez") ≡ false
unfolding compare_constant_time
test_compare = refl

abbrev lines : Bytes
lines = codes "a" ++ (13 ∷ 10 ∷ codes "b")

test_remove : remove_crs lines ≡ codes "a" ++ (10 ∷ codes "b")
unfolding remove_crs
test_remove = refl
