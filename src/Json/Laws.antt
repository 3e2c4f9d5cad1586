-- ===== src/Json/Laws.antt =====
-- Lookups after the dictionary operations.
use build_engine.Prelude.{String, ◌≡◌, refl, Bool, none, some, arith, eq_iff, str_eq, if◌then◌else◌}
use build_engine.Json.{Json, Fields, end, field, get, put, without}

pub get-put :
    (k j : String) (v : Json) (fs : Fields)
    → get j (put k v fs) ≡ (if str_eq k j then some v else get j fs)
unfolding get put
get-put k j v end = refl
get-put k j v (field i w fs) = ground (arith, eq_iff i k, eq_iff i j, eq_iff k j, get-put k j v fs)

pub get-without :
    (drop : String → Bool) (j : String) (fs : Fields)
    → get j (without drop fs) ≡ (if drop j then none else get j fs)
unfolding get without
get-without drop j end = ground arith
get-without drop j (field i w fs) = ground (arith, eq_iff i j, get-without drop j fs)
