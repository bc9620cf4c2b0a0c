-- ===== src/Ids/Tests.antt =====
-- Conversions of concrete identities.
use app_module_sdk.Base.{String, ◌≡◌, refl, none, some}
use app_module_sdk.Ids.{is_uuid, normalize_module_id, canonical_module_id}
use app_module_sdk.Ids.RoundTrip.{canonical-normalize}

abbrev identity : String
identity = "0a1b2c3d-0000-4000-8000-000000000003"

tests :
    (normalize_module_id identity ≡ some "m0a1b2c3d000040008000000000000003")
    × (canonical_module_id "m0a1b2c3d000040008000000000000003" ≡ some identity)
    × (normalize_module_id "mail" ≡ none)
    × (canonical_module_id "0A1B2C3D-0000-4000-8000-000000000003" ≡ none)
unfolding normalize_module_id canonical_module_id
tests = (refl, refl, refl, refl)

canonical-normalize_example :
    (m : String) × (normalize_module_id identity ≡ some m) × (canonical_module_id m ≡ some identity)
unfolding is_uuid
canonical-normalize_example = canonical-normalize identity refl
