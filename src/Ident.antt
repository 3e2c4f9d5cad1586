-- ===== src/Ident.antt =====
-- Canonical UUID spelling: `str(UUID(value)) == value`, the test of `_is_uuid` and `_require_uuid`
-- in src/build_engine/agent/protocol.py and of `_required_payload_uuid` in
-- src/build_engine/queue/store.py. `UUID` takes a text of 32 hexadecimal digits, with dashes,
-- braces and prefixes in any place; `str` prints the digits in lower case, grouped 8-4-4-4-12. So a
-- text is printed back exactly when it has that form.
use build_engine.Prelude.{
  ℕ, ◌+◌, String, ◌≡◌, refl, Bool, true, false, ◌&&◌, ◌||◌, List, [], ◌∷◌, leb, ◌==◌, codes,
  if◌then◌else◌,
}

is_lower_hex : ℕ → Bool
is_lower_hex c = (leb b'0' c && leb c b'9') || (leb b'a' c && leb c b'f')

dash_at : ℕ → Bool
dash_at i = i == 8 || i == 13 || i == 18 || i == 23

canonical_from : ℕ → List ℕ → Bool
unfolding is_lower_hex dash_at
canonical_from i [] = i == 36
canonical_from i (c ∷ cs) =
    (if dash_at i then c == b'-' else is_lower_hex c) && canonical_from (i + 1) cs

unfoldable pub is_uuid : String → Bool
unfolding canonical_from
is_uuid value = canonical_from 0 (codes value)

is_uuid_runs :
    (is_uuid "22222222-2222-2222-2222-2222222222ab" ≡ true)
    × (is_uuid "22222222-2222-2222-2222-2222222222AB" ≡ false)
    × (is_uuid "22222222222222222222222222222222" ≡ false)
unfolding is_uuid
is_uuid_runs = (refl, refl, refl)
