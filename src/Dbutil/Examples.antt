-- ===== src/Dbutil/Examples.antt =====
-- Runs of database/src/dbutil.rs on concrete inputs.
use redvector.Base.{◌≡◌, ◌≢◌, refl, true, false, ◌∷◌, codes, Bytes, ok, err, pos, negsuc}
use redvector.Decimal.{parse_usize}
use redvector.Utf8.{is_utf8}
use redvector.Dbutil.{normalize_position, vec_to_usize, value_error}

positions :
    (normalize_position (pos 0) 10 ≡ ok 0)
    × (normalize_position (negsuc 0) 10 ≡ ok 9)
    × (normalize_position (pos 10) 10 ≡ err true)
    × (normalize_position (negsuc 10) 10 ≡ err false)
    × (normalize_position (negsuc 99) 0 ≡ err false)
    × (normalize_position (pos 100) 0 ≡ err true)
unfolding normalize_position
positions = (refl, refl, refl, refl, refl, refl)

numbers :
    (vec_to_usize (codes "200") ≡ ok 200)
    × (vec_to_usize (codes "01") ≡ err (value_error "ERR value is not an integer"))
    × (vec_to_usize (codes "0") ≡ ok 0)
    × (vec_to_usize (codes "a") ≡ err (value_error "ERR value is not a integer"))
unfolding vec_to_usize is_utf8 parse_usize
numbers = (refl, refl, refl, refl)

unsigned : (s : Bytes) → codes "4096" ≢ b'+' ∷ s
unsigned s e = cc

four_thousand : vec_to_usize (codes "4096") ≡ ok 4096
unfolding vec_to_usize is_utf8 parse_usize
four_thousand = refl
