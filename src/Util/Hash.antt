-- ===== src/Util/Hash.antt =====
-- `HashConfigMapData` of internal/controller/util/mysql_helpers.go. SHA-256 with its hexadecimal
-- print is the parameter `sha256_hex`.
pub mod Laws
use yet_another_mysql_operat.Prelude.{zero, List, [], ◌∷◌, ◌++◌, Option, none, some}
use yet_another_mysql_operat.Prelude.Text.{Text}
use yet_another_mysql_operat.Prelude.Assoc.{Map, get, keys}
use yet_another_mysql_operat.Prelude.Sort.{sort_texts}

-- `data[k]`: the zero value where the key is missing
abbrev pub or_zero : Option Text → Text
or_zero none = []
or_zero (some v) = v

-- One round of the loop over the sorted keys: four writes to the digest.
unfoldable pub write_entries : Map Text → List Text → Text
write_entries m [] = []
write_entries m (k ∷ ks) = k ++ zero ∷ (or_zero (get k m) ++ zero ∷ write_entries m ks)

-- The bytes that the digest is fed.
unfoldable pub digest_input : Map Text → Text
unfolding write_entries
digest_input m = write_entries m (sort_texts (keys m))

unfoldable pub hash_config_map_data : (Text → Text) → Map Text → Text
unfolding digest_input
hash_config_map_data sha256_hex [] = []
hash_config_map_data sha256_hex (e ∷ m) = sha256_hex (digest_input (e ∷ m))
