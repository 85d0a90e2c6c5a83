-- ===== src/Tests/Tables.antt =====
-- src/hash_table.c on a table of two integer keys that share a bucket, and on string keys.
use bootstrap_agency_templat.Prelude.{ℕ, ◌%◌, ◌^◌, ◌≡◌, refl, none, some, length}
use bootstrap_agency_templat.HashTable
use bootstrap_agency_templat.HashTable.{Table, put, remove, get_key, get_value, size, entries}
use bootstrap_agency_templat.HashTable.Keys.{int_key, string_key}
use bootstrap_agency_templat.HashTable.Chain.{lookup, count}
use bootstrap_agency_templat.HashTable.Buckets.{IsValid, view}
use bootstrap_agency_templat.HashTable.Laws.{Writes, found_count, put-Writes, remove-Writes}
use bootstrap_agency_templat.HashTable.Reads.{
  IsUnchanged, key_if, new-IsValid, get-IsUnchanged, entries_lem,
}

abbrev one_key : Table ℕ ℕ
one_key = (put HashTable.new 1 (some 10)).0

abbrev two_keys : Table ℕ ℕ
two_keys = (put one_key 4 (some 40)).0

one_key-IsValid : IsValid one_key
one_key-IsValid = (put-Writes HashTable.new 1 (some 10) new-IsValid.0).valid

two_keys-IsValid : IsValid two_keys
two_keys-IsValid = (put-Writes one_key 4 (some 40) one_key-IsValid).valid

two_keys_lem : (size two_keys ≡ 2) × (view two_keys 1 ≡ some 10)
unfolding put size HashTable.new lookup
two_keys_lem = (refl, refl)

put-Writes_example : Writes two_keys 4 none (put two_keys 4 none)
put-Writes_example = put-Writes two_keys 4 none two_keys-IsValid

remove-Writes_example : Writes two_keys 1 none (remove two_keys 1)
remove-Writes_example = remove-Writes two_keys 1 two_keys-IsValid

get-IsUnchanged_example :
    ((get_value two_keys 1).1 ≡ view two_keys 1)
    × ((get_key two_keys 1).1 ≡ key_if 1 (view two_keys 1))
    × IsUnchanged two_keys (get_value two_keys 1).0
    × ((get_key two_keys 1).0 ≡ (get_value two_keys 1).0)
get-IsUnchanged_example = get-IsUnchanged two_keys 1 two_keys-IsValid

entries_lem_example :
    (size two_keys ≡ length (entries two_keys) % 2 ^ 64)
    × ((q : ℕ)
        → (lookup q (entries two_keys) ≡ view two_keys q)
          × (count q (entries two_keys) ≡ found_count (view two_keys q)))
entries_lem_example = entries_lem two_keys two_keys-IsValid

new-IsValid_example :
    IsValid {K = ℕ} {V = ℕ} HashTable.new × ((q : ℕ) → view {V = ℕ} HashTable.new q ≡ none)
new-IsValid_example = new-IsValid {K = ℕ} {V = ℕ}
