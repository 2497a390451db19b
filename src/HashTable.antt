-- ===== src/HashTable.antt =====
-- GLib's hash table with strings for keys, as the daemon uses it, and what its documentation says of
-- it. The table is not code of the daemon: it is a parameter of the models.
use earport_handoff.Base.{
  ◌≤◌, ◌≡◌, Bool, Option, none, some, List, [], ◌∷◌, count, bytes_equal, if◌then◌else◌,
}
use earport_handoff.Base.Text.{Bytes}

-- `g_hash_table_new_full`, `g_hash_table_lookup_extended`, `g_hash_table_replace`,
-- `g_hash_table_remove`, and the pairs that an iteration visits, in its order
pub record StringTable (V : Type 0) : Type 1 where
  pub Table : Type 0
  pub new : Table
  pub lookup : Table → Bytes → Option V
  pub replace : Table → Bytes → V → Table
  pub remove : Table → Bytes → Table
  pub entries : Table → List (Bytes × V)

abbrev pub has_key : {V : Type 0} → Bytes → Bytes × V → Bool
has_key k (key, value) = bytes_equal key k

-- the value of the first pair with the key
abbrev pub find : {V : Type 0} → Bytes → List (Bytes × V) → Option V
find k [] = none
find k ((key, value) ∷ rest) =
    let later = find k rest in if bytes_equal key k then some value else later

abbrev pub without : {V : Type 0} → Bytes → List (Bytes × V) → List (Bytes × V)
without k [] = []
without k ((key, value) ∷ rest) =
    let others = without k rest in if bytes_equal key k then others else (key, value) ∷ others

-- A new table is empty. An iteration visits each key once, and the pair that a lookup gives. A
-- replacement leaves the new pair and those of the other keys, and a removal those of the other
-- keys, each in any order: any test holds of as many.
pub record StringTableLaws {V : Type 0} (G : StringTable V) : Type 0 where
  pub entries-new : G.entries G.new ≡ []
  pub lookup-find : (t : G.Table) (k : Bytes) → G.lookup t k ≡ find k (G.entries t)
  pub lookup-replace :
      (t : G.Table) (k : Bytes) (v : V) (j : Bytes)
      → G.lookup (G.replace t k v) j ≡ (if bytes_equal k j then some v else G.lookup t j)
  pub lookup-remove :
      (t : G.Table) (k j : Bytes)
      → G.lookup (G.remove t k) j ≡ (if bytes_equal k j then none else G.lookup t j)
  pub keys_distinct : (t : G.Table) (k : Bytes) → count (has_key k) (G.entries t) ≤ 1
  pub entries-replace :
      (t : G.Table) (k : Bytes) (v : V) (test : Bytes × V → Bool)
      → count test (G.entries (G.replace t k v)) ≡ count test ((k, v) ∷ without k (G.entries t))
  pub entries-remove :
      (t : G.Table) (k : Bytes) (test : Bytes × V → Bool)
      → count test (G.entries (G.remove t k)) ≡ count test (without k (G.entries t))
