-- ===== src/Types/KvStore.antt =====
-- The state machine: `KVStore` of multipaxos_kvstore/types/types.go.
pub mod Laws
use go_distributed_system_de.Base.{
  ℕ, String, Bool, Option, none, some, List, [], ◌∷◌, Map, lookup, insert, delete, length, foldl,
  string_eq,
}
use go_distributed_system_de.Types.Entry.{
  LogEntry, OperationType, op_put, op_delete, op_get, op_no_op, other,
}

pub record KvStore : Type 0 where
  pub store : Map String String

abbrev pub new_kv_store : KvStore
new_kv_store = record { store = [] }

unfoldable pub put : KvStore → String → String → KvStore
put kv key value = record { store = insert key value kv.store }

unfoldable pub get : KvStore → String → Option String
get kv key = lookup key kv.store

unfoldable pub delete_key : KvStore → String → KvStore
delete_key kv key = record { store = delete key kv.store }

unfoldable pub size : KvStore → ℕ
size kv = length kv.store

-- A read of a missing key gives the zero value "".
abbrev pub or_empty : Option String → String
or_empty none = ""
or_empty (some v) = v

apply_op : OperationType → String → String → KvStore → String × KvStore
apply_op op_put key value kv = (value, put kv key value)
apply_op op_delete key value kv = ("", delete_key kv key)
apply_op op_get key value kv = (or_empty (get kv key), kv)
apply_op op_no_op key value kv = ("", kv)
apply_op (other name) key value kv = ("", kv)

unfoldable pub apply : KvStore → LogEntry → String × KvStore
unfolding apply_op
apply kv entry = apply_op entry.op_type entry.key entry.value kv

-- The store that a list of entries leaves.
unfoldable pub apply_all : KvStore → List LogEntry → KvStore
apply_all kv [] = kv
apply_all kv (e ∷ es) = apply_all (apply kv e).1 es
