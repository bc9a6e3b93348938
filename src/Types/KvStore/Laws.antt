-- ===== src/Types/KvStore/Laws.antt =====
-- What a log of commands leaves in the store.
use go_distributed_system_de.Base.{
  String, ◌≡◌, refl, Option, none, some, List, [], ◌∷◌, ◌++◌, lookup-insert, lookup-delete,
  string_eq, arith, str_eq, if◌then◌else◌,
}
use go_distributed_system_de.Types.Entry.{
  LogEntry, OperationType, op_put, op_delete, op_get, op_no_op, other, zero_entry,
}
use go_distributed_system_de.Types.KvStore.{
  KvStore, put, get, delete_key, apply, apply_op, apply_all, or_empty,
}

-- What a command says of a key: nothing, that it is gone, or its value.
abbrev write_op : OperationType → String → String → String → Option (Option String)
write_op op_put j value key = if str_eq j key then some (some value) else none
write_op op_delete j value key = if str_eq j key then some none else none
write_op _ j value key = none

abbrev pub write : LogEntry → String → Option (Option String)
write e key = write_op e.op_type e.key e.value key

abbrev or_before : Option (Option String) → Option String → Option String
or_before none before = before
or_before (some after) before = after

-- The last word that a log has on a key.
abbrev pub last_write : List LogEntry → String → Option String → Option String
last_write [] key before = before
last_write (e ∷ es) key before = last_write es key (or_before (write e key) before)

get-apply_op :
    (op : OperationType) (j v : String) (kv : KvStore) (k : String)
    → get (apply_op op j v kv).1 k ≡ or_before (write_op op j v k) (get kv k)
unfolding apply_op get put delete_key
get-apply_op op_put j v kv k = ground (arith, lookup-insert j k v kv.store)
get-apply_op op_delete j v kv k = ground (arith, lookup-delete j k kv.store)
get-apply_op op_get j v kv k = refl
get-apply_op op_no_op j v kv k = refl
get-apply_op (other x) j v kv k = refl

get-apply :
    (kv : KvStore) (e : LogEntry) (k : String)
    → get (apply kv e).1 k ≡ or_before (write e k) (get kv k)
unfolding apply
get-apply kv e k = get-apply_op e.op_type e.key e.value kv k

-- After a log is applied, a key holds what the last Put of it stored, nothing if the last command
-- on it was a Delete, and its old value if the log never writes it.
pub get-apply_all :
    (es : List LogEntry) (kv : KvStore) (k : String)
    → get (apply_all kv es) k ≡ last_write es k (get kv k)
unfolding apply_all
get-apply_all [] kv k = refl
get-apply_all (e ∷ es) kv k = rw (← get-apply kv e k) (get-apply_all es (apply kv e).1 k)

-- Applying one list after another is applying their concatenation.
pub apply_all-append :
    (es fs : List LogEntry) (kv : KvStore)
    → apply_all kv (es ++ fs) ≡ apply_all (apply_all kv es) fs
unfolding apply_all
apply_all-append [] fs kv = refl
apply_all-append (e ∷ es) fs kv = apply_all-append es fs (apply kv e).1

-- What `Apply` returns: the value of a Put, the value read by a Get ("" if there is none), and ""
-- for a Delete, a No-Op and an unknown operation.
pub apply_reply :
    (kv : KvStore) (e : LogEntry)
    → ((e.op_type ≡ op_put) → (apply kv e).0 ≡ e.value)
      × ((e.op_type ≡ op_get) → ((apply kv e).0 ≡ or_empty (get kv e.key)) × ((apply kv e).1 ≡ kv))
unfolding apply apply_op
apply_reply kv e = ground arith

-- The zero entry is no command.
pub apply_all-zero : (kv : KvStore) → apply_all kv (zero_entry ∷ []) ≡ kv
unfolding apply_all apply
apply_all-zero kv = refl
