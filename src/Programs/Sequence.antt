-- ===== src/Programs/Sequence.antt =====
-- The client program of the primary/backup store, with its list of operations (`main` of
-- client_main/client.go).
use go_distributed_system_de.Base.{
  ℕ, suc, String, Bool, true, false, List, [], ◌∷◌, Option, some, none, str_eq, get_elem?,
  if◌then◌else◌,
}
use go_distributed_system_de.Views.{View, is_empty}
use go_distributed_system_de.Text.{trim_space, split_comma}
use go_distributed_system_de.ViewClient.{
  Client, Turn, TurnEnd, return, again, nil_client, make_client, update_primary,
}
use go_distributed_system_de.ViewClient

pub record Flags : Type 0 where
  pub op : String
  pub key : String
  pub value : String
  pub ops : String
  pub keys : String
  pub values : String

-- `splitTrim`
unfoldable pub trim_parts : List String → List String
trim_parts [] = []
trim_parts (part ∷ parts) =
    let rest = trim_parts parts in
    if is_empty (trim_space part) then rest else trim_space part ∷ rest

abbrev pub split_trim : String → List String
split_trim s = if is_empty s then [] else trim_parts (split_comma s)

-- The operations with their keys and values; one operation when no list is given.
pub record Lists : Type 0 where
  pub ops : List String
  pub keys : List String
  pub values : List String

abbrev single : Flags → Lists
single f = record { ops = f.op ∷ []; keys = f.key ∷ []; values = f.value ∷ [] }

lists_or : List String → Flags → Lists
lists_or [] f = single f
lists_or (op ∷ ops) f = record {
  ops = op ∷ ops;
  keys = split_trim f.keys;
  values = split_trim f.values;
}

unfoldable pub lists : Flags → Lists
unfolding lists_or
lists f = lists_or (split_trim f.ops) f

-- What the network does in the calls of operation `i`.
pub record Network : Type 0 where
  pub get_turns : ℕ → String → List Turn
  pub put_turns : ℕ → String → String → List Turn

pub data Printed : Type 0 where
  got : String → String → Printed
  completed : String → String → Printed
  unknown : String → Printed

-- How the operations end: all done, a panic on an index out of range, a panic on a nil client, or
-- a call that has not returned in the turns that it had.
pub data End : Type 0 where
  all_done : Client → End
  out_of_range : End
  nil_panic : End
  waits : End

abbrev pub Run : Type 0
Run = List Printed × End

-- A call that returned goes on; the line is printed after it.
unfoldable pub after_turns : (String → Printed) → (Client → Run) → TurnEnd → Run
after_turns line rest (return value ck) = let (printed, e) = rest ck in (line value ∷ printed, e)
after_turns line rest (again ck) = ([], waits)
after_turns line rest nil_client = ([], nil_panic)

-- val := ck.Get(keys[i])
unfoldable pub get_at : Network → ℕ → Option String → Client → (Client → Run) → Run
get_at net i none ck rest = ([], out_of_range)
get_at net i (some key) ck rest =
    after_turns (got key) rest (ViewClient.get (net.get_turns i key) ck)

-- ck.Put(keys[i], values[i])
unfoldable pub put_at : Network → ℕ → Option String → Option String → Client → (Client → Run) → Run
put_at net i none value ck rest = ([], out_of_range)
put_at net i (some key) none ck rest = ([], out_of_range)
put_at net i (some key) (some value) ck rest =
    after_turns (λ v. completed key value) rest (ViewClient.put (net.put_turns i key value) ck)

-- One operation at position `i`, and what follows it.
unfoldable pub run_op :
    Network → List String → List String → ℕ → String → Client → (Client → Run) → Run
run_op net keys values i op ck rest = elim (str_eq op "get") [
  | true ↦ get_at net i (get_elem? keys i) ck rest
  | false ↦ elim (str_eq op "put") [
    | true ↦ put_at net i (get_elem? keys i) (get_elem? values i) ck rest
    | false ↦ let (printed, e) = rest ck in (unknown op ∷ printed, e)
  ]
]

-- for i, op := range ops
unfoldable pub run_ops : Network → List String → List String → ℕ → List String → Client → Run
run_ops net keys values i [] ck = ([], all_done ck)
run_ops net keys values i (op ∷ ops) ck =
    run_op net keys values i op ck (run_ops net keys values (suc i) ops)

-- for ck.CurrentPrimary == "" { ck.UpdatePrimary() … }, for as many rounds as the list has; none
-- when the client waits for a primary still.
unfoldable pub wait_for_primary : List (Option View × Bool) → Client → Option Client
wait_for_primary [] ck = if is_empty ck.current_primary then none else some ck
wait_for_primary ((view, dialled) ∷ rounds) ck = elim (is_empty ck.current_primary) [
  | true ↦ wait_for_primary rounds (update_primary view dialled ck)
  | false ↦ some ck
]

run_connected : Flags → Network → Option Client → Run
run_connected f net none = ([], waits)
run_connected f net (some ck) = let l = lists f in run_ops net l.keys l.values 0 l.ops ck

-- The whole program.
unfoldable pub client_main : Flags → List (Option View × Bool) → Network → Run
unfolding run_connected
client_main f rounds net = run_connected f net (wait_for_primary rounds make_client)
