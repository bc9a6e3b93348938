-- ===== src/Programs/Shell.antt =====
-- The client program of the Multi-Paxos store, with its one operation or its prompt (`main` of
-- multipaxos_kvstore/client/client.go). What the client library itself prints is left out.
use go_distributed_system_de.Base.{
  ℕ, String, ◌||◌, List, [], ◌∷◌, ◌++◌, Option, str_eq, if◌then◌else◌, ℤ,
}
use go_distributed_system_de.Views.{is_empty}
use go_distributed_system_de.Text.{trim_space, fields, join, to_lower}
use go_distributed_system_de.KvClient.{
  Stub, KvClient, End, finished, new_kv_client, put_key, get_key, delete_key,
}
use go_distributed_system_de.Programs.{addresses}

-- A line of the output.
pub data Printed : Type 0 where
  says : String → Printed
  error_of : End → Printed
  unknown : String → Printed

pub record Flags : Type 0 where
  pub server : String
  pub op : String
  pub key : String
  pub value : String
  pub peers : ℤ

-- What was printed, and the exit status.
pub record Ended : Type 0 where
  pub printed : List Printed
  pub status : ℕ

abbrev pub exit_1 : Printed → Ended
exit_1 line = record { printed = line ∷ []; status = 1 }

abbrev pub write_ended : End → Ended
write_ended (finished v) = record { printed = []; status = 0 }
write_ended e = exit_1 (error_of e)

abbrev pub get_ended : End → Ended
get_ended (finished v) = record { printed = says v ∷ []; status = 0 }
get_ended e = exit_1 (error_of e)

unfoldable pub once_put : {W : Type 0} → Flags → KvClient W → W → Ended × W
once_put f c w =
    if is_empty f.key || is_empty f.value
    then (exit_1 (says "Error: put operation requires -key and -value"), w)
    else (let (e, w') = put_key c f.key f.value w in (write_ended e, w'))

unfoldable pub once_get : {W : Type 0} → Flags → KvClient W → W → Ended × W
once_get f c w =
    if is_empty f.key
    then (exit_1 (says "Error: get operation requires -key"), w)
    else (let (e, w') = get_key c f.key w in (get_ended e, w'))

unfoldable pub once_delete : {W : Type 0} → Flags → KvClient W → W → Ended × W
once_delete f c w =
    if is_empty f.key
    then (exit_1 (says "Error: delete operation requires -key"), w)
    else (let (e, w') = delete_key c f.key w in (write_ended e, w'))

-- `switch *operation`
unfoldable pub once : {W : Type 0} → Flags → KvClient W → W → Ended × W
once f c w =
    if str_eq f.op "put"
    then once_put f c w
    else if str_eq f.op "get"
    then once_get f c w
    else if str_eq f.op "delete"
    then once_delete f c w
    else (exit_1 (unknown f.op), w)

-- After a line the prompt comes again, or the program ends.
pub data Next : Type 0 where
  goes_on leaves : Next

abbrev pub LineEnd : Type 0 → Type 0
LineEnd W = (List Printed × Next) × W

abbrev pub told : End → List Printed
told (finished v) = []
told e = error_of e ∷ []

abbrev pub after_call : {W : Type 0} → End × W → LineEnd W
after_call (e, w) = ((told e, goes_on), w)

abbrev pub prints : {W : Type 0} → Printed → W → LineEnd W
prints line w = ((line ∷ [], goes_on), w)

-- The arguments are the words after the command.
unfoldable pub put_line : {W : Type 0} → KvClient W → List String → W → LineEnd W
put_line c (key ∷ value ∷ rest) w = after_call (put_key c key (join (value ∷ rest)) w)
put_line c _ w = prints (says "Usage: put <key> <value>") w

unfoldable pub get_line : {W : Type 0} → KvClient W → List String → W → LineEnd W
get_line c (key ∷ rest) w = after_call (get_key c key w)
get_line c [] w = prints (says "Usage: get <key>") w

unfoldable pub delete_line : {W : Type 0} → KvClient W → List String → W → LineEnd W
delete_line c (key ∷ rest) w = after_call (delete_key c key w)
delete_line c [] w = prints (says "Usage: delete <key>") w

-- `switch command`
unfoldable pub run_command : {W : Type 0} → KvClient W → String → List String → W → LineEnd W
run_command c command args w =
    if str_eq command "put"
    then put_line c args w
    else if str_eq command "get"
    then get_line c args w
    else if str_eq command "delete"
    then delete_line c args w
    else if str_eq command "exit" || str_eq command "quit"
    then ((says "Goodbye!" ∷ [], leaves), w)
    else prints (unknown command) w

unfoldable pub run_words : {W : Type 0} → KvClient W → List String → W → LineEnd W
run_words c [] w = (([], goes_on), w)
run_words c (word ∷ words) w = run_command c (to_lower word) words w

-- One turn of the prompt.
unfoldable pub run_line : {W : Type 0} → KvClient W → String → W → LineEnd W
run_line c text w =
    let line = trim_space text in
    if str_eq line "" then (([], goes_on), w) else run_words c (fields line) w

shell_on : {W : Type 0} → LineEnd W → (W → List Printed × W) → List Printed × W
shell_on ((printed, leaves), w) rest = (printed, w)
shell_on ((printed, goes_on), w) rest = let (more, w') = rest w in (printed ++ more, w')

-- The lines of the input, until they end or one says to leave.
unfoldable pub shell : {W : Type 0} → KvClient W → List String → W → List Printed × W
unfolding shell_on
shell c [] w = ([], w)
shell c (text ∷ texts) w = shell_on (run_line c text w) (shell c texts)

-- The whole program. Both ways through `-server` make the same list of servers.
unfoldable pub client_main :
    {W : Type 0} → Flags → (String → Option (Stub W)) → List String → W → Ended × W
client_main f dial texts w =
    let c = new_kv_client dial (addresses f.peers) in
    if is_empty f.op
    then (let (printed, w') = shell c texts w in (record { printed = printed; status = 0 }, w'))
    else once f c w
