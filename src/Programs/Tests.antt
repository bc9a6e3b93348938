-- ===== src/Programs/Tests.antt =====
-- Small runs of the programs (multipaxos_kvstore/main.go, multipaxos_kvstore/client/client.go,
-- client_main/client.go).
use go_distributed_system_de.Base.{
  String, true, false, List, [], ◌∷◌, some, none, ◌≡◌, ◌⊎◌, refl, ok, pos, ◌<ℤ◌, ◌≤ℤ◌, ◌<◌, ◌≤◌,
  ◌*◌, ◌+◌, ◌%◌, length,
}
use go_distributed_system_de.Text.{
  to_lower, trim_space, trim_left, trim_right, trim_onto, is_space, join_from,
}
use go_distributed_system_de.Paxos.Clients.{text}
use go_distributed_system_de.KvClient.{Call, Stub, KvClient}
use go_distributed_system_de.Persistence.{PersistentState}
use go_distributed_system_de.Paxos.State.{PaxosServer, make_server, majority, new_paxos_server}
use go_distributed_system_de.Types.Ballot.{new_ballot_number}
use go_distributed_system_de.Programs.{addresses}
use go_distributed_system_de.Programs.Shell
use go_distributed_system_de.Programs.Shell.{run_line, after_call, once}
use go_distributed_system_de.Programs.Lines.{asks_put, sent, run_line-join_sends}
use go_distributed_system_de.Programs.Once.{OnceOutcome, once_lem}
use go_distributed_system_de.Programs.ServerMain
use go_distributed_system_de.Programs.ServerMain.{Machine, server_main, serves, listen, build}
use go_distributed_system_de.Programs.Outsider.{majorities_meet, voters}

-- A server that keeps what it is asked to put.
abbrev keep : String → Call (List String)
keep value w = (some (record { success = true; message = text "OK"; value = "" }), value ∷ w)

abbrev stub : Stub (List String)
stub = record { put = λ key value. keep value; get = λ key. keep key; delete = λ key. keep key }

abbrev client : KvClient (List String)
client = record { servers = "s" ∷ []; clients = some stub ∷ []; conns = some "s" ∷ [] }

abbrev typed : String
typed = "  PUT k hello world "

run_line-join_sends_example :
    run_line client typed [] ≡ after_call (sent client (asks_put "k" "hello" ("world" ∷ [])) [])
unfolding to_lower trim_space trim_left trim_right trim_onto is_space join_from
run_line-join_sends_example =
    run_line-join_sends client (asks_put "k" "hello" ("world" ∷ [])) typed "PUT" [] refl refl (
      (refl, (refl, (refl, tt))),
      (
        (refl, tt),
        (
          (refl, (refl, (refl, (refl, (refl, tt))))),
          ((refl, (refl, (refl, (refl, (refl, tt))))), tt),
        ),
      ),
    )

abbrev put_flags : Shell.Flags
put_flags = record { server = ""; op = "put"; key = "k"; value = "v"; peers = pos 5 }

once_lem_example : OnceOutcome put_flags client [] (once put_flags client [])
once_lem_example = once_lem put_flags client []

abbrev memory : PersistentState
memory = record {
  log = [];
  npromised = new_ballot_number (pos 0) (pos 0);
  highest_accepted_ballot = [];
  file = none;
  saves = [];
}

abbrev machine : Machine
machine = record {
  make_dir = λ dir. true;
  load = λ dir. ok memory;
  join_state = λ dir. dir;
  listens = λ port. true;
  now = 0;
}

abbrev outside : ServerMain.Flags
outside = record { id = pos 4; port = pos 8005; role_leader = false; peers = pos 3; data_dir = "d" }

abbrev outsider : PaxosServer
outsider = make_server (pos 4) (addresses (pos 3)) memory 0

majorities_meet_example :
    ((outside.id <ℤ outside.peers) × (voters outsider < 2 * majority outsider))
    ⊎ ((outside.peers ≤ℤ outside.id)
        × (voters outsider ≡ length outsider.peers + 1)
        × ((length outsider.peers % 2 ≡ 0) ⊎ (2 * majority outsider ≤ voters outsider)))
unfolding server_main build listen new_paxos_server
majorities_meet_example = majorities_meet outside machine outsider refl
