-- ===== src/Paxos/Tests/Reigns.antt =====
-- A small reign of one leader (multipaxos_kvstore/server/paxos_server.go).
use go_distributed_system_de.Base.{
  pos, ◌≤ℤ◌, [], ◌∷◌, none, some, true, ◌≡◌, refl, arith, ok, insert, inc64,
}
use go_distributed_system_de.Types.Ballot.{compare}
use go_distributed_system_de.Types.Ballot.Order.{AtLeast-refl}
use go_distributed_system_de.Paxos.Learner.Replay.{HasApplied}
use go_distributed_system_de.Types.Entry.{LogEntry, new_log_entry, op_put}
use go_distributed_system_de.Types.KvStore.{new_kv_store, apply, apply_all}
use go_distributed_system_de.Persistence.{
  save, append_log, update_log, set_highest_accepted_ballot, get_log_entry,
}
use go_distributed_system_de.Types.Role.{ServerState, leader, follower}
use go_distributed_system_de.Paxos.Acceptor.{handle_accept}
use go_distributed_system_de.Paxos.Learner.{apply_committed_entries, apply_loop}
use go_distributed_system_de.Paxos.Replication.{begin_proposal, finish_proposal, commit}
use go_distributed_system_de.Paxos.Heartbeat.{handle_heartbeat, heard}
use go_distributed_system_de.Paxos.Reign.{
  Reign, change, next_entry, Steps, none_yet, then_one, proposes, accepts, finishes, hears,
  leader_applies, applies,
}
use go_distributed_system_de.Paxos.Reign.Copies.{Copy}
use go_distributed_system_de.Paxos.Reign.Lockstep.{InStep}
use go_distributed_system_de.Paxos.Reign.Agreement.{server, reign_agrees}
use go_distributed_system_de.Paxos.Reign.Gap.{past_gap, gap_applied_empty}
use go_distributed_system_de.Paxos.Tests.{ballot, leading, entry}
use go_distributed_system_de.Paxos.Tests

abbrev begun : Reign
begun = record { leader = leading; followers = λ i. Tests.server [] }

empty-Copy : (role : ServerState) → Copy new_kv_store [] 0 (record leading { state = role })
unfolding apply_all
empty-Copy role = record {
  size = omega arith;
  agrees = λ j l. refl;
  committed = 0;
  commit = refl;
  held = omega arith;
  known = omega arith;
  applied = 0;
  last = refl;
  done = omega arith;
  store = refl;
}

begun-InStep : InStep new_kv_store begun
begun-InStep = record {
  room = omega arith;
  top = 0;
  commit = refl;
  leads = empty-Copy leader;
  follow = λ i. empty-Copy follower;
}

-- A Put is proposed, accepted by one follower, committed, heard of and applied.
abbrev proposed : Reign
proposed = record begun { leader = (begin_proposal (next_entry op_put "k" "v" leading) leading).1 }

abbrev replicated : Reign
replicated = change 0 (handle_accept (ballot 1) entry 5 (begun.followers 0)).1 proposed

abbrev agreed : Reign
agreed = record replicated { leader = (finish_proposal (pos 0) 2 replicated.leader).1 }

abbrev announced : Reign
announced = change 0 (handle_heartbeat (ballot 1) (pos 0) 6 (agreed.followers 0)).1 agreed

abbrev led : Reign
led = record announced { leader = apply_committed_entries announced.leader }

abbrev applied : Reign
applied = change 0 (apply_committed_entries (led.followers 0)) led

run : Steps begun applied
unfolding begin_proposal append_log save finish_proposal commit handle_accept compare update_log
    set_highest_accepted_ballot
run =
    then_one
      (then_one
        (then_one
          (then_one
            (then_one (then_one none_yet (proposes op_put "k" "v" (omega arith)))
              (accepts 0 0 (ballot 1) entry 5 refl refl (omega arith)))
            (finishes 0 2 (omega arith)))
          (hears 0 1 1 (ballot 1) 6 refl (omega arith) (omega arith)))
        leader_applies)
      (applies 0)

reign_agrees_example :
    ((server none applied).kv_store ≡ (server (some 0) applied).kv_store)
    × ((server none applied).last_applied ≤ℤ applied.leader.commit_index)
unfolding begin_proposal append_log save finish_proposal commit handle_accept compare update_log
    set_highest_accepted_ballot handle_heartbeat heard apply_committed_entries apply_loop
    get_log_entry apply insert inc64
reign_agrees_example = reign_agrees new_kv_store begun applied none (some 0) begun-InStep run refl

-- A follower that misses the first entry.
abbrev second : LogEntry
second = new_log_entry (pos 1) (ballot 1) op_put "j" "w"

empty-HasApplied : HasApplied new_kv_store 0 (Tests.server [])
unfolding apply_all
empty-HasApplied = record { last = refl; store = refl }

gap_applied_empty_example :
    let t = past_gap 1 (ballot 1) second 5 6 (Tests.server []) in
    let late = handle_accept (ballot 1) entry 7 t in
    ((handle_accept (ballot 1) second 5 (Tests.server [])).0 ≡ ok (true, pos 1, ballot 1))
    × (t.last_applied ≡ pos 1)
    × (t.kv_store ≡ apply_all new_kv_store (second ∷ []))
    × (late.0 ≡ ok (true, pos 0, ballot 1))
    × ((apply_committed_entries late.1).kv_store ≡ t.kv_store)
gap_applied_empty_example =
    gap_applied_empty new_kv_store 0 1 0 5 6 7 (ballot 1) second entry (Tests.server []) refl
      empty-HasApplied refl (AtLeast-refl (ballot 1)) refl (omega arith) (omega arith) refl
      (omega arith)
