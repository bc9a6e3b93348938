-- ===== src/Paxos/Loops/Elects.antt =====
-- A follower that hears nothing becomes leader (`electionLoop` of
-- multipaxos_kvstore/server/paxos_server.go).
use go_distributed_system_de.Base.{
  ℕ, ◌+◌, ◌*◌, ◌≤◌, ◌<◌, List, [], ◌∷◌, ◌++◌, Outcome, ok, err, panic, true, pure, continue, ◌≡◌,
  refl, arith,
}
use go_distributed_system_de.Types.Role.{follower, leader}
use go_distributed_system_de.Paxos.State.{PaxosServer, Error, majority}
use go_distributed_system_de.Paxos.Election.{PrepareReply, start_election}
use go_distributed_system_de.Paxos.Election.Ballots.{promises}
use go_distributed_system_de.Paxos.Election.Progress.{AllAdoptable, election_succeeds}
use go_distributed_system_de.Paxos.Heartbeat.{HeartbeatReply, elect, idle, on_tick}
use go_distributed_system_de.Paxos.Loops.{
  LoopEvent, stops, signalled, ticked, waits, if_returns, on_action, loop_events, election_loop,
}

-- Nothing but ticks, none of them later than three timeouts after `start`.
abbrev pub AllEarly : ℕ → ℕ → List LoopEvent → Type 0
AllEarly start timeout [] = Unit {0}
AllEarly start timeout (ticked now replies beats ∷ events) =
    (now ≤ start + timeout * 3) × AllEarly start timeout events
AllEarly start timeout (event ∷ events) = ⊥

early_tick :
    (s : PaxosServer) (now : ℕ)
    → s.state ≡ follower
    → now ≤ s.last_heartbeat + s.heartbeat_timeout * 3
    → on_tick now s ≡ idle
unfolding on_tick
early_tick s now h l = ground arith

late_tick :
    (s : PaxosServer) (now : ℕ)
    → s.state ≡ follower
    → s.last_heartbeat + s.heartbeat_timeout * 3 < now
    → on_tick now s ≡ elect
unfolding on_tick
late_tick s now h l = ground arith

early_events :
    (early rest : List LoopEvent) (s : PaxosServer)
    → s.state ≡ follower
    → AllEarly s.last_heartbeat s.heartbeat_timeout early
    → loop_events (early ++ rest) s ≡ loop_events rest s
unfolding loop_events on_action if_returns
early_events [] rest s h a = refl
early_events (stops ∷ early) rest s h a = absurd a
early_events (signalled now ∷ early) rest s h a = absurd a
early_events (ticked now replies beats ∷ early) rest s h (l, a) =
    rw (early_tick s now h l) (early_events early rest s h a)

elected_last :
    (r : Outcome Error (Unit {0}) × PaxosServer)
    → r.0 ≡ ok tt
    → r.1.state ≡ leader
    → let o =
        continue
          (continue r.0 (λ _. pure true) r.1).0
          (λ back. if_returns back (loop_events []))
          (continue r.0 (λ _. pure true) r.1).1 in
      (o.0 ≡ ok waits) × (o.1.state ≡ leader)
unfolding loop_events if_returns
elected_last (ok u, t) e h = (refl, h)
elected_last (err x, t) e h = absurd (ground arith)
elected_last (panic, t) e h = absurd (ground arith)

last_event :
    (t : PaxosServer) (now : ℕ) (replies : List PrepareReply) (beats : List HeartbeatReply)
    → t.state ≡ follower
    → t.last_heartbeat + t.heartbeat_timeout * 3 < now
    → (start_election replies t).0 ≡ ok tt
    → (start_election replies t).1.state ≡ leader
    → let r = loop_events (ticked now replies beats ∷ []) t in
      (r.0 ≡ ok waits) × (r.1.state ≡ leader)
unfolding loop_events on_action
last_event t now replies beats h l done leads =
    rw (late_tick t now h l) (elected_last (start_election replies t) done leads)

-- A follower whose saves succeed and that gets no heartbeat leads, and its loop goes on, after the first tick of its loop
-- that comes later than three heartbeat timeouts after the start, however many ticks came before
-- it, if that tick's election gets promises which with its own vote are a majority. (No promise carries
-- an entry with a negative index.)
pub silent_follower_leads :
    (s : PaxosServer) (start now : ℕ) (early : List LoopEvent) (replies : List PrepareReply)
    (beats : List HeartbeatReply)
    → s.state ≡ follower
    → s.ps.saves ≡ []
    → AllEarly start s.heartbeat_timeout early
    → start + s.heartbeat_timeout * 3 < now
    → AllAdoptable replies
    → majority s ≤ 1 + promises replies
    → let r = election_loop start (early ++ ticked now replies beats ∷ []) s in
      (r.0 ≡ ok waits) × (r.1.state ≡ leader)
unfolding election_loop
silent_follower_leads s start now early replies beats h v a l p m =
    let t : PaxosServer = record s { last_heartbeat = start } in
    let (done, leads) = election_succeeds t replies v p m in
    rw (early_events early (ticked now replies beats ∷ []) t h a)
      (last_event t now replies beats h l done leads)
