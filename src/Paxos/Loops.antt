-- ===== src/Paxos/Loops.antt =====
-- The event loop of a server (`Start`, `electionLoop`, `applyLoop` of
-- multipaxos_kvstore/server/paxos_server.go).
pub mod Elects
use go_distributed_system_de.Base.{
  ℕ, suc, zero, Bool, true, false, List, [], ◌∷◌, Option, none, some, Outcome, ok, ◌>>=◌, ◌>>◌,
  pure, gets, modify, continue,
}
use go_distributed_system_de.Paxos.State.{PaxosServer, Serve, Error}
use go_distributed_system_de.Paxos.Learner.{apply_committed_entries}
use go_distributed_system_de.Paxos.Election.{PrepareReply, start_election}
use go_distributed_system_de.Paxos.Heartbeat.{
  HeartbeatReply, TickAction, elect, send_beats, idle, on_tick, on_signal, send_heartbeats,
}

-- What the `select` of electionLoop takes: the closed stop channel, a heartbeat's signal, or a tick,
-- with the time and with the replies to the messages that the tick may send.
pub data LoopEvent : Type 0 where
  stops : LoopEvent
  signalled : ℕ → LoopEvent
  ticked : ℕ → List PrepareReply → List HeartbeatReply → LoopEvent

-- How the loop stands after a list of events: it has returned, it waits for the next one, or it hangs
-- in a tick whose heartbeats never return.
pub data LoopEnd : Type 0 where
  returned waits hangs : LoopEnd

beats_sent : Option PaxosServer → PaxosServer → Outcome Error Bool × PaxosServer
beats_sent none s = (ok false, s)
beats_sent (some s') s = (ok true, s')

-- Whether what the tick does returns.
unfoldable pub on_action : TickAction → List PrepareReply → List HeartbeatReply → Serve Bool
unfolding beats_sent
on_action elect replies beats = do start_election replies; pure true
on_action send_beats replies beats = λ s. beats_sent (send_heartbeats beats s) s
on_action idle replies beats = pure true

if_returns : Bool → Serve LoopEnd → Serve LoopEnd
if_returns true rest = rest
if_returns false rest = pure hangs

unfoldable pub loop_events : List LoopEvent → Serve LoopEnd
unfolding if_returns
loop_events [] = pure waits
loop_events (stops ∷ events) = pure returned
loop_events (signalled now ∷ events) = do modify (on_signal now); loop_events events
loop_events (ticked now replies beats ∷ events) = do
  action ← gets (on_tick now)
  back ← on_action action replies beats
  if_returns back (loop_events events)

-- The loop takes the time at which it begins for that of a heartbeat.
unfoldable pub election_loop : ℕ → List LoopEvent → Serve LoopEnd
election_loop start events = do
  modify (λ s. record s { last_heartbeat = start })
  loop_events events

-- The learner's loop, for a number of ticks.
unfoldable pub learner_loop : ℕ → PaxosServer → PaxosServer
learner_loop zero s = s
learner_loop (suc ticks) s = learner_loop ticks (apply_committed_entries s)
