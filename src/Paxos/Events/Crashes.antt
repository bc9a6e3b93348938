-- ===== src/Paxos/Events/Crashes.antt =====
-- A server that may crash and start again from its file (multipaxos_kvstore/server/paxos_server.go,
-- multipaxos_kvstore/persistence/persistence.go).
use go_distributed_system_de.Base.{
  ℤ, ℕ, String, true, false, List, Option, none, some, Outcome, ok, ◌≡◌, ◌≤◌, length, arith, inl,
  inr, sym, subst,
}
use go_distributed_system_de.Types.Ballot.{BallotNumber}
use go_distributed_system_de.Types.Ballot.Order.{AtLeast, AtLeast-refl, AtLeast-trans}
use go_distributed_system_de.Persistence.Durability.{IsDurable}
use go_distributed_system_de.Persistence.{
  PersistentState, PersistentData, SaveOutcome, read_file, new_persistent_state,
}
use go_distributed_system_de.Paxos.State.{PaxosServer, Error, new_paxos_server}
use go_distributed_system_de.Paxos.Events.{Step}
use go_distributed_system_de.Paxos.Events.Written.{Written}
use go_distributed_system_de.Paxos.Events.Writes.{Step-Written}

-- A new start as a follower, in the directory of the server `s`. The coming saves may end in any way.
abbrev pub start_again : PaxosServer → List SaveOutcome → ℕ → Outcome Error PaxosServer
start_again s later now =
    new_paxos_server s.server_id s.peers
      (new_persistent_state s.server_id true (read_file s.ps.file) later) false now

-- Any number of steps and new starts, the last one last.
pub data Lives (s : PaxosServer) : PaxosServer → Type 0 where
  begins : Lives s s
  takes_step : {t u : PaxosServer} → Lives s t → Step t u → Lives s u
  restarts :
      {t u : PaxosServer} (later : List SaveOutcome) (now : ℕ)
      → Lives s t
      → start_again t later now ≡ ok u
      → Lives s u

-- A promise of at least `b` and a log of at least `n` entries, in memory and in the file.
abbrev pub FileHolds : BallotNumber → ℕ → Option PersistentData → Type 0
FileHolds b n none = ⊥
FileHolds b n (some d) = AtLeast d.npromised b × (n ≤ length d.log)

pub record Holds (b : BallotNumber) (n : ℕ) (ps : PersistentState) : Type 0 where
  pub promised : AtLeast ps.npromised b
  pub log : n ≤ length ps.log
  pub file : FileHolds b n ps.file

Written-Holds :
    (b : BallotNumber) (n : ℕ) (ps ps' : PersistentState)
    → Written ps ps'
    → Holds b n ps
    → Holds b n ps'
Written-Holds b n ps ps' w h = record {
  promised = AtLeast-trans ps'.npromised ps.npromised b w.promised h.promised;
  log = omega (arith, w.longer, h.log);
  file = elim w.file [
    | inl e ↦ subst (FileHolds b n) (sym e) h.file
    | inr (d, e, l, m) ↦
        subst (FileHolds b n) (sym e)
          (AtLeast-trans d.npromised ps.npromised b l h.promised, omega (arith, m, h.log))
  ];
}

abbrev StartHolds : BallotNumber → ℕ → Outcome Error PaxosServer → Type 0
StartHolds b n (ok s) = Holds b n s.ps
StartHolds b n _ = Unit

start-Holds :
    (b : BallotNumber) (n : ℕ) (file : Option PersistentData) (id : ℤ) (peers : List String)
    (later : List SaveOutcome) (now : ℕ)
    → FileHolds b n file
    → StartHolds b n
        (new_paxos_server id peers (new_persistent_state id true (read_file file) later) false now)
unfolding new_paxos_server new_persistent_state
start-Holds b n none id peers later now h = absurd h
start-Holds b n (some d) id peers later now (h, l) = record { promised = h; log = l; file = (h, l) }

-- What is on disk survives all steps and all crashes.
pub Lives-Holds :
    (b : BallotNumber) (n : ℕ) {s t : PaxosServer} → Lives s t → Holds b n s.ps → Holds b n t.ps
Lives-Holds b n begins h = h
Lives-Holds b n (takes_step {t = t} {u = u} before step) h =
    Written-Holds b n t.ps u.ps (Step-Written step) (Lives-Holds b n before h)
Lives-Holds b n (restarts {t = t} {u = u} later now before e) h =
    subst (StartHolds b n) e
      (start-Holds b n t.ps.file t.server_id t.peers later now (Lives-Holds b n before h).file)

-- A state that has been saved holds its own promise and log.
pub IsDurable-Holds : (ps : PersistentState) → IsDurable ps → Holds ps.npromised (length ps.log) ps
IsDurable-Holds ps h =
    let l = AtLeast-refl ps.npromised in
    let n : length ps.log ≤ length ps.log = omega arith in
    record {
      promised = l;
      log = n;
      file = subst (FileHolds ps.npromised (length ps.log)) (sym h) (l, n);
    }

-- Once a server has saved its state, no steps and no crashes with a new start as a follower take the
-- promise back or shorten the log, neither in memory nor in the file: the file is there, with a
-- promise that is at least the saved one and a log that is at least as long. The saves of these
-- steps may fail in any way.
pub Lives-IsDurable :
    (s t : PaxosServer) → IsDurable s.ps → Lives s t → Holds s.ps.npromised (length s.ps.log) t.ps
Lives-IsDurable s t h l = Lives-Holds s.ps.npromised (length s.ps.log) l (IsDurable-Holds s.ps h)
