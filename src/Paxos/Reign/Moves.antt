-- ===== src/Paxos/Reign/Moves.antt =====
-- What the handlers of a follower do to its copy of the log
-- (multipaxos_kvstore/server/paxos_server.go).
use go_distributed_system_de.Base.{
  ℤ, pos, leb_ℤ, ltb, ◌≤◌, ◌<◌, ℕ, ◌==◌, ==_iff, Bool, true, List, length, get_elem?, some, ◌≡◌,
  ◌⊎◌, inl, inr, refl, sym, ap, ◌∙◌, subst, arith, Bool-cases, get_elem?-none, insert, int_eq, ◌>>◌,
  modify, pure,
}
use go_distributed_system_de.Types.Ballot.{BallotNumber, compare, greater_than}
use go_distributed_system_de.Types.Entry.{LogEntry}
use go_distributed_system_de.Types.KvStore.{KvStore}
use go_distributed_system_de.Persistence.{set_npromised, set_highest_accepted_ballot}
use go_distributed_system_de.Persistence.Durability.{save_cases}
use go_distributed_system_de.Persistence.Log.{
  updated, update_log-save, length-updated, get_elem?-updated,
}
use go_distributed_system_de.Paxos.State.{PaxosServer, Serve, on_ps, failed_accepted_ballot}
use go_distributed_system_de.Paxos.Acceptor.{handle_prepare, promise, handle_accept, accept_at}
use go_distributed_system_de.Paxos.Reign.Copies.{Copy, SameStore, Copy-kept}

pub same : (s : PaxosServer) → SameStore s s
same s = record { commit = refl; last = refl; store = refl }

promise-kept :
    (s : PaxosServer) (ballot : BallotNumber) (now : ℕ)
    → SameStore s (promise ballot now s).1 × ((promise ballot now s).1.ps.log ≡ s.ps.log)
unfolding promise set_npromised
promise-kept s ballot now = elim (save_cases (record s.ps { npromised = ballot })) [
  | inl (l, e) ↦ rw (e, promise) (record { commit = refl; last = refl; store = refl }, refl)
  | inr (l, x, e) ↦ rw (e, promise) (record { commit = refl; last = refl; store = refl }, refl)
]

pub prepare-kept :
    (s : PaxosServer) (ballot : BallotNumber) (now : ℕ)
    → SameStore s (handle_prepare ballot now s).1
      × ((handle_prepare ballot now s).1.ps.log ≡ s.ps.log)
unfolding handle_prepare
prepare-kept s ballot now = elim (Bool-cases (greater_than ballot s.ps.npromised)) [
  | inl e ↦ rw e (promise-kept s ballot now)
  | inr e ↦ rw e (same s, refl)
]

module _ (kv : KvStore) (log : List LogEntry) (top : ℕ) (s : PaxosServer)
    (c : Copy kv log top s) where
  pub Copy-prepare :
      (ballot : BallotNumber) (now : ℕ) → Copy kv log top (handle_prepare ballot now s).1
  Copy-prepare ballot now =
      let (h, e) = prepare-kept s ballot now in
      Copy-kept kv log top s (handle_prepare ballot now s).1 h e c

-- The log is as before, or has the entry at `k`.
abbrev pub Written : PaxosServer → ℕ → LogEntry → PaxosServer → Type 0
Written s k entry s' =
    SameStore s s' × ((s'.ps.log ≡ s.ps.log) ⊎ (s'.ps.log ≡ updated s.ps.log k entry))

-- The second save of an acceptance, and what follows it.
abbrev record_ballot : ℤ → BallotNumber → ℕ → Serve (Bool × ℤ × BallotNumber)
record_ballot index ballot now = do
  on_ps failed_accepted_ballot (set_highest_accepted_ballot index ballot)
  modify (λ s. record s { last_heartbeat = now })
  pure (true, index, ballot)

second_save-Written :
    (s t : PaxosServer) (k : ℕ) (ballot : BallotNumber) (entry : LogEntry) (now : ℕ)
    → SameStore s t
    → t.ps.log ≡ updated s.ps.log k entry
    → Written s k entry (record_ballot (pos k) ballot now t).1
unfolding set_highest_accepted_ballot
second_save-Written s t k ballot entry now h p =
    elim (save_cases (record t.ps {
      highest_accepted_ballot = insert (pos k) ballot t.ps.highest_accepted_ballot;
    })) [
      | inl (l, e) ↦ rw e (record { commit = h.commit; last = h.last; store = h.store }, inr p)
      | inr (l, x, e) ↦ rw e (record { commit = h.commit; last = h.last; store = h.store }, inr p)
    ]

accept_at-Written :
    (s : PaxosServer) (k : ℕ) (ballot : BallotNumber) (entry : LogEntry) (now : ℕ)
    → Written s k entry (accept_at (pos k) ballot entry now s).1
unfolding accept_at
accept_at-Written s k ballot entry now =
    rw (update_log-save k entry s.ps)
      (elim (save_cases (record s.ps { log = updated s.ps.log k entry })) [
        | inl (l, e) ↦ rw e (
            second_save-Written s _ k ballot entry now
              (record { commit = refl; last = refl; store = refl }) refl)
        | inr (l, x, e) ↦ rw e (record { commit = refl; last = refl; store = refl }, inr refl)
      ])

pub accept-Written :
    (s : PaxosServer) (k : ℕ) (ballot : BallotNumber) (entry : LogEntry) (now : ℕ)
    → entry.index ≡ pos k
    → Written s k entry (handle_accept ballot entry now s).1
unfolding handle_accept
accept-Written s k ballot entry now h =
    elim (Bool-cases (leb_ℤ (pos 0) (compare ballot s.ps.npromised))) [
      | inl e ↦ rw e (
          subst (λ i. Written s k entry (accept_at i ballot entry now s).1) (sym h)
            (accept_at-Written s k ballot entry now))
      | inr e ↦ rw e (same s, inl refl)
    ]

within :
    (log : List LogEntry) (k : ℕ) (entry : LogEntry) → get_elem? log k ≡ some entry → k < length log
within log k entry h = ground (arith, get_elem?-none log k)

module _ (kv : KvStore) (log : List LogEntry) (top : ℕ) (s : PaxosServer)
    (c : Copy kv log top s) where
  updated-agrees :
      (k : ℕ) (entry : LogEntry)
      → get_elem? log k ≡ some entry
      → k ≤ length s.ps.log
      → (j : ℕ) → j < length (updated s.ps.log k entry)
      → get_elem? (updated s.ps.log k entry) j ≡ get_elem? log j
  updated-agrees k entry h l j m = elim (Bool-cases (k == j)) [
    | inl e ↦
        get_elem?-updated s.ps.log k entry j ∙ rw e (sym h ∙ ap (get_elem? log) ((==_iff k j).0 e))
    | inr e ↦
        let n : j < length s.ps.log = ground (arith, ==_iff k j, length-updated s.ps.log k entry) in
        let b : ltb j (length s.ps.log) ≡ true = ground arith in
        get_elem?-updated s.ps.log k entry j ∙ rw (e, b) (c.agrees j n)
  ]

  Copy-updated :
      (k : ℕ) (entry : LogEntry) (s' : PaxosServer)
      → get_elem? log k ≡ some entry
      → k ≤ length s.ps.log
      → SameStore s s'
      → s'.ps.log ≡ updated s.ps.log k entry
      → Copy kv log top s'
  Copy-updated k entry s' h l m e =
      let size = length-updated s.ps.log k entry in
      record {
        size = rw e (omega (arith, size, within log k entry h, c.size));
        agrees = rw e (updated-agrees k entry h l);
        committed = c.committed;
        commit = m.commit ∙ c.commit;
        held = rw e (omega (arith, size, c.held));
        known = c.known;
        applied = c.applied;
        last = m.last ∙ c.last;
        done = c.done;
        store = m.store ∙ c.store;
      }

  pub Copy-accept :
      (k : ℕ) (ballot : BallotNumber) (entry : LogEntry) (now : ℕ)
      → get_elem? log k ≡ some entry
      → entry.index ≡ pos k
      → k ≤ length s.ps.log
      → Copy kv log top (handle_accept ballot entry now s).1
  Copy-accept k ballot entry now h i l =
      let s' = (handle_accept ballot entry now s).1 in
      let (m, written) = accept-Written s k ballot entry now i in
      elim written [
        | inl e ↦ Copy-kept kv log top s s' m e c
        | inr e ↦ Copy-updated k entry s' h l m e
      ]
