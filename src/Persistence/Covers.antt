-- ===== src/Persistence/Covers.antt =====
-- Which ballots the entries of a log have: what a write at a position keeps
-- (multipaxos_kvstore/persistence/persistence.go).
use go_distributed_system_de.Base.{
  pos, ◌==◌, ==_iff, ℕ, false, List, [], ◌∷◌, some, ◌≡◌, ◌∙◌, sym, ap, arith, Bool-cases, inl, inr,
  get_elem?-none,
}
use go_distributed_system_de.Types.Ballot.{BallotNumber}
use go_distributed_system_de.Types.Ballot.Order.{AtLeast, AtLeast-refl, AtLeast-trans}
use go_distributed_system_de.Types.Entry.{LogEntry}
use go_distributed_system_de.Persistence.{PersistentState, get_log_entry}
use go_distributed_system_de.Persistence.Log.{
  updated, expected, get_log_entry-get_elem?, get_elem?-updated,
}

-- The log holds an entry at position `j` whose ballot is at least `b`.
abbrev pub Covers : PersistentState → ℕ → BallotNumber → Type 0
Covers ps j b = (x : LogEntry) × (get_log_entry ps (pos j) ≡ some x) × AtLeast x.ballot_num b

-- No entry has a negative index.
abbrev pub AllPositioned : List LogEntry → Type 0
AllPositioned [] = Unit {0}
AllPositioned (e ∷ es) = ((i : ℕ) × (e.index ≡ pos i)) × AllPositioned es

-- The log covers each entry at its index.
abbrev pub AllCovered : PersistentState → List LogEntry → Type 0
AllCovered ps [] = Unit {0}
AllCovered ps (e ∷ es) = ((i : ℕ) → e.index ≡ pos i → Covers ps i e.ballot_num) × AllCovered ps es

module _ (ps after : PersistentState) (i : ℕ) (entry : LogEntry)
    (write : after.log ≡ updated ps.log i entry) where
  read : (j : ℕ) → get_log_entry after (pos j) ≡ expected ps.log i entry j
  read j = get_log_entry-get_elem? after j ∙ rw write (get_elem?-updated ps.log i entry j)

  pub written : get_log_entry after (pos i) ≡ some entry
  written = read i ∙ ground arith

  kept :
      (j : ℕ) (x : LogEntry)
      → (i == j) ≡ false
      → get_log_entry ps (pos j) ≡ some x
      → get_log_entry after (pos j) ≡ some x
  kept j x e g = read j ∙ ground (arith, get_log_entry-get_elem? ps j, get_elem?-none ps.log j)

  pub updated_covered : Covers after i entry.ballot_num
  updated_covered = (entry, written, AtLeast-refl entry.ballot_num)

  -- A write over an entry whose ballot is not above the new one's keeps every cover.
  pub updated-Covers :
      ((x : LogEntry) → get_log_entry ps (pos i) ≡ some x → AtLeast entry.ballot_num x.ballot_num)
      → (j : ℕ) (b : BallotNumber) → Covers ps j b
      → Covers after j b
  updated-Covers newer j b (x, g, a) = elim (Bool-cases (i == j)) [
    | inl e ↦
        let p : j ≡ i = sym ((==_iff i j).0 e) in
        rw p (
          entry,
          written,
          AtLeast-trans entry.ballot_num x.ballot_num b
              (newer x (ap (λ k. get_log_entry ps (pos k)) (sym p) ∙ g)) a,
        )
    | inr e ↦ (x, kept j x e g, a)
  ]
