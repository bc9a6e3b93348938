-- ===== src/Rpc/Wire.antt =====
-- Protobuf messages, whose integers have 32 bits, and the conversions to and from them
-- (`convertLogEntryToPB`, `convertPBToLogEntry` of multipaxos_kvstore/server/paxos_client.go).
use go_distributed_system_de.Base.{
  ℤ, wrap32, wrap32_id, InInt32, String, List, [], ◌∷◌, map, Option, none, some, ◌≡◌, refl, ap₂,
  str_eq, if◌then◌else◌,
}
use go_distributed_system_de.Types.Ballot.{BallotNumber, zero_ballot}
use go_distributed_system_de.Types.Entry.{
  OperationType, op_put, op_delete, op_get, op_no_op, other, LogEntry, new_log_entry,
}

pub record PbBallot : Type 0 where
  pub term_number : ℤ
  pub server_id : ℤ

-- A message field that is absent is nil.
pub record PbEntry : Type 0 where
  pub index : ℤ
  pub ballot_num : Option PbBallot
  pub op_type : String
  pub key : String
  pub value : String

-- string(opType)
abbrev pub name_of : OperationType → String
name_of op_put = "Put"
name_of op_delete = "Delete"
name_of op_get = "Get"
name_of op_no_op = "No-Op"
name_of (other name) = name

-- types.OperationType(name)
abbrev pub op_of : String → OperationType
op_of name =
    if str_eq name "Put"
    then op_put
    else if str_eq name "Delete"
    then op_delete
    else if str_eq name "Get"
    then op_get
    else if str_eq name "No-Op"
    then op_no_op
    else other name

unfoldable pub ballot_to_pb : BallotNumber → PbBallot
ballot_to_pb b = record { term_number = wrap32 b.term_number; server_id = wrap32 b.server_id }

unfoldable pub pb_to_ballot : Option PbBallot → BallotNumber
pb_to_ballot none = zero_ballot
pb_to_ballot (some b) = record { term_number = b.term_number; server_id = b.server_id }

unfoldable pub convert_log_entry_to_pb : LogEntry → PbEntry
unfolding ballot_to_pb
convert_log_entry_to_pb entry = record {
  index = wrap32 entry.index;
  ballot_num = some (ballot_to_pb entry.ballot_num);
  op_type = name_of entry.op_type;
  key = entry.key;
  value = entry.value;
}

unfoldable pub convert_pb_to_log_entry : PbEntry → LogEntry
unfolding pb_to_ballot
convert_pb_to_log_entry e =
    new_log_entry e.index (pb_to_ballot e.ballot_num) (op_of e.op_type) e.key e.value

-- The values that 32 bits hold; `other` stands for no name of the four operations.
abbrev pub BallotFits : BallotNumber → Type 0
BallotFits b = InInt32 b.term_number × InInt32 b.server_id

abbrev pub EntryFits : LogEntry → Type 0
EntryFits entry =
    InInt32 entry.index
    × BallotFits entry.ballot_num
    × (op_of (name_of entry.op_type) ≡ entry.op_type)

abbrev pub AllFit : List LogEntry → Type 0
AllFit [] = Unit
AllFit (entry ∷ entries) = EntryFits entry × AllFit entries

pub pb_to_ballot-ballot_to_pb :
    (b : BallotNumber) → BallotFits b → pb_to_ballot (some (ballot_to_pb b)) ≡ b
unfolding pb_to_ballot ballot_to_pb
pb_to_ballot-ballot_to_pb b (t, i) = rw (wrap32_id b.term_number t, wrap32_id b.server_id i) refl

pub entry_round_trip :
    (e : LogEntry) → EntryFits e → convert_pb_to_log_entry (convert_log_entry_to_pb e) ≡ e
unfolding convert_pb_to_log_entry convert_log_entry_to_pb
entry_round_trip e (i, b, o) =
    rw (wrap32_id e.index i, pb_to_ballot-ballot_to_pb e.ballot_num b, o) refl

-- Entries whose integers fit in 32 bits arrive as they were sent.
pub entries_round_trip :
    (es : List LogEntry)
    → AllFit es
    → map convert_pb_to_log_entry (map convert_log_entry_to_pb es) ≡ es
entries_round_trip [] h = refl
entries_round_trip (e ∷ es) (h, hs) = ap₂ ◌∷◌ (entry_round_trip e h) (entries_round_trip es hs)
