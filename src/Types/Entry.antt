-- ===== src/Types/Entry.antt =====
-- Log entries (`LogEntry` of multipaxos_kvstore/types/types.go).
use go_distributed_system_de.Base.{ℤ, pos, String}
use go_distributed_system_de.Types.Ballot.{BallotNumber, zero_ballot}

-- `other` is any string that names none of the four operations; the zero value is `other ""`.
pub data OperationType : Type 0 where
  op_put op_delete op_get op_no_op : OperationType
  other : String → OperationType

pub record LogEntry : Type 0 where
  pub index : ℤ
  pub ballot_num : BallotNumber
  pub op_type : OperationType
  pub key : String
  pub value : String

abbrev pub new_log_entry : ℤ → BallotNumber → OperationType → String → String → LogEntry
new_log_entry index ballot op key value = record {
  index = index;
  ballot_num = ballot;
  op_type = op;
  key = key;
  value = value;
}

-- `LogEntry{}`, with which `UpdateLog` fills gaps.
abbrev pub zero_entry : LogEntry
zero_entry = new_log_entry (pos 0) zero_ballot (other "") "" ""
