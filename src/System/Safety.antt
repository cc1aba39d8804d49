-- ===== src/System/Safety.antt =====
-- What holds of the database in every state that the service can reach.
use program_capacity_invoice.Store.{Db}
use program_capacity_invoice.Treasury.Consumer.{ConsumerState}
use program_capacity_invoice.Programs.Consistency.{ConsistentPrograms}
use program_capacity_invoice.Programs.Uniqueness.{UniquePrograms, UniqueReferences}
use program_capacity_invoice.Reservations.Uniqueness.{
  UniqueIds, UniqueInvoices, AdmittedReservations,
}
use program_capacity_invoice.System.Reach.{Setting, Reach, Reach_keeps}
use program_capacity_invoice.System.Invariants.{
  ConsistentPrograms-kept, UniquePrograms-kept, UniqueReferences-kept, UniqueIds-kept,
  UniqueInvoices-kept, AdmittedReservations-kept,
}

-- Programs agree with their status, keys are unique, and amounts are positive.
pub record IsSound (db : Db) : Type 0 where
  pub consistent : ConsistentPrograms db
  pub unique : UniqueInvoices db
  pub unique_ids : UniqueIds db
  pub unique_programs : UniquePrograms db
  pub unique_references : UniqueReferences db
  pub admitted : AdmittedReservations db

-- From a sound database every sequence of API requests and Kafka messages, successful or not, leads
-- to a sound one: no program that is ACTIVE has more reserved than its limit, one that is OVER_LIMIT
-- has, no amount is negative, no two programs share an id or an external reference, no two
-- reservations share an id, and a program has at most one reservation for an invoice.
pub Reach-IsSound :
    (setting : Setting) (s t : ConsumerState) → Reach setting s t → IsSound s.db → IsSound t.db
Reach-IsSound setting s t r h = record {
  consistent = Reach_keeps ConsistentPrograms-kept setting r h.consistent;
  unique = Reach_keeps UniqueInvoices-kept setting r h.unique;
  unique_ids = Reach_keeps UniqueIds-kept setting r h.unique_ids;
  unique_programs = Reach_keeps UniquePrograms-kept setting r h.unique_programs;
  unique_references = Reach_keeps UniqueReferences-kept setting r h.unique_references;
  admitted = Reach_keeps AdmittedReservations-kept setting r h.admitted;
}
