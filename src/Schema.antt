-- ===== src/Schema.antt =====
-- The database tables that registrations, payments, members and attendance share. A row keeps the columns
-- that the modelled code reads or compares; `next_id` stands for the UUIDs of rows to come.
pub mod Events
pub mod Payments
pub mod Attendance
pub mod Members
use event_management.Base.{ℕ, List}
use Events.{Event, Occurrence, Invitation, Registration, Participant, History, Contact}
use Payments.{
  ConnectedAccount, TicketType, Order, OrderLine, Hold, Ticket, Refund, Dispute, Transition,
}
use Members.{Member, MemberSubscription, MembershipPayment}
use Attendance.{AttendanceStatus, AttendanceRecord}

pub record Db : Type 0 where
  pub next_id : ℕ
  pub events : List Event
  pub occurrences : List Occurrence
  pub contacts : List Contact
  pub invitations : List Invitation
  pub registrations : List Registration
  pub participants : List Participant
  pub histories : List History
  pub accounts : List ConnectedAccount
  pub ticket_types : List TicketType
  pub orders : List Order
  pub lines : List OrderLine
  pub holds : List Hold
  pub tickets : List Ticket
  pub refunds : List Refund
  pub disputes : List Dispute
  pub transitions : List Transition
  pub attendance : List AttendanceStatus
  pub attendance_records : List AttendanceRecord
  pub members : List Member
  pub member_subscriptions : List MemberSubscription
  pub membership_payments : List MembershipPayment
