-- ===== src/Lib.antt =====
-- Gather HQs, the event management platform: a model of its core services and what holds of them.
--
-- The platform lets a group publish events, take responses and payments for them, and pay for
-- its own site. The parts modelled here meet in the database: a response
-- (events/registration.py) writes registrations and participants; at an event that sells
-- tickets the registration awaits payment, and payments/services.py reserves tickets for it,
-- marks its order paid or failed as Stripe reports, and refunds it, and follows the group's
-- account at Stripe, its disputes and its paid memberships. attendance/services.py checks in
-- who comes, events/services.py makes the dates of a series, communications/campaigns.py writes
-- to the group's contacts within its allowance of SMS segments, communications/services.py
-- delivers what it writes, reviews/services.py keeps what attendees say of the events, and
-- subscriptions/services.py follows the site's own subscription.
--
-- Files and sources:
--   Base            numbers, tables as lists (`find` is `.filter(…).first()`, `update_if` is
--                   `.update(…)`), text with `str.strip`, calls that may raise
--   Schema          the rows of events/models.py, payments/models.py, attendance/models.py and of
--                   contacts/models.py (`Contact`, and the members with their subscriptions in
--                   Members), and the record `Db` of the tables
--   Events          events/registration.py: Access (`_validate_registration_access`), Spots (the
--                   queries for taken spots), Registration (`save_response`), PublicResponse
--                   (`save_public_response`); their children hold the proofs
--   Payments        payments/fees.py in Fees; payments/services.py in Inventory
--                   (`ticket_inventory` and the counts of places), Orders (`fail_order`,
--                   `release_expired_holds`, `mark_order_paid`), Checkout (`reserve_ticket_order`),
--                   Refunds (`prepare_refund`, `apply_refund_object`), Objects (what Stripe reports,
--                   `_order_from_object`), Accounts (`synchronize_connected_account`,
--                   `refresh_connected_account` and when an account is disconnected), Disputes
--                   (`apply_charge`, `apply_dispute`), Members (`start_member_subscription`), Dues
--                   (`apply_member_subscription`, `apply_member_invoice`), Webhook
--                   (`process_connect_event`) and Reconcile (`reconcile_site_commerce`,
--                   `retry_failed_connect_events`); their children hold the proofs
--   Subscriptions   subscriptions/models.py in Model; subscriptions/services.py in Access
--                   (`_set_status`, `synchronize_access`), Webhook (`_apply_stripe_event`) and
--                   Inbox (`process_stripe_event`); Status, Delivery and Deadlines hold the proofs
--   Attendance      attendance/services.py: `set_check_in`; Lookup, Track and Marks hold the proofs
--   Series          events/services.py: Dates (date times and `_add_months`), Starts
--                   (`occurrence_starts`), Update (`update_occurrences_from`) and Page
--                   (`public_occurrence_url`, with the lookup of `occurrence_detail` in
--                   events/views.py); Months, Order, Spec and Shift hold the proofs
--   Campaigns       communications/campaigns.py, with its tables in Model: Segments
--                   (`sms_segment_count`), Audience (who a campaign reaches and its preview), Sms
--                   (reserving, using and releasing segments) and Launch (`launch_campaign`,
--                   `cancel_campaign`); Counting, Ledger, Steps, Reserve, Cancel and Calls hold the
--                   proofs
--   Delivery        communications/services.py: Queue (`enqueue_message`, `queued_message_ids`), Send
--                   (`deliver_message`, with `refresh_campaign_status` of campaigns.py), Workers
--                   (workers and the scheduler side by side); Messages, Claims, Limits, Once and
--                   Queued hold the proofs
--   Lifecycle       sites/services.py and ops/services.py, with their tables in Model: Access
--                   (`suspend_site_access`, `resume_site_access`, `start_site_delete_hold`,
--                   `cancel_site_delete_hold`) and Deletion (`request_site_deletion`,
--                   `approve_site_deletion`, `cancel_site_deletion`, `execute_site_deletion`);
--                   Guarded, Kept, Calls and Live hold the proofs
--   Reviews         reviews/services.py, with its tables in Model: Writing (`save_review`,
--                   `delete_review`, `respond_to_review`) and Moderation (`report_review`,
--                   `moderate_review`); Ledger, Edits, Reporting, Calls, Saved and Presence hold
--                   the proofs
--   Samples         rows for the examples, which stand in the Examples modules
--
-- How the code is read. A service takes the tables and returns the new ones, or raises and,
-- being under `transaction.atomic`, leaves them alone; row locks make the calls run one after
-- another. A row's UUID is a number below `next_id`, which stands for the ids to come. The ids
-- and codes of Stripe, which are only compared and tested for blank, are numbers, 0 for the
-- blank string. An instant is its number of seconds, and the present instant is one argument
-- `now` of a call, where the source reads the clock more than once. Amounts are whole cents.
-- Columns that only serve for display (titles, descriptions, time stamps that no code reads)
-- are left out, and so are audit records and the messages that a call queues. `str.casefold` is
-- a parameter. The random ticket codes are a list of draws; a call whose draws run out raises
-- `draws_exhausted`, so that its theorems speak of the runs in which the loop ends.
-- `process_stripe_event` records a failure outside the transaction, so it returns the new
-- tables in both cases, and so does `process_connect_event`, which works on the tables with
-- their inbox (`Commerce`). An object of Stripe is a record of the columns that the code reads
-- of it, and what Stripe answers to a reconciliation is a parameter. A date time of a series is
-- a day of the calendar with the second of that day. The loop of `occurrence_starts` has 500
-- rounds as fuel, which are shown to be enough, since the code raises after as many starts; all
-- other loops recur on a list. Launches and cancellations of campaigns, and uses and releases
-- of their segments, are steps on its tables, taken in any order, where a message is delivered
-- on the allowance that its campaign has reserved from. `deliver_message` is two steps, since
-- it sends outside a transaction: the claim, and what the worker writes when the provider has
-- answered; claims and answers of several workers alternate in any way. The calls on reviews
-- are steps as well; `report_review` is given the copy of the review that its view has read,
-- and of the constraints of the tables those on the rating and on a participant's single review
-- raise an error. Of the constraints on occurrences, an update that moves some is refused if
-- the rows that it leaves break them; a database that checks each row as it is written may
-- refuse more. A site and its subscription are one row, and the change of a subscription at
-- Stripe is a parameter that returns or fails.
--
-- Not modelled: views, forms, admin, settings and middleware, whose work is Django's; the calls
-- of Stripe, of the mail provider and of the storage; the submission of a refund, the session
-- of a checkout and the summaries of payments/services.py; test messages of a campaign
-- (`queue_campaign_test`), which let a draft hold segments; the expansion of a campaign into
-- messages and the callbacks of the providers; `create_event_series` with its local times; the
-- signed tokens of reviews and the requests for them; creating a site, support access and the
-- rows of other tables that go with a deleted site; content and the workspace tools.
pub mod Attendance
pub mod Base
pub mod Campaigns
pub mod Delivery
pub mod Events
pub mod Lifecycle
pub mod Payments
pub mod Reviews
pub mod Samples
pub mod Schema
pub mod Series
pub mod Subscriptions
