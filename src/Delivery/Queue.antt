-- ===== src/Delivery/Queue.antt =====
-- communications/services.py: `enqueue_message` and `queued_message_ids`. Keys for the removal of
-- duplicates are numbers, 0 for the blank one; the dispatch after the commit is the caller's.
use event_management.Base.{
  ℕ, ◌+◌, Bool, true, false, ◌&&◌, not, Option, none, some, List, [], ◌∷◌, ◌++◌, ◌==◌, leb, ltb,
  if◌then◌else◌, any, find, select, take, update_if, Result, ok, raise_if, ◌>>◌,
}
use event_management.Campaigns.Model.{
  Related, MessageStatus, OutboundMessage, Mail, Error, other_site,
}
use event_management.Campaigns.Launch.{is_own, is_pending}

abbrev pub max_delivery_attempts : ℕ
max_delivery_attempts = 5

-- A message with the site, the key and the columns that a new row gets by default.
abbrev pub new_message : ℕ → ℕ → ℕ → ℕ → OutboundMessage → OutboundMessage
new_message now id site_id dedupe_key values = record values {
  id = id;
  site_id = site_id;
  dedupe_key = dedupe_key;
  status = MessageStatus.queued;
  available_at = now;
  attempts = 0;
  sent_at = none;
  provider = 0;
  provider_message_id = 0;
  updated_at = now;
}

-- The message, whether it is new, and the tables.
unfoldable pub create_message : ℕ → ℕ → ℕ → OutboundMessage → Mail → (OutboundMessage × Bool) × Mail
create_message now site_id dedupe_key values m =
    let x = new_message now m.next_id site_id dedupe_key values in
    ((x, true), record m { next_id = m.next_id + 1; messages = m.messages ++ x ∷ [] })

unfoldable pub message_or_created :
    ℕ → ℕ → ℕ → OutboundMessage → Option OutboundMessage → Mail → (OutboundMessage × Bool) × Mail
unfolding create_message
message_or_created now site_id dedupe_key values (some x) m = ((x, false), m)
message_or_created now site_id dedupe_key values none m =
    create_message now site_id dedupe_key values m

-- The row that a key names.
unfoldable pub find_keyed : ℕ → ℕ → Mail → Option OutboundMessage
find_keyed site_id dedupe_key m =
    find (λ (x : OutboundMessage). x.site_id == site_id && x.dedupe_key == dedupe_key) m.messages

-- `enqueue_message`; `related` are the rows that the message refers to, `values` its other columns.
unfoldable pub enqueue_message :
    ℕ
    → ℕ
    → List (Option Related)
    → ℕ
    → OutboundMessage
    → Mail
    → Result Error ((OutboundMessage × Bool) × Mail)
unfolding create_message message_or_created find_keyed
enqueue_message now site_id related dedupe_key values m = do
  raise_if (any (λ r. not (is_own site_id r)) related) other_site
  ok (
      if dedupe_key == 0
      then create_message now site_id dedupe_key values m
      else message_or_created now site_id dedupe_key values (find_keyed site_id dedupe_key m) m)

abbrev pub is_processing : MessageStatus → Bool
is_processing MessageStatus.processing = true
is_processing _ = false

-- 15 minutes
abbrev pub stale_after : ℕ
stale_after = 900

unfoldable pub requeue_stale : ℕ → List OutboundMessage → List OutboundMessage
requeue_stale now =
    update_if (λ x. is_processing x.status && leb (x.updated_at + stale_after) now)
      (λ x. record x { status = MessageStatus.queued })

-- The messages that are due, least recent first.
unfoldable pub insert_by_available : OutboundMessage → List OutboundMessage → List OutboundMessage
insert_by_available x [] = x ∷ []
insert_by_available x (y ∷ ys) =
    let rest = insert_by_available x ys in
    if leb x.available_at y.available_at then x ∷ y ∷ ys else y ∷ rest

unfoldable pub by_available : List OutboundMessage → List OutboundMessage
unfolding insert_by_available
by_available [] = []
by_available (x ∷ xs) = insert_by_available x (by_available xs)

unfoldable pub can_be_delivered : ℕ → OutboundMessage → Bool
can_be_delivered now x =
    is_pending x.status && leb x.available_at now && ltb x.attempts max_delivery_attempts

-- `queued_message_ids`, with the rows in place of their ids and the limit that holds for the call
unfoldable pub queued_message_ids : ℕ → ℕ → Mail → List OutboundMessage × Mail
unfolding requeue_stale by_available can_be_delivered
queued_message_ids now limit m =
    let messages = requeue_stale now m.messages in
    (
      take limit (by_available (select (can_be_delivered now) messages)),
      record m { messages = messages },
    )
