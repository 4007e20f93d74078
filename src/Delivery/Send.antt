-- ===== src/Delivery/Send.antt =====
-- communications/services.py: `deliver_message`, as the transaction that claims a message for a
-- worker and what the worker writes once the provider has answered. Each statement after the send
-- commits by itself, so that a call that raises keeps what was written before.
use Prim.Native.Nat.{◌^◌}
use event_management.Base.{
  ℕ, ◌+◌, ◌*◌, min, Bool, true, false, ◌&&◌, ◌||◌, not, Option, none, some, ◌==◌, leb, ltb,
  if◌then◌else◌, any, find, update_if, Result, ok, err, or_raise, ◌>>=◌,
}
use event_management.Campaigns.Model.{
  CampaignStatus, Campaign, MailingContact, MessageStatus, OutboundMessage, RecipientStatus,
  CampaignRecipient, Mail, Error, does_not_exist, send_failed, is_sms,
}
use event_management.Campaigns.Audience.{contact_eligibility, transactional_eligibility}
use event_management.Campaigns.Sms.{
  get_campaign, save_campaign, release_sms_for_message, consume_sms_for_message,
}
use event_management.Campaigns.Launch.{is_queued, cleared, suppressed_message}
use event_management.Delivery.Queue.{max_delivery_attempts, is_processing}

-- `TERMINAL_MESSAGE_STATUSES`
abbrev pub is_terminal : MessageStatus → Bool
is_terminal MessageStatus.queued = false
is_terminal MessageStatus.processing = false
is_terminal MessageStatus.failed = false
is_terminal _ = true

-- `_recipient_update`, once the recipient is known
unfoldable pub with_recipient_status : ℕ → RecipientStatus → CampaignRecipient → CampaignRecipient
with_recipient_status now RecipientStatus.sent r = record r {
  status = RecipientStatus.sent;
  sent_at = some now;
}
with_recipient_status now RecipientStatus.delivered r = record r {
  status = RecipientStatus.delivered;
  delivered_at = some now;
}
with_recipient_status now RecipientStatus.opened r = record r {
  status = RecipientStatus.opened;
  opened_at = some now;
}
with_recipient_status now RecipientStatus.clicked r = record r {
  status = RecipientStatus.clicked;
  clicked_at = some now;
}
with_recipient_status now RecipientStatus.unsubscribed r = record r {
  status = RecipientStatus.unsubscribed;
  unsubscribed_at = some now;
}
with_recipient_status now s r = record r { status = s }

-- `_recipient_update`
unfoldable pub recipient_update : ℕ → Option ℕ → RecipientStatus → Mail → Mail
unfolding with_recipient_status
recipient_update now none s m = m
recipient_update now (some id) s m = record m {
  recipients =
      update_if (λ (r : CampaignRecipient). r.id == id) (with_recipient_status now s) m.recipients;
}

unfoldable pub may_reach : Bool → OutboundMessage → MailingContact → Bool
unfolding contact_eligibility transactional_eligibility
may_reach true x c = contact_eligibility c x.channel
may_reach false x c = transactional_eligibility c x.channel

-- `_recipient_is_still_reachable`
unfoldable pub recipient_is_still_reachable : OutboundMessage → Option ℕ → Mail → Result Error Bool
unfolding may_reach
recipient_is_still_reachable x none m = ok true
recipient_is_still_reachable x (some id) m = do
  c ← or_raise (find (λ (c : MailingContact). c.id == id) m.contacts) does_not_exist
  ok (may_reach x.is_marketing x c)

abbrev pub is_sending : CampaignStatus → Bool
is_sending CampaignStatus.sending = true
is_sending CampaignStatus.expanding = true
is_sending _ = false

-- `refresh_campaign_status`, once the campaign has been read
unfoldable pub refreshed : ℕ → Campaign → Mail → Mail
unfolding save_campaign
refreshed now c m =
    if not (is_sending c.status)
      || any (λ (r : CampaignRecipient). r.campaign_id == c.id && is_queued r.status) m.recipients
    then m
    else record m {
      campaigns =
          save_campaign (record c { status = CampaignStatus.sent; completed_at = some now })
            m.campaigns;
    }

-- `_finish_campaign`
unfoldable pub finish_campaign : ℕ → Option ℕ → Mail → Result Error Mail
unfolding refreshed get_campaign
finish_campaign now none m = ok m
finish_campaign now (some campaign_id) m = do c ← get_campaign m campaign_id; ok (refreshed now c m)

-- `_release_sms` and `_consume_sms`
unfoldable pub release_sms : OutboundMessage → Mail → Result Error Mail
unfolding release_sms_for_message
release_sms x m =
    if is_sms x.channel && not (x.sms_segments == 0) then release_sms_for_message x m else ok m

unfoldable pub consume_sms : OutboundMessage → Mail → Result Error Mail
unfolding consume_sms_for_message
consume_sms x m =
    if is_sms x.channel && not (x.sms_segments == 0) then consume_sms_for_message x m else ok m

-- A `save` of some columns of the row.
unfoldable pub save_message : ℕ → (OutboundMessage → OutboundMessage) → Mail → Mail
save_message id f m = record m {
  messages = update_if (λ (y : OutboundMessage). y.id == id) f m.messages;
}

-- What a worker holds after the first transaction: a message that it is to send, or none.
pub data Claim : Type 0 where
  left taken : OutboundMessage → Claim

unfoldable pub suppress_unreachable : ℕ → OutboundMessage → Mail → Result Error (Claim × Mail)
unfolding save_message recipient_update release_sms finish_campaign
suppress_unreachable now x m = do
  m' ← release_sms (suppressed_message now x) (
      recipient_update now x.recipient_id RecipientStatus.suppressed
        (save_message x.id (suppressed_message now) m))
  m'' ← finish_campaign now x.campaign_id m'
  ok (left (suppressed_message now x), m'')

abbrev pub claimed : ℕ → OutboundMessage → OutboundMessage
claimed now x = record x {
  status = MessageStatus.processing;
  attempts = x.attempts + 1;
  updated_at = now;
}

unfoldable pub claim_reachable : ℕ → OutboundMessage → Bool → Mail → Result Error (Claim × Mail)
unfolding suppress_unreachable save_message
claim_reachable now x false m = suppress_unreachable now x m
claim_reachable now x true m = ok (
  taken (claimed now x),
  save_message x.id
      (λ y. record y {
        status = MessageStatus.processing;
        attempts = x.attempts + 1;
        updated_at = now;
      })
      m,
)

-- `deliver_message` returns the message without a send.
unfoldable pub is_passed_over : ℕ → OutboundMessage → Bool
is_passed_over now x =
    is_terminal x.status
    || is_processing x.status
    || leb max_delivery_attempts x.attempts
    || ltb now x.available_at

unfoldable pub claim_found : ℕ → OutboundMessage → Mail → Result Error (Claim × Mail)
unfolding is_passed_over recipient_is_still_reachable claim_reachable
claim_found now x m = if is_passed_over now x then ok (left x, m) else do
  reachable ← recipient_is_still_reachable x x.contact_id m
  claim_reachable now x reachable m

-- The first transaction of `deliver_message`
unfoldable pub claim_message : ℕ → ℕ → Mail → Result Error (Claim × Mail)
unfolding claim_found
claim_message now id m = do
  x ← or_raise (find (λ (x : OutboundMessage). x.id == id) m.messages) does_not_exist
  claim_found now x m

-- The answer of a provider.
pub data Answer : Type 0 where
  accepted : (provider message_id : ℕ) → Answer
  raised : Answer

-- Goes on if a statement did not raise; the tables keep what came before it.
abbrev pub proceed :
    Mail → Result Error Mail → (Mail → Result Error Mail × Mail) → Result Error Mail × Mail
proceed m (ok m') next = next m'
proceed m (err e) next = (err e, m)

-- The last statement of a call.
abbrev pub finish : Mail → Result Error Mail → Result Error Mail × Mail
finish m (ok m') = (ok m', m')
finish m (err e) = (err e, m)

-- The wait before the next attempt: two to the number of attempts in minutes, an hour at most.
unfoldable pub retry_delay : ℕ → ℕ
retry_delay attempts = 60 * min 60 (2 ^ attempts)

abbrev pub failed_message : ℕ → ℕ → OutboundMessage → OutboundMessage
failed_message now attempts y = record y {
  status = MessageStatus.failed;
  available_at = now + retry_delay attempts;
  updated_at = now;
}

abbrev pub sent_message : ℕ → ℕ → ℕ → OutboundMessage → OutboundMessage
sent_message now provider message_id y = record (cleared y) {
  status = MessageStatus.sent;
  sent_at = some now;
  provider = provider;
  provider_message_id = message_id;
  updated_at = now;
}

-- After the last attempt; the exception of the provider is raised again in the end.
unfoldable pub give_up : ℕ → OutboundMessage → Mail → Result Error Mail × Mail
unfolding recipient_update release_sms save_message finish_campaign
give_up now x m =
    let m1 = recipient_update now x.recipient_id RecipientStatus.failed m in
    proceed m1 (release_sms x m1) (λ m2.
      let m3 = save_message x.id (λ y. record (cleared y) { updated_at = now }) m2 in
      proceed m3 (finish_campaign now x.campaign_id m3) (λ m4. (err send_failed, m4)))

-- The rest of `deliver_message`; `x` is the copy of the message that the worker has in memory.
unfoldable pub settle_delivery : ℕ → OutboundMessage → Answer → Mail → Result Error Mail × Mail
unfolding save_message give_up recipient_update consume_sms finish_campaign retry_delay
settle_delivery now x raised m =
    let m1 = save_message x.id (failed_message now x.attempts) m in
    if leb max_delivery_attempts x.attempts
    then give_up now x m1
    else (err send_failed, recipient_update now x.recipient_id RecipientStatus.queued m1)
settle_delivery now x (accepted provider message_id) m =
    let m1 =
      recipient_update now x.recipient_id RecipientStatus.sent
        (save_message x.id (sent_message now provider message_id) m) in
    proceed m1 (consume_sms x m1) (λ m2. finish m2 (finish_campaign now x.campaign_id m2))
