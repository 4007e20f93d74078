-- ===== src/Campaigns/Model.antt =====
-- communications/models.py and contacts/models.py: the rows that campaigns read and write.
use event_management.Base.{ℕ, Bool, true, false, Option, List, Text}
use event_management.Schema.Events.{Response}

pub data Channel : Type 0 where
  email sms : Channel

-- `Campaign.Status`
pub data CampaignStatus : Type 0 where
  draft scheduled expanding sending sent canceled failed : CampaignStatus

pub data Audience : Type 0 where
  all members non_members event_invitees response tag : Audience

pub data ConsentStatus : Type 0 where
  unknown granted withdrawn suppressed : ConsentStatus

-- A contact with what the audience queries join to it: whether it has a membership and the
-- membership is active, the occurrences of its invitations, its responses, and its tags.
pub record MailingContact : Type 0 where
  pub id : ℕ
  pub site_id : ℕ
  pub email : Text
  pub phone : Text
  pub email_consent_status : ConsentStatus
  pub sms_consent_status : ConsentStatus
  pub archived_at : Option ℕ
  pub membership : Option Bool
  pub invitations : List ℕ
  pub responses : List (ℕ × Response)
  pub tags : List ℕ

-- A row that a campaign refers to, with its site.
pub record Related : Type 0 where
  pub id : ℕ
  pub site_id : ℕ

pub record Campaign : Type 0 where
  pub id : ℕ
  pub site_id : ℕ
  pub channel : Channel
  pub status : CampaignStatus
  pub subject : Text
  pub body : Text
  pub audience : Audience
  pub audience_tag : Option Related
  pub audience_occurrence : Option Related
  pub response_filter : Option Response
  pub source_blog_post : Option Related
  pub scheduled_for : Option ℕ
  pub usage_confirmed_at : Option ℕ
  pub completed_at : Option ℕ
  pub recipient_count : ℕ
  pub eligible_count : ℕ
  pub excluded_count : ℕ
  pub estimated_segments : ℕ
  pub sms_reserved_segments : ℕ
  pub sms_allowance : Option ℕ

pub record SmsAllowance : Type 0 where
  pub id : ℕ
  pub site_id : ℕ
  pub period_start : ℕ
  pub included_segments : ℕ
  pub purchased_segments : ℕ
  pub reserved_segments : ℕ
  pub sent_segments : ℕ

-- `SmsUsageEvent.Action`
pub data UsageAction : Type 0 where
  reserved accepted released adjusted : UsageAction

pub record SmsUsageEvent : Type 0 where
  pub campaign_id : ℕ
  pub allowance_id : ℕ
  pub action : UsageAction
  pub segments : ℕ

-- `OutboundMessage.Status`
pub data MessageStatus : Type 0 where
  queued processing sent delivered bounced opened clicked unsubscribed suppressed failed :
      MessageStatus

pub record OutboundMessage : Type 0 where
  pub id : ℕ
  pub site_id : ℕ
  pub dedupe_key : ℕ
  pub channel : Channel
  pub contact_id : Option ℕ
  pub campaign_id : Option ℕ
  pub recipient_id : Option ℕ
  pub is_marketing : Bool
  pub body : Text
  pub html_body : Text
  pub unsubscribe_url : Text
  pub status : MessageStatus
  pub available_at : ℕ
  pub attempts : ℕ
  pub sent_at : Option ℕ
  pub provider : ℕ
  pub provider_message_id : ℕ
  pub sms_segments : ℕ
  pub sms_allowance : Option ℕ
  pub updated_at : ℕ

-- `CampaignRecipient.Status`
pub data RecipientStatus : Type 0 where
  excluded queued sent delivered bounced failed opened clicked unsubscribed suppressed :
      RecipientStatus

pub record CampaignRecipient : Type 0 where
  pub id : ℕ
  pub campaign_id : ℕ
  pub contact_id : ℕ
  pub status : RecipientStatus
  pub sent_at : Option ℕ
  pub delivered_at : Option ℕ
  pub opened_at : Option ℕ
  pub clicked_at : Option ℕ
  pub unsubscribed_at : Option ℕ

-- The tables; `contacts` is in the order of the ids.
pub record Mail : Type 0 where
  pub next_id : ℕ
  pub contacts : List MailingContact
  pub campaigns : List Campaign
  pub recipients : List CampaignRecipient
  pub messages : List OutboundMessage
  pub allowances : List SmsAllowance
  pub usage : List SmsUsageEvent

pub data Error : Type 0 where
  does_not_exist invalid not_a_draft no_recipients channel_not_configured : Error
  no_postal_address usage_not_confirmed sms_limit_exceeded not_cancelable : Error
  other_site send_failed : Error

abbrev pub is_sms : Channel → Bool
is_sms Channel.sms = true
is_sms Channel.email = false
