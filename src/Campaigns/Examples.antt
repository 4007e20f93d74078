-- ===== src/Campaigns/Examples.antt =====
-- Runs of a campaign by SMS to one contact.
use event_management.Base.{
  ℕ, some, refl, true, none, [], ◌∷◌, arith, returned, find, any, select, update_if, count_if,
  rstrip,
}
use event_management.Campaigns.Model.{
  Channel, CampaignStatus, Audience, ConsentStatus, MailingContact, Campaign, MessageStatus,
  OutboundMessage, Mail,
}
use event_management.Campaigns.Segments.{sms_segment_count, gsm_basic, gsm_extended}
use event_management.Campaigns.Launch.{Settings, launch_campaign, cancel_campaign}
use event_management.Campaigns.Ledger.{IsBooked}
use event_management.Campaigns.Counting.{Fits, is_gsm, gsm_units, sms_segment_count-Fits}
use event_management.Campaigns.Cancel.{Stopped, cancel_campaign-Stopped}
use event_management.Campaigns.Calls.{Reach, here, next, launch, cancel, Reach-IsBooked}

abbrev campaign : Campaign
campaign = record {
  id = 1;
  site_id = 7;
  channel = Channel.sms;
  status = CampaignStatus.draft;
  subject = [];
  body = 72 ∷ 105 ∷ [];
  audience = Audience.all;
  audience_tag = none;
  audience_occurrence = none;
  response_filter = none;
  source_blog_post = none;
  scheduled_for = none;
  usage_confirmed_at = none;
  completed_at = none;
  recipient_count = 0;
  eligible_count = 0;
  excluded_count = 0;
  estimated_segments = 0;
  sms_reserved_segments = 0;
  sms_allowance = none;
}

abbrev contact : MailingContact
contact = record {
  id = 2;
  site_id = 7;
  email = [];
  phone = 49 ∷ [];
  email_consent_status = ConsentStatus.unknown;
  sms_consent_status = ConsentStatus.granted;
  archived_at = none;
  membership = none;
  invitations = [];
  responses = [];
  tags = [];
}

abbrev mail : Mail
mail = record {
  next_id = 10;
  contacts = contact ∷ [];
  campaigns = campaign ∷ [];
  recipients = [];
  messages = [];
  allowances = [];
  usage = [];
}

abbrev settings : Settings
settings = record {
  sms_monthly_segment_limit = 100;
  period_start = 20;
  channel_is_configured = λ c. true;
  postal_address = [];
  url_length = 30;
  fields_valid = λ c. true;
}

mail-IsBooked : IsBooked mail
unfolding count_if
mail-IsBooked = record {
  balanced = tt;
  unique = λ k. ground arith;
  drafts = (λ d. refl, tt);
  fresh = tt;
  fresh_campaigns = (refl, tt);
  fresh_usage = tt;
}

abbrev sent_out : Campaign × Mail
sent_out = returned (campaign, mail) (launch_campaign settings 100 true 1 mail)

abbrev called_off : Campaign × Mail
called_off = returned (campaign, mail) (cancel_campaign 200 1 sent_out.1)

launch_then_cancel : Reach mail called_off.1
unfolding launch_campaign cancel_campaign find any select update_if count_if sms_segment_count
    rstrip
launch_then_cancel =
    next (next here (launch settings 100 1 true sent_out.0 refl)) (cancel 200 1 called_off.0 refl)

Reach-IsBooked_example : IsBooked called_off.1
Reach-IsBooked_example = Reach-IsBooked mail called_off.1 mail-IsBooked launch_then_cancel

-- The campaign at work: a message that waits, and one that failed before.
abbrev waiting : ℕ → MessageStatus → OutboundMessage
waiting id status = record {
  id = id;
  site_id = 7;
  dedupe_key = id;
  channel = Channel.sms;
  contact_id = some 2;
  campaign_id = some 1;
  recipient_id = some 30;
  is_marketing = true;
  body = 72 ∷ 105 ∷ [];
  html_body = [];
  unsubscribe_url = [];
  status = status;
  available_at = 100;
  attempts = 1;
  sent_at = none;
  provider = 0;
  provider_message_id = 0;
  sms_segments = 1;
  sms_allowance = some 10;
  updated_at = 100;
}

abbrev at_work : Mail
at_work = record sent_out.1 {
  messages = waiting 31 MessageStatus.queued ∷ waiting 32 MessageStatus.failed ∷ [];
}

launch_first : Reach mail sent_out.1
unfolding launch_campaign find any select update_if count_if sms_segment_count rstrip
launch_first = next here (launch settings 100 1 true sent_out.0 refl)

at_work-IsBooked : IsBooked at_work
at_work-IsBooked =
    let v = Reach-IsBooked mail sent_out.1 mail-IsBooked launch_first in
    record {
      balanced = v.balanced;
      unique = v.unique;
      drafts = v.drafts;
      fresh = v.fresh;
      fresh_campaigns = v.fresh_campaigns;
      fresh_usage = v.fresh_usage;
    }

abbrev stopped : Campaign × Mail
stopped = returned (campaign, mail) (cancel_campaign 200 1 at_work)

cancel_campaign-Stopped_example : Stopped 1 at_work stopped.1
unfolding launch_campaign cancel_campaign find any select update_if count_if sms_segment_count
    rstrip
cancel_campaign-Stopped_example =
    cancel_campaign-Stopped 200 1 at_work stopped at_work-IsBooked refl

sms_segment_count-Fits_example : Fits 160 153 2 (sms_segment_count (72 ∷ 105 ∷ []))
unfolding is_gsm gsm_units any gsm_basic gsm_extended
sms_segment_count-Fits_example = sms_segment_count-Fits (72 ∷ 105 ∷ [])
