-- ===== src/Campaigns/Launch.antt =====
-- communications/campaigns.py: `launch_campaign` and `cancel_campaign`. What the services read of
-- the deployment and the site is one record; `fields_valid` is Django's own part of `full_clean`.
use event_management.Base.{
  ℕ, ◌-◌, Bool, true, false, ◌&&◌, ◌||◌, not, Option, none, some, List, [], ◌==◌, ltb,
  if◌then◌else◌, is_some, or_else, any, update_if, Text, is_blank, Result, ok, raise_if, ◌>>=◌,
  ◌>>◌,
}
use event_management.Campaigns.Model.{
  Channel, CampaignStatus, Audience, Related, Campaign, MessageStatus, OutboundMessage,
  RecipientStatus, CampaignRecipient, Mail, Error, invalid, not_a_draft, no_recipients,
  channel_not_configured, no_postal_address, usage_not_confirmed, sms_limit_exceeded,
  not_cancelable, is_sms,
}
use event_management.Campaigns.Audience.{Preview, campaign_preview}
use event_management.Campaigns.Sms.{
  remaining_segments, get_campaign, get_allowance, save_campaign, release_sms_locked,
  current_sms_allowance, reserve_from,
}

pub record Settings : Type 0 where
  pub sms_monthly_segment_limit : ℕ
  pub period_start : ℕ
  pub channel_is_configured : Channel → Bool
  pub postal_address : Text
  pub url_length : ℕ
  pub fields_valid : Campaign → Bool

abbrev pub is_launchable : CampaignStatus → Bool
is_launchable CampaignStatus.draft = true
is_launchable _ = false

abbrev pub is_own : ℕ → Option Related → Bool
is_own site_id none = true
is_own site_id (some x) = x.site_id == site_id

abbrev pub selects : Audience → Campaign → Bool
selects Audience.tag c = is_some c.audience_tag
selects Audience.event_invitees c = is_some c.audience_occurrence
selects Audience.response c = is_some c.audience_occurrence && is_some c.response_filter
selects _ c = true

-- `Campaign.clean`
unfoldable pub clean : Campaign → Bool
clean c =
    selects c.audience c
    && (is_sms c.channel || not (is_blank c.subject))
    && is_own c.site_id c.audience_tag
    && is_own c.site_id c.audience_occurrence
    && is_own c.site_id c.source_blog_post

-- `missing_sender_requirement`
unfoldable pub missing_sender_requirement : Settings → Campaign → Bool
missing_sender_requirement s c = not (is_sms c.channel) && is_blank s.postal_address

-- The reservation of a launch.
unfoldable pub reserve_sms :
    Settings → ℕ → Bool → ℕ → Campaign → Mail → Result Error (Campaign × Mail)
unfolding reserve_from current_sms_allowance get_allowance remaining_segments
reserve_sms s now usage_confirmed segments c m = do
  raise_if (not usage_confirmed) usage_not_confirmed
  let (current, m') = current_sms_allowance c.site_id s.period_start s.sms_monthly_segment_limit m
  a ← get_allowance m' current.id
  raise_if (ltb (remaining_segments a) segments) sms_limit_exceeded
  ok (reserve_from now c segments a m')

unfoldable pub reserve_for_launch :
    Settings → ℕ → Bool → ℕ → Campaign → Mail → Result Error (Campaign × Mail)
unfolding reserve_sms
reserve_for_launch s now usage_confirmed segments c m =
    if is_sms c.channel then reserve_sms s now usage_confirmed segments c m else ok (c, m)

-- The fields that a launch assigns at its end.
unfoldable pub launched : ℕ → Preview → Campaign → Campaign
launched now p c = record c {
  recipient_count = p.candidate_count;
  eligible_count = p.eligible_count;
  excluded_count = p.candidate_count - p.eligible_count;
  estimated_segments = p.estimated_segments;
  status = CampaignStatus.scheduled;
  scheduled_for = some (or_else c.scheduled_for now);
}

abbrev pub launch_save : ℕ → Preview → Campaign × Mail → Campaign × Mail
launch_save now p (c, m) =
    (launched now p c, record m { campaigns = save_campaign (launched now p c) m.campaigns })

-- The call once the campaign has been read.
unfoldable pub launch_found : Settings → ℕ → Bool → Mail → Campaign → Result Error (Campaign × Mail)
unfolding clean campaign_preview missing_sender_requirement reserve_for_launch launched
    save_campaign
launch_found s now usage_confirmed m c = do
  raise_if (not (is_launchable c.status)) not_a_draft
  raise_if (not (clean c && s.fields_valid c)) invalid
  let p = campaign_preview s.url_length c m
  raise_if (p.eligible_count == 0) no_recipients
  raise_if (not (s.channel_is_configured c.channel)) channel_not_configured
  raise_if (missing_sender_requirement s c) no_postal_address
  r ← reserve_for_launch s now usage_confirmed p.estimated_segments c m
  ok (launch_save now p r)

unfoldable pub launch_campaign : Settings → ℕ → Bool → ℕ → Mail → Result Error (Campaign × Mail)
unfolding launch_found get_campaign
launch_campaign s now usage_confirmed campaign_id m = do
  c ← get_campaign m campaign_id
  launch_found s now usage_confirmed m c

-- `CANCELABLE_CAMPAIGN_STATUSES`
abbrev pub is_cancelable : CampaignStatus → Bool
is_cancelable CampaignStatus.draft = true
is_cancelable CampaignStatus.scheduled = true
is_cancelable CampaignStatus.expanding = true
is_cancelable CampaignStatus.sending = true
is_cancelable _ = false

abbrev pub is_pending : MessageStatus → Bool
is_pending MessageStatus.queued = true
is_pending MessageStatus.failed = true
is_pending _ = false

abbrev pub is_suppressed : MessageStatus → Bool
is_suppressed MessageStatus.suppressed = true
is_suppressed _ = false

abbrev pub is_queued : RecipientStatus → Bool
is_queued RecipientStatus.queued = true
is_queued _ = false

abbrev pub names : ℕ → Option ℕ → Bool
names id none = false
names id (some k) = k == id

-- A message without its text, which is not kept once it is not needed any more.
abbrev pub cleared : OutboundMessage → OutboundMessage
cleared x = record x { body = []; html_body = []; unsubscribe_url = [] }

abbrev pub suppressed_message : ℕ → OutboundMessage → OutboundMessage
suppressed_message now x = record (cleared x) {
  status = MessageStatus.suppressed;
  updated_at = now;
}

unfoldable pub suppress_messages : ℕ → ℕ → List OutboundMessage → List OutboundMessage
suppress_messages now campaign_id =
    update_if (λ x. names campaign_id x.campaign_id && is_pending x.status) (suppressed_message now)

unfoldable pub suppress_recipients :
    ℕ → List OutboundMessage → List CampaignRecipient → List CampaignRecipient
suppress_recipients campaign_id messages =
    update_if
      (λ r.
        r.campaign_id == campaign_id
        && is_queued r.status
        && any (λ (x : OutboundMessage). names r.id x.recipient_id && is_suppressed x.status)
            messages)
      (λ r. record r { status = RecipientStatus.suppressed })

abbrev pub canceled_campaign : ℕ → Campaign → Campaign
canceled_campaign now c = record c { status = CampaignStatus.canceled; completed_at = some now }

-- What the call writes once the segments have been released.
unfoldable pub cancel_released : ℕ → Campaign → Mail → Campaign × Mail
unfolding suppress_messages suppress_recipients save_campaign
cancel_released now c m =
    let messages = suppress_messages now c.id m.messages in
    (
      canceled_campaign now c,
      record m {
        messages = messages;
        recipients = suppress_recipients c.id messages m.recipients;
        campaigns = save_campaign (canceled_campaign now c) m.campaigns;
      },
    )

unfoldable pub release_for_cancel : Campaign → Mail → Result Error (Campaign × Mail)
unfolding release_sms_locked
release_for_cancel c m =
    if is_sms c.channel && not (c.sms_reserved_segments == 0)
    then release_sms_locked c c.sms_reserved_segments m
    else ok (c, m)

unfoldable pub cancel_found : ℕ → Mail → Campaign → Result Error (Campaign × Mail)
unfolding release_for_cancel cancel_released
cancel_found now m c = do
  raise_if (not (is_cancelable c.status)) not_cancelable
  r ← release_for_cancel c m
  ok (cancel_released now r.0 r.1)

unfoldable pub cancel_campaign : ℕ → ℕ → Mail → Result Error (Campaign × Mail)
unfolding cancel_found get_campaign
cancel_campaign now campaign_id m = do c ← get_campaign m campaign_id; cancel_found now m c
