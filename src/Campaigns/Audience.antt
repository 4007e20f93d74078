-- ===== src/Campaigns/Audience.antt =====
-- communications/campaigns.py: who a campaign is for, and what it is estimated to take.
use event_management.Base.{
  ℕ, zero, suc, ◌*◌, Bool, true, false, ◌&&◌, not, Option, none, some, List, [], ◌∷◌, ◌++◌, ◌==◌,
  if◌then◌else◌, is_some, any, select, count_if, length, Text, is_empty, rstrip,
}
use event_management.Schema.Events.{Response, same_response}
use event_management.Campaigns.Model.{
  Channel, Audience, ConsentStatus, MailingContact, Related, Campaign, Mail, is_sms,
}
use event_management.Campaigns.Segments.{sms_segment_count}

abbrev pub is_row : ℕ → Option Related → Bool
is_row id none = false
is_row id (some x) = x.id == id

abbrev pub is_response : Option Response → Response → Bool
is_response none r = false
is_response (some f) r = same_response f r

abbrev pub is_active_member : Option Bool → Bool
is_active_member none = false
is_active_member (some active) = active

-- The join of the audience with a contact.
unfoldable pub is_addressed : Audience → Campaign → MailingContact → Bool
is_addressed Audience.all c x = true
is_addressed Audience.members c x = is_active_member x.membership
is_addressed Audience.non_members c x = not (is_some x.membership)
is_addressed Audience.event_invitees c x =
    any (λ occurrence_id. is_row occurrence_id c.audience_occurrence) x.invitations
is_addressed Audience.response c x =
    any
      (λ (r : ℕ × Response). is_row r.0 c.audience_occurrence && is_response c.response_filter r.1)
      x.responses
is_addressed Audience.tag c x = any (λ tag_id. is_row tag_id c.audience_tag) x.tags

-- `audience_contacts`
unfoldable pub audience_contacts : Campaign → Mail → List MailingContact
unfolding is_addressed
audience_contacts c m =
    select
      (λ (x : MailingContact).
        x.site_id == c.site_id && not (is_some x.archived_at) && is_addressed c.audience c x)
      m.contacts

abbrev pub is_granted : ConsentStatus → Bool
is_granted ConsentStatus.granted = true
is_granted _ = false

-- `contact_eligibility`, without the reason: each consent that is not granted excludes.
unfoldable pub contact_eligibility : MailingContact → Channel → Bool
contact_eligibility x channel =
    not (is_some x.archived_at)
    && (if is_sms channel
        then not (is_empty x.phone) && is_granted x.sms_consent_status
        else not (is_empty x.email) && is_granted x.email_consent_status)

abbrev pub is_held_back : ConsentStatus → Bool
is_held_back ConsentStatus.suppressed = true
is_held_back _ = false

-- `transactional_eligibility`, without the reason
unfoldable pub transactional_eligibility : MailingContact → Channel → Bool
transactional_eligibility x channel =
    not (is_some x.archived_at)
    && not (is_held_back (if is_sms channel then x.sms_consent_status else x.email_consent_status))

-- "Stop messages: "
abbrev pub stop_messages : Text
stop_messages =
    83 ∷ 116 ∷ 111 ∷ 112 ∷ 32 ∷ 109 ∷ 101 ∷ 115 ∷ 115 ∷ 97 ∷ 103 ∷ 101 ∷ 115 ∷ 58 ∷ 32 ∷ []

-- `"x" * n`
unfoldable pub placeholder : ℕ → Text
placeholder zero = []
placeholder (suc n) = 120 ∷ placeholder n

-- `sms_body_for_estimate`, with the length of the unsubscribe link
unfoldable pub sms_body_for_estimate : ℕ → Campaign → Text
unfolding placeholder
sms_body_for_estimate url_length c =
    rstrip c.body ++ (10 ∷ 10 ∷ stop_messages) ++ placeholder url_length

-- What `campaign_preview` counts; the reasons of exclusion only serve for display.
pub record Preview : Type 0 where
  pub candidate_count : ℕ
  pub eligible_count : ℕ
  pub estimated_segments : ℕ

unfoldable pub campaign_preview : ℕ → Campaign → Mail → Preview
unfolding audience_contacts contact_eligibility sms_body_for_estimate
campaign_preview url_length c m =
    let contacts = audience_contacts c m in
    let eligible = count_if (λ x. contact_eligibility x c.channel) contacts in
    record {
      candidate_count = length contacts;
      eligible_count = eligible;
      estimated_segments =
          if is_sms c.channel
          then eligible * sms_segment_count (sms_body_for_estimate url_length c)
          else 0;
    }
