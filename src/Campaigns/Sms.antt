-- ===== src/Campaigns/Sms.antt =====
-- communications/campaigns.py: the reservation, use and release of SMS segments.
use event_management.Base.{
  ℕ, ◌+◌, ◌-◌, min, ◌&&◌, Option, none, some, List, [], ◌∷◌, ◌++◌, ◌==◌, if◌then◌else◌, find,
  update_if, Result, ok, or_raise, ◌>>=◌,
}
use event_management.Campaigns.Model.{
  Campaign, SmsAllowance, SmsUsageEvent, UsageAction, OutboundMessage, Mail, Error, does_not_exist,
}

-- `SmsAllowance.remaining_segments`
unfoldable pub remaining_segments : SmsAllowance → ℕ
remaining_segments a =
    a.included_segments + a.purchased_segments - a.reserved_segments - a.sent_segments

unfoldable pub get_campaign : Mail → ℕ → Result Error Campaign
get_campaign m id = or_raise (find (λ (c : Campaign). c.id == id) m.campaigns) does_not_exist

unfoldable pub get_allowance : Mail → ℕ → Result Error SmsAllowance
get_allowance m id = or_raise (find (λ (a : SmsAllowance). a.id == id) m.allowances) does_not_exist

-- The row with the same id is saved.
unfoldable pub save_campaign : Campaign → List Campaign → List Campaign
save_campaign c = update_if (λ x. x.id == c.id) (λ x. c)

unfoldable pub save_allowance : SmsAllowance → List SmsAllowance → List SmsAllowance
save_allowance a = update_if (λ x. x.id == a.id) (λ x. a)

abbrev pub usage_event : ℕ → ℕ → UsageAction → ℕ → SmsUsageEvent
usage_event campaign_id allowance_id action segments = record {
  campaign_id = campaign_id;
  allowance_id = allowance_id;
  action = action;
  segments = segments;
}

-- `_release_sms_locked` once the allowance has been read
unfoldable pub release_from : Campaign → ℕ → SmsAllowance → Mail → Campaign × Mail
unfolding save_campaign save_allowance
release_from c segments a m =
    let released = min segments (min a.reserved_segments c.sms_reserved_segments) in
    if released == 0
    then (c, m)
    else let c' = record c { sms_reserved_segments = c.sms_reserved_segments - released } in
      let a' = record a { reserved_segments = a.reserved_segments - released } in
      (
        c',
        record m {
          campaigns = save_campaign c' m.campaigns;
          allowances = save_allowance a' m.allowances;
          usage = m.usage ++ usage_event c.id a.id UsageAction.released released ∷ [];
        },
      )

unfoldable pub release_held : Campaign → ℕ → Option ℕ → Mail → Result Error (Campaign × Mail)
unfolding release_from get_allowance
release_held c segments none m = ok (c, m)
release_held c segments (some allowance_id) m = do
  a ← get_allowance m allowance_id
  ok (release_from c segments a m)

unfoldable pub release_sms_locked : Campaign → ℕ → Mail → Result Error (Campaign × Mail)
unfolding release_held
release_sms_locked c segments m =
    if segments == 0 then ok (c, m) else release_held c segments c.sms_allowance m

unfoldable pub release_of : ℕ → Option ℕ → Mail → Result Error Mail
unfolding release_sms_locked get_campaign
release_of segments none m = ok m
release_of segments (some campaign_id) m = do
  c ← get_campaign m campaign_id
  r ← release_sms_locked c segments m
  ok r.1

-- `release_sms_for_message`
unfoldable pub release_sms_for_message : OutboundMessage → Mail → Result Error Mail
unfolding release_of
release_sms_for_message x m =
    if x.sms_segments == 0 then ok m else release_of x.sms_segments x.campaign_id m

-- `consume_sms_for_message` once its rows have been read
unfoldable pub consume_from : ℕ → Campaign → SmsAllowance → Mail → Mail
unfolding save_campaign save_allowance
consume_from sms_segments c a m =
    let segments = min sms_segments (min a.reserved_segments c.sms_reserved_segments) in
    record m {
      campaigns =
          save_campaign (record c { sms_reserved_segments = c.sms_reserved_segments - segments })
            m.campaigns;
      allowances =
          save_allowance
            (record a {
              reserved_segments = a.reserved_segments - segments;
              sent_segments = a.sent_segments + segments;
            })
            m.allowances;
      usage = m.usage ++ usage_event c.id a.id UsageAction.accepted segments ∷ [];
    }

unfoldable pub consume_of : ℕ → Option ℕ → Option ℕ → Mail → Result Error Mail
unfolding consume_from get_campaign get_allowance
consume_of segments none allowance m = ok m
consume_of segments (some campaign_id) none m = ok m
consume_of segments (some campaign_id) (some allowance_id) m = do
  c ← get_campaign m campaign_id
  a ← get_allowance m allowance_id
  ok (consume_from segments c a m)

unfoldable pub consume_sms_for_message : OutboundMessage → Mail → Result Error Mail
unfolding consume_of
consume_sms_for_message x m =
    if x.sms_segments == 0 then ok m else consume_of x.sms_segments x.campaign_id x.sms_allowance m

-- `current_sms_allowance`, which creates the month's allowance if there is none
unfoldable pub new_allowance : ℕ → ℕ → ℕ → ℕ → SmsAllowance
new_allowance id site_id period_start limit = record {
  id = id;
  site_id = site_id;
  period_start = period_start;
  included_segments = limit;
  purchased_segments = 0;
  reserved_segments = 0;
  sent_segments = 0;
}

unfoldable pub allowance_or_created : ℕ → ℕ → ℕ → Option SmsAllowance → Mail → SmsAllowance × Mail
unfolding new_allowance
allowance_or_created site_id period_start limit none m =
    let a = new_allowance m.next_id site_id period_start limit in
    (a, record m { next_id = m.next_id + 1; allowances = m.allowances ++ a ∷ [] })
allowance_or_created site_id period_start limit (some a) m = (a, m)

unfoldable pub current_sms_allowance : ℕ → ℕ → ℕ → Mail → SmsAllowance × Mail
unfolding allowance_or_created
current_sms_allowance site_id period_start limit m =
    allowance_or_created site_id period_start limit
      (find (λ (a : SmsAllowance). a.site_id == site_id && a.period_start == period_start)
        m.allowances)
      m

-- What `launch_campaign` writes for its SMS segments.
unfoldable pub reserve_from : ℕ → Campaign → ℕ → SmsAllowance → Mail → Campaign × Mail
unfolding save_allowance
reserve_from now c segments a m = (
  record c {
    sms_allowance = some a.id;
    sms_reserved_segments = segments;
    usage_confirmed_at = some now;
  },
  record m {
    allowances =
        save_allowance (record a { reserved_segments = a.reserved_segments + segments })
          m.allowances;
    usage = m.usage ++ usage_event c.id a.id UsageAction.reserved segments ∷ [];
  },
)
