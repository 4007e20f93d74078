-- ===== src/Campaigns/Calls.antt =====
-- communications/campaigns.py: the calls that move SMS segments, one after another.
use event_management.Base.{ℕ, ◌≡◌, Bool, ok}
use event_management.Campaigns.Model.{Campaign, OutboundMessage, Mail}
use event_management.Campaigns.Sms.{release_sms_for_message, consume_sms_for_message}
use event_management.Campaigns.Launch.{Settings, launch_campaign, cancel_campaign}
use event_management.Campaigns.Ledger.{IsBooked}
use event_management.Campaigns.Steps.{
  IsOwn, release_sms_for_message-IsBooked, consume_sms_for_message-IsBooked,
}
use event_management.Campaigns.Reserve.{launch_campaign-IsBooked}
use event_management.Campaigns.Cancel.{cancel_campaign-Stopped}

-- One call that returns; a call that raises leaves the tables alone. A message that is delivered
-- draws on the allowance of its campaign.
pub data Step (m m' : Mail) : Type 0 where
  launch :
      (s : Settings) (now id : ℕ) (usage_confirmed : Bool) (c : Campaign)
      → launch_campaign s now usage_confirmed id m ≡ ok (c, m')
      → Step m m'
  cancel : (now id : ℕ) (c : Campaign) → cancel_campaign now id m ≡ ok (c, m') → Step m m'
  release : (x : OutboundMessage) → release_sms_for_message x m ≡ ok m' → Step m m'
  consume : (x : OutboundMessage) → IsOwn m x → consume_sms_for_message x m ≡ ok m' → Step m m'

pub data Reach (m : Mail) : Mail → Type 0 where
  here : Reach m m
  next : {m' m'' : Mail} → Reach m m' → Step m' m'' → Reach m m''

Step-IsBooked : (m m' : Mail) → IsBooked m → Step m m' → IsBooked m'
Step-IsBooked m m' v (launch s now id confirmed c h) =
    launch_campaign-IsBooked s now confirmed id m (c, m') v h
Step-IsBooked m m' v (cancel now id c h) = (cancel_campaign-Stopped now id m (c, m') v h).booked
Step-IsBooked m m' v (release x h) = release_sms_for_message-IsBooked m m' x v h
Step-IsBooked m m' v (consume x o h) = consume_sms_for_message-IsBooked m m' x v o h

-- Suppose that the books of the SMS allowances are in order: each allowance has reserved what its
-- campaigns hold, has sent what the history says was accepted, every segment that the history says was
-- reserved is reserved still, sent or released, and reserved and sent segments are within the
-- allowance. Suppose also that no draft holds segments, that campaigns have ids of their own, and that
-- no row names an allowance that is still to come. Then all of this is so again after any sequence of
-- launches, cancellations, releases for messages, and uses by messages that draw on the allowance of
-- their campaign. A test message of a draft, which makes the draft hold segments, is not among these
-- calls.
pub Reach-IsBooked : (m m' : Mail) → IsBooked m → Reach m m' → IsBooked m'
Reach-IsBooked m m' v here = v
Reach-IsBooked m m' v (next r s) = Step-IsBooked _ m' (Reach-IsBooked m _ v r) s
