-- ===== src/Delivery/Examples.antt =====
-- Runs of two workers on a queue of one message.
use event_management.Base.{
  ◌≡◌, refl, true, false, none, some, [], ◌∷◌, arith, ok, find, any, update_if, returned, Bool, All,
}
use event_management.Campaigns.Model.{Channel, MessageStatus, OutboundMessage, Related, Mail}
use event_management.Delivery.Queue.{enqueue_message, queued_message_ids}
use event_management.Delivery.Send.{left, claimed, claim_message, accepted, settle_delivery}
use event_management.Delivery.Workers.{Plant, Step, claim, answer, requeue, here, next}
use event_management.Delivery.Limits.{IsLimited, Reach-IsLimited}
use event_management.Delivery.Once.{IsOnce, Reach-IsOnce}
use event_management.Delivery.Queued.{enqueue_message_again}

abbrev message : OutboundMessage
message = record {
  id = 3;
  site_id = 7;
  dedupe_key = 40;
  channel = Channel.email;
  contact_id = none;
  campaign_id = none;
  recipient_id = none;
  is_marketing = false;
  body = 72 ∷ 105 ∷ [];
  html_body = [];
  unsubscribe_url = [];
  status = MessageStatus.queued;
  available_at = 90;
  attempts = 0;
  sent_at = none;
  provider = 0;
  provider_message_id = 0;
  sms_segments = 0;
  sms_allowance = none;
  updated_at = 90;
}

abbrev empty : Mail
empty = record {
  next_id = 3;
  contacts = [];
  campaigns = [];
  recipients = [];
  messages = [];
  allowances = [];
  usage = [];
}

abbrev mail : Mail
mail = record empty { next_id = 10; messages = message ∷ [] }

abbrev at_rest : Plant
at_rest = record { mail = mail; sending = []; begun = []; delivered = [] }

abbrev held : Mail
held = (returned (left message, mail) (claim_message 100 3 mail)).1

abbrev at_work : Plant
at_work = record { mail = held; sending = claimed 100 message ∷ []; begun = 3 ∷ []; delivered = [] }

taken_up : (b : Bool) → Step b at_rest at_work
unfolding claim_message find any update_if
taken_up b = claim 100 3 (claimed 100 message) held refl

abbrev sent_off : Plant
sent_off = record at_work {
  mail = (settle_delivery 110 (claimed 100 message) (accepted 1 2) held).1;
  sending = [];
  delivered = 3 ∷ [];
}

Reach-IsOnce_example : All (IsOnce sent_off.sending sent_off.delivered) sent_off.mail.messages
Reach-IsOnce_example =
    Reach-IsOnce at_rest sent_off refl refl (
      next (next here (taken_up false))
        (answer 110 (claimed 100 message) [] [] (accepted 1 2) refl))

abbrev requeued : Plant
requeued = record at_work { mail = (queued_message_ids 2000 10 held).1 }

Reach-IsLimited_example : All (IsLimited requeued.begun) requeued.mail.messages
Reach-IsLimited_example =
    Reach-IsLimited true at_rest requeued refl (omega arith, tt)
      (next (next here (taken_up true)) (requeue 2000 10 refl))

abbrev reminder : Related
reminder = record { id = 8; site_id = 7 }

abbrev enqueued : (OutboundMessage × Bool) × Mail
enqueued =
    returned ((message, false), empty) (enqueue_message 90 7 (some reminder ∷ []) 40 message empty)

enqueue_message_again_example :
    enqueue_message 95 7 [] 40 (record message { body = [] }) enqueued.1
    ≡ ok ((enqueued.0.0, false), enqueued.1)
unfolding enqueue_message any
enqueue_message_again_example =
    enqueue_message_again 90 95 7 40 (some reminder ∷ []) [] message (record message { body = [] })
      empty enqueued refl refl refl
