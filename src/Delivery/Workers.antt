-- ===== src/Delivery/Workers.antt =====
-- Workers that deliver messages at the same time, with the scheduler that queues stale messages.
use event_management.Base.{ℕ, ◌≡◌, Bool, true, List, ◌∷◌, ◌++◌, ok}
use event_management.Campaigns.Model.{Campaign, OutboundMessage, Mail}
use event_management.Campaigns.Launch.{cancel_campaign}
use event_management.Delivery.Queue.{queued_message_ids}
use event_management.Delivery.Send.{
  left, taken, claim_message, Answer, accepted, raised, settle_delivery,
}

-- The tables, the copies of the messages that are being sent, and, latest first, the ids of all that
-- a provider was asked to send and of those that it accepted.
pub record Plant : Type 0 where
  pub mail : Mail
  pub sending : List OutboundMessage
  pub begun : List ℕ
  pub delivered : List ℕ

abbrev pub note : Answer → ℕ → List ℕ → List ℕ
note (accepted provider message_id) id ids = id ∷ ids
note raised id ids = ids

-- One transaction or answer; a claim that raises changes nothing. The scheduler works only where
-- `requeues` is true.
pub data Step (requeues : Bool) (p : Plant) : Plant → Type 0 where
  pass :
      (now id : ℕ) (x : OutboundMessage) (m : Mail)
      → claim_message now id p.mail ≡ ok (left x, m)
      → Step requeues p (record p { mail = m })
  claim :
      (now id : ℕ) (x : OutboundMessage) (m : Mail)
      → claim_message now id p.mail ≡ ok (taken x, m)
      → Step requeues p (record p { mail = m; sending = x ∷ p.sending; begun = x.id ∷ p.begun })
  answer :
      (now : ℕ) (x : OutboundMessage) (before after : List OutboundMessage) (a : Answer)
      → p.sending ≡ before ++ x ∷ after
      → Step requeues p (record p {
        mail = (settle_delivery now x a p.mail).1;
        sending = before ++ after;
        delivered = note a x.id p.delivered;
      })
  cancel :
      (now id : ℕ) (c : Campaign) (m : Mail)
      → cancel_campaign now id p.mail ≡ ok (c, m)
      → Step requeues p (record p { mail = m })
  requeue :
      (now limit : ℕ)
      → requeues ≡ true
      → Step requeues p (record p { mail = (queued_message_ids now limit p.mail).1 })

pub data Reach (requeues : Bool) (p : Plant) : Plant → Type 0 where
  here : Reach requeues p p
  next : {q r : Plant} → Reach requeues p q → Step requeues q r → Reach requeues p r
