-- ===== src/Payments/Members.antt =====
-- payments/services.py: the start of a member's subscription.
pub mod Single
use event_management.Base.{
  ℕ, ◌+◌, Bool, true, false, ◌&&◌, ◌||◌, not, Option, none, some, List, [], ◌∷◌, ◌++◌, ◌==◌,
  if◌then◌else◌, find, find_last, any, update_if, Text, text_eq, strip, Result, ok, err, raise_if,
  or_raise, ◌>>=◌, ◌>>◌,
}
use event_management.Schema.{Db}
use event_management.Schema.Events.{Contact}
use event_management.Schema.Members.{
  Member, MembershipStatus, MemberSubscription, MembershipPayment, has_ended, is_incomplete,
}
use event_management.Events.PublicResponse.{stored_email}
use event_management.Payments.Errors.{
  Error, already_member, account_mismatch, integrity_error, does_not_exist,
}
use event_management.Payments.Orders.{ObjectKind, is_session, or_id}
use event_management.Payments.Objects.{StatusText, StripeObject, as_datetime}

-- Who asks for a membership, and of which plan.
pub record MembershipRequest : Type 0 where
  pub site_id : ℕ
  pub plan_id : ℕ
  pub first_name : Text
  pub last_name : Text
  pub email : Text
  pub account_id : ℕ

unfoldable pub create_contact :
    (Text → Text) → MembershipRequest → Option Contact → Db → Contact × Db
unfolding stored_email
create_contact casefold q (some c) d = (c, d)
create_contact casefold q none d =
    let c : Contact = record {
      id = d.next_id;
      site_id = q.site_id;
      first_name = q.first_name;
      last_name = q.last_name;
      email = strip q.email;
      normalized_email = stored_email casefold (strip q.email);
      phone = [];
      archived_at = none;
    } in
    (c, record d { next_id = d.next_id + 1; contacts = d.contacts ++ c ∷ [] })

-- `Member.objects.get_or_create(…)`; a contact is one member at most.
unfoldable pub create_member : ℕ → Contact → Option Member → Db → Result Error (Member × Db)
create_member site_id c (some m) d = ok (m, d)
create_member site_id c none d = do
  raise_if (any (λ (x : Member). x.contact_id == c.id) d.members) integrity_error
  let m : Member = record { id = d.next_id; site_id = site_id; contact_id = c.id }
  ok (m, record d { next_id = d.next_id + 1; members = d.members ++ m ∷ [] })

-- A subscription of this member to this plan that has not ended.
unfoldable pub is_current : ℕ → ℕ → MemberSubscription → Bool
is_current member_id plan_id x =
    x.member_id == member_id && x.plan_id == plan_id && not (has_ended x.status)

abbrev pub cancel_membership : MemberSubscription → MemberSubscription
cancel_membership x = record x { status = MembershipStatus.canceled }

-- An incomplete subscription gives way to the new one; any other that has not ended is in the way.
unfoldable pub give_way : Option MemberSubscription → Db → Result Error Db
give_way none d = ok d
give_way (some x) d = do
  raise_if (not (is_incomplete x.status)) already_member
  ok (record d {
    member_subscriptions =
        update_if (λ (y : MemberSubscription). y.id == x.id) cancel_membership
          d.member_subscriptions;
  })

unfoldable pub new_membership : ℕ → ℕ → MembershipRequest → MemberSubscription
new_membership id member_id q = record {
  id = id;
  site_id = q.site_id;
  member_id = member_id;
  plan_id = q.plan_id;
  status = MembershipStatus.incomplete;
  connected_account_id = q.account_id;
  stripe_customer_id = 0;
  stripe_subscription_id = 0;
  stripe_checkout_session_id = 0;
  current_period_starts_at = none;
  current_period_ends_at = none;
  cancel_at_period_end = false;
  canceled_at = none;
}

-- The end of the call, once the member is known.
unfoldable pub subscribe_member :
    MembershipRequest → Member → Db → Result Error (MemberSubscription × Db)
unfolding is_current give_way new_membership
subscribe_member q m d = do
  d' ← give_way (find_last (is_current m.id q.plan_id) d.member_subscriptions) d
  ok (
    new_membership d'.next_id m.id q,
    record d' {
      next_id = d'.next_id + 1;
      member_subscriptions = d'.member_subscriptions ++ new_membership d'.next_id m.id q ∷ [];
    },
  )

unfoldable pub start_member_subscription :
    (Text → Text) → MembershipRequest → Db → Result Error (MemberSubscription × Db)
unfolding create_contact create_member subscribe_member
start_member_subscription casefold q d =
    let (c, d1) =
      create_contact casefold q
        (find (λ (x : Contact). x.site_id == q.site_id && text_eq x.normalized_email q.email)
          d.contacts)
        d in
    do
      (m, d2) ←
          create_member q.site_id c
            (find (λ (x : Member). x.site_id == q.site_id && x.contact_id == c.id) d1.members) d1
      subscribe_member q m d2
