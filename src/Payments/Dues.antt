-- ===== src/Payments/Dues.antt =====
-- payments/services.py: what Stripe reports of the subscriptions of members and of their invoices.
-- A row without a Stripe subscription has the id 0, which no query finds.
use event_management.Base.{
  ℕ, ◌+◌, Bool, true, false, ◌&&◌, not, Option, none, some, [], ◌∷◌, ◌++◌, ◌==◌, if◌then◌else◌,
  find, find_last, any, update_if, Result, ok, raise_if, ◌>>◌,
}
use event_management.Schema.{Db}
use event_management.Schema.Members.{MembershipStatus, MemberSubscription, MembershipPayment}
use event_management.Payments.Errors.{Error, account_mismatch, integrity_error}
use event_management.Payments.Orders.{ObjectKind, is_session, or_id}
use event_management.Payments.Objects.{StatusText, StripeObject, as_datetime}

-- `stripe_subscription_id=id`, where a row without one is null
abbrev pub has_stripe_id : ℕ → MemberSubscription → Bool
has_stripe_id id x = not (id == 0) && x.stripe_subscription_id == id

abbrev pub is_subscription : ObjectKind → Bool
is_subscription ObjectKind.subscription = true
is_subscription _ = false

abbrev pub or_search :
    Option MemberSubscription → Option MemberSubscription → Option MemberSubscription
or_search none y = y
or_search (some x) y = some x

-- `_member_subscription_from_object`
unfoldable pub member_subscription_from_object : StripeObject → Db → Option MemberSubscription
member_subscription_from_object s d =
    or_search
      (if s.metadata_member_subscription_id == 0
        then none
        else find (λ (x : MemberSubscription). x.id == s.metadata_member_subscription_id)
            d.member_subscriptions)
      (find_last (has_stripe_id (if is_subscription s.kind then s.id else s.subscription))
        d.member_subscriptions)

-- `status_map.get(provider_status, subscription.status)`
unfoldable pub mapped_membership : StatusText → MembershipStatus → MembershipStatus
mapped_membership StatusText.incomplete previous = MembershipStatus.incomplete
mapped_membership StatusText.incomplete_expired previous = MembershipStatus.expired
mapped_membership StatusText.trialing previous = MembershipStatus.trialing
mapped_membership StatusText.active previous = MembershipStatus.active
mapped_membership StatusText.past_due previous = MembershipStatus.past_due
mapped_membership StatusText.unpaid previous = MembershipStatus.past_due
mapped_membership StatusText.canceled previous = MembershipStatus.canceled
mapped_membership StatusText.paused previous = MembershipStatus.past_due
mapped_membership _ previous = previous

-- The row with what the object reports.
unfoldable pub reported_membership : StripeObject → MemberSubscription → MemberSubscription
unfolding mapped_membership as_datetime
reported_membership s x =
    if is_session s.kind
    then record x { stripe_customer_id = s.customer; stripe_subscription_id = s.subscription }
    else record x {
      stripe_subscription_id = s.id;
      stripe_customer_id = s.customer;
      status = mapped_membership s.status x.status;
      current_period_starts_at = as_datetime s.current_period_start;
      current_period_ends_at = as_datetime s.current_period_end;
      cancel_at_period_end = s.cancel_at_period_end;
      canceled_at = as_datetime s.canceled_at;
    }

-- Another row has this Stripe subscription: the constraint of the table.
unfoldable pub is_taken : MemberSubscription → Db → Bool
is_taken x d =
    any (λ (y : MemberSubscription). not (y.id == x.id) && has_stripe_id x.stripe_subscription_id y)
      d.member_subscriptions

abbrev pub is_foreign_member : ℕ → MemberSubscription → Bool
is_foreign_member account_id x = not (account_id == 0) && not (x.connected_account_id == account_id)

-- `subscription.save()`
unfoldable pub save_membership : MemberSubscription → Db → Db
save_membership x d = record d {
  member_subscriptions =
      update_if (λ (y : MemberSubscription). y.id == x.id) (λ y. x) d.member_subscriptions;
}

unfoldable pub member_found :
    StripeObject
    → ℕ
    → Option MemberSubscription
    → Db
    → Result Error (Option MemberSubscription × Db)
unfolding reported_membership is_taken save_membership
member_found s account_id none d = ok (none, d)
member_found s account_id (some x) d = do
  raise_if (is_foreign_member account_id x) account_mismatch
  raise_if (is_taken (reported_membership s x) d) integrity_error
  ok (some (reported_membership s x), save_membership (reported_membership s x) d)

unfoldable pub apply_member_subscription :
    StripeObject → ℕ → Db → Result Error (Option MemberSubscription × Db)
unfolding member_subscription_from_object member_found
apply_member_subscription s account_id d =
    member_found s account_id (member_subscription_from_object s d) d

unfoldable pub invoice_payment : ℕ → StripeObject → Bool → MemberSubscription → MembershipPayment
unfolding as_datetime
invoice_payment id s paid x = record {
  id = id;
  site_id = x.site_id;
  member_subscription_id = x.id;
  stripe_invoice_id = s.id;
  amount_due_cents = s.amount_due;
  amount_paid_cents = s.amount_paid;
  paid = paid;
  paid_at = if paid then as_datetime s.paid_at else none;
}

-- `MembershipPayment.objects.update_or_create(…)`
unfoldable pub store_payment :
    StripeObject → Bool → MemberSubscription → Option MembershipPayment → Db → Db
unfolding invoice_payment
store_payment s paid x none d = record d {
  next_id = d.next_id + 1;
  membership_payments = d.membership_payments ++ invoice_payment d.next_id s paid x ∷ [];
}
store_payment s paid x (some p) d = record d {
  membership_payments =
      update_if (λ (y : MembershipPayment). y.id == p.id) (λ y. invoice_payment p.id s paid x)
        d.membership_payments;
}

abbrev pub invoiced : Bool → MemberSubscription → MemberSubscription
invoiced paid x = record x {
  status = if paid then MembershipStatus.active else MembershipStatus.past_due;
}

unfoldable pub invoice_found :
    StripeObject
    → Bool
    → ℕ
    → Option MemberSubscription
    → Db
    → Result Error (Option MemberSubscription × Db)
unfolding save_membership store_payment
invoice_found s paid account_id none d = ok (none, d)
invoice_found s paid account_id (some x) d = do
  raise_if (is_foreign_member account_id x) account_mismatch
  ok (
    some (invoiced paid x),
    store_payment s paid x
        (find (λ (p : MembershipPayment). p.stripe_invoice_id == s.id) d.membership_payments)
        (save_membership (invoiced paid x) d),
  )

unfoldable pub apply_member_invoice :
    StripeObject → Bool → ℕ → Db → Result Error (Option MemberSubscription × Db)
unfolding invoice_found
apply_member_invoice s paid account_id d =
    invoice_found s paid account_id
      (find_last (has_stripe_id (or_id s.subscription s.details_subscription))
        d.member_subscriptions)
      d
