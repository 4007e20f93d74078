-- ===== src/Payments/Members/Single.antt =====
-- payments/services.py: a member has one current subscription to a plan.
use event_management.Base.{
  ℕ, ◌+◌, ◌≤◌, ◌≡◌, refl, sym, ap, ◌∙◌, subst, Bool, true, false, ◌&&◌, not, Option, none, some,
  List, [], ◌∷◌, ◌++◌, ◌==◌, if◌then◌else◌, find, find_last, any, count_if, count_if-append,
  update_if, arith, inl, inr, ◌⊎◌, Bool-cases, ==_iff, ==_refl, some_injective, Text, text_eq, ok,
  raise_if-eq-ok, >>=-eq-ok, ok_injective,
}
use event_management.Schema.{Db}
use event_management.Schema.Events.{Contact}
use event_management.Schema.Members.{Member, MemberSubscription, is_incomplete}
use event_management.Payments.Errors.{already_member, integrity_error}
use event_management.Payments.Members.{
  MembershipRequest, create_contact, create_member, is_current, cancel_membership, give_way,
  new_membership, subscribe_member, start_member_subscription,
}

-- Of each plan, a member has at most one subscription that has not ended.
unfoldable pub IsSingle : List MemberSubscription → Type 0
IsSingle xs = (member_id plan_id : ℕ) → count_if (is_current member_id plan_id) xs ≤ 1

abbrev of_id : ℕ → MemberSubscription → Bool
of_id k x = x.id == k

canceled-is_current :
    (j q : ℕ) (x : MemberSubscription) → is_current j q (cancel_membership x) ≡ false
unfolding is_current
canceled-is_current j q x = ground arith

-- Canceling makes no subscription current.
count-canceled :
    (k j q : ℕ) (xs : List MemberSubscription)
    → count_if (is_current j q) (update_if (of_id k) cancel_membership xs)
      ≤ count_if (is_current j q) xs
unfolding count_if update_if
count-canceled k j q [] = omega arith
count-canceled k j q (x ∷ xs) = elim (Bool-cases (x.id == k)) [
  | inl t ↦ rw (t, canceled-is_current j q x) (omega (arith, count-canceled k j q xs))
  | inr t ↦ rw t (omega (arith, count-canceled k j q xs))
]

pick :
    (r : Option MemberSubscription) (b : Bool) (x o : MemberSubscription)
    → (elim r [ some y ↦ some y | none ↦ (if b then some x else none) ]) ≡ some o
    → (r ≡ some o) ⊎ ((r ≡ none) × (x ≡ o) × (b ≡ true))
pick (some y) b x o e = inl e
pick none true x o e = inr (refl, some_injective e, refl)
pick none false x o e = cc

unpick :
    (r : Option MemberSubscription) (b : Bool) (x : MemberSubscription)
    → ◌≡◌ {A = Option MemberSubscription}
        (elim r [ some y ↦ some y | none ↦ (if b then some x else none) ])
        none
    → (r ≡ none) × (b ≡ false)
unpick (some y) b x e = cc
unpick none true x e = cc
unpick none false x e = (refl, refl)

find_last-none :
    (p : MemberSubscription → Bool) (xs : List MemberSubscription)
    → find_last p xs ≡ none
    → count_if p xs ≡ 0
unfolding find_last count_if
find_last-none p [] e = refl
find_last-none p (x ∷ xs) e =
    let (f, n) = unpick (find_last p xs) (p x) x e in rw (n, find_last-none p xs f) (omega arith)

find_last-some :
    (p : MemberSubscription → Bool) (xs : List MemberSubscription) (o : MemberSubscription)
    → find_last p xs ≡ some o
    → 1 ≤ count_if p xs
unfolding find_last count_if
find_last-some p [] o e = cc
find_last-some p (x ∷ xs) o e = elim (pick (find_last p xs) (p x) x o e) [
  | inl f ↦ omega (arith, find_last-some p xs o f)
  | inr (f, q, t) ↦ rw t (omega arith)
]

-- The only current subscription, canceled.
count_none_left :
    (j q : ℕ) (xs : List MemberSubscription) (o : MemberSubscription)
    → find_last (is_current j q) xs ≡ some o
    → count_if (is_current j q) xs ≤ 1
    → count_if (is_current j q) (update_if (of_id o.id) cancel_membership xs) ≡ 0
unfolding find_last count_if update_if
count_none_left j q [] o e h = cc
count_none_left j q (x ∷ xs) o e h =
    elim (pick (find_last (is_current j q) xs) (is_current j q x) x o e) [
      | inr (f, same, t) ↦
          rw (same, ==_refl o.id, canceled-is_current j q o)
            (omega (arith, count-canceled o.id j q xs, find_last-none (is_current j q) xs f))
      | inl f ↦
          let some_left = find_last-some (is_current j q) xs o f in
          elim (Bool-cases (is_current j q x)) [
            | inl t ↦ let w = rw t at h in absurd (omega (arith, w, some_left))
            | inr t ↦
                let w = rw t at h in
                let rest = count_none_left j q xs o f (omega (arith, w)) in
                elim (Bool-cases (x.id == o.id)) [
                  | inl u ↦ rw (u, canceled-is_current j q x) (omega (arith, rest))
                  | inr u ↦ rw (u, t) (omega (arith, rest))
                ]
          ]
    ]

give_way-IsSingle :
    (j q : ℕ) (o : Option MemberSubscription) (d d' : Db)
    → find_last (is_current j q) d.member_subscriptions ≡ o
    → give_way o d ≡ ok d'
    → IsSingle d.member_subscriptions
    → IsSingle d'.member_subscriptions × (count_if (is_current j q) d'.member_subscriptions ≡ 0)
unfolding give_way IsSingle
give_way-IsSingle j q none d d' f h v =
    subst
      (λ (x : Db).
        IsSingle x.member_subscriptions × (count_if (is_current j q) x.member_subscriptions ≡ 0))
      (ok_injective h) (v, find_last-none _ d.member_subscriptions f)
give_way-IsSingle j q (some o) d d' f h v =
    let (c, h1) = raise_if-eq-ok (not (is_incomplete o.status)) already_member _ h in
    subst
      (λ (x : Db).
        IsSingle x.member_subscriptions × (count_if (is_current j q) x.member_subscriptions ≡ 0))
      (ok_injective h1)
      (
        λ i r. omega (arith, count-canceled o.id i r d.member_subscriptions, v i r),
        count_none_left j q d.member_subscriptions o f (v j q),
      )

-- What a call that returns leaves.
abbrev pub Subscribed : MembershipRequest → MemberSubscription → Db → Type 0
Subscribed q x d =
    (x.plan_id ≡ q.plan_id)
    × (count_if (is_current x.member_id q.plan_id) d.member_subscriptions ≡ 1)
    × IsSingle d.member_subscriptions

both : (a b : Bool) → (a && b) ≡ true → (a ≡ true) × (b ≡ true)
both true b t = (refl, t)
both false b t = cc

new-is_current :
    (id j i r : ℕ) (q : MembershipRequest)
    → is_current i r (new_membership id j q) ≡ (j == i && q.plan_id == r)
unfolding is_current new_membership
new-is_current id j i r q = ground arith

added-IsSingle :
    (id j : ℕ) (q : MembershipRequest) (xs : List MemberSubscription)
    → IsSingle xs
    → count_if (is_current j q.plan_id) xs ≡ 0
    → (count_if (is_current j q.plan_id) (xs ++ new_membership id j q ∷ []) ≡ 1)
      × IsSingle (xs ++ new_membership id j q ∷ [])
unfolding IsSingle count_if
added-IsSingle id j q xs v z = (
  rw
      (
        count_if-append (is_current j q.plan_id) xs (new_membership id j q ∷ []),
        z,
        new-is_current id j j q.plan_id q,
        ==_refl j,
        ==_refl q.plan_id,
      )
      (omega arith),
  λ i r.
      rw
        (
          count_if-append (is_current i r) xs (new_membership id j q ∷ []),
          new-is_current id j i r q,
        )
        (one_more i r),
)
  where
    one_more :
        (i r : ℕ)
        → count_if (is_current i r) xs + ((if (j == i && q.plan_id == r) then 1 else 0) + 0) ≤ 1
    one_more i r = elim (Bool-cases (j == i && q.plan_id == r)) [
      | inr t ↦ rw t (omega (arith, v i r))
      | inl t ↦
          let (a, b) = both (j == i) (q.plan_id == r) t in
          let none_yet =
            subst (λ k. count_if (is_current k r) xs ≡ 0) ((==_iff j i).0 a)
              (subst (λ k. count_if (is_current j k) xs ≡ 0) ((==_iff q.plan_id r).0 b) z) in
          rw (t, none_yet) (omega arith)
    ]

subscribe_member-Subscribed :
    (q : MembershipRequest) (m : Member) (d d' : Db) (x : MemberSubscription)
    → IsSingle d.member_subscriptions
    → subscribe_member q m d ≡ ok (x, d')
    → Subscribed q x d'
unfolding subscribe_member
subscribe_member-Subscribed q m d d' x v h =
    let (d1, hd, h1) =
      >>=-eq-ok (give_way (find_last (is_current m.id q.plan_id) d.member_subscriptions) d) _ h in
    let (w, z) = give_way-IsSingle m.id q.plan_id _ d d1 refl hd v in
    subst (λ (y : MemberSubscription × Db). Subscribed q y.0 y.1) (ok_injective h1)
      (
        refl,
        (added-IsSingle d1.next_id m.id q d1.member_subscriptions w z).0,
        (added-IsSingle d1.next_id m.id q d1.member_subscriptions w z).1,
      )

created_contact :
    (casefold : Text → Text) (q : MembershipRequest) (c : Option Contact) (d : Db)
    → (create_contact casefold q c d).1.member_subscriptions ≡ d.member_subscriptions
unfolding create_contact
created_contact casefold q none d = refl
created_contact casefold q (some c) d = refl

created_member :
    (site_id : ℕ) (c : Contact) (m : Option Member) (d : Db) (r : Member × Db)
    → create_member site_id c m d ≡ ok r
    → r.1.member_subscriptions ≡ d.member_subscriptions
unfolding create_member
created_member site_id c (some m) d r h =
    ap (λ (x : Member × Db). x.1.member_subscriptions) (sym (ok_injective h))
created_member site_id c none d r h =
    let (a, h1) =
      raise_if-eq-ok (any (λ (x : Member). x.contact_id == c.id) d.members) integrity_error _ h in
    ap (λ (x : Member × Db). x.1.member_subscriptions) (sym (ok_injective h1))

-- A call that returns gives a subscription to the plan that was asked for. If every member had at most
-- one subscription to a plan that has not ended, this is so afterwards, and of this member and plan
-- there is exactly one.
pub start_member_subscription-Subscribed :
    (casefold : Text → Text) (q : MembershipRequest) (d d' : Db) (x : MemberSubscription)
    → IsSingle d.member_subscriptions
    → start_member_subscription casefold q d ≡ ok (x, d')
    → Subscribed q x d'
unfolding start_member_subscription
start_member_subscription-Subscribed casefold q d d' x v h =
    let (c, d1) =
      create_contact casefold q
        (find (λ (x : Contact). x.site_id == q.site_id && text_eq x.normalized_email q.email)
          d.contacts)
        d in
    let same =
      created_contact casefold q
        (find (λ (x : Contact). x.site_id == q.site_id && text_eq x.normalized_email q.email)
          d.contacts)
        d in
    let (r, hr, h1) =
      >>=-eq-ok
        (create_member q.site_id c
          (find (λ (x : Member). x.site_id == q.site_id && x.contact_id == c.id) d1.members) d1)
        _ h in
    subscribe_member-Subscribed q r.0 r.1 d' x
      (subst IsSingle (sym (created_member q.site_id c _ d1 r hr ∙ same)) v) h1
