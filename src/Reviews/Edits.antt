-- ===== src/Reviews/Edits.antt =====
-- reviews/services.py: what an edit of a review and a new review keep.
use event_management.Base.{
  ℕ, ◌+◌, ◌≤◌, ◌≡◌, refl, sym, subst, true, false, List, [], ◌∷◌, ◌++◌, ◌==◌, if◌then◌else◌, any,
  count_if, update_if, All-mono, All-append, arith, All-update, count_if-update, count_if-append,
  count_if-any, Text, inl, inr, Bool-cases, ==_refl, ==_iff,
}
use event_management.Schema.Events.{Occurrence, Participant}
use event_management.Reviews.Model.{ModerationStatus, Review, Board}
use event_management.Reviews.Writing.{is_rating, new_review}
use event_management.Reviews.Moderation.{with_status}
use event_management.Reviews.Ledger.{IsModerated, replay_fresh, any_fresh}

count_same :
    (k : ℕ) (f : Review → Review) (j : ℕ)
    → ((x : Review) → (f x).participant_id ≡ x.participant_id)
    → (x : Review) → ((if x.id == k then f x else x).participant_id == j) ≡ (x.participant_id == j)
count_same k f j same x = elim (Bool-cases (x.id == k)) [
  | inl t ↦ rw (t, same x) refl
  | inr t ↦ rw t refl
]

pub single_with :
    (s : ModerationStatus) (k : ℕ) (xs : List Review) (j : ℕ)
    → count_if (λ (x : Review). x.participant_id == j) xs ≤ 1
    → count_if
        (λ (x : Review). x.participant_id == j)
        (update_if (λ (x : Review). x.id == k) (with_status s) xs)
      ≤ 1
single_with s k xs j h =
    subst (λ n. n ≤ 1)
      (sym (
        count_if-update (λ x. x.participant_id == j) (λ x. x.participant_id == j) (λ x. x.id == k)
          (with_status s) xs (count_same k (with_status s) j (λ x. refl))))
      h

-- A change of a review that leaves its status alone.
pub edit-IsModerated :
    (k : ℕ) (f : Review → Review) (b : Board)
    → ((x : Review)
        → ((f x).id ≡ x.id)
          × ((f x).participant_id ≡ x.participant_id)
          × ((f x).moderation_status ≡ x.moderation_status))
    → ((x : Review) → (1 ≤ x.rating) × (x.rating ≤ 5) → (1 ≤ (f x).rating) × ((f x).rating ≤ 5))
    → IsModerated b
    → IsModerated (record b { reviews = update_if (λ (x : Review). x.id == k) f b.reviews })
edit-IsModerated k f b same rating v = record {
  statuses = All-update _ _ f b.reviews (λ x e. rw ((same x).0, (same x).2) e) v.statuses;
  ids = All-update _ _ f b.reviews (λ x e. rw (same x).0 e) v.ids;
  reported = v.reported;
  moderated = v.moderated;
  rated = All-update _ _ f b.reviews rating v.rated;
  single = λ j.
      subst (λ n. n ≤ 1)
        (sym (
          count_if-update (λ x. x.participant_id == j) (λ x. x.participant_id == j) (λ x. x.id == k)
            f b.reviews (count_same k f j (λ x. (same x).1))))
        (v.single j);
}

one_more :
    (p : Participant) (j : ℕ) (xs : List Review)
    → any (λ (x : Review). x.participant_id == p.id) xs ≡ false
    → count_if (λ (x : Review). x.participant_id == j) xs ≤ 1
    → count_if (λ (x : Review). x.participant_id == j) xs + ((if p.id == j then 1 else 0) + 0) ≤ 1
one_more p j xs e h = elim (Bool-cases (p.id == j)) [
  | inl t ↦
      let c = count_if-any (λ (x : Review). x.participant_id == p.id) xs e in
      subst
        (λ i.
          count_if (λ (x : Review). x.participant_id == i) xs + ((if p.id == i then 1 else 0) + 0)
          ≤ 1)
        ((==_iff p.id j).0 t) (rw (c, ==_refl p.id) (omega arith))
  | inr t ↦ rw t (omega (arith, h))
]

pub added-IsModerated :
    (p : Participant) (o : Occurrence) (rating : ℕ) (comment : Text) (b : Board)
    → is_rating rating ≡ true
    → any (λ (x : Review). x.participant_id == p.id) b.reviews ≡ false
    → IsModerated b
    → IsModerated (record b {
      next_id = b.next_id + 1;
      reviews = b.reviews ++ new_review b.next_id p o rating comment ∷ [];
    })
unfolding new_review is_rating count_if
added-IsModerated p o rating comment b r e v = record {
  statuses = All-append _ b.reviews _ v.statuses (
    rw
        (
          replay_fresh b.next_id false b.moderations v.moderated,
          any_fresh b.next_id b.reports v.reported,
        )
        refl,
    tt,
  );
  ids =
      All-append _ b.reviews _ (All-mono _ _ b.reviews (λ x q. omega (arith, q)) v.ids)
        (omega arith, tt);
  reported = All-mono _ _ b.reports (λ x q. omega (arith, q)) v.reported;
  moderated = All-mono _ _ b.moderations (λ x q. omega (arith, q)) v.moderated;
  rated = All-append _ b.reviews _ v.rated ((ground arith, ground arith), tt);
  single = λ j.
      rw
        (count_if-append (λ (x : Review). x.participant_id == j) b.reviews
          (new_review b.next_id p o rating comment ∷ []))
        (one_more p j b.reviews e (v.single j));
}
