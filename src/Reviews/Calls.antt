-- ===== src/Reviews/Calls.antt =====
-- reviews/services.py: each call keeps the statuses of the reviews in step with their history.
use event_management.Base.{
  All-update_cases, ℕ, ◌+◌, ◌≡◌, refl, sym, ◌∙◌, subst, Bool, true, not, Option, none, some, [],
  ◌∷◌, ◌==◌, find, any, All-mono, All-append, arith, All-update, find-All, find-test, Text, ok,
  >>=-eq-ok, raise_if-eq-ok, or_raise-eq-ok, ok_injective, not-eq-false, ==_iff,
}
use event_management.Schema.Events.{Occurrence, Participant}
use event_management.Reviews.Model.{
  Review, Action, ReviewModeration, Board, get_review, not_attended, integrity_error,
}
use event_management.Reviews.Writing.{
  get_attended, participant_can_review, is_rating, edited, store_review, save_review, deleted,
  delete_review, responded, respond_to_review,
}
use event_management.Reviews.Moderation.{
  with_status, report_review, new_moderation, status_after, moderate_review,
}
use event_management.Reviews.Ledger.{IsModerated, resolve_reports-All}
use event_management.Reviews.Edits.{single_with, edit-IsModerated, added-IsModerated}
use event_management.Reviews.Reporting.{report_review-IsModerated, moderated_own, moderated_other}

moderate_review-IsModerated :
    (now id actor : ℕ) (action : Action) (reason : Text) (b b' : Board) (x : ReviewModeration)
    → IsModerated b
    → moderate_review now id actor (some action) reason b ≡ ok (x, b')
    → IsModerated b'
unfolding moderate_review new_moderation get_review
moderate_review-IsModerated now id actor action reason b b' x v h =
    let (r, hr, h1) = >>=-eq-ok (get_review id b) _ h in
    let found = or_raise-eq-ok _ _ hr in
    let own : r.id ≡ id = (==_iff r.id id).0 (find-test _ b.reviews r found) in
    let known = find-All _ _ b.reviews r found v.ids in
    subst (λ (y : ReviewModeration × Board). IsModerated y.1) (ok_injective h1)
      (record {
        statuses =
            All-update_cases _ _ _ (with_status (status_after action)) b.reviews
              (λ x q e. sym (
                moderated_own r now b.next_id id actor action reason b x.id own
                  ((==_iff x.id id).0 q)))
              (λ x q e.
                e ∙ sym (moderated_other r now b.next_id id actor action reason b x.id own q))
              v.statuses;
        ids =
            All-update _ _ _ b.reviews (λ x q. q)
              (All-mono _ _ b.reviews (λ x q. omega (arith, q)) v.ids);
        reported =
            resolve_reports-All now id (b.next_id + 1) action b.reports
              (All-mono _ _ b.reports (λ x q. omega (arith, q)) v.reported);
        moderated =
            All-append _ b.moderations (new_moderation b.next_id r actor action reason ∷ [])
              (All-mono _ _ b.moderations (λ x q. omega (arith, q)) v.moderated)
              (omega (arith, known), tt);
        rated = All-update _ _ _ b.reviews (λ x q. q) v.rated;
        single = λ j. single_with (status_after action) id b.reviews j (v.single j);
      })

delete_review-IsModerated :
    (now id : ℕ) (b b' : Board) (x : Review)
    → IsModerated b
    → delete_review now id b ≡ ok (x, b')
    → IsModerated b'
unfolding delete_review deleted
delete_review-IsModerated now id b b' x v h =
    let (r, hr, h1) = >>=-eq-ok (get_review id b) _ h in
    subst (λ (y : Review × Board). IsModerated y.1) (ok_injective h1)
      (edit-IsModerated id (deleted now) b (λ x. (refl, refl, refl)) (λ x e. e) v)

respond_to_review-IsModerated :
    (now id actor : ℕ) (response : Text) (b b' : Board) (x : Review)
    → IsModerated b
    → respond_to_review now id actor response b ≡ ok (x, b')
    → IsModerated b'
unfolding respond_to_review responded
respond_to_review-IsModerated now id actor response b b' x v h =
    let (r, hr, h1) = >>=-eq-ok (get_review id b) _ h in
    subst (λ (y : Review × Board). IsModerated y.1) (ok_injective h1)
      (edit-IsModerated id (responded now actor response) b (λ x. (refl, refl, refl)) (λ x e. e) v)

store_review-IsModerated :
    (now : ℕ) (p : Participant) (o : Occurrence) (rating : ℕ) (comment : Text) (b b' : Board)
    (found : Option Review) (x : Review × Bool)
    → is_rating rating ≡ true
    → IsModerated b
    → store_review now p o rating comment b found ≡ ok (x, b')
    → IsModerated b'
unfolding store_review edited is_rating
store_review-IsModerated now p o rating comment b b' (some y) x r v h =
    subst (λ (y : (Review × Bool) × Board). IsModerated y.1) (ok_injective h)
      (edit-IsModerated y.id (edited now rating comment) b (λ x. (refl, refl, refl))
        (λ x e. (ground arith, ground arith)) v)
store_review-IsModerated now p o rating comment b b' none x r v h =
    let (e, h1) =
      raise_if-eq-ok (any (λ (x : Review). x.participant_id == p.id) b.reviews) integrity_error _
        h in
    subst (λ (y : (Review × Bool) × Board). IsModerated y.1) (ok_injective h1)
      (added-IsModerated p o rating comment b r e v)

save_review-IsModerated :
    (now id rating : ℕ) (comment : Text) (b b' : Board) (x : Review × Bool)
    → IsModerated b
    → save_review now id rating comment b ≡ ok (x, b')
    → IsModerated b'
unfolding save_review
save_review-IsModerated now id rating comment b b' x v h =
    let (po, hp, h1) = >>=-eq-ok (get_attended id b.db) _ h in
    let (c, h2) =
      raise_if-eq-ok (not (participant_can_review now po.0 po.1 b.db)) not_attended _ h1 in
    let (r, h3) = raise_if-eq-ok (not (is_rating rating)) integrity_error _ h2 in
    store_review-IsModerated now po.0 po.1 rating comment b b' _ x (not-eq-false _ r) v h3

-- One call that returns; a call that raises leaves the tables alone. A report is given the review
-- as it stands.
pub data Step (b b' : Board) : Type 0 where
  save :
      (now id rating : ℕ) (comment : Text) (x : Review × Bool)
      → save_review now id rating comment b ≡ ok (x, b')
      → Step b b'
  delete : (now id : ℕ) (x : Review) → delete_review now id b ≡ ok (x, b') → Step b b'
  respond :
      (now id actor : ℕ) (response : Text) (x : Review)
      → respond_to_review now id actor response b ≡ ok (x, b')
      → Step b b'
  report :
      (review : Review) (actor : ℕ) (reason : Text)
      → find (λ (x : Review). x.id == review.id) b.reviews ≡ some review
      → (report_review review actor reason b).1 ≡ b'
      → Step b b'
  moderate :
      (now id actor : ℕ) (action : Action) (reason : Text) (x : ReviewModeration)
      → moderate_review now id actor (some action) reason b ≡ ok (x, b')
      → Step b b'

pub data Reach (b : Board) : Board → Type 0 where
  here : Reach b b
  next : {b' b'' : Board} → Reach b b' → Step b' b'' → Reach b b''

Step-IsModerated : (b b' : Board) → IsModerated b → Step b b' → IsModerated b'
Step-IsModerated b b' v (save now id rating comment x h) =
    save_review-IsModerated now id rating comment b b' x v h
Step-IsModerated b b' v (delete now id x h) = delete_review-IsModerated now id b b' x v h
Step-IsModerated b b' v (respond now id actor response x h) =
    respond_to_review-IsModerated now id actor response b b' x v h
Step-IsModerated b b' v (report review actor reason e h) =
    subst IsModerated h (report_review-IsModerated review actor reason b e v)
Step-IsModerated b b' v (moderate now id actor action reason x h) =
    moderate_review-IsModerated now id actor action reason b b' x v h

-- Whatever savings, deletions, answers, reports and moderations follow one another, where each
-- report is given the review as it stands, the status of every review stays what its history says
-- if it was: hidden if its last moderation hides it, else reported if a report of it is open, and
-- else visible. Nobody has two reviews, and all ratings are from one to five.
pub Reach-IsModerated : (b b' : Board) → IsModerated b → Reach b b' → IsModerated b'
Reach-IsModerated b b' v here = v
Reach-IsModerated b b' v (next r s) = Step-IsModerated _ b' (Reach-IsModerated b _ v r) s
