-- ===== src/Reviews/Reporting.antt =====
-- reviews/services.py: what a report and a moderation change of the statuses.
use event_management.Base.{
  All-update_cases, ℕ, ◌≡◌, refl, ap, sym, ◌∙◌, subst, Bool, true, false, some, List, [], ◌∷◌, ◌++◌,
  ◌==◌, if◌then◌else◌, find, any, update_if, All, All-mono, All-append, any-append, arith,
  All-update, find-All, Text, inl, inr, Bool-cases, ==_refl, ==_iff,
}
use event_management.Reviews.Model.{
  ModerationStatus, Review, ReviewReport, Action, ReviewModeration, Board, is_visible,
}
use event_management.Reviews.Moderation.{
  is_open, with_status, new_report, report_review, new_moderation, status_after, resolve_reports,
}
use event_management.Reviews.Ledger.{
  hides, replay, told, status_for, IsModerated, replay-append, resolve_reports-open,
}
use event_management.Reviews.Edits.{single_with}

told-report :
    (review : Review) (id actor : ℕ) (reason : Text) (ms : List ReviewModeration)
    (rs : List ReviewReport) (i : ℕ)
    → told ms (rs ++ new_report id review actor reason ∷ []) i
      ≡ (if review.id == i then status_for (replay i false ms) true else told ms rs i)
unfolding new_report is_open any
told-report review id actor reason ms rs i =
    rw (any-append (is_open i) rs (new_report id review actor reason ∷ [])) (ground arith)

-- The status of the reported review, as it was before the report.
reported_if :
    (h o : Bool)
    → is_visible (status_for h o) ≡ true
    → ModerationStatus.reported ≡ status_for h true
reported_if true o e = cc
reported_if false o e = refl

kept_if : (h o : Bool) → is_visible (status_for h o) ≡ false → status_for h o ≡ status_for h true
kept_if true o e = refl
kept_if false true e = refl
kept_if false false e = cc

module _ (review : Review) (actor : ℕ) (reason : Text) (b : Board) (v : IsModerated b)
    (e : review.moderation_status ≡ told b.moderations b.reports review.id) where
  abbrev reports' : List ReviewReport
  reports' = b.reports ++ new_report b.next_id review actor reason ∷ []

  told_other :
      (i : ℕ)
      → (review.id == i) ≡ false
      → told b.moderations reports' i ≡ told b.moderations b.reports i
  told_other i t = told-report review b.next_id actor reason b.moderations b.reports i ∙ rw t refl

  told_own :
      (i : ℕ)
      → (review.id == i) ≡ true
      → told b.moderations reports' i ≡ status_for (replay i false b.moderations) true
  told_own i t = told-report review b.next_id actor reason b.moderations b.reports i ∙ rw t refl

  status_own :
      (i : ℕ) → (review.id == i) ≡ true → review.moderation_status ≡ told b.moderations b.reports i
  status_own i t =
      subst (λ k. review.moderation_status ≡ told b.moderations b.reports k)
        ((==_iff review.id i).0 t) e

  marked-statuses :
      is_visible review.moderation_status ≡ true
      → All
          (λ x. x.moderation_status ≡ told b.moderations reports' x.id)
          (update_if (λ x. x.id == review.id) (with_status ModerationStatus.reported) b.reviews)
  marked-statuses t =
      All-update_cases _ _ _ (with_status ModerationStatus.reported) b.reviews
        (λ x q h.
          reported_if (replay x.id false b.moderations) (any (is_open x.id) b.reports)
            (ap is_visible (sym (status_own x.id (flip x q))) ∙ t)
          ∙ sym (told_own x.id (flip x q)))
        (λ x q h. h ∙ sym (told_other x.id (flop x q))) v.statuses
    where
      flip : (x : Review) → (x.id == review.id) ≡ true → (review.id == x.id) ≡ true
      flip x q = ground arith

      flop : (x : Review) → (x.id == review.id) ≡ false → (review.id == x.id) ≡ false
      flop x q = ground arith

  kept-statuses :
      is_visible review.moderation_status ≡ false
      → All (λ x. x.moderation_status ≡ told b.moderations reports' x.id) b.reviews
  kept-statuses t =
      All-mono _ _ b.reviews
        (λ x h. elim (Bool-cases (review.id == x.id)) [
          | inl q ↦
              h
              ∙ kept_if (replay x.id false b.moderations) (any (is_open x.id) b.reports)
                  (ap is_visible (sym (status_own x.id q)) ∙ t)
              ∙ sym (told_own x.id q)
          | inr q ↦ h ∙ sym (told_other x.id q)
        ])
        v.statuses

pub report_review-IsModerated :
    (review : Review) (actor : ℕ) (reason : Text) (b : Board)
    → find (λ (x : Review). x.id == review.id) b.reviews ≡ some review
    → IsModerated b
    → IsModerated (report_review review actor reason b).1
unfolding report_review new_report
report_review-IsModerated review actor reason b e v =
    let known = find-All _ _ b.reviews review e v.ids in
    let status = find-All _ _ b.reviews review e v.statuses in
    let reported =
      All-append _ b.reports (new_report b.next_id review actor reason ∷ [])
        (All-mono _ _ b.reports (λ x q. omega (arith, q)) v.reported) (omega (arith, known), tt) in
    let moderated = All-mono _ _ b.moderations (λ x q. omega (arith, q)) v.moderated in
    let grown = All-mono _ _ b.reviews (λ x q. omega (arith, q)) v.ids in
    elim (Bool-cases (is_visible review.moderation_status)) [
      | inl t ↦ rw t (record {
        statuses = marked-statuses review actor reason b v status t;
        ids = All-update _ _ _ b.reviews (λ x q. q) grown;
        reported = reported;
        moderated = moderated;
        rated = All-update _ _ _ b.reviews (λ x q. q) v.rated;
        single = λ j. single_with ModerationStatus.reported review.id b.reviews j (v.single j);
      })
      | inr t ↦ rw t (record {
        statuses = kept-statuses review actor reason b v status t;
        ids = grown;
        reported = reported;
        moderated = moderated;
        rated = v.rated;
        single = v.single;
      })
    ]

moderated_if :
    (c h o : Bool) (a : Action)
    → status_for (if c then hides a else h) (if c then (if hides a then o else false) else o)
      ≡ (if c then status_after a else status_for h o)
unfolding status_after
moderated_if true h o Action.hidden = refl
moderated_if true h o Action.restored = refl
moderated_if false h o a = refl

told-moderate :
    (x : Review) (now next id actor : ℕ) (action : Action) (reason : Text)
    (ms : List ReviewModeration) (rs : List ReviewReport) (i : ℕ)
    → x.id ≡ id
    → told
        (ms ++ new_moderation next x actor action reason ∷ [])
        (resolve_reports now id action rs)
        i
      ≡ (if id == i then status_after action else told ms rs i)
unfolding new_moderation status_after
told-moderate x now next id actor action reason ms rs i e =
    rw
      (
        replay-append i false ms (new_moderation next x actor action reason),
        resolve_reports-open now id i action rs,
        e,
      )
      (moderated_if (id == i) (replay i false ms) (any (is_open i) rs) action)

module _ (x : Review) (now next id actor : ℕ) (action : Action) (reason : Text) (b : Board) (i : ℕ)
    (e : x.id ≡ id) where
  abbrev after : ModerationStatus
  after =
      told (b.moderations ++ new_moderation next x actor action reason ∷ [])
        (resolve_reports now id action b.reports) i

  pub moderated_own : i ≡ id → after ≡ status_after action
  moderated_own t =
      told-moderate x now next id actor action reason b.moderations b.reports i e
      ∙ rw (t, ==_refl id) refl

  pub moderated_other : (i == id) ≡ false → after ≡ told b.moderations b.reports i
  moderated_other t =
      let f : (id == i) ≡ false = ground arith in
      told-moderate x now next id actor action reason b.moderations b.reports i e ∙ rw f refl
