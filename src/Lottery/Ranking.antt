-- ===== src/Lottery/Ranking.antt =====
-- What LotteryPreferenceService.set_preferences stores.
use i_dolly_backend.Database.{Database}
use i_dolly_backend.Lottery.Preference.{
  check_campaigns, check_ranked, check_ranking_change_allowed, delete_ranking, insert_preference,
  insert_ranking, set_preferences,
}
use i_dolly_backend.Prelude.{ℕ, ◌+◌, ◌≡◌, refl, sym, ap, ◌∙◌, List, [], ◌∷◌, ◌++◌}
use i_dolly_backend.Session.{Session, ok, start}
use i_dolly_backend.Session.Invariant.{
  Keeps, Keeps-bind, Keeps-found, Keeps-pure, Keeps-query, Keeps-raise_if, keeps_rules,
}
use i_dolly_backend.Session.Outcome.{
  bind-ok, commit-by, found-by, modify-by, pure-ok, query-by, write-ok,
}
use i_dolly_backend.Tables.{LotteryCampaign, LotteryPreference, Time, User, Uuid}
use i_dolly_backend.Trigger.{require_ticket_type_matches_concert}

-- A fan's ranking as rows: the tiers in their order, numbered upwards from `i`.
unfoldable pub ranking : Uuid → Uuid → ℕ → List Uuid → List LotteryPreference
ranking concert_id user_id i [] = []
ranking concert_id user_id i (k ∷ ks) =
    record { concert_id = concert_id; user_id = user_id; ticket_type_id = k; rank = i }
    ∷ ranking concert_id user_id (i + 1) ks

abbrev pub with_rows : Database → List LotteryPreference → Database
with_rows db rows = record db { lottery_preferences = db.lottery_preferences ++ rows }

append_assoc : (xs ys zs : List LotteryPreference) → (xs ++ ys) ++ zs ≡ xs ++ (ys ++ zs)
append_assoc [] ys zs = refl
append_assoc (x ∷ xs) ys zs = ap (λ l. x ∷ l) (append_assoc xs ys zs)

append_none : (xs : List LotteryPreference) → xs ++ [] ≡ xs
append_none [] = refl
append_none (x ∷ xs) = ap (λ l. x ∷ l) (append_none xs)

insert_ranking-ok :
    (c u : Uuid) (i : ℕ) (ks : List Uuid) (s s' : Session) (rows : List LotteryPreference)
    → insert_ranking c u i ks s ≡ (ok rows, s')
    → (rows ≡ ranking c u i ks) × (s'.view ≡ with_rows s.view (ranking c u i ks))
unfolding insert_ranking insert_preference ranking
insert_ranking-ok c u i [] s s' rows h =
    let (e, k) = pure-ok [] rows s s' h in
    (
      sym e,
      ap (λ x. x.view) k
          ∙ ap (λ l. record s.view { lottery_preferences = l })
              (sym (append_none s.view.lottery_preferences)),
    )
insert_ranking-ok c u i (k ∷ ks) s s' rows h =
    let row : LotteryPreference = record {
      concert_id = c;
      user_id = u;
      ticket_type_id = k;
      rank = i;
    } in
    let (_, s₁, inserted, h₁) = bind-ok (insert_preference row) _ s s' rows h in
    let (_, now₁) =
      write-ok (λ db. require_ticket_type_matches_concert db row) (λ db. with_rows db (row ∷ [])) s
        s₁ tt inserted in
    let (rest, s₂, ranked, h₂) = bind-ok (insert_ranking c u (i + 1) ks) _ s₁ s' rows h₁ in
    let (e, now₂) = insert_ranking-ok c u (i + 1) ks s₁ s₂ rest ranked in
    let (e', now') = pure-ok (row ∷ rest) rows s₂ s' h₂ in
    (
      sym e' ∙ ap (λ l. row ∷ l) e,
      ap (λ x. x.view) now'
          ∙ now₂
          ∙ ap (λ x. with_rows x.view (ranking c u (i + 1) ks)) now₁
          ∙ ap (λ l. record s.view { lottery_preferences = l })
              (append_assoc s.view.lottery_preferences (row ∷ []) (ranking c u (i + 1) ks)),
    )

module _ (P : Database → Type 0) where
  check_campaigns-Keeps :
      (now : Time) (campaigns : List LotteryCampaign) (ks : List Uuid)
      → Keeps P (check_campaigns now campaigns ks)
  unfolding check_campaigns
  check_campaigns-Keeps now campaigns [] = Keeps-pure P _
  check_campaigns-Keeps now campaigns (k ∷ ks) =
      Keeps-bind P _ _ (Keeps-found P _ _)
        (λ c. Keeps-bind P _ _ (Keeps-raise_if P _ _) (λ _. check_campaigns-Keeps now campaigns ks))

  check_ranking_change_allowed-Keeps :
      (now : Time) (concert_id user_id : Uuid) (ks : List Uuid)
      → Keeps P (check_ranking_change_allowed now concert_id user_id ks)
  unfolding check_ranking_change_allowed
  check_ranking_change_allowed-Keeps now concert_id user_id ks =
      search (keeps_rules, check_campaigns-Keeps) depth 20

  check_ranked-Keeps :
      (concert_id : Uuid) (seen ks : List Uuid) → Keeps P (check_ranked concert_id seen ks)
  unfolding check_ranked
  check_ranked-Keeps concert_id seen [] = Keeps-pure P _
  check_ranked-Keeps concert_id seen (k ∷ ks) = Keeps-bind P _ _ (Keeps-raise_if P _ _) (λ _.
      Keeps-bind P _ _ (Keeps-query P _) (λ o. Keeps-bind P _ _ (Keeps-found P _ o) (λ tier.
        Keeps-bind P _ _ (Keeps-raise_if P _ _) (λ _.
          Keeps-bind P _ _ (Keeps-raise_if P _ _)
            (λ _. check_ranked-Keeps concert_id (k ∷ seen) ks)))))

-- A ranking that is accepted replaces the fan's ranking of the concert: the old rows are gone, and
-- the new ones are the tiers in the order asked for, numbered from 1; nothing else changes.
pub set_preferences-ranking :
    (now : Time) (concert_id : Uuid) (ks : List Uuid) (user : User) (db : Database) (s' : Session)
    → (rows : List LotteryPreference)
    → set_preferences now concert_id ks user (start db) ≡ (ok rows, s')
    → (rows ≡ ranking concert_id user.id 1 ks)
      × (s'.committed ≡ with_rows (delete_ranking concert_id user.id db) rows)
unfolding set_preferences
set_preferences-ranking now concert_id ks user db s' rows h = query-by _ _ (start db) s' rows h λ h.
    found-by _ _ _ (start db) s' rows h λ concert seen h.
      let (ids, s₁, checked, h₁) = bind-ok (check_ranked concert_id [] ks) _ (start db) s' rows h in
      let same₁ = (check_ranked-Keeps (λ x. x ≡ db) concert_id [] ks).at (start db) (refl, refl) in
      let (_, s₂, allowed, h₂) =
        bind-ok (check_ranking_change_allowed now concert_id user.id ids) _ s₁ s' rows h₁ in
      let same₂ =
        (check_ranking_change_allowed-Keeps (λ x. x ≡ db) now concert_id user.id ids).at s₁ (
          ap (λ x. x.1.view) (sym checked) ∙ same₁.0,
          ap (λ x. x.1.committed) (sym checked) ∙ same₁.1,
        ) in
      modify-by _ _ s₂ s' rows h₂ λ h₃.
        let (rows', s₄, inserted, h₄) =
          bind-ok (insert_ranking concert_id user.id 1 ks) _ _ s' rows h₃ in
        let (e, stored) = insert_ranking-ok concert_id user.id 1 ks _ s₄ rows' inserted in
        commit-by _ s₄ s' rows h₄ λ h₅.
          let (e', done) = pure-ok rows' rows _ s' h₅ in
          (
            sym e' ∙ e,
            ap (λ x. x.committed) done
                ∙ stored
                ∙ ap
                    (λ x.
                      with_rows (delete_ranking concert_id user.id x)
                        (ranking concert_id user.id 1 ks))
                    (ap (λ x. x.1.view) (sym allowed) ∙ same₂.0)
                ∙ ap (with_rows (delete_ranking concert_id user.id db)) (sym e ∙ e'),
          )
