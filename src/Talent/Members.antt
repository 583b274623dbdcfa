-- ===== src/Talent/Members.antt =====
-- What each call of the group and idol services does to an invariant of the database, given what
-- the call has checked before it writes.
use i_dolly_backend.Catalogue.{find_group, find_idol}
use i_dolly_backend.Database.{Database}
use i_dolly_backend.Prelude.{◌≡◌, refl, Option, none, some, [], ◌∷◌, ◌++◌}
use i_dolly_backend.Session.{Service, Session, commit, pure, ◌>>=◌}
use i_dolly_backend.Session.Invariant.{
  Holds, bind-Holds, found-Holds, guard-Holds, keeps_rules, modify-Holds, query-Holds, write-Holds,
}
use i_dolly_backend.Tables.{Group, Idol, User, Uuid}
use i_dolly_backend.Talent.{RefIssue, validate_refs}
use i_dolly_backend.Talent.Groups.{add_group, change_group, put_group}
use i_dolly_backend.Talent.Idols.{
  IdolUpdate, add_idol, change_idol, excused, put_idol, raise_issue, same_group, update_idol,
  updated_idol, write_idol,
}

abbrev pub append_idol : Idol → Database → Database
append_idol idol db = record db { idols = db.idols ++ idol ∷ [] }

abbrev pub append_group : Group → Database → Database
append_group group db = record db { groups = db.groups ++ group ∷ [] }

module _ (P : Database → Type 0) where
  issue-Holds :
      {B : Type 0} (issue : Option RefIssue) (f : Unit {0} → Service B) (s : Session)
      → Holds P s
      → (issue ≡ none → Holds P (f tt s).1)
      → Holds P ((raise_issue issue >>= f) s).1
  unfolding ◌>>=◌ raise_issue
  issue-Holds none f s h k = k refl
  issue-Holds (some issue) f s h k = h

  -- The end of a call: the view is committed and the row returned.
  commit-Holds :
      {A : Type 0} (a : A) (s : Session) → P s.view → Holds P ((commit >>= λ _. pure a) s).1
  unfolding ◌>>=◌
  commit-Holds a s h = (h, h)

  pub add_idol-Holds :
      (idol : Idol) (user : User) (s : Session)
      → Holds P s
      → (validate_refs idol.company_id idol.group_id idol.color_id s.view ≡ none
          → P (append_idol idol s.view))
      → Holds P (add_idol idol user s).1
  unfolding add_idol
  add_idol-Holds idol user s h k = guard-Holds P _ _ _ s h λ _.
      query-Holds P _ _ s
        (issue-Holds _ _ s h λ valid. modify-Holds P _ _ s (commit-Holds idol _ (k valid)))

  pub update_idol-Holds :
      (idol_id' : Uuid) (data' : IdolUpdate) (user : User) (s : Session)
      → Holds P s
      → ((old : Idol)
          → find_idol idol_id' s.view ≡ some old
          → excused
              (same_group data'.group_id old.group_id)
              (validate_refs old.company_id data'.group_id data'.color_id s.view)
            ≡ none
          → P (put_idol (updated_idol data' old) s.view))
      → Holds P (update_idol idol_id' data' user s).1
  unfolding update_idol write_idol
  update_idol-Holds idol_id' data' user s h k = query-Holds P _ _ s (
      found-Holds P _ _ _ s h λ old seen. guard-Holds P _ _ _ s h λ _. query-Holds P _ _ s (
        issue-Holds _ _ s h λ valid.
          bind-Holds P (write_idol (updated_idol data' old)) _ s
            (write-Holds P _ _ s h (λ _. k old seen valid)) (λ _. search keeps_rules)))

  pub change_idol-Holds :
      (f : Idol → Idol) (idol_id' : Uuid) (user : User) (s : Session)
      → Holds P s
      → ((old : Idol) → find_idol idol_id' s.view ≡ some old → P (put_idol (f old) s.view))
      → Holds P (change_idol f idol_id' user s).1
  unfolding change_idol
  change_idol-Holds f idol_id' user s h k = query-Holds P _ _ s (
      found-Holds P _ _ _ s h λ old seen.
        guard-Holds P _ _ _ s h λ _. modify-Holds P _ _ s (commit-Holds (f old) _ (k old seen)))

  pub add_group-Holds :
      (group : Group) (user : User) (s : Session)
      → Holds P s
      → P (append_group group s.view)
      → Holds P (add_group group user s).1
  unfolding add_group
  add_group-Holds group user s h k = guard-Holds P _ _ _ s h λ _.
      query-Holds P _ _ s
        (guard-Holds P _ _ _ s h λ _. modify-Holds P _ _ s (commit-Holds group _ k))

  pub change_group-Holds :
      (f : Group → Group) (group_id' : Uuid) (user : User) (s : Session)
      → Holds P s
      → ((old : Group) → find_group group_id' s.view ≡ some old → P (put_group (f old) s.view))
      → Holds P (change_group f group_id' user s).1
  unfolding change_group
  change_group-Holds f group_id' user s h k = query-Holds P _ _ s (
      found-Holds P _ _ _ s h λ old seen.
        guard-Holds P _ _ _ s h λ _. modify-Holds P _ _ s (commit-Holds (f old) _ (k old seen)))
