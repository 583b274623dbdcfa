-- ===== src/Talent/Inactive.antt =====
-- A group that has been deactivated gains no members.
use i_dolly_backend.Catalogue.{find_group, find_idol}
use i_dolly_backend.Database.{Database}
use i_dolly_backend.Prelude.{
  ℕ, ◌≤◌, ◌≡◌, refl, sym, ◌∙◌, subst, Bool, true, false, Option, none, some, [], ◌∷◌, Bool-cases,
  arith, contains, count, count-append, count-update, inl, inr, key-find, ◌==◌, ==→eq,
}
use i_dolly_backend.Session.{start}
use i_dolly_backend.Tables.{Group, Idol, User, Uuid}
use i_dolly_backend.Talent.{RefIssue, validate_refs}
use i_dolly_backend.Talent.Groups.{
  change_group, delete_group, is_member, reactivate_group, update_group,
}
use i_dolly_backend.Talent.Idols.{
  change_idol, delete_idol, excused, put_idol, reactivate_idol, same_group, set_idol_image,
  updated_idol,
}
use i_dolly_backend.Talent.Members.{
  add_group-Holds, add_idol-Holds, append_idol, change_group-Holds, change_idol-Holds,
  update_idol-Holds,
}
use i_dolly_backend.Talent.Reachable.{
  Step, group_added, group_deleted, group_reactivated, group_updated, idol_added, idol_deleted,
  idol_pictured, idol_reactivated, idol_updated,
}

-- `is_member` on the column alone.
abbrev is_in : Uuid → Option Uuid → Bool
is_in g o = elim o [ none ↦ false | some h ↦ h == g ]

excused-false : (issue : Option RefIssue) → excused false issue ≡ none → issue ≡ none
excused-false none h = refl
excused-false (some issue) h = cc

same_group-is_in :
    (g : Uuid) (new old : Option Uuid)
    → same_group new old ≡ true
    → is_in g new ≡ true
    → is_in g old ≡ true
same_group-is_in g none old h k = absurd (ground (arith, k))
same_group-is_in g (some a) none h k = absurd (ground (arith, h))
same_group-is_in g (some a) (some b) h k = ground (arith, h, k)

module _ (g : Uuid) (x : Group) (db : Database) (seen : find_group g db ≡ some x)
    (closed : x.is_active ≡ false) where
  -- The checks refuse the group.
  validate_refs-closed :
      (company_id' : Uuid) (color_id' : Option Uuid)
      → validate_refs company_id' (some g) color_id' db ≡ none
      → ⊥
  unfolding validate_refs
  validate_refs-closed company_id' color_id' h =
      elim (Bool-cases (contains company_id' db.management_companies)) [
        | inr stranger ↦ ground (arith, h, stranger)
        | inl known ↦ elim (Bool-cases (x.company_id == company_id')) [
          | inl own ↦ ground (arith, h, known, seen, closed, own)
          | inr other ↦ ground (arith, h, known, seen, other)
        ]
      ]

  -- So only an idol that stays may be in it.
  excused-stays :
      (stays : Bool) (company_id' : Uuid) (group_id' color_id' : Option Uuid)
      → excused stays (validate_refs company_id' group_id' color_id' db) ≡ none
      → is_in g group_id' ≡ true
      → stays ≡ true
  excused-stays true company_id' group_id' color_id' h k = refl
  excused-stays false company_id' none color_id' h k = absurd (ground (arith, k))
  excused-stays false company_id' (some j) color_id' h k =
      let at : j ≡ g = ==→eq j g k in
      let passed = excused-false (validate_refs company_id' (some j) color_id' db) h in
      absurd (
        validate_refs-closed company_id' color_id'
          (subst (λ i. validate_refs company_id' (some i) color_id' db ≡ none) at passed))

-- A written idol that is in the group only where the old row was.
put_idol-count :
    (g : Uuid) (new old : Idol) (db : Database)
    → find_idol new.id db ≡ some old
    → count (λ i. i.id == new.id) db.idols ≤ 1
    → (is_in g new.group_id ≡ true → is_in g old.group_id ≡ true)
    → count (is_member g) (put_idol new db).idols ≤ count (is_member g) db.idols
put_idol-count g new old db seen unique stays =
    let moved =
      count-update (is_member g) (λ i. i.id == new.id) (λ _. new) db.idols {x = old} seen unique in
    elim (Bool-cases (is_in g new.group_id)) [
      | inl joins ↦ let was = stays joins in omega (arith, rw (joins, was) at moved)
      | inr apart ↦ omega (arith, rw apart at moved)
    ]

append_idol-count :
    (g : Uuid) (idol : Idol) (db : Database)
    → (is_in g idol.group_id ≡ true → ⊥)
    → count (is_member g) (append_idol idol db).idols ≤ count (is_member g) db.idols
append_idol-count g idol db barred =
    let grown = count-append (is_member g) db.idols (idol ∷ []) in
    elim (Bool-cases (is_in g idol.group_id)) [
      | inl joins ↦ absurd (barred joins)
      | inr apart ↦ omega (arith, rw apart at grown)
    ]

-- At most so many members.
abbrev AtMost : Uuid → ℕ → Database → Type 0
AtMost g n db = count (is_member g) db.idols ≤ n

change_group-AtMost :
    (f : Group → Group) (k : Uuid) (user : User) (g : Uuid) (db : Database)
    → AtMost g (count (is_member g) db.idols) (change_group f k user (start db)).1.committed
change_group-AtMost f k user g db =
    let same : AtMost g (count (is_member g) db.idols) db = omega arith in
    (change_group-Holds (AtMost g (count (is_member g) db.idols)) f k user (start db) (same, same)
      (λ _ _. same)).1

change_idol-AtMost :
    (f : Idol → Idol) (k : Uuid) (user : User) (g : Uuid) (db : Database)
    → ((i : Idol) → (f i).id ≡ i.id)
    → ((i : Idol) → (f i).group_id ≡ i.group_id)
    → ((j : Uuid) → count (λ i. i.id == j) db.idols ≤ 1)
    → AtMost g (count (is_member g) db.idols) (change_idol f k user (start db)).1.committed
change_idol-AtMost f k user g db same kept unique =
    let all : AtMost g (count (is_member g) db.idols) db = omega arith in
    (change_idol-Holds (AtMost g (count (is_member g) db.idols)) f k user (start db) (all, all)
      λ old seen.
        let at : old.id ≡ k = key-find (λ i. i.id) k db.idols seen in
        put_idol-count g (f old) old db
          (subst (λ j. find_idol j db ≡ some old) (sym (same old ∙ at)) seen) (unique (f old).id)
          (λ joins. subst (λ o. is_in g o ≡ true) (kept old) joins)).1

-- No call adds a member to a group that is deactivated, where ids are unique.
pub Step-is_member :
    {db db' : Database} (g : Uuid) (x : Group)
    → Step db db'
    → find_group g db ≡ some x
    → x.is_active ≡ false
    → ((j : Uuid) → count (λ i. i.id == j) db.idols ≤ 1)
    → count (is_member g) db'.idols ≤ count (is_member g) db.idols
unfolding update_group delete_group reactivate_group delete_idol reactivate_idol set_idol_image
Step-is_member {db} g x (group_added group user) seen closed unique =
    let same : AtMost g (count (is_member g) db.idols) db = omega arith in
    (add_group-Holds (AtMost g (count (is_member g) db.idols)) group user (start db) (same, same)
      same).1
Step-is_member {db} g x (group_updated name' debut description' k user) seen closed unique =
    change_group-AtMost _ k user g db
Step-is_member {db} g x (group_deleted k user) seen closed unique =
    change_group-AtMost _ k user g db
Step-is_member {db} g x (group_reactivated k user) seen closed unique =
    change_group-AtMost _ k user g db
Step-is_member {db} g x (idol_added idol user) seen closed unique =
    let all : AtMost g (count (is_member g) db.idols) db = omega arith in
    (add_idol-Holds (AtMost g (count (is_member g) db.idols)) idol user (start db) (all, all)
      λ valid. append_idol-count g idol db λ joins. absurd (
        ground (
          arith,
          excused-stays g x db seen closed false idol.company_id idol.group_id idol.color_id
              (rw valid refl) joins,
        ))).1
Step-is_member {db} g x (idol_updated k data' user) seen closed unique =
    let all : AtMost g (count (is_member g) db.idols) db = omega arith in
    (update_idol-Holds (AtMost g (count (is_member g) db.idols)) k data' user (start db) (all, all)
      λ old found' valid.
        let at : old.id ≡ k = key-find (λ i. i.id) k db.idols found' in
        put_idol-count g (updated_idol data' old) old db
          (subst (λ j. find_idol j db ≡ some old) (sym at) found') (unique old.id)
          (λ joins.
            same_group-is_in g data'.group_id old.group_id
              (excused-stays g x db seen closed (same_group data'.group_id old.group_id)
                old.company_id data'.group_id data'.color_id valid joins)
              joins)).1
Step-is_member {db} g x (idol_deleted k user) seen closed unique =
    change_idol-AtMost _ k user g db (λ _. refl) (λ _. refl) unique
Step-is_member {db} g x (idol_reactivated k user) seen closed unique =
    change_idol-AtMost _ k user g db (λ _. refl) (λ _. refl) unique
Step-is_member {db} g x (idol_pictured image k user) seen closed unique =
    change_idol-AtMost _ k user g db (λ _. refl) (λ _. refl) unique
