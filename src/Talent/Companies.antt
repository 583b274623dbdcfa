-- ===== src/Talent/Companies.antt =====
-- An idol in a group is of the group's company: what `_validate_refs` is for.
use i_dolly_backend.Catalogue.{company_of_group, find_group}
use i_dolly_backend.Database.{Database}
use i_dolly_backend.Prelude.{
  ◌≡◌, refl, sym, subst, Bool, true, false, Option, none, some, List, [], ◌∷◌, ◌++◌, All,
  All-append, All-map, All-update, Bool-cases, Option-cases, arith, contains, find,
  find-append_some, find-put, find-put_other, inl, inr, ◌==◌, ==→eq,
}
use i_dolly_backend.Rows.{same_company}
use i_dolly_backend.Tables.{Group, Idol, Uuid}
use i_dolly_backend.Talent.{RefIssue, color_issue, group_issue, validate_refs}
use i_dolly_backend.Talent.Groups.{put_group}
use i_dolly_backend.Talent.Idols.{excused, put_idol}
use i_dolly_backend.Talent.Members.{append_group, append_idol}

-- The group, if there is one, is in the table and of the company.
abbrev pub is_placed : List Group → Uuid → Option Uuid → Bool
is_placed groups' company_id' none = true
is_placed groups' company_id' (some g) =
    same_company (company_of_group (find (λ x. x.id == g) groups')) (some company_id')

-- Every idol that is in a group is of the group's company.
abbrev pub CompaniesMatch : Database → Type 0
CompaniesMatch db = All (λ i. is_placed db.groups i.company_id i.group_id ≡ true) db.idols

-- No issue, or the one that an update may be excused for.
abbrev pub is_excusable : Option RefIssue → Bool
is_excusable none = true
is_excusable (some RefIssue.group_inactive) = true
is_excusable (some _) = false

pub excused-is_excusable :
    (stays : Bool) (issue : Option RefIssue)
    → excused stays issue ≡ none
    → is_excusable issue ≡ true
excused-is_excusable true none h = refl
excused-is_excusable true (some RefIssue.group_inactive) h = refl
excused-is_excusable true (some RefIssue.company_not_found) h = cc
excused-is_excusable true (some RefIssue.group_not_found) h = cc
excused-is_excusable true (some RefIssue.company_mismatch) h = cc
excused-is_excusable true (some RefIssue.color_not_found) h = cc
excused-is_excusable false none h = refl
excused-is_excusable false (some issue) h = cc

group_issue-same_company :
    (company_id' : Uuid) (o : Option Group) (rest : Option RefIssue)
    → is_excusable (group_issue company_id' o rest) ≡ true
    → same_company (company_of_group o) (some company_id') ≡ true
group_issue-same_company company_id' none rest h = absurd (ground (arith, h))
group_issue-same_company company_id' (some group) rest h =
    elim (Bool-cases (group.company_id == company_id')) [
      | inl own ↦ own
      | inr other ↦ absurd (ground (arith, h, other))
    ]

-- A group and a company that the checks let pass, or that an update is excused for.
pub validate_refs-is_placed :
    (stays : Bool) (company_id' : Uuid) (group_id' color_id' : Option Uuid) (db : Database)
    → excused stays (validate_refs company_id' group_id' color_id' db) ≡ none
    → is_placed db.groups company_id' group_id' ≡ true
unfolding validate_refs
validate_refs-is_placed stays company_id' none color_id' db h = refl
validate_refs-is_placed stays company_id' (some g) color_id' db h =
    let fine = excused-is_excusable stays (validate_refs company_id' (some g) color_id' db) h in
    elim (Bool-cases (contains company_id' db.management_companies)) [
      | inr stranger ↦ absurd (ground (arith, fine, stranger))
      | inl known ↦
          group_issue-same_company company_id' (find_group g db) (color_issue color_id' db)
            (ground (arith, fine, known))
    ]

pub append_idol-CompaniesMatch :
    (idol : Idol) (db : Database)
    → is_placed db.groups idol.company_id idol.group_id ≡ true
    → CompaniesMatch db
    → CompaniesMatch (append_idol idol db)
append_idol-CompaniesMatch idol db placed h = All-append _ db.idols (idol ∷ []) h (placed, tt)

pub put_idol-CompaniesMatch :
    (idol : Idol) (db : Database)
    → is_placed db.groups idol.company_id idol.group_id ≡ true
    → CompaniesMatch db
    → CompaniesMatch (put_idol idol db)
put_idol-CompaniesMatch idol db placed h =
    All-update _ _ (λ i. i.id == idol.id) (λ _. idol) db.idols (λ _ _ _. placed) (λ _ _ k. k) h

-- A look-up that finds as much as before keeps every idol in its place.
groups-CompaniesMatch :
    (db : Database) (groups' : List Group)
    → ((g c : Uuid)
        → same_company (company_of_group (find_group g db)) (some c) ≡ true
        → same_company (company_of_group (find (λ x. x.id == g) groups')) (some c) ≡ true)
    → CompaniesMatch db
    → CompaniesMatch (record db { groups = groups' })
groups-CompaniesMatch db groups' k h = All-map _ _ db.idols (λ i. step i.company_id i.group_id) h
  where
    step :
        (c : Uuid) (o : Option Uuid) → is_placed db.groups c o ≡ true → is_placed groups' c o ≡ true
    step c none placed = refl
    step c (some g) placed = k g c placed

pub append_group-CompaniesMatch :
    (group : Group) (db : Database) → CompaniesMatch db → CompaniesMatch (append_group group db)
append_group-CompaniesMatch group db =
    groups-CompaniesMatch db (db.groups ++ group ∷ []) λ g c placed.
      elim (Option-cases (find_group g db)) [
        | inl absent ↦ absurd (ground (arith, placed, absent))
        | inr (x, seen) ↦
            rw (find-append_some (λ x. x.id) g db.groups (group ∷ []) seen)
              (ground (arith, placed, seen))
      ]

-- A group is written back with its company.
pub put_group-CompaniesMatch :
    (old group : Group) (db : Database)
    → find_group group.id db ≡ some old
    → group.company_id ≡ old.company_id
    → CompaniesMatch db
    → CompaniesMatch (put_group group db)
put_group-CompaniesMatch old group db seen same = groups-CompaniesMatch db _ λ g c placed.
    elim (Bool-cases (group.id == g)) [
      | inl own ↦
          let here : group.id ≡ g = ==→eq group.id g own in
          let placed' : same_company (company_of_group (find_group group.id db)) (some c) ≡ true =
            subst (λ k. same_company (company_of_group (find_group k db)) (some c) ≡ true)
              (sym here) placed in
          let after : same_company (company_of_group (find_group group.id (put_group group db)))
                (some c)
              ≡ true =
            rw (find-put (λ x. x.id) group db.groups {x = old} seen)
              (ground (arith, placed', seen, same)) in
          subst
            (λ k.
              same_company (company_of_group (find_group k (put_group group db))) (some c) ≡ true)
            here after
      | inr other ↦ rw (find-put_other (λ x. x.id) g group db.groups other) placed
    ]
