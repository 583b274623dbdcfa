-- ===== src/Catalogue/Company.antt =====
-- ProductService.resolve_product_company_ids answers for each product what
-- _resolve_product_company_id answers for it alone.
use i_dolly_backend.Catalogue.{
  company_of_group, company_of_idol, find_album, find_group, find_idol, find_merch,
  resolve_company_id,
}
use i_dolly_backend.Catalogue.Pages.{
  Detail, album_as_detail, artist_ids, company_of_detail, detail_by_product, dict_add,
  group_company, idol_company, merch_as_detail, product_ids, resolve_product_company_ids,
}
use i_dolly_backend.Catalogue.Products.{resolve_product_company_id}
use i_dolly_backend.Database.{Database}
use i_dolly_backend.Prelude.{
  ℕ, ◌+◌, ◌≤◌, ◌<◌, ◌≡◌, refl, ap, ◌∙◌, Bool, true, Option, none, some, List, [], ◌∷◌, Bool-cases,
  Option-cases, arith, contains, count, dict_set, filter, find, if◌then◌else◌, inl, inr, lookup,
  ◌==◌, ==→eq, find-none_of_count, key-find,
}
use i_dolly_backend.Tables.{Product, Uuid}

-- No product is both an album and merch, and none has two detail rows.
abbrev pub OneKind : Database → Type 0
OneKind db =
    (k : Uuid)
    → count (λ a. a.product_id == k) db.album_details
        + count (λ d. d.product_id == k) db.merch_details
      ≤ 1

-- The primary keys of the tables that say whose a product is, and one kind for each product.
pub record IsCatalogue (db : Database) : Type 0 where
  pub one_kind : OneKind db
  pub idols : (k : Uuid) → count (λ i. i.id == k) db.idols ≤ 1
  pub groups : (k : Uuid) → count (λ g. g.id == k) db.groups ≤ 1

lookup-dict_set {ℓ} :
    {V : Type ℓ} (j k : ℕ) (v : V) (m : List (ℕ × V))
    → lookup k (dict_set j v m) ≡ (if j == k then some v else lookup k m)
lookup-dict_set j k v [] = refl
lookup-dict_set j k v ((i, w) ∷ m) = elim (Bool-cases (i == j)) [
  | inl own ↦ let same : i ≡ j = ==→eq i j own in ground (arith, own, same)
  | inr other ↦ ground (arith, other, lookup-dict_set j k v m)
]

-- The value of the row with a key, or else what the dict had.
abbrev row_or {ℓ κ} : {A : Type ℓ} {V : Type κ} → (A → V) → Option A → Option V → Option V
row_or val none before = before
row_or val (some x) before = some (val x)

module _ {ℓ κ} {A : Type ℓ} {V : Type κ} (key : A → ℕ) (val : A → V) where
  lookup-dict_add :
      (k : ℕ) (xs : List A) (m : List (ℕ × V))
      → count (λ x. key x == k) xs ≤ 1
      → lookup k (dict_add key val xs m) ≡ row_or val (find (λ x. key x == k) xs) (lookup k m)
  lookup-dict_add k [] m h = refl
  lookup-dict_add k (x ∷ xs) m h =
      let rest = lookup-dict_add k xs (dict_set (key x) (val x) m) in
      let set = lookup-dict_set (key x) k (val x) m in
      elim (Bool-cases (key x == k)) [
        | inl own ↦
            let last : find (λ y. key y == k) xs ≡ none =
              find-none_of_count (λ y. key y == k) xs (ground (arith, h, own)) in
            rest (ground (arith, h, own)) ∙ rw (last, set, own) refl
        | inr other ↦ rest (ground (arith, h, other)) ∙ rw (set, other) refl
      ]

-- A query `.filter(key.in_(ids))` finds the row of each of the ids.
find-filter :
    {A : Type 0} (key : A → ℕ) (k : ℕ) (ids : List ℕ) (xs : List A)
    → contains k ids ≡ true
    → find (λ x. key x == k) (filter (λ x. contains (key x) ids) xs) ≡ find (λ x. key x == k) xs
find-filter key k ids [] h = refl
find-filter key k ids (x ∷ xs) h = elim (Bool-cases (key x == k)) [
  | inl own ↦ let same : key x ≡ k = ==→eq (key x) k own in ground (arith, own, same, h)
  | inr other ↦ ground (arith, other, find-filter key k ids xs h)
]

count-filter-le : {A : Type 0} (q p : A → Bool) (xs : List A) → count q (filter p xs) ≤ count q xs
count-filter-le q p [] = omega arith
count-filter-le q p (x ∷ xs) = ground (arith, count-filter-le q p xs)

artist_ids-contains :
    (field : Detail → Option Uuid) (m : List (ℕ × Detail)) (k i : ℕ) (d : Detail)
    → lookup k m ≡ some d
    → field d ≡ some i
    → contains i (artist_ids field m) ≡ true
artist_ids-contains field [] k i d h e = cc
artist_ids-contains field ((j, w) ∷ m) k i d h e =
    ground (arith, h, e, artist_ids-contains field m k i d)

count_pos_of_find :
    {A : Type 0} (p : A → Bool) (xs : List A) {x : A} → find p xs ≡ some x → 0 < count p xs
count_pos_of_find p [] h = cc
count_pos_of_find p (y ∷ xs) {x} h = ground (arith, h, count_pos_of_find p xs {x = x})

find-product_ids :
    (k : ℕ) (ps : List Product) {p : Product}
    → find (λ x. x.id == k) ps ≡ some p
    → contains k (product_ids ps) ≡ true
find-product_ids k [] h = cc
find-product_ids k (q ∷ ps) {p} h = elim (Bool-cases (q.id == k)) [
  | inl own ↦ let same : q.id ≡ k = ==→eq q.id k own in ground (arith, same)
  | inr other ↦ ground (arith, other, h, find-product_ids k ps {p = p})
]

-- A dict made from the rows whose keys are among `ids`, read at one of them.
lookup-rows :
    {A V : Type 0} (key : A → ℕ) (val : A → V) (k : ℕ) (ids : List ℕ) (xs : List A)
    (m : List (ℕ × V))
    → contains k ids ≡ true
    → count (λ x. key x == k) xs ≤ 1
    → lookup k (dict_add key val (filter (λ x. contains (key x) ids) xs) m)
      ≡ row_or val (find (λ x. key x == k) xs) (lookup k m)
lookup-rows key val k ids xs m here h =
    lookup-dict_add key val k (filter (λ x. contains (key x) ids) xs) m
      (omega (arith, h, count-filter-le (λ x. key x == k) (λ x. contains (key x) ids) xs))
    ∙ ap (λ o. row_or val o (lookup k m)) (find-filter key k ids xs here)

company_of_idol-row_or :
    (db : Database) (i : Uuid)
    → row_or (λ x. x.company_id) (find_idol i db) none ≡ company_of_idol (find_idol i db)
company_of_idol-row_or db i = elim (Option-cases (find_idol i db)) [
  | inl absent ↦ rw absent refl
  | inr (x, seen) ↦ rw seen refl
]

company_of_group-row_or :
    (db : Database) (g : Uuid)
    → row_or (λ x. x.company_id) (find_group g db) none ≡ company_of_group (find_group g db)
company_of_group-row_or db g = elim (Option-cases (find_group g db)) [
  | inl absent ↦ rw absent refl
  | inr (x, seen) ↦ rw seen refl
]

module _ (db : Database) (rows : IsCatalogue db) where
  -- The company of a detail that is in the dict.
  company_of_detail-resolve_company_id :
      (details : List (ℕ × Detail)) (k : ℕ) (d : Detail)
      → lookup k details ≡ some d
      → company_of_detail (some d) (idol_company details db) (group_company details db)
        ≡ resolve_company_id db d.idol_id d.group_id
  company_of_detail-resolve_company_id details k d h = elim (Option-cases d.idol_id) [
    | inr (i, by_idol) ↦
        let here = artist_ids-contains (λ x. x.idol_id) details k i d h by_idol in
        let read =
          lookup-rows (λ x. x.id) (λ x. x.company_id) i _ db.idols [] here (rows.idols i) in
        rw by_idol (read ∙ company_of_idol-row_or db i)
    | inl no_idol ↦ elim (Option-cases d.group_id) [
      | inr (g, by_group) ↦
          let here = artist_ids-contains (λ x. x.group_id) details k g d h by_group in
          let read =
            lookup-rows (λ x. x.id) (λ x. x.company_id) g _ db.groups [] here (rows.groups g) in
          rw (no_idol, by_group) (read ∙ company_of_group-row_or db g)
      | inl no_group ↦ rw (no_idol, no_group) refl
    ]
  ]

  detail_by_product-lookup :
      (ps : List Product) (k : ℕ)
      → contains k (product_ids ps) ≡ true
      → lookup k (detail_by_product ps db)
        ≡ row_or merch_as_detail (find_merch k db) (row_or album_as_detail (find_album k db) none)
  detail_by_product-lookup ps k here =
      lookup-rows (λ d. d.product_id) merch_as_detail k (product_ids ps) db.merch_details _ here
        (omega (arith, rows.one_kind k))
      ∙ ap (row_or merch_as_detail (find_merch k db)) (
          lookup-rows (λ a. a.product_id) album_as_detail k (product_ids ps) db.album_details []
            here (omega (arith, rows.one_kind k)))

  company_of_detail-lookup :
      (ps : List Product) (k : ℕ)
      → contains k (product_ids ps) ≡ true
      → let details = detail_by_product ps db in
        company_of_detail (lookup k details) (idol_company details db) (group_company details db)
        ≡ resolve_product_company_id k db
  unfolding resolve_product_company_id
  company_of_detail-lookup ps k here =
      let read = detail_by_product-lookup ps k here in
      let details = detail_by_product ps db in
      let idols = idol_company details db in
      let groups = group_company details db in
      elim (Option-cases (find_merch k db)) [
        | inr (d, merch) ↦
            let alone : find_album k db ≡ none =
              find-none_of_count (λ a. a.product_id == k) db.album_details
                (omega (
                  arith,
                  rows.one_kind k,
                  count_pos_of_find (λ x. x.product_id == k) db.merch_details merch,
                )) in
            let at : lookup k details ≡ some (merch_as_detail d) = read ∙ rw merch refl in
            ap (λ o. company_of_detail o idols groups) at
            ∙ company_of_detail-resolve_company_id details k (merch_as_detail d) at
            ∙ rw (alone, merch) refl
        | inl plain ↦ elim (Option-cases (find_album k db)) [
          | inr (a, album) ↦
              let at : lookup k details ≡ some (album_as_detail a) =
                read ∙ rw (plain, album) refl in
              ap (λ o. company_of_detail o idols groups) at
              ∙ company_of_detail-resolve_company_id details k (album_as_detail a) at
              ∙ rw album refl
          | inl bare ↦
              let at : lookup k details ≡ none = read ∙ rw (plain, bare) refl in
              ap (λ o. company_of_detail o idols groups) at ∙ rw (plain, bare) refl
        ]
      ]

-- The companies that are resolved for all products of a page at once are those that are resolved
-- for each product alone, where ids are unique and no product is both an album and merch.
pub resolve_product_company_ids-resolve_product_company_id :
    (products : List Product) (db : Database) (k : Uuid) {p : Product}
    → IsCatalogue db
    → count (λ x. x.id == k) products ≤ 1
    → find (λ x. x.id == k) products ≡ some p
    → lookup k (resolve_product_company_ids products db) ≡ some (resolve_product_company_id k db)
unfolding resolve_product_company_ids
resolve_product_company_ids-resolve_product_company_id products db k {p} rows unique seen =
    let details = detail_by_product products db in
    let own : p.id ≡ k = key-find (λ x. x.id) k products seen in
    lookup-dict_add (λ x. x.id)
      (λ x.
        company_of_detail (lookup x.id details) (idol_company details db)
          (group_company details db))
      k products [] unique
    ∙ rw (seen, own)
        (ap some
          (company_of_detail-lookup db rows products k (find-product_ids k products {p = p} seen)))
