-- ===== src/Order/Private.antt =====
-- The calls of ShippingService by one user, as the other users see them.
use i_dolly_backend.Order.Addresses.{
  AddressData, address_row, create_shipping_address, delete_address, delete_found_address,
  fetch_address, is_address_of, update_address,
}
use i_dolly_backend.Prelude.{
  ◌≡◌, ◌≢◌, refl, ap, ◌≤◌, Bool, some, List, [], ◌∷◌, ◌++◌, ◌==◌, Option-cases, Bool-cases, any,
  arith, count, delete, filter, find, inl, inr, update, update_none, delete_none, find_passes,
  ==→eq, delete_none, find_passes, ==→eq,
}
use i_dolly_backend.Session.{Session, ok, ◌>>=◌}
use i_dolly_backend.Tables.{ShippingAddress, Uuid}

-- One call of a user on the addresses.
pub data Change : Uuid → Session → Session → Type 0 where
  create :
      (new_id u : Uuid) (data' : AddressData) (s : Session)
      → Change u s (create_shipping_address new_id u data' s).1
  change :
      (k u : Uuid) (data' : AddressData) (s : Session) → Change u s (update_address u data' k s).1
  remove : (k u : Uuid) (s : Session) → Change u s (delete_address u k s).1

abbrev of_user : Uuid → ShippingAddress → Bool
of_user v a = a.user_id == v

filter-append :
    (u v : Uuid) (a : ShippingAddress) (xs : List ShippingAddress)
    → a.user_id ≡ u
    → u ≢ v
    → filter (of_user v) (xs ++ a ∷ []) ≡ filter (of_user v) xs
filter-append u v a [] own other = ground (arith, own, other)
filter-append u v a (x ∷ xs) own other = ground (arith, filter-append u v a xs own other)

-- An address that is found is a row with its id.
found_once :
    (u k : Uuid) (xs : List ShippingAddress) (a : ShippingAddress)
    → find (is_address_of u k) xs ≡ some a
    → 1 ≤ count (λ x. x.id == k) xs
found_once u k [] a seen = ground (arith, seen)
found_once u k (x ∷ xs) a seen = ground (arith, seen, found_once u k xs a)

filter-update :
    (k u v : Uuid) (b a : ShippingAddress) (xs : List ShippingAddress)
    → find (is_address_of u k) xs ≡ some a
    → b.user_id ≡ u
    → u ≢ v
    → count (λ x. x.id == k) xs ≤ 1
    → filter (of_user v) (update (λ x. x.id == k) (λ x. b) xs) ≡ filter (of_user v) xs
filter-update k u v b a [] seen own other once = refl
filter-update k u v b a (x ∷ xs) seen own other once = ground (
  arith,
  seen,
  own,
  other,
  once,
  filter-update k u v b a xs,
  found_once u k xs a,
  update_none (λ x. x.id == k) (λ x. b) xs,
)

filter-delete :
    (k u v : Uuid) (a : ShippingAddress) (xs : List ShippingAddress)
    → find (is_address_of u k) xs ≡ some a
    → u ≢ v
    → count (λ x. x.id == k) xs ≤ 1
    → filter (of_user v) (delete (λ x. x.id == k) xs) ≡ filter (of_user v) xs
filter-delete k u v a [] seen other once = refl
filter-delete k u v a (x ∷ xs) seen other once = ground (
  arith,
  seen,
  other,
  once,
  filter-delete k u v a xs,
  found_once u k xs a,
  delete_none (λ x. x.id == k) xs,
)

found_own :
    (u k : Uuid) (xs : List ShippingAddress) {a : ShippingAddress}
    → find (is_address_of u k) xs ≡ some a
    → (a.id ≡ k) × (a.user_id ≡ u)
found_own u k xs {a} seen =
    let passed = find_passes (is_address_of u k) xs seen in
    (==→eq a.id k (ground (arith, passed)), ==→eq a.user_id u (ground (arith, passed)))

update_address-filter :
    (k u v : Uuid) (data' : AddressData) (s : Session)
    → u ≢ v
    → count (λ x. x.id == k) s.view.shipping_addresses ≤ 1
    → filter (of_user v) (update_address u data' k s).1.view.shipping_addresses
      ≡ filter (of_user v) s.view.shipping_addresses
unfolding update_address ◌>>=◌
update_address-filter k u v data' s other once =
    elim (Option-cases (find (is_address_of u k) s.view.shipping_addresses)) [
      | inl absent ↦ ground (arith, absent)
      | inr (a, seen) ↦
          let (here, own) = found_own u k s.view.shipping_addresses seen in
          ground (
            arith,
            seen,
            here,
            own,
            filter-update k u v (address_row a.id a.user_id data') a s.view.shipping_addresses seen
                own other once,
          )
    ]

delete_address-filter :
    (k u v : Uuid) (s : Session)
    → u ≢ v
    → count (λ x. x.id == k) s.view.shipping_addresses ≤ 1
    → filter (of_user v) (delete_address u k s).1.view.shipping_addresses
      ≡ filter (of_user v) s.view.shipping_addresses
unfolding delete_address delete_found_address ◌>>=◌
delete_address-filter k u v s other once =
    elim (Option-cases (find (is_address_of u k) s.view.shipping_addresses)) [
      | inl absent ↦ ground (arith, absent)
      | inr (a, seen) ↦
          let (here, own) = found_own u k s.view.shipping_addresses seen in
          elim (Bool-cases (any (λ o. o.shipping_address_id == a.id) s.view.orders)) [
            | inl used ↦ ground (arith, seen, used)
            | inr free ↦ ground (
              arith,
              seen,
              here,
              free,
              filter-delete k u v a s.view.shipping_addresses seen other once,
            )
          ]
    ]

-- Whatever one user does with addresses, every other user's list of addresses stays what it was,
-- where ids are unique.
pub Change-fetch_address :
    (u v : Uuid) (s s' : Session)
    → u ≢ v
    → ((k : Uuid) → count (λ x. x.id == k) s.view.shipping_addresses ≤ 1)
    → Change u s s'
    → (fetch_address v s').0 ≡ (fetch_address v s).0
unfolding fetch_address create_shipping_address ◌>>=◌
Change-fetch_address u v _ _ other unique (Change.create new_id _ data' s) =
    ap ok (filter-append u v (address_row new_id u data') s.view.shipping_addresses refl other)
Change-fetch_address u v _ _ other unique (Change.change k _ data' s) =
    ap ok (update_address-filter k u v data' s other (unique k))
Change-fetch_address u v _ _ other unique (Change.remove k _ s) =
    ap ok (delete_address-filter k u v s other (unique k))
