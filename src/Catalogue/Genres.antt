-- ===== src/Catalogue/Genres.antt =====
-- app/services/marketplace/genre_service.py.
use i_dolly_backend.Catalogue.{find_album, manager_scope_violation, resolve_company_id}
use i_dolly_backend.Database.{Database}
use i_dolly_backend.Error.{ErrorClass, plain}
use i_dolly_backend.Prelude.{
  Bool, true, false, ◌&&◌, Option, none, some, List, [], ◌∷◌, ◌++◌, if◌then◌else◌, ◌==◌, any,
  delete, filter, find,
}
use i_dolly_backend.Session.{
  Service, pure, query, found, raise_if, modify, write, commit, ◌>>=◌, ◌>>◌,
}
use i_dolly_backend.Tables.{AlbumDetail, AlbumGenre, Genre, User, Uuid}

abbrev pub find_genre : Uuid → Database → Option Genre
find_genre k db = find (λ g. g.id == k) db.genres

abbrev pub is_link : Uuid → Uuid → AlbumGenre → Bool
is_link product_id' genre_id' x = x.product_id == product_id' && x.genre_id == genre_id'

-- GenreService.add_genre, under the unique constraint on the name.
unfoldable pub add_genre : Genre → Service Genre
add_genre genre = do
  write
      (λ db.
        if any (λ g. g.name == genre.name) db.genres
        then some (plain ErrorClass.dbapi_error)
        else none)
      (λ db. record db { genres = db.genres ++ genre ∷ [] })
  commit
  pure genre

-- GenreService.delete_genre, after the lookup. The relationship `albums` has no passive_deletes, so
-- a genre with albums is refused, as an album with genres is.
unfoldable pub delete_found_genre : Option Genre → Service Bool
delete_found_genre none = pure false
delete_found_genre (some genre) = do
  raise_if (plain ErrorClass.assertion_error)
      (← query (λ db. any (λ x. x.genre_id == genre.id) db.album_genres))
  modify (λ db. record db { genres = delete (λ g. g.id == genre.id) db.genres })
  commit
  pure true

unfoldable pub delete_genre : Uuid → Service Bool
delete_genre genre_id' = do genre ← query (find_genre genre_id'); delete_found_genre genre

-- `_company_id_for_album`, on the album that it finds.
abbrev pub company_id_for_album : Option AlbumDetail → Database → Option Uuid
company_id_for_album none db = none
company_id_for_album (some album) db = resolve_company_id db album.idol_id album.group_id

-- GenreService.assign_genre
unfoldable pub assign_genre : Uuid → Uuid → User → Service AlbumGenre
assign_genre product_id' genre_id' current_user = do
  album ← query (find_album product_id')
  company_id' ← query (company_id_for_album album)
  found (plain ErrorClass.not_found) album
  found (plain ErrorClass.not_found) (← query (find_genre genre_id'))
  raise_if (plain ErrorClass.forbidden) (manager_scope_violation current_user company_id')
  raise_if (plain ErrorClass.bad_request)
      (← query (λ db. any (is_link product_id' genre_id') db.album_genres))
  let link : AlbumGenre = record { product_id = product_id'; genre_id = genre_id' }
  modify (λ db. record db { album_genres = db.album_genres ++ link ∷ [] })
  commit
  pure link

-- GenreService.get_album_genres
unfoldable pub get_album_genres : Uuid → Service (List AlbumGenre)
get_album_genres product_id' =
    query (λ db. filter (λ x. x.product_id == product_id') db.album_genres)

-- GenreService.remove_genre
unfoldable pub remove_genre : Uuid → Uuid → User → Service AlbumGenre
remove_genre product_id' genre_id' current_user = do
  link ←
      found (plain ErrorClass.not_found)
        (← query (λ db. find (is_link product_id' genre_id') db.album_genres))
  album ← query (find_album product_id')
  company_id' ← query (company_id_for_album album)
  raise_if (plain ErrorClass.forbidden) (manager_scope_violation current_user company_id')
  modify (λ db. record db { album_genres = delete (is_link product_id' genre_id') db.album_genres })
  commit
  pure link
