-- ===== src/Lib.antt =====
-- A model of i-dolly: ticket lotteries, direct sales, payments, orders and carts, the accounts and
-- their tokens, the catalogue of the shop, and the talent it is about.
--
-- The program is a web service. Each request opens one SQLAlchemy session (app/deps/db.py) and
-- calls one service of app/services; the database checks what is written by the triggers of
-- alembic/versions. A draw may also run in a Celery task (app/tasks/lottery.py).
--
-- Prelude holds the shared names: Boolean tests, tables as lists of rows, and their laws.
-- Schema, Tables and Database are the enumerations of app/schema, the rows of app/db/models and
--   the database as a record of its tables. Error is app/exception.
-- Session is a request's session: a service is a function from a session to a result and a
--   session, where `view` is what the session sees, `committed` what others see, and `effects`
--   the cache deletions and emails. `delivers` and `recommits` say whether Redis takes each of
--   those, and whether the database takes a commit that follows another; start_on begins a session
--   with any of them, start with both up. The children of Session are the rules by which proofs
--   about a whole handler are composed from its calls.
-- Trigger is the triggers (the functions `fn_*` of alembic/versions), Rows the queries by key and
--   the writes of one row, Notification is app/services/shared/notification_service.py, Tax is
--   app/utils/tax.py and app/utils/resale.py.
-- Lottery/Draw, Lottery/Rounds, Lottery/Entry and Lottery/Preference are the three services
--   app/services/events/lottery_{draw,entry,preference}_service.py: draw_lottery is in Draw, and
--   the loops between its queries and its commit are the pure program of Rounds.
-- Ticket is app/services/events/ticket_service.py, Concert concert_service.py, Campaign
--   lottery_campaign_service.py and direct_sale_campaign_service.py, TicketTypes
--   ticket_type_service.py of the same directory; Concert/Performers is the performers' part.
-- Cascade is what the foreign keys of app/db/models delete or clear with a row, and
--   Cascade/Deletions the deletions of tickets, ticket types and campaigns.
-- Payment, Order and Cart are payment_service.py, order_service.py and cart_service.py of
--   app/services/marketplace; finalize_paypal_payment is in Payment/Finalize (tickets) and
--   Order/Finalize (orders). Order/Parcel and Order/Ship are what happens to a placed order, and
--   Order/Shipped, Order/Life and Order/Once prove; Order/Addresses is shipping_service.py and
--   Order/Private proves.
-- Identity is app/utils/jwt_manager.py and hashing.py; Identity/Auth and Identity/Account are
--   auth_service.py and user_service.py of app/services/identity, Identity/Access is
--   app/deps/auth.py. The other children prove: Sessions what every sequence of calls keeps,
--   Rotation the life of a refresh token, EmailTokens and Registration the round trips.
-- Catalogue is what product_service.py, album_detail_service.py, merch_detail_service.py and
--   genre_service.py of app/services/marketplace share; Catalogue/Products, Catalogue/Details,
--   Catalogue/Categories (category_service.py) and Catalogue/Genres are their operations,
--   Catalogue/Pages the company of all products at once and a manager's pages, Catalogue/Removal
--   the deletion of a product. Company, Scope, Kinds and Reachable prove.
-- Talent is app/services/talent: Talent/Groups, Talent/Idols and Talent/Positions are
--   group_service.py, idol_service.py and position_service.py; Members, Companies, Reachable and
--   Inactive prove.
-- Inquiry is app/services/shared/inquiry_service.py, and Inquiry/Confirmations its cap.
-- Sales puts the three checkouts together, as attempts under an idempotency key.
-- Fixtures and the Tests modules run the services on a small database.
--
-- Bounds. An id is a number, since the program only compares ids; a time is a number of seconds
-- and a price one of hundredths of a yen, so that the tax is exact integer arithmetic. A request
-- reads the clock once, and the ids that it draws are arguments. The rounds of a draw recurse on
-- max_rank, the bound of the source's loop, so no fuel is needed. Autoflush is off, and within a
-- request a pending object is read only through the object itself, so one view of the database
-- serves. Row locks make the handlers of one tier or product run one after another; the model
-- runs one handler at a time. The calls of the relations Identity/Sessions,
-- Catalogue/Reachable and Talent/Reachable ask nothing of Redis. A price with more than two decimals
-- is left out, and so is a database that loses its connection at a handler's first commit.
--
-- What is not under the repository is a parameter: PayPal's two calls (`create_order` and
-- `capture_order` of Request), and `secrets.SystemRandom().sample`, of which the theorems use
-- what Python documents (IsSample): the sample has the size asked for, and takes no item more
-- often than the population has it. So are python-jose, passlib and the settings (Env), of which
-- the theorems use what is documented (IsEnv): a token decodes under its own secret to its payload
-- up to its expiry and not after it, and a password verifies against its hash.
--
-- Not modelled: the routers and HTTP handlers, the cache's contents, venues, the FAQ answers, email
-- texts, the product cards and other pages that only read, the companies and colours as rows of
-- their own, and the deletion of users, which cascades over most tables.
pub mod Prelude
pub mod Schema
pub mod Error
pub mod Tables
pub mod Database
pub mod Session
pub mod Notification
pub mod Trigger
pub mod Lottery
pub mod Tax
pub mod Rows
pub mod Payment
pub mod Ticket
pub mod Concert
pub mod Order
pub mod Cart
pub mod TicketTypes
pub mod Campaign
pub mod Identity
pub mod Catalogue
pub mod Talent
pub mod Sales
pub mod Cascade
pub mod Inquiry
pub mod Fixtures
pub mod Tests
