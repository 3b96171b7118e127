-- ===== src/Lib.antt =====
-- The business core of the pythonServer backend (app/), modelled function by function.
--
-- Points (app/services/point_service.py): Points.Model holds the rows of the four tables that the
-- service reads and writes (app/models/entities.py) and the session: the locked user row, the
-- tables, newest row first, and their id counters. Points.Credit, Points.Expire, Points.Debit and
-- Points.Refund are the methods, each a function of the session that returns its value with the new
-- session, or raises. A raise discards the session, as the request's session is closed without a
-- commit; a rollback inside a method restores what was last committed. Every call of
-- datetime.now() is an argument. Amounts in columns are natural numbers, an amount that a caller
-- passes is an integer. Snowflake ids are represented by their order of issue.
--
-- Orders (app/services/order_service.py): Orders.Model holds the rows of the commerce tables
-- (app/models/entities.py), with amounts in fen, Orders.Redis the keys in Redis (RedisClient of
-- app/core/cache.py). Orders.Basket and Orders.Create are create_order with its reservation of stock, Orders.Pay is
-- mark_order_paid and pay_with_balance, which credits the reward through Points.Credit,
-- Orders.Cancel is cancel_unpaid_order and finalize_refund, which revokes the reward through
-- Points.Credit. Proofs stand below the operation that they are about, and in Orders.Stock where
-- they compare a product's row with its counter; Orders.Returned follows a payment with its refund.
-- The readings of the clock within a call are one
-- value. A call is one step: the order, user and product rows that it works on are locked, and the one
-- interference that the code handles, a rival order under the same idempotency key, is an argument
-- of create_order; sync_wechat_standard_order too is one step, though the code reads the order without a lock and asks
-- the service before it cancels. Redis is up or down for a whole call, and its keys do not expire within the
-- runs described.
--
-- Timeouts (cancel_unpaid_order_by_no of app/services/order_service.py, app/tasks/order_tasks.py):
-- Orders.Timeout cancels an order that was not paid in time, after the payment service has been asked, and
-- Orders.WeChat holds the checks of what that service reports (app/services/wechat_pay_service.py). The
-- service is a Gateway: its answer to a query, and whether it closes an order. The sweep calls the
-- cancellation for each order of a list.
--
-- Routes of an order (app/api/commerce.py, and refund_commerce_order of app/api/admin.py): Orders.Routes has the
-- payment, the reports of the payment service and the request of a refund, Orders.Routes.Refund the refunds. Calls
-- runs any of them and the timeout, Stages is the diagram of an order's two statuses that Refines compares
-- them with, Lasting follows sequences of calls. The creation of an order is not among these calls.
--
-- Travel orders (app/services/travel_order_service.py): Travel.Model holds the rows, Travel.Cancel is
-- cancel_travel_order, which gives points back through Points.Refund and Points.Credit. The
-- audit row's creation time and the session's other columns are left out. Travel.Journey is the way of an
-- order: Exchange buys it with points (exchange_travel_route of app/api/travel_orders.py), Traveller and
-- Office hold the calls of the traveller (app/api/travel_orders.py) and of an administrator up to the code
-- (app/api/admin.py), Trip those from check-in on. What they take from outside (clock, tokens, dates, the
-- hash, the contract's template and the store of signatures) is a Desk. Calls runs any of them, Stages is
-- the diagram of statuses that Refines compares them with, Lasting follows sequences of calls.
-- A raise leaves the tables as they were, but for a refused scan, whose record is committed.
--
-- Captcha (app/core/slider_captcha.py): Captcha is a state machine over the cache helpers of
-- app/core/cache.py; the keys' prefixes are two tables. Which commands of a call Redis answers is part of its state:
-- the helpers swallow a command that fails.
--
-- Snowflake (app/core/snowflake.py): the generator of ids over the readings of the clock to come. The other
-- components name an id by its place in the order of issue. Memory (app/core/cache.py): the local substitute for
-- Redis with its pipeline; Memory.Refines compares it with a map of live entries. LoginGuard
-- (app/core/login_guard.py) counts failed logins in it.
--
-- Accounts (app/core/security.py, app/core/auth.py, app/api/auth.py): the rows of accounts and sessions, the loaders
-- of a session, and logout. Accounts.Login is login and admin_login: LoginGuard's verdict, the captcha's
-- ticket, the password and the account's status. The password hash and the token drawn are a Door.
--
-- Invites (app/api/auth.py, bind_invite): who invited whom, with the inviter's points through Points.Credit on the
-- tables of Orders.Model. The user rows are two tables with the same ids there.
--
-- Every loop goes over a list of rows, operations or readings of the clock. Only the decimal form of a number has fuel,
-- one more than the number, and each round divides it by ten.
--
-- Not modelled: the formats of requests and answers, queries for lists, logging, remarks and labels of rows, the schemas' field checks, and the
-- parts of the program that carry no rows of these tables.
pub mod Accounts
pub mod Base
pub mod Captcha
pub mod Invites
pub mod LoginGuard
pub mod Memory
pub mod Orders
pub mod Points
pub mod Snowflake
pub mod Travel
