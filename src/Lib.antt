-- ===== src/Lib.antt =====
-- Verification of ConnextionZ Luna's backend: the payments of collaborations, the payment provider
-- behind them, the paid campaigns with the delivery of their impressions, and the limits on the
-- rate of requests.
--
-- The program. A collaboration has an initiator, participants and at most one payment
-- (backend/app/models/collaboration.py, backend/app/models/collaboration_payment.py). The payment
-- service (backend/services/collaboration_payment_service.py) moves a payment through a table of
-- states, reads and writes rows by a repository
-- (backend/repositories/collaboration_payment_repository.py), and asks a payment provider
-- (backend/app/payments/provider.py) to hold, cancel and refund money;
-- backend/app/payments/fake_provider.py is the provider for development. An owner promotes a post
-- by a paid campaign (backend/services/paid_campaign_service.py), which is shown to a viewer as a
-- selection and then an impression (backend/services/paid_delivery_service.py), within the
-- targeting (backend/services/paid_targeting.py), the frequency cap
-- (backend/services/paid_frequency.py) and the limits of the campaign; an engagement with it
-- consumes an interaction context (backend/services/paid_interaction_context_service.py). A
-- request runs in one transaction of backend/app/db/session.py, which is committed after a return
-- and rolled back after a raise.
--
-- The files. Prelude holds the shared names: tests on numbers, lists, texts and integers. Errors
-- holds the exceptions and the result of a validation. Exec is the monad of methods that read and
-- write a state and may raise; what was written before a raise stays written. Payment.Model and
-- Payment.Constraints are the rows and the constraints of their table; Payment.Session is the
-- session with the repository's queries and flushes. Payment.Audit and Payment.Guards hold the
-- validations, Payment.Transition the two methods _transition and _apply_transition.
-- Payment.Service, Hold, Resolution, Dispute, Completion and ProviderCalls hold the public
-- methods, under the names they have in the source; a method with many branches is split into a
-- helper for each, named for the branch. Payment.Calls is the list of all calls, with the
-- transaction around each, and the histories: sequences of served calls and of changes that the
-- rest of the program makes to collaborations, participants and the clock.
--
-- The proofs. Payment.Steps is the abstract machine: a relation with one constructor for each kind
-- of change of a row. Payment.Rules and Payment.Effects are rules for methods in the style of a
-- program logic, and Payment.Keeps has the lemma of each method: the rows after a return and the
-- committed rows after a raise, for an invariant of the steps. Payment.Sound is an invariant of
-- the rows from which the constraints of a changed row follow, Payment.History what holds over
-- histories, Payment.Permission the guards of a transition as a table. Payment.Refusal has the
-- rules for calls that must raise and change nothing. Provider and Provider.Fake are the
-- provider's results, interface and the fake provider, with its replay in Provider.Fake.Repeat and
-- Provider.Fake.Idempotent; Provider.Factory is the choice of the provider by the settings
-- (backend/app/payments/factory.py). RateLimits is the sliding-window limiter of
-- backend/app/rate_limits.py: consume with its cleanup, its check and its reservation;
-- RateLimits.Windows and Buckets hold the facts on one bucket and on the buckets by key, Bounds,
-- Reserve, Consume and Demands follow the limiter from its loops to any requests in turn. Tests
-- holds runs and an instance of each theorem.
--
-- The paid services. Paid.Model and Paid.Constraints are the rows of
-- backend/app/models/paid_campaign.py and paid_delivery.py, with the columns of users, profiles
-- and posts that the services read. Paid.Database is the tables with the queries of
-- backend/repositories/paid_campaign_repository.py and paid_impression_history_repository.py,
-- Paid.Writes the writes of backend/repositories/paid_delivery_repository.py and base.py with the
-- savepoint around them. Paid.Targeting, Configuration, Transitions, Campaigns, Frequency,
-- Eligibility, Delivery and Contexts hold the services, under the names of the source.
-- Paid.Ranking is the order of the candidates (backend/services/paid_ranking.py), Paid.Cursor the
-- signed cursor of a snapshot (backend/services/paid_pagination.py) and Paid.Candidates their
-- pages; Python holds what these use of the language's library on text and UUIDs. Paid.Calls is
-- the list of all calls that change the tables, the transaction around each, and the histories.
-- Paid.Steps is their abstract machine, and its child modules have the lemma of each call: what it
-- leaves is a step. Paid.Accounts follows the counters of a campaign over the steps, Paid.History
-- what becomes of one context, one impression and one campaign, and Paid.Replay a call that is
-- made again; Paid.Ranking.Pace says which campaign leads another one by what is delivered and
-- elapsed, without fractions, Closest and Leads relate it to the keys of the code, Keys and Paced
-- are on these keys, and Order is on the ranking; Paid.Cursor.RoundTrip, Paid.Candidates.Walk and
-- Paid.Candidates.First are on cursors and the pages that follow each other, over Prelude.Sorted
-- and Prelude.Part; Exec.Ends is the rule of each construct for the end of a call that returns,
-- Prelude.Rows and Prelude.Only are on lists whose keys differ and on the one row with a key.
--
-- Choices. Identifiers are numbers that are only compared; times are numbers, and one call reads
-- one time. Text is the list of its characters; amounts are integers of any size, which the
-- service bounds. A session has the rows as its transaction sees them and the rows as they are
-- committed; a flush is tested against the constraints of both, and a refused flush rolls the
-- transaction back. A provider is the record of the answers that it gives during a call, any
-- answers. Autoflush is off in the program, so a write of an attribute reaches the database at the
-- next flush. The limiter's clock counts ticks, with a number of ticks to a second, in place of
-- floating-point seconds. A fraction of the ranking is kept as a difference of numbers over a
-- number, so that its comparisons are exact. The validation keeps the numbers of a configuration
-- within 32 bits, and an update that would take a counter out of its 32-bit column is refused by
-- the database. A cursor is the list of its code points and a UUID its 128-bit number. The
-- signature of a cursor is an argument, of which the theorems assume that it is 64 hexadecimal
-- digits. A time of the paid services is a number of microseconds. An identifier is given by the
-- database at the flush, from a counter that the rest of the program may set to anything: the
-- constraint on keys refuses one that is in use. All definitions terminate by structural
-- recursion; no fuel is used.
--
-- Not modelled. Row locks, which only order transactions; the deletion of a user, by which the
-- database sets disputed_by_user_id to null; the digest by which the fake provider names a
-- payment, which is an argument; the length limits of columns, which the validations keep below;
-- the deletion of users and posts with what hangs on them in the tables of the paid services, and
-- the check that these tables exist; casefolds of letters whose result is not ASCII, which match
-- no topic; the web layer, configuration, logging, and the other services of the backend.
pub mod Prelude
pub mod Errors
pub mod Exec
pub mod Provider
pub mod Payment
pub mod RateLimits
pub mod Tests
pub mod Paid
pub mod Python
