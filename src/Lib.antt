-- ===== src/Lib.antt =====
-- Mail Control: the rules that its services keep, in src/mail_control of the repository.
--
-- The program synchronizes the mail accounts of many workspaces. A request signs a user in
-- (modules/identity) and changes a workspace's users within its plan (modules/saas, api/saas.py). A
-- scheduler (sync_scheduler.py) and the push notifications of the providers queue the accounts that
-- are due, and a worker synchronizes each with its provider (modules/mail): it keeps messages, a run
-- and cursors, writes the account's state only while the authorization that it started with is
-- current, and queues every stored message for analysis. The analysis worker (modules/analysis)
-- asks a model about each message, raises alerts, and opens and resolves incidents. The monitor
-- (modules/system) reports accounts that need attention.
--
-- Which file models which part:
--   Base       Boolean tests, lists over the native numbers, and methods that raise (Exec, with the
--              rules for what such a method keeps, where it settles, and which errors it avoids).
--   Identity   modules/identity: Models, Tokens (security.py), Database (the tables and queries of
--              repository.py), Service (the methods of IdentityService, under their names), Roles
--              (the checks of api/dependencies.py and the guards of api/saas.py). Service/Calls holds
--              the sequences of calls, Service/Deadlines and Service/Rotation the proofs about them.
--   Saas       api/saas.py: create_user and update_user over the tables of modules/saas/models.py;
--              Limits and Hierarchy hold the proofs.
--   Mail       Account: MailAccount and the conditional writes of modules/mail/auth_state.py, on a
--              store of the row and the object that the ORM tracks. Messages: the queries of
--              modules/mail/repository.py. TokenManager: AccountTokenManager of
--              modules/mail/token_manager.py. Http: modules/mail/http.py. Gmail/Request and
--              Microsoft/Request: the retry loops of modules/mail/gmail.py and microsoft.py.
--              Gmail/Values, Gmail/Sync and Gmail/Synchronize: GmailSyncService of
--              modules/mail/sync.py; Gmail/Client is what it asks of the client; Gmail/Imap:
--              ImapSyncService of the same file. Microsoft/Values, Microsoft/Sync and
--              Microsoft/Synchronize: modules/mail/microsoft_sync.py; Microsoft/Graph: the calls of
--              MicrosoftGraphClient (modules/mail/microsoft.py) that it makes. Push/Gmail, Push/Watch
--              and Push/Pubsub: modules/mail/gmail_push.py; Push/Graph and Push/Subscription:
--              modules/mail/microsoft_push.py; Push/Dedupe: the keys and the queue of both.
--              Connection: MailAccountService of modules/mail/service.py.
--   Analysis   modules/analysis: Models (models.py and schemas.py), Texts and Transition (the rules of
--              service.py on what a message opens and resolves), Outbox and Incidents (the queries
--              of repository.py), Service (AnalysisService.process), and Worker: analysis_worker.py.
--   System     Redis: the commands used. Freshness and Alerts/Monitor: modules/system/
--              mail_freshness.py. Alerts: telegram_alerts.py. Scheduler: sync_scheduler.py.
--              Worker and MicrosoftWorker: worker.py and microsoft_worker.py, one delivery of either
--              queue with its lock; they put the parts of Mail and the alerts together.
--   Tests      concrete inputs, and the theorems at these inputs.
--
-- How the state is modelled. Ids and times are numbers (times in seconds, in the retry loops in
-- milliseconds); texts are strings. A table is a list of rows, a UUID default a counter. A method
-- that raises gives back its error beside the state that it has left; where the session closes
-- without a commit, `transaction` restores the tables. Row-level security is the tenant's filter in
-- the queries. A provider is a function of the number of the call, so that it may answer anything
-- at any time; in a synchronization `world` gives what other transactions did to the account's row
-- before each call, and `renewal` what the client's callback for a rejected token did to the
-- session's account. A cursor's text is a checkpoint or another text; the key of a folder never holds
-- a checkpoint. The two time stamps that every table has are left out, but for the order of the
-- outbox, which is that of its list, and `created_at` of a message, an argument. Redis keys are
-- constructors, one for each format of the code. An outbox event is found by the message that its
-- unique key names. The sets of incident types are lists without duplicates, and the types
-- constructors. The rounds of the analysis worker follow each other, each at its time. In push, an
-- account stands with its provider_account_id, and the calls of Telegram are listed, not made. Fernet
-- encrypts the n-th text of a method with the n-th random vector.
--
-- Parameters: case folding and stripping, argon2, SHA-256, PyJWT, UUID texts, date parsing and
-- fingerprints, with the little that the code relies on as laws. The random delays, the clock and
-- the answers of Redis, the broker and Telegram are arguments; so are the OAuth call of the token
-- manager, since its client is not modelled, the text of a message and the answer of the model to
-- it, NFKD with ASCII, the key that PostgreSQL computes, Base64 with JSON, the claims that Google
-- names for a token, and the calls that register watches and subscriptions.
--
-- Fuel. The loops over the pages of a provider take fuel, and end with `out_of_fuel` when it runs
-- out, since a provider may go on naming pages for ever. Where each page is ranked above the next one
-- that it names, a fuel above the first page's rank is enough (Mail/Gmail/Synchronize/Ends). With
-- Microsoft the folders have to form a tree besides, and the fuel is above the size of that tree
-- with its pages (Mail/Microsoft/Synchronize/Ends). The other theorems hold for every amount, that
-- error included. The retry loop of Gmail takes fuel and needs five rounds; that of Microsoft Graph
-- counts its four attempts down.
--
-- Failures. The workers' calls of Redis may raise, and those of the scheduler and of the push; the
-- database does not fail in the model, and neither does the acknowledgement of a message.
--
-- Not modelled: the loop of the scheduler around enqueue_due_accounts, with its lock; the routes, the
-- dashboard's queries and the other reports, which only read; OAuth; the HTML of messages,
-- attachments and images; the clients of the models; configuration and maintenance scripts.
pub mod Base
pub mod Identity
pub mod Saas
pub mod Mail
pub mod System
pub mod Analysis
mod Tests
