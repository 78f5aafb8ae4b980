-- ===== src/Lib.antt =====
-- A mail server: SMTP on port 25 and on the submission port, a Maildir per user and folder, a
-- directory in SQL, an outbound queue, and the parts around them. This library models its core and
-- proves what the parts promise.
--
-- Address (internal/address/address.go): splitting an address at its last "@".
-- Ratelimit (internal/ratelimit/ratelimit.go): failures and bans per key. Allowed, RecordFailure,
--   RecordSuccess and cleanup are `allowed`, `record_failure`, `record_success` and `cleanup`; a
--   history is a list of timed calls.
-- Maildir (internal/maildir/maildir.go, with Maildir.Paths for internal/maildir/paths.go): the three
--   directories of a folder as lists of files. Each operation has the name of its method; the
--   failures of its file-system calls are arguments.
-- Store (internal/store): the tables of the schema as one record `Db`. Store.Users is store.go,
--   Store.Mailboxes and Store.Messages are mailbox.go, Store.Settings is forwarding.go and
--   relay_settings.go. The driver's own errors are left out: a statement fails for the constraints of
--   the schema.
-- Queue (internal/queue/queue.go, with Queue.Relay for internal/queue/relay.go): the spool as two
--   maps by identifier; `attempt` and `process_all` are the methods of those names. A delivery makes
--   calls of an SMTP server, whose answers are an argument.
-- Mailsend (internal/mailsend/mailsend.go): `send` stores a message for each recipient, in a Maildir
--   or in the queue. What it stores is a log.
-- Smtp.Inbound and Smtp.Submission (internal/smtpserver/inbound.go and submission.go): the sessions
--   of the two ports. Inbound asks Store for the recipients and their forwarding rules; Submission
--   asks Store and Ratelimit for a login, and hands the message to Mailsend.
-- Realip (internal/realip): the client's address behind trusted proxies.
-- Tlsutil (internal/tlsutil/tlsutil.go): the certificate of a mounted pair or one of its own.
--   Mailserver's `setup_tls` says which of these, or that of Acmedns, is asked for.
-- Inboundauth (internal/inboundauth/verify.go): the verdict on a message from SPF, DKIM and DMARC.
--   `verify`, `check_dmarc`, `lookup_dmarc_record` and `aligned` are the functions of those names.
-- Imap (internal/imapbackend): Imap.Flags is flags.go with the flags of message.go; Imap.Mailbox is
--   mailbox.go, a folder in memory over its Maildir and its rows of Store; Imap.Status is what it
--   reports for STATUS, LIST and SELECT; Imap.Search is SEARCH, of message.go and mailbox.go;
--   Imap.Accounts is the logins of server.go and webapi.go, over Store and Ratelimit; Imap.Folder is
--   appendBytes and Store of mailbox.go with the calls of webapi.go that change messages; Imap.Session
--   is COPY and MOVE of session.go, with Imap.Session.Locks for the mutexes that two of them take;
--   Imap.User is user.go, the folders of a user over Imap.Disk, the directories; Imap.Facade is the
--   calls of webapi.go over those folders; Imap.Paging is its pages, and Imap.Provision is
--   provision.go.
-- Webmail (internal/webmail): Webmail.Sessions is session.go, Webmail.Access the login and the guards
--   of auth_handlers.go, server.go and admin_handlers.go, over Imap.Accounts; Webmail.Admin is the
--   handlers of admin_handlers.go, over Store and Imap.Provision; Webmail.Account is the two forms of
--   account_handlers.go; Webmail.Mail is the flags and deletions of mail_handlers.go, over Imap.Facade;
--   Webmail.Compose is compose_handlers.go: the form and its defaults, and in Webmail.Compose.Sending
--   the message that is built and its sending, over Mailsend.
-- Dkimsign (internal/dkimsign/dkimsign.go): the file of the signing key.
-- Acmedns (internal/acmedns/acmedns.go): the certificate and its renewal.
-- Config (internal/config/config.go): the settings, from the file, the environment and the
--   defaults. Mailsend has a record of those that it reads.
-- Mailserver (cmd/mailserver/main.go): the settings that the queue and the limiters get from Config,
--   the bounce, and the commands on users, over Store and Imap.Provision.
-- Prelude: the shared lists, texts and association lists.
--
-- Texts are lists of byte codes, and lower case is that of ASCII. Times are natural numbers, from
-- Go's zero time or from any other start. A Maildir name pads the time to 20 digits, which is more
-- than a 64-bit number of nanoseconds has, and the digits of a number are made on a fuel of 20. UIDs
-- and UIDVALIDITY are 32-bit numbers and wrap around; a theorem that needs room below 2 ^ 32 says so.
-- The search for a DMARC record walks up a domain on a fuel of its length and one, and each round
-- drops a code. No other loop has fuel: they recurse on a list or count down.
--
-- What is not modelled: of internal/imapbackend FETCH and the summaries of messages, which read them
-- with the mail library, and the queues of updates for other sessions; of internal/webmail the data of
-- the folder pages, downloads and the templates; internal/metrics, and the listeners
-- and goroutines of the start-up, which are calls of libraries and of the operating system. Logging and
-- metrics change nothing that is read. Of the errors of the database those of Rename are modelled;
-- elsewhere its statements run, and a deleted row takes those that refer to it, as for an SQLite DSN
-- without options. Writes of the queue succeed. Files of configuration, bcrypt, SMTP, DNS, the ACME client,
-- keys and certificates, IP addresses, the reading and writing of messages and random bytes are
-- arguments.
pub mod Acmedns
pub mod Address
pub mod Config
pub mod Dkimsign
pub mod Imap
pub mod Inboundauth
pub mod Maildir
pub mod Mailsend
pub mod Mailserver
pub mod Prelude
pub mod Queue
pub mod Ratelimit
pub mod Realip
pub mod Smtp
pub mod Store
pub mod Tlsutil
pub mod Webmail
