-- ===== src/Lib.antt =====
-- A model of the parts of SpeakerTrail that decide what is loaded, when and how often, and what is
-- kept: a crawler that checks event pages for speakers, with its job queue in PostgreSQL, its polite
-- fetcher, the lifecycle of its sources, the resolver that turns what a page names into people and
-- events, its runs, its search budgets and the login of its one user.
--
-- The parts and their files. A run (Runs) queues jobs (Queue); a worker claims a job, and the job of a
-- source is a check (Sources) that loads a page (Fetch), which first asks whether the address may be
-- requested at all (Fetch/Guard), then the site's robots.txt (Fetch/Robots, Fetch/Cache), and then waits
-- for the site's next free slot (SiteLimit). What the page names is resolved into the tables of people,
-- organisations, events and appearances (Resolve), and rated by the rubric (Rubric). The importer
-- (Importer) writes events of a file into the same tables. Searches (Search) take from monthly budgets,
-- and the server's private pages ask for a session (Sessions) and record decisions (Decisions).
--
--   Common      lists, texts as bytes, decimal numbers, and the tests that the other files share.
--   Settings    internal/settings/settings.go: Int and Days.
--   Urls        the parts of an address that net/url gives; parsing is a parameter.
--   Queue       internal/queue/queue.go. Queue/Types and Queue/Rows hold the data, Queue the methods
--               New, Enqueue, Claim, Complete, Fail (enqueue, claim, complete, fail) with their SQL
--               statements (upsert, expire_leases, take_next, finish). The other files prove: Invariant
--               and History the well-formed table, Claims the order, Leases that claims exclude each
--               other, Enqueues, Finish, Backoff, Attempts (with Budget and Spent) and Stale the rest.
--   Runs        internal/pipeline/schedule.go: StartRun, FinishRun, ended (has_ended), StopRun,
--               dropQueued, EndInterrupted and CheckNow over the runs and the queue. Runs/Keys is
--               about the keys of a run's jobs, Runs/History and Runs/Final about any sequence of
--               calls, Runs/Stops about the ends of runs. Due has handlePrune and the parts of
--               EnqueueDue that choose the due sources and queue their jobs and those of the seeds.
--   SiteLimit   internal/queue/sitelimit.go: SiteOf, Reserve and Wait.
--   Fetch       internal/fetch/guard.go (Guard), robots.go (Robots: parseRobots, robotsMatch and
--               allowed; Cache: rulesFor and Allowed as may_fetch), and fetch.go (Client: checkRedirect,
--               Client.Do as follow, wait and limitedGet; Fetcher: allowed as checked, and HTTP;
--               Shell: LooksLikeJSShell, and the verdict of the filter proxy of proxy.go).
--   Sources     internal/pipeline/lifecycle.go (advance) and check.go (failed, blocked, makeManual and
--               CheckSource as check_source, on the row of a page source). Sources/Kinds has
--               SourceKindFor and NameFromURL.
--   Resolve     internal/pipeline/resolve.go. Titles has the comparison of titles (Titles/Same is about
--               it), Tables the tables, Orgs the organisations, Names the normal forms of names and
--               roles of internal/extract/people.go, People resolvePerson, Events the event, its
--               merge and its hosts, Check the rest of a check, and Resolve itself Resolve. The other
--               files are the proofs: Frame, Growth and Known the rows that an operation keeps, Counts how
--               many it adds, Found the row that findEvent answers with, Again
--               a check that is repeated, Merge two checks of one event, Totals the links between the
--               tables and cut off transactions, Typed the constraints of the schema.
--   Importer    internal/importer/importer.go: the CSV file's rows, groups and transaction.
--   Sessions    internal/server/auth.go: sign, valid, loggedIn, clientIP, allowAttempt, checkPassword.
--   Search      internal/search/pool.go: reserve and try, with the order of the providers.
--   Rubric      internal/rubric/rubric.go: the passages (Passages), Signals and Score (Rubric), About
--               (About); Rubric/Signals is about what the signals are sure to be.
--   Portfolio   internal/pipeline/portfolio.go: portfolioStartups (Portfolio; Crawl and Listed are about
--               it), storeEntries (Entries; Organisations and Counted are about
--               it) and advancePortfolio (Lifecycle).
--   Scoring     internal/pipeline/score.go: what the rubric reads of a person (Input), ScorePeople,
--               pageSignal, ScoreStale and score (Scoring). Inserts, Stored, Stale and Touched are about
--               what they store.
--   Fit         internal/pipeline/fit.go: whether an event goes into the calendar.
--   Worker      internal/queue/worker.go: runJob and call.
--   Decisions   internal/server/decisions.go: decide. Decisions/Board is the abstract view of it, what
--               the user last said of whom.
--
-- How the state is modelled. A table is a list of rows with the next value of its identity column,
-- which moves on a conflict too. Each SQL statement is one atomic function on it, as READ COMMITTED and
-- row locks make it, so the workers' calls are a sequence; FOR UPDATE SKIP LOCKED needs no more, since
-- a statement in the sequence finds no row locked. A method runs its statements in turn, and each has a
-- fault: the error that the database answers with, after which the table is as it was. The column
-- max_attempts is positive by a check of the schema. Clocks are arguments: microseconds as natural
-- numbers, nanoseconds in Sessions. Subtraction stops at 0, which only differs for times before 1970.
-- Settings and budgets are whole numbers and not negative. Texts are bytes; letters and white space are
-- those of ASCII. Results of services and servers are functions of the turn at which they are asked, so
-- that they may change their mind.
--
-- The tables of Resolve are lists in the order of their ids. A SELECT without ORDER BY, as of an event
-- by its title or of a person's appearance, reads the rows in an order that the database may choose:
-- the record Order of Common/Tables, of which no more is known than that it reads the rows that are
-- there. Ids that a cut off transaction skips are not modelled, and neither are the organisations'
-- timestamps. A transaction is a computation that may fail at any statement, after which the tables
-- are as they were. The texts of Resolve and Importer are lists of code points where the program
-- compares letters, and what is a letter or its lower case is a parameter.
--
-- Parameters: url.Parse (Urls.Parser), net/http's connection (the field reply of Fetch.Client.Env), the
-- limiter behind its interface, the clock, HMAC, base64 and bcrypt (Sessions.Crypto), the start of a
-- month in Berlin (Search), what a job's handler does (Worker), the order in which the database sorts
-- signals (Decisions), what each regular expression finds (Rubric, Fit, Resolve), the printing of
-- addresses, the unescaping of HTML and the classes and normal forms of Unicode (Resolve), the CSV reader
-- (Importer), what extract.Portfolio reads from a page (Portfolio), and the labels of signals and the
-- order of texts in the database (Scoring). The theorems that rely on them name what they rely on:
-- KeepsHost says that the address of a robots.txt, if it parses, has the scheme and host that it was made
-- from; KnowsRoles says that the role which a label stands for, if it does, is one of the schema's;
-- SumsTo32 and Decodes say that a SHA-256 sum has 32 bytes and that base64 decodes what it encoded.
--
-- Bounds and fuel. All loops are structural, but for two. The redirects of a request take a number of
-- rounds, twenty, of which they never use more than ten: checkRedirect ends them, which counts the
-- requests made before. ScoreStale takes a number of rounds as well. A round for each person who is to
-- be scored and one more are enough. The pages of a portfolio are counted down from the program's own
-- six. A number is printed with fuel one above it. robots.txt is read up to 500 KiB and up to a line
-- of 64 KiB, as in the program. The seconds in a cookie are 64-bit, and from 2^63 on they are
-- negative, so past. Shares of a budget are compared exactly; the program's floating-point numbers
-- agree for budgets below 2^26.
--
-- Not modelled: the text of a page, the extraction of events and of startups, reads, lookups and posts,
-- the records of checks, the HTTP handlers, the worker's loop, and of schedule.go the queueing of reads
-- and lookups, RunNow, Nightly and the handling of seeds. The headless browser, the providers of searches
-- and the language model are services behind input and output.
pub mod Common
pub mod Settings
pub mod Urls
pub mod Queue
pub mod Runs
pub mod SiteLimit
pub mod Fetch
pub mod Sources
pub mod Sessions
pub mod Search
pub mod Rubric
pub mod Fit
pub mod Worker
pub mod Decisions
pub mod Due
pub mod Resolve
pub mod Importer
pub mod Scoring
pub mod Portfolio
