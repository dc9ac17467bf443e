-- ===== src/Lib.antt =====
-- Verification library of the web client in frontend/src: what the client accepts from the backend
-- and from the other tabs of the browser, what it sends, and when it asks again.
--
-- The client never shows or sends what it has not checked. Each answer of the backend is of the
-- TypeScript type `unknown` and goes through a parser of frontend/src/lib/api, which returns a
-- typed value or throws an ApiError of the kind "invalid-response". The tabs of one browser share
-- one session: they exchange it by messages, take a lock before they refresh it, and leave a marker
-- in localStorage when it ends; frontend/src/features/auth-coordination.ts is that part.
--
-- The files, by the code that they are about:
--   Prelude       names of the libraries, tests on numbers, relations on lists, signed integers
--   Js            the language: numbers (exact fractions, Number.isInteger; Rounding and Sum: what is
--                 rounded to a double), texts (trim, length in UTF-16 units, `<`), JSON values and tests of them, RegExp
--                 tests, Set
--   Host          what the host or the configuration gives: toLowerCase, Number(text), Date.parse,
--                 URL, encodeURIComponent, String(number) and `apiConfig`. Functions take them as
--                 an instance; Host/Sample is one for the tests. Conversion: String(value) and
--                 Number(value) of a JSON value.
--   Api/Errors    lib/api/errors.ts: ErrorKind, ApiError; Result is "returns or throws";
--                 Message: problemMessage, apiErrorDisplayMessage; Retry: parseRetryAfter
--   Api/Config    lib/api/config.ts: normalizeApiBaseUrl, normalizeTimeout, buildApiUrl
--   Api/Client    lib/api/client.ts: apiRequest, with what fetch and the timer did as an argument
--   Api/Access    lib/api/access.ts: the readers of fields (requiredString, requiredUuid,
--                 requiredDateTime) that all parsers are built from; Answers: the user, the
--                 organizations and the access
--   Api/Inventory lib/api/inventory.ts: parseSite, parseDevice, parsePage, parseAvailability;
--                 Queue: mapBounded, as the steps of its workers
--   Api/Answers   loops and tests over fields that the parsers below share
--   Api/Programs  lib/api/programs.ts: parseProgramPlan, sameProgram, programWithinLimits;
--                 Progress: parseProgramProgress, durationText
--   Api/Equipment lib/api/equipment.ts: parseEquipmentTarget, sameEquipmentTarget;
--                 Passport: the checks of its parts; Passport/Answer: parseEquipmentPassport
--   Api/Series    lib/api/telemetry-series.ts: seriesWindow, the buckets; Answer: parseSeries
--   Api/Schedules lib/api/schedules.ts: parseSchedule, parseScheduleSpec;
--                 Occurrences: parseScheduleRun, the preview, the history
--   Api/Overview  lib/api/overview.ts: the freshness and the readings; Modules: their channels and
--                 commands; Snapshot: parseOverview; Control: effectiveQuality, controlBlockReason
--   Api/Onboarding    lib/api/onboarding.ts: parseConnection; Installed:
--                 parseConnectionEquipment, parseRecovery
--   Api/Diagnostics   lib/api/diagnostics.ts: parseDiagnostics, uptimeText
--   Api/Alarms, Api/Notifications, Api/Readiness    lib/api/alarms.ts, notifications.ts, readiness.ts
--   Api/Drive     lib/api/vfd-settings.ts: parseVfdSettings, sourceLabel
--   Api/Commands  lib/api/commands.ts: parseCommand; Page: parseCommandPage; Receipts:
--                 parseCommandReceipt; Input: makeCommandInput
--   Api/Polling   lib/api/polling-policy.ts: PollingBudget
--   Api/QueryClient  lib/api/query-client.ts: shouldRetryApiQuery, retryDelay
--   Auth/Channel  features/auth-coordination.ts: parseAuthChannelMessage
--   Auth/Timing   the same: isSnapshotUsable, refreshDelayMs, refreshRetryDelayMs
--   Auth/Logout   the same: recordLogoutMarker, readRecentLogoutMarker, clearLogoutMarker
--   Auth/Lease    the same: withStorageLease, as steps of any number of calls over one storage
--   Auth/Request  features/auth-session-runtime.ts: authorizedApiRequest
--   Auth/Session  features/auth-session.tsx with auth-session-runtime.ts: AuthSessionProvider.
--                 State: its refs; Changes: applyTokenResponse, applyPeerSnapshot,
--                 clearSessionInternal, scheduleRetry; Refresh: refreshSession with
--                 coordinatedBrowserRefresh; Actions: login, logout, cancelLogout, getAccessToken,
--                 the listener of the channel; Startup: the effects; Machine: all of them as
--                 events
--   Form/Time     lib/time-input.ts: normalizeTimeInput, timeInputError, minuteOfDay
--   Form/Schedule lib/schedule-validation.ts: scheduleTimingErrors, normalizeScheduleTimes
--   Form/Login    features/login-model.ts: safeLoginReturnTo, validateLoginForm; Failed:
--                 loginErrorPresentation
-- The paths lib/ and features/ are those of frontend/src.
--
-- Conventions. A function that may throw returns a Result, and `null` is `none`. A field that is
-- missing is `undefined`. The keys of an object are distinct, and none is inherited. Names are the
-- source's, in lower case with underscores.
--
-- Bounds. The only fuel is that of the number of binary digits, 2200: a double is below 2 ^ 1024 and
-- a multiple of 2 ^ -1074, so that the numerator of a sum has fewer. Times in microseconds are exact in the model; the program's are, below
-- 2 ^ 53, which is up to the year 2255. The polling budget keeps the next attempt in units of
-- 1 / (10 q) ms for a jitter of j / q, where the program rounds a double.
--
-- The lock. A world has a clock that the tabs share, the item of localStorage as parseLease reads
-- it, and the phase of each call. A label is what a call does between two accesses of the storage,
-- so that reading and writing of two tabs may interleave in any order; the random delays are in the
-- labels. A call number stands for one call of withStorageLease in one tab, with a nonce of its own
-- (crypto.randomUUID). That a tab is not stopped for long between two steps is a hypothesis on runs.
--
-- The session. A Tab holds the refs of AuthSessionProvider and the state that React shows. Each
-- callback is cut at its awaits: RefreshPhase and Startup say at which await the code stands, and an
-- event resumes it, so that events of other callbacks may come between any two awaits. The lock, the
-- three requests to the backend and the timers are events that may come at any time, which is more
-- than the browser lets happen. The two waiters of peerWaitersRef are in RefreshPhase and Startup.
-- One run of code up to its next await reads the clock once. The provider is mounted once.
--
-- The queue. mapBounded's workers share the variable `next`; a step is the run of one worker from
-- one `await` to the next, or the settling of its task, and the steps come in any order. A task
-- always settles, with the same answer for the same item.
--
-- The calendar. Api/Schedules takes as a parameter what Date and Intl know: the days that exist, and
-- the names of time zones.
--
-- Not modelled: rendering (React components and pages), fetch, timers and signals of the
-- browser, the texts of labels, the other forms, and all that
-- is not the web client (backend, firmware, simulator, database, infrastructure).
pub mod Prelude
pub mod Js
pub mod Host
pub mod Api
pub mod Auth
pub mod Form
