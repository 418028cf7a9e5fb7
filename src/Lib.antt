-- ===== src/Lib.antt =====
-- Leitstand: a read-only view of exported evidence. Its controllers read JSON snapshots from files,
-- validate them, sum them up and hand them to pages; a dashboard sums up the controllers, and a health
-- receipt judges the snapshots and the release that is served.
--
-- The parts, the code that they model, and the files that model them:
--   Common         lists, results of code that throws, the stable sort, text by code points, integers
--   Json           the values of JSON, and the reads and `typeof` tests that the code makes of them
--   Host           what the program takes from Node: environment, files, clock, paths, child
--                  processes, JSON.parse, Date.parse, localeCompare, SHA-256, the decoding of bytes,
--                  Number, String, encodeURIComponent, the dates of date-fns; Host/Samples is a
--                  concrete one for tests
--   Snapshot       what src/controllers/bureau.ts, checkouts.ts and storageHealth.ts share, each in a
--                  copy of its own (loadSnapshot, classifyError's use, fixtureFallbackEnabled, the two
--                  nested try blocks of get...Data), and src/freshnessPolicy.ts; a `Controller` is what
--                  the copies differ in, and Snapshot/Laws is proved once for all of them
--   Bureau         src/controllers/bureau.ts: Parse (parseTask, parseSnapshot), Board (buildColumns,
--                  emptyData, dataFromParsed), Page (getBureauData)
--   Checkouts      src/controllers/checkouts.ts: Parse, Inventory, Page (getCheckoutData)
--   StorageHealth  src/controllers/storageHealth.ts: Values (objectValue to parseNotification), Series
--                  (assertIncreasing), Truth (countTruth), Current and Parse (parseSnapshot), Page
--   DecisionAxis   src/controllers/decisionAxis.ts: Parse, Page (getDecisionAxisData)
--   RepoBrief      src/controllers/repoBrief.ts: Parse (isSafeBrowserPointer, parseBundle, parseIndex),
--                  Page (getRepoBriefData)
--   Loading        src/utils/fs.ts (Files), src/utils/loader.ts (Fallback, Optional) and
--                  src/utils/integrity.ts (Integrity; Integrity/Batches is about its loop)
--   Insights       src/insights.ts: Items (sanitizeIndexedItems), References (sanitizeDataRefs,
--                  remapDataRefsToSanitizedContent), Daily (sanitizeDailyInsights)
--   Metrics        src/metrics.ts: Repos (processRepoStatus, the counts of loadMetricsSnapshot),
--                  Latest (the choice of the file in loadLatestMetrics)
--   Events         src/events.ts: Lines (parseEventLine), Events (loadRecentEvents)
--   EcosystemMap   src/controllers/ecosystemMap.ts: Calendar (isExactCalendarDate), Manifest
--                  (parseManifest), Artifacts (resolveArtifactPath, digestMatches,
--                  inspectCurrentArtifact), Git (runGit), Alignment (readCanonicalHeadInspection,
--                  inspectAlignment, combineFreshness), Nodes (the registry and the semantics of the
--                  nodes), Page (getEcosystemMapData); src/controllers/ecosystemMapLinks.ts: Links
--                  (loadEcosystemCrossLinks); src/controllers/ecosystemMapNavigation.ts: Mermaid
--                  (extractMermaidNodeIdentities), Navigation (buildEcosystemMapNavigation,
--                  serializeEcosystemMapNavigation)
--   Digest         src/digest.ts: Digest (createEventLabel, buildDailyDigest); src/renderMarkdown.ts:
--                  Markdown (renderDailyDigestMarkdown), Markdown/Loaded (what src/cli.ts composes)
--   Dashboard      src/controllers/dashboard.ts: Sources (safeLoad, summarizeSource), Summary
--                  (summarizeDashboard), Page (getDashboardData, composed of the six pages)
--   RuntimeHealth  src/runtimeHealth.ts: Snapshots (readSnapshotHealth), Git (readGitHealth and what it
--                  calls), Receipt (readEcosystemMapHeadConsistency, getRuntimeHealthData)
--
-- How the code is read:
--   A function that may throw returns `Result`, whose error is the message; a failed call of the file
--   system keeps its `code` and its message. Awaited calls run one after the other: none of them writes,
--   and one value of `Host` stands for one request, in which files and clock do not change.
--   `undefined` and a missing property are `none`; `null` is a value of JSON. A number is a sign, a
--   whole part and a fraction in units of 2^-1074, which covers every finite double exactly, or an
--   infinity. Counters and lengths are natural numbers.
--   Text is a string of Unicode scalar values. `toLowerCase` is exact as far as the result is compared
--   with ASCII text; `<` compares the units of UTF-16. `sort` is the stable insertion sort.
--   Instants of Date are in milliseconds, those of the file system in nanoseconds. Paths are POSIX.
--   `print` counts down from the number itself, and a number has no more digits than that. All other
--   recursion is on the structure of a value, a list or a text, but for the loops over batches of
--   files, which have as many turns as there are files. So no run stops for want of fuel.
--   A child process is what Node reports of it: the chunks of its output and its timer, a first end
--   (`error` or `close`), and whatever comes after. Node documents that such an end comes for every
--   process that is spawned; `Child` has one for this reason. `runGit` is a machine on these events.
--   A regular expression is written out as a matcher of its own.
--
-- Not modelled: console output; the process id, the uptime and the version of Node in the receipt;
-- the reading of the metrics file that loadLatestMetrics chooses, which the code takes as its types say;
-- src/utils/network.ts, which compares an address with three constants; src/server.ts and src/cli.ts,
-- which wire the parts to Express and to the command line; src/config.ts and src/validation, which call
-- zod and Ajv; templates, browser scripts, exporters and deployment files.
pub mod Common
pub mod Json
pub mod Host
pub mod Snapshot
pub mod Bureau
pub mod Checkouts
pub mod Dashboard
pub mod RuntimeHealth
pub mod StorageHealth
pub mod DecisionAxis
pub mod RepoBrief
pub mod Loading
pub mod Insights
pub mod Metrics
pub mod Events
pub mod Digest
pub mod EcosystemMap
