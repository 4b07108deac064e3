-- ===== src/Lib.antt =====
-- The update check, the layout geometry and the comparison of architectures of the archify skill, in
-- .agents/skills/archify/scripts, .agents/skills/archify/renderers/shared and
-- .agents/skills/archify/delta.
--
-- The skill asks at most once in about 72 hours whether a newer release was published, offers it to
-- the user once, and remembers the acknowledgement. update-contract.mjs validates the installed
-- release, the published manifest and their semantic versions. check-update.mjs keeps the state of
-- the check in a cache directory that several processes share, and decides when to ask and what to
-- offer. geometry.mjs, which every renderer of diagrams shares and which does not depend on the update
-- check, tests the routes of connections: what they cross, how long and how bent they are, and which
-- of them run side by side. architecture-delta.mjs compares two architectures by the identifiers of
-- their elements; it uses neither of the other two.
--
-- The parts, by file:
--   Base            shared names and helpers: Boolean tests, lists over native numbers, texts as lists
--                   of UTF-16 code units (Base/Texts), results (Base/Result), total orders that are
--                   given by a comparison (Base/Order), and that of texts (Base/Alphabet).
--   Json            the values of JSON. Json/Keys: `hasExactKeys` and `hasOnlyKeys`. Json/Print:
--                   `JSON.stringify`, `String(value)` and the length in UTF-8.
--   Semver          `parseSemver`, `compareSemver`, `releaseChannelForVersion` and
--                   `isStableCoreVersion` of update-contract.mjs. Semver/Grammar: reading and printing;
--                   Semver/Order: the order; Semver/Numbers: numbers of any length.
--   Contract        `validateLocalRelease`, `validateReleaseNotesUrl` and
--                   `validateStableUpdateManifest`. Contract/Timestamp:
--                   `validateCanonicalUtcTimestamp`; Contract/Trust: what an accepted manifest holds,
--                   and that it is accepted again.
--   Update/State    the cached state, with its encoders (Update/State/Encode), its reader
--                   `normalizeState` (Update/State/Normalize) and acknowledgements.
--   Update/Decision when the next check is due, the event keys, `resultForCandidate`,
--                   `freshStateResult`, and the changes of the state that `checkForUpdate` and
--                   `acknowledgeUpdate` hand to `commitOperation`.
--   Cache/Disk      the file system: nodes by their paths, with the calls that the program makes.
--   Cache/Action    asynchronous code: state passing over a world with the disk, the token of the
--                   cache directory and a log of what was changed. Before every call of the file
--                   system the environment may change the disk in any way, and it may let the call
--                   fail. Cache/Action/Rules: what an action keeps, by how it is built.
--   Cache/Guard     the identity of files, `verifyCacheToken`, `resolveCacheTarget`,
--                   `stableCacheEntry`, `guardedCacheEntryRead` and the other guards.
--   Cache/Change    `guardedCacheMutation`, `cacheMkdir`, `cacheWriteFile`, `cacheRename`, `cacheRm` and
--                   `prepareCacheDirectory`. Cache/Prefix: `canonicalizeTrustedDirectoryPrefix` and
--                   the whole of `prepareCacheDirectory`; Prefix/Leads: the paths of what it makes.
--   Operation       the directories of operations. Operation/Name: `operationName` and
--                   `parseOperationName`; Operation/Store: `readJsonFile`, `listOperations`,
--                   `readState` and `operationIsActive`; Operation/Claim: `inspectActiveClaim` and
--                   `operationOwnsActiveClaim`; Operation/Commit: `retireActiveClaim`,
--                   `prepareOperationClaim`, `discardPreparedClaim`, `operationWasFenced`,
--                   `cancelOperation`, `fenceLowerOperations` and `commitOperation`;
--                   Operation/Promote: `promoteOperationClaim` and `hasActivePendingOperation`;
--                   Operation/Acquire: `reserveOperation` and `acquireOperation`.
--   Update/Fetch    the request for the manifest: `readBoundedBody`, `cancelResponseBody` and
--                   `fetchCandidate`, on a response whose body is the sequence of what its reads
--                   give. Update/Fetch/Body: the chunks and the bound; Update/Fetch/Accepted: which
--                   responses give a candidate.
--   Check           `checkForUpdate` and `resultAfterLosingOperation`, composed of the parts above.
--                   Check/Outcomes: what it returns; Check/Acknowledge: `waitUntilRetry` and
--                   `acknowledgeUpdate`; Check/Command: `runCli`, `defaultCacheDirectory`,
--                   `isMainModule` and the end of the script; Command/Reported: what it reports.
--   Geometry        the tests of geometry.mjs, which the other parts do not use. Geometry/Number:
--                   coordinates; Geometry/Segments: `rectsOverlap`, `segmentIntersectsRect` and
--                   orientations, with their symmetry in Segments/Symmetry; Geometry/Route: points,
--                   segments and `normalizeRoutePoints` (Route/Straight), the rhythm of a route
--                   (Route/Rhythm) and `routeBudgetMetrics` (Route/Budget); Geometry/Flow:
--                   `cleanFlowProblems`; Geometry/Corridors: `collectAmbiguousCorridors`;
--                   Geometry/Crossings: `properSegmentIntersection` and `cleanCrossingProblems`;
--                   Geometry/Sides: the sides of boxes; Geometry/Borders: `mergeBorderOverlaps`, and
--                   `collectBorderRuns` in Borders/Runs; Geometry/Bridge: `automaticPortRhythmBridge`;
--                   Geometry/Spread: `automaticPortSpread`, with the order of its
--                   items in Spread/Items; Geometry/Gates: the gates that report
--                   corridors, border runs and rhythm, with their quality profile.
--   Delta           `canonical`, `fieldChanges`, `statusFor` and `compareEntities` of
--                   architecture-delta.mjs, on the values of Json. Delta/Sorted and Delta/Compared: the
--                   identifiers that it goes through; Delta/Unordered: two orders of the same elements;
--                   Delta/Unchanged and Delta/Self: when there is no change. Delta/Index: `stableIndex`,
--                   `boundaryIndex`, and the indexes and changes of `compareArchitecture`; Index/Map
--                   and Index/Refined: the map that both indexes make; Index/Keyed: what an index
--                   holds. Delta/Compare: `requireComparableShape`, `summaryFor`,
--                   `presentationChanged` and `compareArchitecture`, of diagrams that name no
--                   repository; Compare/Summary: the counts; Compare/Reordered and Compare/Unvaried:
--                   what does not change the answer. Delta/Canonical: `canonicalArchitecture`
--                   and `canonicalArchitectureJson`, of such diagrams; Canonical/Reordered: the order
--                   of the elements. Delta/Escape: `esc`, which the review uses on texts;
--                   Escape/Unescaped: the reading of what it makes. Delta/Rows:
--                   `architectureDeltaChangeRows`; Rows/Sorted and Rows/Ordered: their order.
--
-- How the code is modelled: an error that is thrown is `err` with a constructor for its class, or
-- `none` where all errors are treated alike. A time that is absent is `none`. Constant fields of an
-- object are left out of its record. Paths are resolved lists of components, and where links lead
-- (`fs.realpath`) is a parameter. The content of a file is the value that its text holds as JSON. The
-- conversion of dates is an interface, `Dates`; the theorem on the schedule assumes that a date up to
-- the last one there is, 8.64e15 ms, is read back as it was written. `Math.random` is a parameter, and
-- its product with the time is computed as an exact quotient. The hash of a directory's identity, of
-- `node:crypto`, is a parameter. So are the decoding of UTF-8, `JSON.parse` and the conversion of a
-- header to a number, and what the server answers; a timeout that wins the race against the answer is
-- one more parameter. `decimal` runs on a fuel above the number written, and the eight attempts of a
-- promotion are those of the code. The loop that reserves an operation runs on as much fuel as there
-- are generations, and the search of a free generation on as much as there are operations.
-- `acknowledgeUpdate` runs on 61 attempts, which is one more than 1200 ms hold delays of 20 ms; its
-- clock is a sequence of readings.
-- A coordinate is a difference of two natural numbers, in units of 0.0001 px; a product of two is in
-- units of 1e-8 px². So the tolerances of the geometry are whole numbers. A coordinate that is not
-- finite is `none`. The width and height of a frame are given by their halves, and the spacing of
-- ports is an exact quotient.
--
-- Where the model is narrower than the code: the identifiers of elements are texts, and no element is
-- null, as the schema has it. A date is written at any time, also beyond the last one there is, where
-- `toISOString` throws. An error of closing a file is left out. The tokens, which the code keeps by
-- their directories, are one token of the world, of the one directory that a run prepares.
--
-- Not modelled: of the update check the writing of its result as a text; of the geometry the rounding
-- of floating-point numbers, the texts of its messages, the authored segment that a crossing is
-- reported for, and the clearance of labels, which takes square roots; of the comparison the parsing
-- and the checks of repositories, and the pages and drawings of a review; and the other scripts of the
-- skill: renderers, compilers and previews. The Python services of the repository are no part of this
-- development.
pub mod Base
pub mod Json
pub mod Semver
pub mod Contract
pub mod Update
pub mod Cache
pub mod Operation
pub mod Check
pub mod Geometry
pub mod Delta
