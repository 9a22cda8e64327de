-- ===== src/Lib.antt =====
-- Omnia Reader: a reader for EPUB and PDF publications that works offline and synchronizes its
-- library through Git or MEGA. This library models the parts of its TypeScript code that decide
-- what a merged library is and when it is synchronized, and the reader's preferences and input.
--
-- LogicalBook is libs/sync/core/src/lib/logical-book-state.ts, on the records of
-- libs/reader/domain/src/lib/logical-book.ts and publication.ts. A device records each change of
-- its library as an immutable document that names its parents; every device folds the changes
-- into one state document.
-- - Types holds the records; the maps that the code builds from them are association lists with
--   unique keys (Prelude/JsMap), in the order of insertion, as JavaScript's Map keeps it.
-- - Ancestry is isAncestor: Ancestry.walk carries the shared set of seen ids and takes fuel for
--   the depth of the recursion. The number of changes and two is enough, since each deeper call
--   enters a change that was not seen, which Ancestry/Reaches shows.
-- - Clock is clockOf, clockWins and tombstoneClockWins; Conflict is memberships,
--   membershipConflicts and deterministicConflictId, whose 32-bit hash is written out modulo 2 ^
--   32.
-- - Apply is applyChange: Apply/Books its loops over removed and resulting books and the conflict
--   that they open, Apply/Effects its loops over preferences, resolved conflicts and variants,
--   Apply/Change the whole, with stateClocks, canonicalizeLogicalBookState, the comparator of
--   orderChanges and the fold of mergeLogicalBookChangesIntoState.
-- - Schema is the part of isLogicalBookStateDocument that checks one list of the state against
--   another.
-- - Invariant, Order and Schema/Dangling prove what is listed below.
--
-- AutoSync is the AutoSyncScheduler of libs/sync/core/src/lib/auto-sync-scheduler.ts as functions
-- from state to state. AutoSync/State holds its fields, with the two stores and the timers that
-- are set; an Environment is what one callback reads of the clock, the network, the page and the
-- selected provider. Backoff, Requests and Passes are its methods: runAutomatic is
-- Passes.begin_pass up to the await and Passes.settle when the worker's promise settles, which
-- may be long after. Lifecycle is start, stop and the registered callbacks, and Lifecycle.step
-- the machine over all events.
--
-- Navigation is libs/reader/domain/src/lib/reader-navigation.ts: keyboard commands, page turns by
-- key, wheel and swipe, and zooming by wheel. A coordinate is a whole number of quarters of a CSS
-- pixel, so the factor 1.25 of the swipe test is exact.
--
-- Preferences is libs/reader/domain/src/lib/reader-preference-sync-state.ts with
-- reader-preferences.ts: each field of the reader's preferences is a register, a value with a
-- revision, a device and a change, and states merge field by field. Preferences/Values holds the
-- preferences and their ranges, Preferences/State the registers, the merge and the validity
-- check, on values that already have the types that the code checks for; a number is a whole
-- number of thousandths.
--
-- Gateway is part of the gateway service: the provider sessions of
-- apps/sync-gateway/src/session-store.ts and the hand-off of
-- apps/sync-gateway/src/native-handoff.ts.
-- - Runtime holds what Node gives: random bytes, AES-GCM, SHA-256, JSON and the file system, all
--   parameters; Cipher is SessionCipher with its key ring.
-- - Sessions is the contract of a session store without its representation: sessions with the
--   time at which each one ends. Memory and File are MemorySessionStore and FileSessionStore on
--   explicit states, and Refinement compares File with the contract; Lifetimes and Rotation hold
--   runs in which a session is lost. In these runs the calls of one store do not overlap.
-- - Requests is the check of identifiers and of return paths, Handoff the class
--   NativeAuthorizationHandoffs over a record of the store's operations, Redemption and Issued
--   its redemption, Redemption/Once the hand-offs of one store in any order, and Store what the
--   store in memory fills of the assumptions on a store.
--
-- Workers is libs/sync/core/src/lib/change-aware-sync-worker.ts and library-sync-coordinator.ts.
-- ChangeAware is runSynchronization as an action whose ports (journal, destination's revision,
-- delegate, checkpoints) answer by any function of the history, so a port can change its mind
-- between two calls. Coordinator runs the phases of a pass; the four phases under Promise.all
-- start in their order, and of several errors the first in that order is passed on.
--
-- Progress is the push of libs/sync/core/src/lib/progress-sync-service.ts with progress-merge.ts
-- and progress-paths.ts. Push.push_progress is the loop of pushProgress on fuel;
-- maxConflictRetries + 1 is enough, since a turn is tried again only while retries are left. The
-- furthest progression is a whole number of thousandths.
--
-- Marks is bookmarks and annotations: libs/reader/domain/src/lib/publication-bookmark.ts and
-- publication-annotation.ts, the bookmarks of
-- libs/library/data-access/src/lib/browser-library-repository.ts, and
-- libs/sync/core/src/lib/bookmark-sync-service.ts.
-- - Prelude/Json holds values of unknown type, as JSON.parse gives them; a finite number is a
--   whole number of 2 ^ -1074, so that doubles are exact. Locator, Bookmark and Annotation hold
--   the checks of such values (isPublicationLocator, isPublicationBookmark,
--   isPublicationAnnotation), the readers that see a value at the type of its interface
--   (bookmark_of, annotation_of), and the order of versions.
-- - Library is getBookmark, listBookmarks and saveBookmark over a map by id. Documents holds
--   paths, coalesceBookmarkOperations and mergeSnapshot; Pull is pull; Push is pushBookmark,
--   whose loop recurs on the retries that are left, so that it needs no fuel; Synchronize is
--   push, synchronizePending and runSynchronization. The destination and the journal answer by
--   any function of the history, so others may write between any two calls.
--
-- Outbox is libs/sync/git/src/lib/indexed-db-operation-journal.ts with the outbox of logical
-- changes that libs/sync/core/src/lib/logical-book-outbox-journal.ts shows it with. The two
-- stores are maps; crypto.randomUUID and the time are arguments of append.
--
-- Parameters stand for code outside the repository: String.prototype.localeCompare is the record
-- Prelude/Collation.Collation, a comparison that is reflexive, antisymmetric and transitive;
-- Prelude/CodeUnits/Laws has one such comparison. The path of a variant's object and
-- toLocaleLowerCase are functions that the definitions take, and so are the closest method of an
-- event's target, encodeURIComponent, JSON.parse, JSON.stringify, toUpperCase, Date.parse with
-- toISOString (MarkPort.iso_of), and the URL builder.
--
-- Not modelled: the transports; the synchronization of annotations, which repeats that of
-- bookmarks, and of books and preferences; pull and the passes of progress; storage in IndexedDB
-- beyond the bookmarks, the journal and the outbox; the session store in Redis and the HTTP
-- adapters of the gateway; the rendering engines, the Angular application and the native shell.
-- The shape checks of progress, logical changes and stored settings, the promises that concurrent
-- callers share and the listeners of the scheduler's status are left out too.
pub mod Prelude
pub mod Gateway
pub mod LogicalBook
pub mod AutoSync
pub mod Workers
pub mod Marks
pub mod Progress
pub mod Navigation
pub mod Outbox
pub mod Preferences
