-- ===== src/Lib.antt =====
-- Otclick: automatic job applications on hh.ru. This library models the TypeScript of the
-- repository: the browser extension (ext/), which fills in application forms, and the logic
-- behind the pages of the web application (frontend/).
--
-- The parts and how they interact. In a page, the content script takes a snapshot of the form,
-- fills what the facts of the resume give, asks the backend for the rest through the background
-- script, fills that too, and shows the receipt in a panel. What the user then corrects is saved as
-- questions and answers. The background script alone holds the token of the session. The web
-- application guards its pages, keeps the view of a page in its address, links the hh.ru account
-- and shows chats.
--
--   Common               lists, text as code units, decimal numbers: what the others share
--   Ext/Dom              the document interface as a record, and the walk over documents and
--                        shadow roots: ext/lib/snapshot.ts (collectRoots, findEl, deepQueryAll)
--   Ext/Snapshot         PageObserver.observe and build of ext/lib/snapshot.ts: Elements (what is
--                        visible, the type of a field), Labels, Context, Options, Picks (the loop),
--                        Observe (the record of a control)
--   Ext/Filler           FormFiller of ext/lib/snapshot.ts: Actions (the browser's side), Choices,
--                        Controls (one method per kind of control), Apply (the loop)
--   Ext/Api              ext/lib/api.ts, the pure helpers
--   Ext/DeterministicFill  ext/lib/deterministic-fill.ts
--   Ext/Edits            ext/lib/edits.ts
--   Ext/ChatStore        ext/lib/chat-store.ts
--   Ext/Panel            ext/lib/panel.ts
--   Ext/Content          ext/entrypoints/content.ts: runFill and saveEdits; Ext/ChatTurn: sendChat
--   Ext/Auth             ext/lib/auth.ts
--   Ext/Background       ext/entrypoints/background.ts, with apiFetch of ext/lib/api.ts
--   Web/ApplicationsUrl  frontend/src/lib/applications-url.ts
--   Web/CommandRegistry  frontend/src/lib/command-registry.ts
--   Web/NavCounts        frontend/src/lib/nav-counts.ts
--   Web/Middleware       frontend/src/lib/supabase/middleware.ts
--   Web/Connect          frontend/src/hooks/useHHConnect.ts
--   Web/ChatMessages     frontend/src/hooks/useChats.ts (useChatMessages)
--   Web/Inbox            frontend/src/hooks/useRecruiter.ts
--   Web/FormDrafts       frontend/src/hooks/useFormDrafts.ts
--   Web/Toaster          frontend/src/components/toaster.tsx
--   Ext/FieldValue       ext/lib/marks.ts
--   Web/ApplicationsPage  frontend/src/app/(app)/applications/page.tsx: the search input and the URL
--   Web/ChatsPage        frontend/src/app/(app)/chats/page.tsx, and useChats
--   Web/FormDraftCard    frontend/src/app/(app)/todo/page.tsx: FormDraftCard
--   Web/DraftCard        frontend/src/app/(app)/todo/page.tsx: DraftCard
--   Web/QuestionCard     frontend/src/app/(app)/todo/page.tsx: QuestionCard
--   Web/RealtimeBridge   frontend/src/app/(app)/dashboard/realtime-bridge.tsx
--   Web/TodayResults     frontend/src/app/(app)/dashboard/today-results-card.tsx: buildHours
--   Web/Collections      frontend/src/hooks/useFilters.ts and useBlacklist.ts
--   Web/FiltersDrawer    frontend/src/components/filters-drawer.tsx
--   Web/Notifications    frontend/src/components/notifications-drawer.tsx
--   Web/CaptchaModal     frontend/src/components/captcha-modal.tsx
--   Web/CommandPalette   frontend/src/components/otclick/command-palette.tsx
--   Web/Onboarding       frontend/src/components/otclick/onboarding-modal.tsx
--   Ext/Dropdowns        ext/lib/snapshot.ts: observeWithOptions, with the cache and the time budget
--   Ext/Schema           ext/lib/snapshot.ts: schemaOptions
--   Ext/SessionSync      ext/lib/session-sync.ts and ext/entrypoints/otclick-sync.content.ts
--   Web/Vacancies        frontend/src/app/(app)/vacancies/: page.tsx; Letter, the cover letter editor;
--                        Sender, the control of the queue
--   Web/ApiClient        frontend/src/lib/api.ts
--   Web/QaMemory         frontend/src/components/otclick/qa-memory.tsx
--   Web/ActivityCalendar  frontend/src/app/(app)/dashboard/activity-calendar.tsx
--   Web/WorkerBar        frontend/src/components/otclick/worker-bar.tsx
--
-- State and effects. The page at one moment is a World of the record Dom; what the filler does to
-- it is the record Actions, so that each method takes a world and gives the next. A call that awaits
-- an answer takes the answer as an argument, or is split in two at the await; answers that may come
-- at any later time are steps of a relation. An error that is thrown is a value. Text is a list of
-- UTF-16 code units.
--
-- Bounds. The walk over the roots runs on fuel for the depth of nesting, and enough of it is the
-- height of the page (Ext.Dom.Roots). The decimal digits of n are taken on fuel n + 1. Numbers
-- are exact; the code's are up to 2 ^ 53.
--
-- The walk over the chunks of a session cookie runs on fuel for one round more than there are
-- cookies (Ext.SessionSync.Chunks).
--
-- Not modelled: the collection of a page's JSON from its window (_pageJson, a parameter), rendering,
-- styles and listeners, the measurements of ext/lib/perf.ts, the requests themselves, the backend
-- (backend/, in Python), documents and infrastructure.
pub mod Common
pub mod Ext
pub mod Web
