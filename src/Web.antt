-- ===== src/Web.antt =====
-- The web application (frontend/): the logic behind its pages.
pub mod ApplicationsUrl
pub mod ApplicationsPage
pub mod CommandRegistry
pub mod NavCounts
pub mod Middleware
pub mod Connect
pub mod ChatMessages
pub mod Inbox
pub mod FormDrafts
pub mod Toaster
pub mod QaMemory
pub mod QuestionCard
pub mod RealtimeBridge
pub mod WorkerBar
pub mod ApiClient
pub mod ActivityCalendar
pub mod Vacancies
pub mod DraftCard
pub mod FiltersDrawer
pub mod Onboarding
pub mod FormDraftCard
pub mod ChatsPage
pub mod Collections
pub mod Notifications
pub mod CaptchaModal
pub mod CommandPalette
pub mod TodayResults
mod Examples
