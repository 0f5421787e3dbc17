-- ===== src/Lib.antt =====
-- The web client of a server monitor: internal/site/src, a TypeScript program in which stores of
-- records are kept in step with a PocketBase server and read by the pages. The paths of files
-- below, with their ending, are under internal/site/src.
--
-- Prelude passes on the libraries' names, with tests on numbers and lists over native numbers. Dict
-- is JavaScript's Map with text keys. Store is the interface of the map stores of nanostores, which
-- the source only calls: its laws are what the source relies on, and Store.Assoc meets them.
--
-- Systems models lib/systemsManager.ts with the stores of lib/stores.ts that it writes: State has a
-- field for each store, and each exported function is a function of the state. Its children hold
-- the effect of each write (Writes, Effects), the agreement of the stores (Sync), the store by name
-- (Names), a session as a list of events against a plain directory (Directory), what the page shows
-- of the stores (Display), and logOut of lib/api.ts (Logout).
--
-- Alerts models the alert manager of lib/alerts.ts: the store of alerts, the batch of realtime
-- messages and its timer, with time as an argument of each step. Its children hold the laws of add
-- and remove (Lookup), the flush of a batch (Batch) and schedules of messages and passing time
-- (Schedule).
--
-- Toasts models components/ui/use-toast.ts: the store of toasts, the ids and the timers that take
-- dismissed toasts away, as a step function over events with times. Its children relate toasts and
-- timers (Timers), follow sessions (Session), and tell how toasts go away (Removal) and what stays
-- on the page (Shown).
--
-- Settings models the settings and the links in lib/api.ts, with saveSettings of
-- components/routes/settings/layout.tsx: the stores, the local storage and the row that the server
-- has. Its children hold the move of local links to the server (Migration, Unique) and saves one
-- after another (Saving) or at once (Turns).
--
-- SystemPage models components/routes/system.tsx: the chart time with the effects that depend on it
-- (Period, with Sources and Resets), the answers to the realtime subscription (Realtime), the
-- filter bar (FilterBar), the GPU flags (Gpus), the points of the throughput charts (Series), the
-- bound of a fetch in lib/api.ts (Timestamps), the gaps of the history (Gaps, Repeats), the merge
-- of fetched records with the cached ones (History), the cached time data of charts (TimeData) and
-- the keyboard navigation (Navigation). Cache follows the cached records through fetches that come
-- one after another (Fetches) or at once (Overlap).
--
-- QuickLinks models components/quick-links.tsx: the list of links, their groups and what the
-- dialogs do to it (Edit), what a move leaves as it is (Move) and what it does to the link's own
-- category (Order).
--
-- QuietHours models components/routes/settings/quiet-hours.tsx: the list that realtime events keep
-- (Subscription), whether a window is open (Windows), and the dialog that edits one (Dialog), over
-- the time zone of the browser.
--
-- Tables models how components/containers-table/containers-table.tsx and
-- components/systemd-table/systemd-table.tsx merge answers of the server into their rows (Merge),
-- and the sheets of a container (ContainerSheet) and of a service (ServiceSheet).
--
-- Charts models the configurations of container charts in components/charts/hooks.ts: the totals
-- (Totals) and the order and colors of the containers (Colors).
--
-- Observer models lib/use-intersection-observer.ts: the states of the hook over elements and
-- notifications (Freezing).
--
-- PackageUpdates models components/package-updates-table/package-updates-table.tsx: the state with
-- what requests and answers do to it, what is shown (View) and the clicks (Steps); proofs are about
-- the selection (Selection, Holds, Invariants, Toggles) and the job (Jobs). Search and NameSet
-- stand for the text functions and the sets of the language; toLowerCase is a parameter.
--
-- SystemsTable models components/systems-table/systems-table-columns.tsx: the cells, the name
-- filter (NameFilter), the dots of disks (Indicators), the rows by status from the stores of the
-- systems manager (StatusFilter) and the menu of a system (Menu).
--
-- Alerts.Sheet models components/alerts/alerts-sheet.tsx over the debounce of Utils (Requests), and
-- Alerts.Active components/active-alerts.tsx. Disks models
-- components/routes/system/smart-table.tsx: the list and its events (Events) and the actions on a
-- row (Actions). Tables.Filters has the text filters of three tables.
--
-- AlertsHistory models components/routes/settings/alerts-history-data-table.tsx: the deletion
-- (Batches) and the export (Export). Fingerprints models
-- components/routes/settings/tokens-fingerprints.tsx, with the map of tokens (Tokens). Locale
-- models lib/i18n.ts (Choice), Router components/router.tsx (Paths).
--
-- FleetActions models components/update-agents-button.tsx: the results that are told (Results) and
-- the actions under way (Running).
--
-- Startup models the effect of App in main.tsx: the systems that the page knows (Sessions) and what
-- it is subscribed to (Subscriptions, Endings).
--
-- AddSystem models the dialog of components/add-system.tsx, with the tokens of the systems that are
-- added (Tokens).
--
-- Login models components/login/auth-form.tsx: the checks and the submission of the form
-- (Submission) and the single sign-on with the flag of logOut (Oauth).
--
-- Utils models helpers of lib/utils.ts, one child for each group: Width, Duration, Sizes, Meter,
-- Timers and Versions.
--
-- Loops of the source are recursions on the list that they walk, so no fuel is needed; the search
-- for the next link of a category counts down the rounds that are left.
--
-- Numbers of the source that are not integers are scaled: widths of texts are in tenths of a
-- column, values of alerts in tenths; an amount of bytes is a fraction. Records have the fields
-- that the modelled code reads.
--
-- Not modelled: the React components' markup and the drawing of charts, which are views of what is
-- modelled; translations; the network client; the forms that send their fields as they are (general
-- settings, notifications, passwords), the editing of external links; and the Go programs of the
-- repository, which are other parts of it than the web client. The tables' sorting and paging and
-- the map stores are third-party code: the second is a parameter, the first is not needed.
pub mod Prelude
pub mod Store
pub mod Dict
pub mod Utils
pub mod Systems
pub mod Alerts
pub mod Toasts
pub mod Settings
pub mod SystemPage
pub mod QuickLinks
pub mod QuietHours
pub mod Tables
pub mod Charts
pub mod Observer
pub mod Search
pub mod NameSet
pub mod PackageUpdates
pub mod SystemsTable
pub mod Disks
pub mod Locale
pub mod Router
pub mod AlertsHistory
pub mod Fingerprints
pub mod FleetActions
pub mod Login
pub mod AddSystem
pub mod Startup
