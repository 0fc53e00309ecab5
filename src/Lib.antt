-- ===== src/Lib.antt =====
-- Verification of the web client of the Charge Console, the TypeScript code under frontend/.
--
-- The client talks to the server with `request` (frontend/lib/http.ts). Four React providers keep
-- its state: who is signed in, the piles and the event stream, the notifications, and the idle
-- reminders. The notification provider listens on the stream that the dashboard provider keeps.
-- Pure modules next to them word and filter what is shown, route pages, and write the address.
--
-- Http: frontend/lib/http.ts. `Settled` is how a promise ends; every component uses it.
-- Auth: frontend/lib/auth-context.tsx.
-- Dashboard: frontend/lib/dashboard-context.tsx. Store has the snapshot and its requests, Stream the
--   event source and the listeners, Events all that can happen to the store.
-- Notifications: frontend/lib/notification-context.tsx (Store, Actions, Permission, Stream, Events),
--   frontend/lib/notification-semantics.ts (Semantics) and frontend/lib/notification-time.ts (Quiet).
-- Watch: frontend/lib/watch-context.tsx (Store, Rules) and frontend/lib/watch-format.ts (Format,
--   Estimates), with the window test of frontend/components/watch-rule-dialog.tsx (Window).
-- Banner, Feedback: frontend/lib/feedback-banner.ts and frontend/lib/feedback.ts.
-- Routing: frontend/lib/routing.ts.
-- Workbench: frontend/lib/workbench.ts, dashboard-filters.ts and dashboard-query.ts.
-- Session: frontend/components/workbench/dashboard-session.tsx, which loads the workbench and decides
--   when the stream is connected; what it asks of the providers and the router is a list of effects.
-- Cards: the comparison of piles in frontend/components/pile-card.tsx.
-- Requests: frontend/lib/admin-api.ts, history-api.ts, watch-api.ts and wxpusher-api.ts. A function is the
--   request that it hands to `request`; Filename is the name of an exported file.
-- Binding: frontend/components/yyb-binding-flow.tsx, which binds an account by a QR code.
-- Channel: frontend/components/wxpusher-channel-card.tsx. Binding has the code and its poll, Settings the
--   switches and test messages, Refresh the effect that reads the channel again, Texts the texts.
-- SignIn: frontend/components/auth-form.tsx.
-- Piles: frontend/components/workbench/dashboard-workbench.tsx, with the order of the piles (Order) and the
--   one that is shown (Detail).
-- AddPile: frontend/components/add-pile-dialog.tsx.
-- Announcements: frontend/components/announcement-strip.tsx, and announcement-reader.tsx (Reader).
-- Admin: frontend/components/admin-users.tsx and admin-user-diagnostics.tsx (Users),
--   admin-health-status.tsx (Health), admin-incident-panel.tsx (Incidents), the address of
--   workbench/admin-users-page.tsx (Directory), and useRemote of workbench/admin-system-pages.tsx (Remote).
-- Account: the platform connection of frontend/components/workbench/account-workbench.tsx, and
--   frontend/components/manual-cookie-form.tsx (Cookie).
-- Inbox: frontend/components/workbench/notifications-page.tsx.
-- Watch.Page: frontend/components/workbench/reminders-page.tsx. Watch.Sheet:
--   frontend/components/watch-management-sheet.tsx.
-- Prototype: frontend/app/prototype, the preview with data of its own. Model has the types of model.ts,
--   Fixtures, Samples and Seed its sample data, Store, App and Events the provider of context.tsx and all
--   that can happen to it. A recipe that a page hands to `commit` is a value (Change, Recipes, Plays) with
--   the function that applies it; Checks, Buttons, Forms and Answers are the handlers that ask for one, and
--   Listing and Routes the lists and addresses. In the provider the data stand for their text (Storage);
--   Store has the text, where JSON is not modelled: `parse` gives data or none.
-- History: the durations and the loads of frontend/components/device-history-sheet.tsx.
-- Types, Api: frontend/lib/types.ts and the parts of frontend/lib/api/generated.ts that are used.
-- The other modules prove, and the modules named Tests run the code on small inputs.
--
-- A provider's React state and its refs are one record, since all of them change in callbacks that
-- run one at a time. A callback that awaits the server is two functions: `x_begin` up to the request,
-- and `x_settle` from the reply, on the state of that moment; an event of each lets replies come in
-- any order. What a callback read from the render that made it is an argument of its own. Function
-- names are those of the source, in snake case. A component's requests, messages and calls of others are
-- the effects of its functions, and `run_of` (Prelude/Runs) runs its events in order. The pages use the
-- providers' data as arguments, and the providers' replies as events.
--
-- Numbers that the source keeps whole and not negative are natural; times before the epoch are ℤ.
-- No arithmetic of the code leaves the whole numbers that JavaScript holds exactly, so no width is
-- written out. The one fuel is that of `decimal`, n + 1 rounds for n, since each divides by ten.
-- `undefined`, `null` and NaN are `none`. An array sort is a stable insertion sort.
--
-- Parameters: Date.parse, Intl.DateTimeFormat, localeCompare, lower case, encodeURIComponent, and the
-- parser and printer of URLSearchParams belong to the host, and JSON and toISOString with them.
--
-- Not modelled: rendering, the delays of timers, request headers, texts that print host dates, trendsCSV's
-- own fetch, frontend/lib/announcements.ts, the other parts of frontend/components and frontend/app, and
-- the server under backend/.
pub mod Prelude
pub mod Routing
pub mod Api
pub mod Http
pub mod Auth
pub mod Notifications
pub mod Types
pub mod Dashboard
pub mod Prototype
pub mod Workbench
pub mod Watch
pub mod Banner
pub mod Feedback
pub mod Session
pub mod Cards
pub mod Account
pub mod AddPile
pub mod Admin
pub mod Announcements
pub mod Binding
pub mod Channel
pub mod Piles
pub mod Inbox
pub mod History
pub mod Requests
pub mod SignIn
