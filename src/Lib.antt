-- ===== src/Lib.antt =====
-- The administration interface of PB Launcher (ui/src): the logic by which it computes what it
-- shows and by which it calls the launcher's API.
--
-- Parts and files:
--
--   - Prelude: Boolean tests, lists, texts and signed integers over the native numbers, and the
--     lemmas on them. A text is the list of its UTF-16 code units.
--   - Url: ui/src/utils/url.ts (`joinUrls`, `formatUrl`, `extractParts`). Every call of the API
--     builds its address with `joinUrls`.
--   - Uptime: ui/src/utils/uptime.ts (`calculateUptimeForLogs`). The loop over the logs is the
--     recursion `sweep` over the record of the loop's variables; `Uptime/Measure` defines, apart
--     from the code, which milliseconds of a period are active.
--   - Tree: the file tree of ui/src/pages/internal/FilesPage.tsx (`togglePath`, `isPathVisible`,
--     `getFileName`, `indentFor`). The set of open folders is the list of its members in order
--     of insertion.
--   - Http: the request, the response and the errors that the services under ui/src/services
--     share. `fetch` is a parameter of each operation, a function from requests to responses
--     with `none` for a rejection, and the JSON body of a response is `none` where
--     `response.json()` rejects.
--   - Services: ui/src/services/files.ts, hooks.ts, backup.ts, and the calls of `fetch` of
--     auth.ts, cli.ts, config.ts, status.ts, repositories.ts and services.ts. An operation is a
--     function from its arguments to the value it resolves with or the error it throws, in do
--     blocks that follow the awaits of the source. `encodeURIComponent` is a parameter, a total
--     function: that it throws on a lone surrogate is left out.
--   - Collections: the reads and writes of ui/src/services/services.ts, services_domain.ts and
--     release.ts through the SDK of PocketBase. The SDK is a record of functions, one for each
--     call at each type; `Collections/Answers` states what it is documented to answer for the
--     filters that the code writes, to requests whose options `expand` and `fields` name what is
--     read, and `Examples/Database` has one that does.
--   - Access: `getServiceUrls` of ui/src/hooks/useServiceUrls.ts.
--   - Versions: `compareVersions` and the lists of releases of
--     ui/src/pages/internal/forms/ChangeVersionForm.tsx and ServiceForm.tsx.
--   - Limits: the resource profiles, the default values, the effect on the source and the
--     submission of ui/src/pages/internal/forms/ServiceForm.tsx. The values of the form are
--     those that pass its schema. `Limits/Creation` is the mutation that creates a service and
--     then its administrator, `Limits/Slug` the name as it is rewritten while it is typed.
--   - Bulk: the ticked files of ui/src/pages/internal/FilesPage.tsx (`handleBulkDownload`,
--     `bulkDeleteMutation`), and in `Bulk/Section` those of
--     ui/src/pages/internal/details_section/FileManagerSection.tsx.
--   - Editor: the editor of ui/src/pages/internal/FilesPage.tsx. The two effects run in
--     `settle`, in the order in which the source declares them; which of the two texts, that of
--     the click or that of now, `onSuccess` of a save reads is a parameter, `seen`.
--     `Editor/Section` is the editor of
--     ui/src/pages/internal/details_section/FileManagerSection.tsx.
--   - Dialogs: the forms for new files, new folders, renaming and uploading (NewFileModal.tsx,
--     NewFolderModal.tsx, RenameModal.tsx and UploadFilesModal.tsx of
--     ui/src/pages/internal/components), `getErrorMessage` of ui/src/utils/errors.ts, in
--     `Dialogs/Upload` the list of files of UploadFilesModal.tsx, and in `Dialogs/Stack` the
--     modals of ui/src/components/modal/ModalProvider.tsx. A submission is a function from the
--     texts of the form to what its mutation comes to.
--   - Console: ui/src/pages/internal/components/CLIConsoleModal.tsx, as a state machine of
--     typing, submitting and answers.
--   - Routes: the table of routes of ui/src/routes/AppRoutes.tsx and the redirects that follow
--     from it.
--   - Domains: the domains of a service in
--     ui/src/pages/internal/details_section/DomainsSection.tsx, the card of
--     ui/src/pages/internal/components/DomainCard.tsx and the submission of
--     ui/src/pages/internal/forms/DomainForm.tsx. `toLowerCase` is a parameter.
--   - Preview: the effect of ui/src/pages/internal/FilesPage.tsx that downloads the selected
--     image and shows it by an object URL, over clicks and answers in any order. The files are
--     those of one service, so the selection is a path, without the id of the service.
--   - Cards: which buttons ui/src/pages/internal/components/ServiceCard.tsx, GeneralSection.tsx
--     and SnapshotsSection.tsx of ui/src/pages/internal/details_section offer for the status of
--     a service, and the filters of ui/src/pages/internal/ServicesPage.tsx.
--   - Snapshots: `formatSize` and the default name of
--     ui/src/pages/internal/details_section/SnapshotsSection.tsx.
--   - Validation: the schemas of ui/src/utils/validation.ts as the chains of calls that build
--     them. yup is a parameter; `IsDocumented` of `Validation/Checked` says what its
--     documentation does of a field that holds a text.
--   - Repositories: the form of ui/src/pages/internal/forms/RepositoryForm.tsx, with the records
--     of ui/src/services/repositories.ts, and the buttons of
--     ui/src/pages/internal/SettingsPage.tsx. The retention is a whole number.
--   - Session: `useSession` of ui/src/hooks/useSession.ts, over the changes of the store and the
--     timers.
--   - Ranking: the services by their active hours in ui/src/pages/internal/UptimePage.tsx. The
--     hours are whole numbers of some unit.
--   - Forms: the forms that ask for the name of a snapshot or an instance (SnapshotNameForm.tsx,
--     RestoreBackupForm.tsx and CloneServiceForm.tsx of ui/src/pages/internal/forms) and for a
--     password (ChangePasswordModal.tsx of ui/src/pages/internal/components).
--   - Status: the text of a time and the colours of ui/src/pages/internal/StatusPage.tsx.
--   - Logs: `mergeLogsUnique` and `LogsView` of
--     ui/src/pages/internal/details_section/ServiceLogsSection.tsx. The effect and its loop are
--     the function `next` on events, each the arrival of an answer or an act of the user, and
--     `run` is any sequence of them. `Logs/Export` is the file that `handleExport` writes.
--   - Confirm: `ConfirmModalProvider` of ui/src/hooks/confirm-modal/provider.tsx with the
--     handlers of ui/src/hooks/useServiceActions.tsx and `executeCommand` of
--     ServiceLogsSection.tsx, as a state machine of clicks. An awaited promise and what its
--     handler does behind it are one value of the state.
--   - Operations: ui/src/pages/internal/OperationsPage.tsx, the filters and the pages of the
--     history, the filters that `fetchOperationLogs` and `fetchAllOperationLogs` send, and in
--     `Operations/Section` the filters of
--     ui/src/pages/internal/details_section/OperationHistorySection.tsx. `toLowerCase` is a
--     parameter.
--   - Examples: the theorems applied at concrete values.
--
-- Bounds: all recursion is structural; `render` of Routes follows redirects on fuel, of which
-- one is enough for every location (`render_settles`). Times are integers of milliseconds and
-- percentages are exact fractions, where the source has floating-point numbers that represent
-- the same integers exactly below 2^53.
--
-- Not modelled: the back end in Go, which stands behind `fetch`; React, React Query, the router,
-- the SDK of PocketBase and the DOM; yup, of which only documented answers are assumed; the
-- markup of the pages; abort signals and the rate at which uploads progress.
pub mod Prelude
pub mod Url
pub mod Uptime
pub mod Tree
pub mod Http
pub mod Services
pub mod Collections
pub mod Access
pub mod Versions
pub mod Limits
pub mod Bulk
pub mod Logs
pub mod Confirm
pub mod Operations
pub mod Editor
pub mod Dialogs
pub mod Console
pub mod Routes
pub mod Status
pub mod Domains
pub mod Preview
pub mod Cards
pub mod Snapshots
pub mod Validation
pub mod Repositories
pub mod Session
pub mod Ranking
pub mod Forms
pub mod Examples
