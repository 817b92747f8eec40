-- ===== src/Lib.antt =====
-- multi-job runs automation jobs: services in Python (app/) that schedule and run them, and two web
-- clients in TypeScript, ui/ (Next.js) and ui-simple/ (Vite). This library models the clients: what
-- they keep, what they compute of the server's answers, and what they send.
--
-- The parts, and where they are:
--   Js          what the clients use of JavaScript: trim, split, sort, numbers, String(number),
--               toLowerCase, encodeURIComponent, URLSearchParams, the values of JSON, and objects that
--               are used as dictionaries.
--   Api         ui/src/lib/api.ts. Session and Headers: getStoredApiToken, resolveApiToken,
--               setApiAuthToken, buildAuthHeaders, buildHeaders, buildTriggerHeaders. Http: getJson,
--               send, handleApiError and the try block around them. Query: the query strings. Jobs,
--               Experiments, Triggers, Skills, Integrations, System, Approvals, Office: one definition
--               per call. Health: checkHealth, getQueueMetrics, getSystemMetrics. Firing:
--               fireTriggerWebhook and the five beside it.
--   Automation  ui/src/app/automation/page.tsx. Prefix: normalisasiPrefixPerintah. Request, Form:
--               AgentWorkflowAutomationRequest, the cells of the form, simpanJobOtomatis. Templates,
--               Presets: TEMPLATE_JALUR_INTI, the buttons that fill the form. Lanes:
--               hitungRingkasanJalur. Batch: siapkanTigaJalurIntiSekaligus and buatPaketSaas.
--   Jobs        ui/src/app/jobs/page.tsx. Paging: filters, pages, the request. Stats: formatJadwal and
--               the statistics. Versions: muatVersiJob, togglePanelVersi, bukaDetailSpecVersiAktif,
--               toggleDetailSpecVersi, rollbackVersiJob.
--   Runs        ui/src/app/runs/page.tsx: the statistics, the filters, the detail.
--   Sse         ui-simple/src/lib/sse.ts: useSSE as a machine with a step per event.
--   Saving      a loop that saves a list of rows on a server, for the settings and the batch buttons.
--   Settings    ui/src/app/settings/page.tsx. Numbers, Providers: the rows of providers and accounts.
--               Bulk: the buttons that add, change and save many Telegram accounts (Range, Targets,
--               Jobs, Saving). Telegram, Mcp, Catalog, Integration: their forms and requests.
--               JsonForms: the cells that hold JSON. Handlers: save and delete. Events, Dashboard: the
--               table of events and the numbers at the top.
--   Skills      ui/src/app/skills/page.tsx. Form, Mutations: the form, what a skill fills it with and
--               what it sends, saving, synchronising, deleting. Lists: filters, statistics, counts.
--   SimpleApi   ui-simple/src/lib/api.ts: the stored base address and refresh interval, the calls.
--   Connectors  ui/src/app/connectors/page.tsx: the filters; Approvals: rows and statistics; Triggers:
--               the form of a trigger, saving, deleting; Firing: fireMutation.
--
-- How they interact: a page keeps its cells in a record, its handlers are functions on that record,
-- and where a handler calls the server the answer is an argument or the server is a state that is
-- passed on (Saving). A call of Api is a request and what becomes of each possible answer.
--
-- The outside: fetch, the server, localStorage, the clock, confirm dialogs, toLowerCase, includes,
-- localeCompare, Number, JSON.parse and JSON.stringify are parameters or arguments.
-- Where a theorem needs something of toLowerCase, it is a hypothesis (Js/LowerCase), which a concrete
-- function fulfils; the same holds for a server that gives the part of a list that is asked for
-- (Jobs/Paging/Walk).
--
-- Numbers: a JavaScript number is NaN, a natural number or a negative integer; fractions are left out
-- (Runs/Stats says why its quotients are exact), and integers are exact, as up to 2 ^ 53. Texts are
-- sequences of characters. An object that is used as a dictionary is an association list; the names
-- of the members of Object.prototype are not told apart.
--
-- Fuel: Jobs/Paging/Walk bounds the number of pages that are visited, and its theorem says how many
-- are enough. Settings/Bulk looks for a free number with one round per row and one more, and a theorem
-- says that this is enough. Js/Number prints a number with as many digits as its value, which is
-- enough. Every other recursion is on the data.
--
-- Not modelled: the markup, the query cache, console output, dates, the rest of the automation page,
-- on the page of the connections the decision of an approval and the preview of its payload, the
-- pages of experiments, prompt, agents, team, armory, office and home, the pages of ui-simple, and
-- the services in Python. Except in Jobs/Versions, whose requests may overlap, a handler that waits
-- for the server is one step with its answer, so that requests of it that overlap are not modelled.
pub mod Prelude
pub mod Js
pub mod Api
pub mod Saving
pub mod Automation
pub mod Sse
pub mod Jobs
pub mod Runs
pub mod Settings
pub mod Skills
pub mod SimpleApi
pub mod Connectors
