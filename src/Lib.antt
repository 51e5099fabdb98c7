-- ===== src/Lib.antt =====
-- The web application of nasa-cpp (web/nasa_web/static/js): a page without a framework that shows a
-- heat pump live, keeps its history in charts, and sends commands to it.
--
-- The program. The server pushes entities over a WebSocket. store.js keeps them in two maps that hold
-- the same objects, and tells its listeners of every change. app.js listens, chooses one of five views
-- by the fragment of the address, and passes the changes on to the view and to the side panel
-- (drawer.js). controls.js gives the views widgets for the entities that can be written, format.js
-- texts, and charts.js the data of the charts. api.js asks the server for history and sends commands.
--
-- The files. Paths are from the repository's root, functions have the names of the source in lower
-- case.
--   Base            lists, maps with keys in the order of insertion, Boolean tests, texts as lists of
--                   code points; Base/Number: the program's numbers; Base/Int: whole numbers, which
--                   meet the laws of Base/Number and let the definitions run; Base/Grouping: groups by
--                   key; Base/Sorting, Base/Collation: sort and localeCompare; Base/Picking: what a
--                   filter keeps
--   Entity          an entity and the status, as web/nasa_web/entities.py sends them
--   Store           web/nasa_web/static/js/store.js: the objects, the two maps as places in the list
--                   of objects, ws.onmessage, ent, val, text, fsv. Store/Names: N. Store/Coherence:
--                   what the two maps hold. Store/Lookup: what the readers find. Store/Refinement: a
--                   store of one list. Store/Connection: connect, its handlers and its delays.
--                   Store/WaterLaw: waterLawTarget, outletTarget; below it the shape of the curve and
--                   the target of a zone. Store/Heat: heatOutput, liveCop
--   Format          web/nasa_web/static/js/format.js: Escape (esc), Units (num, decimalsFor, power,
--                   energy, entityValue), Age (ago)
--   Controls        web/nasa_web/static/js/controls.js: the stepper's click, its timeouts, the answer
--                   to its command, confirmState. Timers: timeouts. Debounce, Burst, Races: which
--                   timers will send. Limits: what is sent. Fading, Settling: how the pending values
--                   end. Widget: widget. Switch: the listener of a switch
--   Charts          web/nasa_web/static/js/charts.js: Gaps (withGaps), Timeline (segments, colours,
--                   bars and legend), Lines (hidden series, legend and plot of lineChart), Bars
--                   (labels of barChart; Columns: its scale and its bars, with niceMax), Sparkline
--                   (sparkline; Bounds: where it is drawn)
--   Overview        web/nasa_web/static/js/views/overview.js: Resample (resample), Flow (renderFlow),
--                   Pills (renderPills), Kpis (renderKpis, loadHistory), Today (loadToday), Controls
--                   (renderControls; below it its key, its order, its patches and what several
--                   renderings come to), Lifecycle (mount, update and unmount, with intervals, frames,
--                   requests and commands; Tidy: what is left of them)
--   Views           the other pages of web/nasa_web/static/js/views: History (the range; Load: the
--                   fixed charts and what load asks for; Reload: the range bar and the loads over
--                   time), Custom (the picked sensors of history.js; Sensors: the list to pick from;
--                   Loads: their charts), Energy (rows; Periods: boundaries; Summary: what load
--                   draws), Settings (groups; Items: the list, valueHtml and update; Marker: one
--                   setting over time), Entities (counts; Table: render)
--   Drawer          web/nasa_web/static/js/drawer.js: openEntity, close and load. Requests, Late:
--                   which answer is shown. Figures: state totals and recent changes. Shares: the
--                   figures above the chart
--   App             web/nasa_web/static/js/app.js: route and the subscriber; Routes: the view on the
--                   page; Badge: renderConnection
--   Page            the page as a whole: what app.js does with the events of store.js, with the hash
--                   and with the side panel. Start: the first view; Truth: the badge; Panel: the open
--                   panel
--   Api             web/nasa_web/static/js/api.js: the paths of the requests, the message of a failure
--   Examples        the theorems at concrete inputs
--
-- Numbers. The program computes with doubles. The model takes a type of numbers with the operations
-- that the source uses (Base/Number), and the theorems that need it take the laws of rounded
-- arithmetic: order, monotone rounding, exact small whole numbers. They hold of doubles that are not
-- NaN and do not overflow, with the two zeros as one value. Counts, places and milliseconds of delay
-- are native natural numbers; none of them wraps. No definition takes fuel: the loops recur on lists
-- or on the rounds that are left.
--
-- Parameters. toLowerCase, String(number), toLocaleString, String.includes, localeCompare,
-- encodeURIComponent, the methods of Date, Math.pow(10, Math.floor(Math.log10(v))), the test for
-- NO_DEF and the names that every JavaScript object has come from the browser and are arguments. So
-- are the time now and the answers of the server. What a widget shows is modelled, and the text that
-- its template makes of it is an argument of renderControls, which only compares such texts.
--
-- Not modelled. The markup and the styling of the pages, the library uPlot and the options given to
-- it, tooltips, the theme switch, the printing of dates, and fetch. A lookup in an object of the
-- server's answer is one in a map. The server (Python) and the bridge to the heat pump (C++) are other
-- programs of the repository.
pub mod Base
pub mod Entity
pub mod Store
pub mod Format
pub mod Controls
pub mod Charts
pub mod Overview
pub mod Views
pub mod Drawer
pub mod App
pub mod Page
pub mod Api
pub mod Examples
