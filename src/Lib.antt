-- ===== src/Lib.antt =====
-- Verification of the BigFleet web dashboard: the TypeScript program under ui/src.
--
-- The dashboard is a React program. A page reads query results (the JSON of the Go backend) and
-- parameters of the URL, derives what it shows by pure functions, and writes parameters and local
-- state on the user's actions. The derivations are modelled as functions into records that hold the
-- values a component shows; class names, fixed copy and the mark-up around the values are left out.
--
-- Parts, files and what they model:
--   Api          ui/src/lib/api.ts: the interfaces of the responses, as records, and Request, how
--                a request is addressed and what it settles to (with ui/vite.config.ts and the
--                basename of ui/src/main.tsx)
--   Engine       the JavaScript engine's doubles, collation and text, as a parameter;
--                Engine/Text spells out the regular expressions and text methods that are used, and
--                Engine/Whole names the laws of whole numbers, of shares and of multiples that some
--                theorems take
--   Format       ui/src/lib/format.ts: Basic (formatDuration, formatInt, formatRate, formatPercent,
--                formatRelative), Quantity (parseQuantity and the resource formatters), Penalty
--   Ui           SearchParam (ui/src/lib/useSearchParamState.ts), Query (what a page shows of a
--                query and of the configuration), Widgets (ui/src/lib/colours.ts and StackedBar,
--                Freshness, TimeSeriesChart and GrafanaPanel of ui/src/components), Chrome
--                (ui/src/components/Layout.tsx and the routes of ui/src/App.tsx), Drawer and
--                Sparkline (the effects of the components of those names in ui/src/components),
--                Chart (ui/src/components/TimeSeriesChart.tsx)
--   Needs        ui/src/pages/needsKit.tsx and ui/src/pages/Needs.tsx: Precedence (precedes),
--                Competition (competitorsFor), Walk (buildWalk), Page (the state, its actions,
--                what is derived from it, and in Offers which actions the page offers), Kit
--                (coverage, chunkEstimate, reasonMeta and the panels), Table (the summary, the rows and the table), Report (the drawer), View
--                (what the page shows of its state and its queries)
--   Pages        ShardReports, Topology, FinOps, AvailableCapacity, Fleet (FleetOverview and
--                ShardDetail), and Clusters (ClustersList, ClusterDetail and ShardsList), each of
--                the files of those names in ui/src/pages; Boards, what the pages of
--                Topology, FinOps and Fleet show of their queries; Queries, what the pages and
--                ui/src/lib/useConfig.ts give to `useQuery`
--   Examples     the theorems on concrete data, and a run of the walk
--
-- How the source is read:
--   * A double is an element of the engine's type `Number`; the definitions take the engine as an
--     argument, and the theorems that need an order take the laws of ECMAScript's `<`.
--     Counts are natural numbers and priorities integers, which doubles hold exactly below 2^53.
--   * A record or `Map` is its list of entries, in the order in which the engine lists them; only
--     own keys are found. What an object literal inherits, which `QTY_SUFFIX[...]` finds for a unit
--     like `toString`, is left out.
--   * `Array.prototype.sort` is a stable sort by insertion, which reads a comparison only for
--     whether it is negative. ECMAScript fixes the result for a consistent comparison; those
--     of the cohorts in `buildWalk` and of `competitorsFor` never give 0, and there the model takes
--     a result that is not negative as "not before".
--   * Identity of objects, in `competitorsFor`, is a parameter: a test that holds for equal needs
--     alone. `encodeURIComponent`, the clock and the colour scheme are parameters too.
--   * The effects of the needs page, which React runs when their dependencies change, are steps
--     beside the user's actions, in any order; the data they see is an argument of the step.
--     Those of the drawer and the sparkline are steps of a commit, which are left out only where
--     the dependencies did not change; the window's listeners and the plot of `uPlot` are records
--     of what was added to and given to them.
--   * Loops are structural recursion. Only the printing of a natural number runs on fuel, one more
--     than the number, which is at least the number of its digits: Prelude/Show/Digits reads the
--     printed number back.
--
-- Not modelled: `fetch`, react-router, the cache of react-query and the virtual list, which are
-- third-party and stand as arguments or not at all; the drawing of charts; the prose of the FinOps
-- page; the components of ui/src/components that are mark-up alone; and the Go backend under pkg
-- and cmd.
pub mod Prelude
pub mod Api
pub mod Engine
pub mod Format
pub mod Ui
pub mod Needs
pub mod Pages
pub mod Examples
