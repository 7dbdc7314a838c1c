-- ===== src/Lib.antt =====
-- A model of jjui, a terminal interface for Jujutsu, with the theorems that make its parts correct.
--
-- The program is a bubbletea application: ui.Model (internal/ui/ui.go) keeps the revisions view, a
-- list of layers over it and a split pane beside it. A key goes to dispatch.Resolver, which asks
-- dispatch.Dispatcher for the action that the visible scopes bind to it, and resolves that action to
-- a script of the configuration or to an intent; the intent goes down the scopes of
-- internal/ui/common/scope.go until a handler consumes it. Every view draws into boxes that
-- internal/ui/layout cuts, and what changes the repository becomes the arguments of a jj command
-- (internal/jj). The output of jj log is parsed into rows of segments (internal/parser).
--
-- Files, and what they model:
--   Prelude       numbers, lists, maps and texts of Go: int as unbounded integers, a map with text
--                 keys as an association list, strings.TrimSpace, strings.Join, strconv.Itoa
--   Layout        internal/ui/layout/box.go: Box.V, Box.H (Layout/Specs), the cuts, Center and Inset
--   Condition     internal/ui/actionmeta/condition.go: ParseCondition, Condition.Matches
--   Scopes        internal/ui/common/scope.go: VisibleScopes, RouteIntent, DeriveScope
--   Bindings      internal/ui/bindings/binding.go: ValidateBindings
--   Dispatch      internal/ui/dispatch/dispatcher.go: Dispatcher; Dispatch/Resolver has resolver.go and
--                 ResolveByAction of internal/ui/actions
--   Layers        internal/ui/layers.go: screens and dialogs, openScreen, openDialog, closeTopLayer
--   ListView      internal/ui/render/list.go: ClampStartLine, ensureCursorVisible, layoutAll
--   Split         internal/ui/split/container.go, state.go: the pane, its focus, its share; Split/Areas and
--                 Split/Pane have renderer.go and the drags and drawings of container.go, Split/Handling
--                 internal/ui/split.go: handleSplitMsg, handleSplitIntent, updateSplit
--   Jj            internal/jj: file_name.go (Files), commit.go and selected_revisions.go (Selections),
--                 commands.go (Commands/Changes for what changes the repository, Commands/Queries for
--                 what looks at it)
--   Operations    internal/ui/operations: rebase, revert, duplicate, squash, new between, abandon,
--                 absorb, set parents and ace jump, a module for each, with Update, HandleIntent and
--                 Render; Operations/Runs has the events that the program sends to an operation, and
--                 Operations/Moving what those that move revisions promise
--   Search        internal/ui/common/search.go: CircularSearch, matchesQuery
--   Revisions     internal/ui/revisions/revisions.go: the rows, the cursor, the checked revisions;
--                 Revisions/Loading has the loads, Revisions/Moves navigate, Scroll and
--                 RevealRevision, Revisions/Messages the messages of the rows, Revisions/Layers the
--                 operation and the layers over it, with Scopes, Revisions/Starting the operations
--                 it starts, Revisions/Sending what it hands to them, Revisions/Intents HandleIntent
--                 and Revisions/Handling Update
--   Config        internal/config/history.go: Entries, Append, dedup, flush (Config/History)
--   Screen        internal/screen: ParseFromReader, applyParamsToStyle (Screen/Styles), BreakNewLinesIter
--   Parser        internal/parser: row_line.go and row.go (chop, AddLine), ParseRowPrefixes (Prefixes),
--                 ParseRowsStreaming and ParseRows (Streaming)
--
-- State is passed explicitly: a method with a pointer receiver returns the new record, beside its
-- result. A nil pointer, a missing key and an error are values (Option or a sum). Every loop is
-- structural recursion over its list, or over the number of the steps that it has, so nothing runs on
-- fuel but strconv.Itoa, whose fuel, the number plus one, exceeds the count of its digits.
--
-- Parameters: parser.ParseExpr, the catalog of intents that cmd/genactions generates, the table of
-- built-in actions, what the handlers of intents and the views do, the file of a history, the
-- answers of jj to the list of revisions and the texts of its rows.
-- Numbers: the sizes of the layout are unbounded where the source has int, and the weights of Fill
-- are whole; the share of the split pane is of any type with the order that float64 has without NaN.
--
-- Not modelled: drawing, styles and themes, the lua scripts, the loading of the configuration, the
-- processes of jj, and the single views (see the note of each component in the manifest).
pub mod Prelude
pub mod Layout
pub mod Condition
pub mod Scopes
pub mod Bindings
pub mod Dispatch
pub mod Layers
pub mod Split
pub mod ListView
pub mod Jj
pub mod Parser
pub mod Config
pub mod Operations
pub mod Screen
pub mod Search
pub mod Revisions
