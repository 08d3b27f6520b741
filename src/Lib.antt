-- ===== src/Lib.antt =====
-- The web client of haste-server, a paste service: web/src, written in TypeScript with React.
--
-- The client has an editor page, which sends a text to the server, and a paste page, which shows one
-- with its lines, its countdown and its links. Both take their words from the translations, their
-- lifetimes from the server's configuration, and their colours from the highlighter. A third page is the
-- reference of the server's API. The routes of web/src/App.tsx say which page an address is for. The server
-- itself (cmd, internal; in Go) is not modelled: its answers are arguments.
--
-- Prelude holds the shared names, Boolean tests and lists. Text models a JavaScript string as its list
-- of UTF-16 code units, with trim, split, includes and the like, decimal numerals and Number
-- (Text/Decimal), and the own and inherited properties of an object literal (Text/Objects).
--
-- Lines: web/src/lib/lines.ts. parse_line_hash is parseLineHash, format_line_hash formatLineHash,
--   select_line selectLine, clamp_range clampRange; match_hash is the regular expression HASH.
-- CodePoints: countCodePoints of web/src/lib/utils.ts. Timestamps: formatTimestamp, formatTimeOfDay and
--   describeTimestamp of the same file, over a calendar that stands for Date and Intl.
-- Clipboard: copyText of web/src/lib/clipboard.ts, on the clipboard and the children of the document;
--   what navigator.clipboard and execCommand do is an argument.
-- I18n: web/src/lib/i18n. Messages has the three dictionaries of messages.ts in full, Locales
--   detectLocale, Provider the state and the events of I18nProvider; template_of, replace and
--   translate are the translator `t`, over the texts of the properties that every object inherits, which
--   are an argument; format_count and format_count_short the counted units.
-- Storage: localStorage, as an interface whose calls may throw, with a store in memory; Storage/Shared
--   has the two settings that are kept in it.
-- Api: web/src/lib/api.ts. request takes what fetch gave: no response, or a status with what its body
--   parses to. Api/Errors is web/src/lib/i18n/errors.ts.
-- Expiry: web/src/lib/expiry.ts, formatInterval of web/src/components/expiry-picker.tsx and the tick
--   of web/src/routes/paste.tsx. Expiry/Menu is the picker of web/src/components/expiry-picker.tsx,
--   Expiry/Ticking the clock of useCountdownTick over its ticks.
-- Editor: web/src/routes/editor.tsx with the guards of web/src/components/save-dialog.tsx. A handler
--   maps a state to a state and the effects that it starts; save is split at its await into save and
--   on_created. Editor/Events is the page as a system of events, answers and requests,
--   Editor/Language the page with the detector of Languages in it, Editor/Dialog what the dialog shows
--   and Editor/View what the page shows, with modKey of web/src/lib/utils.ts.
-- Regex: the regular expressions of ECMAScript as far as the source uses them: a reader of patterns
--   (Regex/Parser) and a backtracking matcher, against a relation of what an expression accepts
--   (Regex/Matching).
-- Languages: web/src/lib/languages.ts, the search of web/src/components/language-picker.tsx and
--   web/src/hooks/use-language-label.ts. Languages/Rules is the table of detectLanguage with its
--   patterns as they are written there, Languages/Content its tests that are functions,
--   Languages/Json the grammar of JSON.parse as an automaton, Languages/Detection detectLanguage, which
--   Languages/Detection/Corpus evaluates on the texts of web/src/lib/languages.test.ts, and
--   Languages/Menu the items of web/src/components/language-picker.tsx.
-- Highlighter: web/src/lib/highlighter.ts. Whether Shiki and a grammar load are arguments;
--   Highlighter/Creating has what Shiki is made with.
-- PastePage: web/src/routes/paste.tsx and web/src/hooks/use-document-title.ts. settle is the loading
--   effect with its cleanup: `live` numbers the request that has not been cancelled, and
--   PastePage/Loading/Cancelled follows the others. PastePage/View is
--   what the page returns and PastePage/Keys the listeners of what it shows.
--   PastePage/Shortcuts has the keys and the copying.
--   PastePage/Toolbar and PastePage/StatusBar have what stands above and below the paste,
--   PastePage/Handoff the way to the page from the editor.
-- NotFound: web/src/components/not-found.tsx, with what the paste page and the catch-all route of
--   web/src/App.tsx hand to it. not_found is what is rendered, `none` where that throws.
-- CodeView: web/src/components/code-view.tsx; CodeView/Highlighting is the effect that waits for markup.
-- CodeEditor: web/src/components/code-editor.tsx, with the effect that asks for a grammar in
--   CodeEditor/Coloring and the layer once it is there in CodeEditor/Colored.
-- Theme: web/src/components/theme-provider.tsx and web/src/components/mode-toggle.tsx, whose
--   counterpart for the languages, web/src/components/locale-toggle.tsx, is in I18n/Provider/Menu.
-- SharedConfig: web/src/hooks/use-server-config.ts, whose mounted uses share one promise.
-- Docs: web/src/routes/docs.tsx. Docs has the endpoints and the path of a request, Docs/Examples
--   curlFor, Docs/Fields the fields with their limits, Docs/Ticks the spans of code in prose,
--   Docs/Trying the form that sends a request, whose requests Docs/Trying/Sending follows, Docs/Rows the
--   rows under their keys, Docs/Pages what is shown, and Docs/CopyButton a copy button with its timers.
-- App: the routes of web/src/App.tsx. App/Visits is the app as a system of the three pages' own events and of
--   navigation, App/Created and App/ShareLink the ways from a save and from a copied link to the page of
--   a paste. A path is the list of its segments, and which route it matches is a parameter, a Router, with
--   what react-router documents of that: the route fits, there is one where any fits, and none that fits
--   is more specific. The segments that the text of an address has are its parameter too: only of a code
--   of letters, digits and underscores are they said to be that code. An element of the same route is kept, and
--   `navigate` still works behind the await of a save whose editor is gone.
-- Shell: the links of the header in web/src/components/shell.tsx.
--
-- Bounds. Numbers are natural numbers; where a JavaScript number could round, a theorem asks for less
-- than 2 ^ 53, and Number rounds a numeral to a double and is none where that is infinite. The digits
-- of n are computed on fuel n + 1 and the rounding halves at most 971 times, which is enough for
-- every finite double. Instants are milliseconds from the epoch on. toLowerCase is modelled on the
-- ASCII letters and keeps any other code unit: the tags, the keys and the catalogue entries that are
-- compared hold no other capital letters, but a search that is typed may.
--
-- The rounds of a repetition are on fuel, as many as there are code units left: a round that reads
-- nothing is refused, as in ECMAScript, so there are never more. The patterns of the source use no
-- backreference and no lookaround; only whether there is a match is asked of them.
--
-- Not modelled: the markup, the toasts' rendering and the browser's events but for what the handlers
-- read of them; how react-router matches and keeps its history; the place of the toasts, which a media
-- query of the browser chooses; what Shiki makes of a text; and JSON's formatting of a response on the
-- reference page, which is an argument like fetch.
pub mod App
pub mod Shell
pub mod Prelude
pub mod Text
pub mod Lines
pub mod CodePoints
pub mod I18n
pub mod Storage
pub mod Api
pub mod Expiry
pub mod Editor
pub mod Regex
pub mod Languages
pub mod Highlighter
pub mod CodeEditor
pub mod PastePage
pub mod NotFound
pub mod CodeView
pub mod Timestamps
pub mod Clipboard
pub mod Theme
pub mod Docs
pub mod SharedConfig
