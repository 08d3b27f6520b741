-- ===== src/Languages/Catalogue.antt =====
-- web/src/lib/languages.ts: the catalogue of the picker.
use haste_server.Prelude.{String, List, [], ◌∷◌, Option, none, some}

pub record CatalogueEntry : Type 0 where
  pub id : String
  pub label : String
  pub aliases : Option String

abbrev entry : String → String → Option String → CatalogueEntry
entry id label aliases = record { id = id; label = label; aliases = aliases }

unfoldable pub catalogue : List CatalogueEntry
catalogue =
    entry "text" "Plain text" (some "txt plain none")
    ∷ entry "log" "Log" (some "logs syslog output")
    ∷ entry "diff" "Diff" (some "patch git")
    ∷ entry "apache" "Apache" none
    ∷ entry "asm" "Assembly" (some "asm x86")
    ∷ entry "astro" "Astro" none
    ∷ entry "awk" "AWK" none
    ∷ entry "bash" "Bash" (some "sh shell zsh")
    ∷ entry "c" "C" none
    ∷ entry "clojure" "Clojure" (some "clj")
    ∷ entry "cmake" "CMake" none
    ∷ entry "cpp" "C++" (some "cplusplus cxx")
    ∷ entry "crystal" "Crystal" none
    ∷ entry "csharp" "C#" (some "csharp dotnet")
    ∷ entry "css" "CSS" none
    ∷ entry "csv" "CSV" none
    ∷ entry "d" "D" none
    ∷ entry "dart" "Dart" (some "flutter")
    ∷ entry "docker" "Dockerfile" (some "docker container")
    ∷ entry "dotenv" "dotenv" (some "env environment")
    ∷ entry "elixir" "Elixir" (some "ex phoenix")
    ∷ entry "elm" "Elm" none
    ∷ entry "erlang" "Erlang" (some "erl")
    ∷ entry "fsharp" "F#" (some "fsharp dotnet")
    ∷ entry "gleam" "Gleam" none
    ∷ entry "go" "Go" (some "golang")
    ∷ entry "graphql" "GraphQL" (some "gql")
    ∷ entry "groovy" "Groovy" (some "gradle")
    ∷ entry "haskell" "Haskell" (some "hs")
    ∷ entry "hcl" "HCL" none
    ∷ entry "html" "HTML" none
    ∷ entry "http" "HTTP" (some "request headers")
    ∷ entry "ini" "INI" none
    ∷ entry "java" "Java" none
    ∷ entry "javascript" "JavaScript" (some "js node")
    ∷ entry "json" "JSON" none
    ∷ entry "json5" "JSON5" none
    ∷ entry "jsonc" "JSON with comments" (some "jsonc")
    ∷ entry "jsx" "JSX" (some "react")
    ∷ entry "julia" "Julia" none
    ∷ entry "kotlin" "Kotlin" (some "kt android")
    ∷ entry "latex" "LaTeX" (some "tex")
    ∷ entry "less" "Less" none
    ∷ entry "lisp" "Lisp" none
    ∷ entry "lua" "Lua" none
    ∷ entry "make" "Makefile" (some "make")
    ∷ entry "markdown" "Markdown" (some "md")
    ∷ entry "nginx" "Nginx" none
    ∷ entry "nim" "Nim" none
    ∷ entry "objective-c" "Objective-C" (some "objc")
    ∷ entry "ocaml" "OCaml" none
    ∷ entry "pascal" "Pascal" (some "delphi")
    ∷ entry "perl" "Perl" (some "pl")
    ∷ entry "php" "PHP" none
    ∷ entry "powershell" "PowerShell" (some "ps1 pwsh")
    ∷ entry "prisma" "Prisma" none
    ∷ entry "properties" "Properties" none
    ∷ entry "proto" "Protobuf" (some "protobuf grpc")
    ∷ entry "python" "Python" (some "py")
    ∷ entry "r" "R" none
    ∷ entry "racket" "Racket" none
    ∷ entry "regex" "Regex" (some "regexp pattern")
    ∷ entry "ruby" "Ruby" (some "rb rails")
    ∷ entry "rust" "Rust" (some "rs cargo")
    ∷ entry "scala" "Scala" none
    ∷ entry "scheme" "Scheme" none
    ∷ entry "scss" "SCSS" (some "sass")
    ∷ entry "shellsession" "Shell session" (some "console terminal")
    ∷ entry "solidity" "Solidity" (some "sol ethereum")
    ∷ entry "sql" "SQL" (some "postgres mysql sqlite")
    ∷ entry "svelte" "Svelte" none
    ∷ entry "swift" "Swift" (some "ios")
    ∷ entry "tcl" "Tcl" none
    ∷ entry "terraform" "Terraform" (some "tf")
    ∷ entry "toml" "TOML" none
    ∷ entry "tsx" "TSX" (some "react typescript")
    ∷ entry "typescript" "TypeScript" (some "ts")
    ∷ entry "v" "V" none
    ∷ entry "verilog" "Verilog" none
    ∷ entry "vim" "Vim script" (some "vimscript")
    ∷ entry "vue" "Vue" none
    ∷ entry "wasm" "WebAssembly" (some "wasm wat")
    ∷ entry "xml" "XML" none
    ∷ entry "yaml" "YAML" (some "yml")
    ∷ entry "zig" "Zig" none
    ∷ []
