-- ===== src/Languages/Loaders.antt =====
-- web/src/lib/languages.ts: the grammars that can be loaded. A loader is the import of one module,
-- so an entry pairs the language with the last part of that module's path.
use haste_server.Prelude.{String, List, [], ◌∷◌}

unfoldable pub loader_entries : List (String × String)
loader_entries =
    ("apache", "apache")
    ∷ ("asm", "asm")
    ∷ ("astro", "astro")
    ∷ ("awk", "awk")
    ∷ ("bash", "bash")
    ∷ ("c", "c")
    ∷ ("clojure", "clojure")
    ∷ ("cmake", "cmake")
    ∷ ("cpp", "cpp")
    ∷ ("crystal", "crystal")
    ∷ ("csharp", "csharp")
    ∷ ("css", "css")
    ∷ ("csv", "csv")
    ∷ ("d", "d")
    ∷ ("dart", "dart")
    ∷ ("diff", "diff")
    ∷ ("docker", "docker")
    ∷ ("dotenv", "dotenv")
    ∷ ("elixir", "elixir")
    ∷ ("elm", "elm")
    ∷ ("erlang", "erlang")
    ∷ ("fsharp", "fsharp")
    ∷ ("gleam", "gleam")
    ∷ ("go", "go")
    ∷ ("graphql", "graphql")
    ∷ ("groovy", "groovy")
    ∷ ("haskell", "haskell")
    ∷ ("hcl", "hcl")
    ∷ ("html", "html")
    ∷ ("http", "http")
    ∷ ("ini", "ini")
    ∷ ("java", "java")
    ∷ ("javascript", "javascript")
    ∷ ("json", "json")
    ∷ ("json5", "json5")
    ∷ ("jsonc", "jsonc")
    ∷ ("jsx", "jsx")
    ∷ ("julia", "julia")
    ∷ ("kotlin", "kotlin")
    ∷ ("latex", "latex")
    ∷ ("less", "less")
    ∷ ("lisp", "lisp")
    ∷ ("log", "log")
    ∷ ("lua", "lua")
    ∷ ("make", "make")
    ∷ ("markdown", "markdown")
    ∷ ("nginx", "nginx")
    ∷ ("nim", "nim")
    ∷ ("objective-c", "objective-c")
    ∷ ("ocaml", "ocaml")
    ∷ ("pascal", "pascal")
    ∷ ("perl", "perl")
    ∷ ("php", "php")
    ∷ ("powershell", "powershell")
    ∷ ("prisma", "prisma")
    ∷ ("properties", "properties")
    ∷ ("proto", "proto")
    ∷ ("python", "python")
    ∷ ("r", "r")
    ∷ ("racket", "racket")
    ∷ ("regex", "regex")
    ∷ ("ruby", "ruby")
    ∷ ("rust", "rust")
    ∷ ("scala", "scala")
    ∷ ("scheme", "scheme")
    ∷ ("scss", "scss")
    ∷ ("shellsession", "shellsession")
    ∷ ("solidity", "solidity")
    ∷ ("sql", "sql")
    ∷ ("svelte", "svelte")
    ∷ ("swift", "swift")
    ∷ ("tcl", "tcl")
    ∷ ("terraform", "terraform")
    ∷ ("toml", "toml")
    ∷ ("tsx", "tsx")
    ∷ ("typescript", "typescript")
    ∷ ("v", "v")
    ∷ ("verilog", "verilog")
    ∷ ("vim", "vim")
    ∷ ("vue", "vue")
    ∷ ("wasm", "wasm")
    ∷ ("xml", "xml")
    ∷ ("yaml", "yaml")
    ∷ ("zig", "zig")
    ∷ []
