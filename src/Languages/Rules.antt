-- ===== src/Languages/Rules.antt =====
-- web/src/lib/languages.ts: the table of rules that detection evaluates in order, and the markers of
-- Dart, JSX, TypeScript and scripts. The patterns stand in the source's own notation.
use haste_server.Prelude.{String, List, [], ◌∷◌}
use haste_server.Languages.Conditions.{Condition, both, either, lacks, code, re, re_m, re_i, re_s}
use haste_server.Languages.Content.{is_json, is_log, is_yaml, is_csv, is_dart}

pub record Rule : Type 0 where
  pub id : String
  pub test : Condition

abbrev rule : String → Condition → Rule
rule id test = record { id = id; test = test }

-- Markup that reads as JSX.
abbrev pub jsx_markers : String
jsx_markers = "className=|<\\/[A-Za-z][\\w.]*>|<[A-Z]\\w*[\\s/>]"

-- Type syntax that plain JavaScript cannot contain.
abbrev pub ts_markers : String
ts_markers =
    "\\binterface\\s+\\w+\\s*\\{|\\btype\\s+\\w+\\s*=|\\benum\\s+\\w+\\s*\\{|:\\s*(?:string|number|boolean|void|any|unknown|never)\\b|\\)\\s*:\\s*[A-Za-z_$][\\w$]*\\s*(?:<|\\[|\\{|;|=>)"

-- Anything that means the surrounding text is a script.
abbrev pub script_markers : String
script_markers = "\\b(?:function|const|let|=>|import |export )"

unfoldable pub rules : List Rule
rules =
    rule "bash" (re "^#!.*\\b(?:ba|z|k)?sh\\b")
    ∷ rule "python" (re "^#!.*\\bpython[\\d.]*\\b")
    ∷ rule "perl" (re "^#!.*\\bperl\\b")
    ∷ rule "php" (re "^\\s*<\\?php\\b")
    ∷ rule "xml" (re "^\\s*<\\?xml\\b")
    ∷ rule "html" (re_i "^\\s*<!doctype html|^\\s*<html[\\s>]")
    ∷ rule "diff" (re_m "^diff --git |^@@ -\\d+")
    ∷ rule "json" (code is_json)
    ∷ rule "log" (code is_log)
    ∷ rule "docker" (both (re_m "^FROM \\S+") (re_m "^(RUN|COPY|CMD|ENTRYPOINT|WORKDIR) "))
    ∷ rule "http"
        (re_m "^(GET|POST|PUT|PATCH|DELETE|HEAD) \\S+ HTTP\\/\\d|^HTTP\\/\\d(?:\\.\\d)? \\d{3}")
    ∷ rule "dart" (code is_dart)
    ∷ rule "go" (both (re_m "^package \\w+") (re "\\bfunc\\b"))
    ∷ rule "rust"
        (both (re "\\bfn +\\w+\\s*[(<]") (re "\\b(let mut|impl |use std::|-> +\\w+ *\\{)"))
    ∷ rule "zig" (re "\\b(const \\w+ = @import\\(|pub fn |try \\w+)")
    ∷ rule "elixir" (either (re_m "^\\s*defmodule +[A-Z]") (re "\\bdef +\\w+.*\\bdo\\b"))
    ∷ rule "erlang" (re_m "^-module\\(|^-export\\(")
    ∷ rule "haskell" (either (re_m "^\\s*module +[A-Z][\\w.]* +where") (re_m "^\\w+ +:: +.+->"))
    ∷ rule "scala" (re "\\b(object +\\w+ +extends|def +\\w+.*: +\\w+ *=|case class +\\w+)")
    ∷ rule "solidity" (either (re_m "^\\s*pragma solidity\\b") (re "\\bcontract +\\w+ *\\{"))
    ∷ rule "swift" (
        both (re "\\bfunc +\\w+\\s*\\(") (re "\\b(import (Foundation|SwiftUI|UIKit)|let +\\w+ *:)"))
    ∷ rule "kotlin" (both (re "\\bfun +\\w+\\s*\\(") (re "\\b(val|var) +\\w+"))
    ∷ rule "csharp" (either (re_m "^using +System\\b") (re "\\bnamespace +[\\w.]+\\s*[{;]"))
    ∷ rule "java" (re "\\b(public|private) +(static +)?(final +)?(class|void|String)\\b")
    ∷ rule "objective-c" (either (re_m "^\\s*#import +[<\"]") (re "\\[\\[\\w+ alloc\\] init"))
    ∷ rule "cpp" (both (re_m "^#include *<\\w+>") (re "\\b(std::|template *<|namespace )"))
    ∷ rule "c" (re_m "^#include *[<\"]")
    ∷ rule "python" (
        either (re_m "^\\s*(def|class) +\\w+.*:\\s*$")
          (re_m "^\\s*(from +[\\w.]+ +import|import) +\\w+"))
    ∷ rule "ruby" (both (re_m "^\\s*(def +\\w+.*\\n)") (re_m "^\\s*end\\s*$"))
    ∷ rule "lua" (both (re "\\blocal +\\w+ *=") (re "\\b(function|end)\\b"))
    ∷ rule "perl" (re "\\buse strict;|\\bmy +[$@%]\\w+")
    ∷ rule "r" (either (re "<- *(function\\(|c\\()") (re "\\blibrary\\(\\w+\\)"))
    ∷ rule "julia" (both (re_m "^\\s*using +[A-Z]\\w*") (re_s "\\bfunction\\b.*\\bend\\b"))
    ∷ rule "sql"
        (re_i "^\\s*(select|insert into|update|delete from|create (table|index)|alter table)\\b")
    ∷ rule "prisma" (re_m "^\\s*(model|generator|datasource) +\\w+ *\\{")
    ∷ rule "proto" (either (re_m "^\\s*syntax *= *\"proto[23]\"") (re_m "^\\s*message +\\w+ *\\{"))
    ∷ rule "graphql" (
        either (re_m "^\\s*(query|mutation|subscription|fragment)\\s+\\w+[^\\n]*\\{")
          (re "\\btype\\s+\\w+\\s*(?:implements\\s[\\w\\s&]+)?\\{"))
    ∷ rule "terraform" (re_m "^\\s*(resource|provider|variable|module) +\"[^\"]+\"")
    ∷ rule "nginx" (
        both (re_m "^\\s*(server|http|location)\\s+[^\\n]*\\{")
          (re "\\b(listen|proxy_pass|server_name)\\b"))
    ∷ rule "apache" (re_m "<VirtualHost|<Directory |^\\s*(DocumentRoot|ServerName)\\b")
    ∷ rule "make" (re_m "^[\\w.%-]+:( |$).*\\n\\t\\S")
    ∷ rule "cmake"
        (re_m "^\\s*(cmake_minimum_required|project|add_executable|target_link_libraries)\\s*\\(")
    ∷ rule "powershell"
        (re "\\$(PSVersionTable|PSScriptRoot)\\b|\\b(Write-Host|Get-ChildItem|Set-Location)\\b")
    ∷ rule "vue" (re "<template>[\\s\\S]*<\\/template>")
    ∷ rule "svelte" (both (re "<script[^>]*>[\\s\\S]*<\\/script>") (re "\\{#(if|each)\\b"))
    ∷ rule "html" (
        both (re "<\\/(?:div|span|p|body|head|table|ul|li|a|section|header|footer|h[1-6])>")
          (lacks (re script_markers)))
    ∷ rule "tsx" (both (re ts_markers) (re jsx_markers))
    ∷ rule "jsx" (both (re jsx_markers) (re script_markers))
    ∷ rule "typescript" (re ts_markers)
    ∷ rule "javascript" (re "\\b(function\\b|=>|const +\\w+ *=|require\\(|module\\.exports)")
    ∷ rule "scss" (both (re_m "^\\s*[@$][\\w-]+") (re "\\{[^}]*:[^}]*;"))
    ∷ rule "css" (
        both (re "[.#]?[\\w-]+\\s*\\{[^}]*:[^}]*;")
          (re "\\b(color|margin|padding|display|font-size)\\s*:"))
    ∷ rule "latex" (re "\\\\(documentclass|begin\\{document\\}|usepackage)\\b")
    ∷ rule "markdown" (either (re_m "^#{1,6} +\\S") (re_m "^```"))
    ∷ rule "toml" (both (re_m "^\\[[\\w.]+\\]\\s*$") (re_m "^\\w+ *= *"))
    ∷ rule "ini" (both (re_m "^\\[[^\\]]+\\]\\s*$") (re_m "^[\\w.]+ *= *"))
    ∷ rule "dotenv" (both (re_m "^[A-Z][A-Z0-9_]* *=") (lacks (re "[{};]")))
    ∷ rule "yaml" (code is_yaml)
    ∷ rule "log" (code is_log)
    ∷ rule "csv" (code is_csv)
    ∷ []
