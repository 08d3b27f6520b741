-- ===== src/Languages/Detection/Corpus.antt =====
-- The corpus of web/src/lib/languages.test.ts: what the detector takes each of its texts for.
use haste_server.Prelude.{◌≡◌, refl, true, List, [], ◌∷◌, String, all}
use haste_server.Text.{codes, text_eq, is_space, trim, split}
use haste_server.Regex.{run, test}
use haste_server.Regex.Parser.{regex}
use haste_server.Languages.Conditions.{holds}
use haste_server.Languages.Content.{is_dart, is_json, is_log, is_yaml, is_csv}
use haste_server.Languages.Rules.{rules}
use haste_server.Languages.Detection.{detect_language}

-- Every text of the list is taken for this language.
abbrev AllDetected : String → List String → Type 0
AllDetected id texts = all (λ text. text_eq (detect_language (codes text)) (codes id)) texts ≡ true

dart_texts : AllDetected "dart" (
    "import 'package:flutter/material.dart';\n\nclass Greeting extends StatelessWidget {\n  const Greeting({super.key, required this.name});\n  final String name;\n\n  @override\n  Widget build(BuildContext context) => Text('Hello, $name');\n}"
    ∷ "void main() {\n  final items = <String>['a', 'b', 'c'];\n  for (final item in items) {\n    print('item: $item');\n  }\n}"
    ∷ "Future<List<User>> fetchUsers() async {\n  final response = await http.get(Uri.parse('https://api.example.com/users'));\n  return (jsonDecode(response.body) as List).map((e) => User.fromJson(e)).toList();\n}"
    ∷ "class _CounterState extends State<Counter> {\n  int _count = 0;\n\n  void _increment() {\n    setState(() {\n      _count++;\n    });\n  }\n}"
    ∷ "abstract class Shape {\n  double get area;\n}\n\nclass Circle implements Shape {\n  Circle(this.radius);\n  final double radius;\n\n  @override\n  double get area => 3.14 * radius * radius;\n}"
    ∷ [])
unfolding detect_language trim is_space rules holds regex test run is_dart is_json is_log is_yaml
    is_csv split
dart_texts = refl

java_texts : AllDetected "java" (
    "public class Service {\n    @Override\n    public String toString() {\n        return \"Service\";\n    }\n}"
    ∷ "public class Repo {\n    private final Map<String, User> cache = new HashMap<>();\n\n    public Future<User> findAsync(String id) {\n        return executor.submit(() -> cache.get(id));\n    }\n}"
    ∷ [])
unfolding detect_language trim is_space rules holds regex test run is_dart is_json is_log is_yaml
    is_csv split
java_texts = refl

csharp_texts : AllDetected "csharp" (
    "using System.Threading.Tasks;\n\nnamespace App {\n    public class Client {\n        public async Task<string> GetAsync(string url) {\n            var response = await _http.GetAsync(url);\n            return await response.Content.ReadAsStringAsync();\n        }\n    }\n}"
    ∷ [])
unfolding detect_language trim is_space rules holds regex test run is_dart is_json is_log is_yaml
    is_csv split
csharp_texts = refl

typescript_texts : AllDetected "typescript" (
    "export async function fetchUsers(): Promise<User[]> {\n  const response = await fetch('/api/users')\n  return (await response.json()) as User[]\n}"
    ∷ [])
unfolding detect_language trim is_space rules holds regex test run is_dart is_json is_log is_yaml
    is_csv split
typescript_texts = refl

tsx_texts : AllDetected "tsx" (
    "export function Card({ title }: { title: string }) {\n  return <div className=\"card\">{title}</div>\n}"
    ∷ [])
unfolding detect_language trim is_space rules holds regex test run is_dart is_json is_log is_yaml
    is_csv split
tsx_texts = refl

jsx_texts : AllDetected "jsx" (
    "export default function App() {\n  const [n, setN] = useState(0)\n  return <button onClick={() => setN(n + 1)}>{n}</button>\n}"
    ∷ [])
unfolding detect_language trim is_space rules holds regex test run is_dart is_json is_log is_yaml
    is_csv split
jsx_texts = refl

html_texts :
    AllDetected "html" ("<div class=\"card\">\n  <h1>Title</h1>\n  <p>Some text</p>\n</div>" ∷ [])
unfolding detect_language trim is_space rules holds regex test run is_dart is_json is_log is_yaml
    is_csv split
html_texts = refl

log_texts : AllDetected "log" (
    "2024-06-01 10:00:00 INFO  slow query duration=812ms rows=1043\n2024-06-01 10:00:01 WARN  type mismatch on column id\n2024-06-01 10:00:02 ERROR mutation failed for user 42"
    ∷ [])
unfolding detect_language trim is_space rules holds regex test run is_dart is_json is_log is_yaml
    is_csv split
log_texts = refl

graphql_texts :
    AllDetected "graphql" ("query GetUser($id: ID!) {\n  user(id: $id) {\n    name\n  }\n}" ∷ [])
unfolding detect_language trim is_space rules holds regex test run is_dart is_json is_log is_yaml
    is_csv split
graphql_texts = refl

go_texts :
    AllDetected "go"
      ("package main\n\nimport \"fmt\"\n\nfunc main() {\n\tfmt.Println(\"hi\")\n}" ∷ [])
unfolding detect_language trim is_space rules holds regex test run is_dart is_json is_log is_yaml
    is_csv split
go_texts = refl

python_texts :
    AllDetected "python" ("import os\n\ndef main() -> None:\n    print(os.getcwd())" ∷ [])
unfolding detect_language trim is_space rules holds regex test run is_dart is_json is_log is_yaml
    is_csv split
python_texts = refl

rust_texts :
    AllDetected "rust" ("fn main() {\n    let mut total = 0;\n    println!(\"{}\", total);\n}" ∷ [])
unfolding detect_language trim is_space rules holds regex test run is_dart is_json is_log is_yaml
    is_csv split
rust_texts = refl

kotlin_texts :
    AllDetected "kotlin"
      ("fun main() {\n    val names = listOf(\"a\")\n    names.forEach { println(it) }\n}" ∷ [])
unfolding detect_language trim is_space rules holds regex test run is_dart is_json is_log is_yaml
    is_csv split
kotlin_texts = refl

swift_texts : AllDetected "swift" (
    "import Foundation\n\nfunc greet(name: String) -> String {\n    let out = \"hi\"\n    return out\n}"
    ∷ [])
unfolding detect_language trim is_space rules holds regex test run is_dart is_json is_log is_yaml
    is_csv split
swift_texts = refl

elixir_texts :
    AllDetected "elixir"
      ("defmodule Worker do\n  def init(state) do\n    {:ok, state}\n  end\nend" ∷ [])
unfolding detect_language trim is_space rules holds regex test run is_dart is_json is_log is_yaml
    is_csv split
elixir_texts = refl

ruby_texts : AllDetected "ruby" ("def greet(name)\n  puts \"Hello\"\nend" ∷ [])
unfolding detect_language trim is_space rules holds regex test run is_dart is_json is_log is_yaml
    is_csv split
ruby_texts = refl

php_texts : AllDetected "php" ("<?php\nfunction greet(string $n): string {\n    return $n;\n}" ∷ [])
unfolding detect_language trim is_space rules holds regex test run is_dart is_json is_log is_yaml
    is_csv split
php_texts = refl

json_texts : AllDetected "json" ("{\"id\": 1, \"name\": \"test\", \"tags\": [\"a\"]}" ∷ [])
unfolding detect_language trim is_space rules holds regex test run is_dart is_json is_log is_yaml
    is_csv split
json_texts = refl

yaml_texts :
    AllDetected "yaml" ("services:\n  web:\n    image: nginx\n    ports:\n      - \"80:80\"" ∷ [])
unfolding detect_language trim is_space rules holds regex test run is_dart is_json is_log is_yaml
    is_csv split
yaml_texts = refl

toml_texts : AllDetected "toml" ("[package]\nname = \"app\"\nversion = \"0.1.0\"" ∷ [])
unfolding detect_language trim is_space rules holds regex test run is_dart is_json is_log is_yaml
    is_csv split
toml_texts = refl

sql_texts : AllDetected "sql" ("SELECT id, name FROM users WHERE active = 1 ORDER BY id;" ∷ [])
unfolding detect_language trim is_space rules holds regex test run is_dart is_json is_log is_yaml
    is_csv split
sql_texts = refl

bash_texts :
    AllDetected "bash"
      ("#!/usr/bin/env bash\nset -euo pipefail\nfor f in *.log; do gzip \"$f\"; done" ∷ [])
unfolding detect_language trim is_space rules holds regex test run is_dart is_json is_log is_yaml
    is_csv split
bash_texts = refl

docker_texts :
    AllDetected "docker"
      ("FROM node:22-alpine\nWORKDIR /app\nRUN npm ci\nCMD [\"node\", \"x.js\"]" ∷ [])
unfolding detect_language trim is_space rules holds regex test run is_dart is_json is_log is_yaml
    is_csv split
docker_texts = refl

terraform_texts :
    AllDetected "terraform"
      ("resource \"aws_s3_bucket\" \"assets\" {\n  bucket = \"my-assets\"\n}" ∷ [])
unfolding detect_language trim is_space rules holds regex test run is_dart is_json is_log is_yaml
    is_csv split
terraform_texts = refl

diff_texts :
    AllDetected "diff" ("diff --git a/main.go b/main.go\n@@ -1,3 +1,4 @@\n package main" ∷ [])
unfolding detect_language trim is_space rules holds regex test run is_dart is_json is_log is_yaml
    is_csv split
diff_texts = refl

css_texts :
    AllDetected "css" (".card {\n  display: flex;\n  color: #333;\n  padding: 1rem;\n}" ∷ [])
unfolding detect_language trim is_space rules holds regex test run is_dart is_json is_log is_yaml
    is_csv split
css_texts = refl

text_texts : AllDetected "text" (
    "Just some ordinary prose that happens to span\na couple of lines and mentions nothing technical at all."
    ∷ [])
unfolding detect_language trim is_space rules holds regex test run is_dart is_json is_log is_yaml
    is_csv split
text_texts = refl
