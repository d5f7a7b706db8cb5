-- ===== src/Tests/World.antt =====
-- A small world for the concrete runs: one server "crm" with one tool, that answers or not as the
-- state says, and no cache.
use mcp_plugin.Base.Tests.{
  ℕ, Bool, true, false, Option, none, some, [], ◌∷◌, if◌then◌else◌, ok, err,
}
use mcp_plugin.Base.Text.{codes, Unicode}
use mcp_plugin.Config.Expand.{ServerConfig}
use mcp_plugin.Mcp.Types.Property.{SchemaProp}
use mcp_plugin.Mcp.Types.Tools.{InputSchema, Tool, no_tool}
use mcp_plugin.Plugin.Types.{Entry}
use mcp_plugin.Plugin.Upstream.{Upstream, Disk, Host}
use mcp_plugin.Plugin.Args.Value.{Decoders}

abbrev pub unicode : Unicode
unicode = record { lower = λ s. s; trim = λ s. s }

abbrev pub decoders : Decoders
decoders = record { parse_float = λ s. none; unmarshal = λ s. none; unicode = unicode }

abbrev pub note : SchemaProp
note = record { type = codes "string"; nullable = false; description = codes "text"; raw = [] }

abbrev pub count : SchemaProp
count = record {
  type = codes "integer";
  nullable = false;
  description = codes "how many";
  raw = [];
}

abbrev pub add_schema : InputSchema
add_schema = record {
  type = codes "object";
  properties = (codes "note", note) ∷ (codes "count", count) ∷ [];
  required = codes "note" ∷ [];
}

abbrev pub add : Tool
add = record no_tool {
  name = codes "add";
  description = codes "Adds a note.";
  input_schema = add_schema;
}

abbrev pub crm : ServerConfig
crm = record {
  server = codes "crm";
  url = codes "http://crm";
  headers = [];
  context_headers = (codes "user", codes "X-User") ∷ [];
}

abbrev pub add_entry : Option ℕ → Entry
add_entry client = record {
  client = client;
  mcp_tool_name = codes "add";
  schema = add_schema;
  cfg = crm;
}

-- The state is whether the server answers.
abbrev pub upstream : Upstream Bool
upstream = record {
  connect = λ cfg w. (if w then ok 7 else err (codes "refused"), w);
  list_tools = λ c w. (if w then ok (add ∷ []) else err (codes "refused"), w);
  is_streamable = λ c w. true;
  fallback_sse = λ c w. (if w then none else some (codes "refused"), w);
  call_tool =
      λ c name args headers w. (if w then ok (codes "added", []) else err (codes "refused"), w);
  instructions = λ c w. [];
  glossary = λ c w. [];
  knowledge_articles = λ c w. [];
  is_alive = λ c w. w;
  close = λ c w. w;
}

abbrev pub disk : Disk Bool
disk = record {
  read_file = λ dir name w. none;
  write_file = λ dir name text w. (some (codes "read-only"), w);
  mkdir_all = λ dir w. (some (codes "read-only"), w);
}

abbrev pub host : Host Bool
host = record {
  upstream = upstream;
  disk = disk;
  shape = λ s. none;
  decoders = decoders;
  encode_cached = λ server tools. err (codes "unused");
  quote = λ s. s;
}
