-- ===== src/Tests/Cache.antt =====
-- Runs of the cache, on a disk that holds one file.
use mcp_plugin.Base.Tests.{◌≡◌, refl, true, none, some, List, [], ◌∷◌, ok, err, if◌then◌else◌}
use mcp_plugin.Base.Text.{Text, codes, ◌==◌, has_prefix, lower_byte}
use mcp_plugin.Json.Decode.{
  Scanner, str, arr, obj, decode_struct, set_fields, is_field, fold_from, decode_list, decode_each,
  decode_string,
}
use mcp_plugin.Mcp.Types.Tools.{Tool, no_tool, set_tool_field}
use mcp_plugin.Plugin.Upstream.{Upstream, Disk, Host}
use mcp_plugin.Plugin.Registry.Fetch.{
  save_cache, load_cache, decode_cached, set_cached_field, write_cached,
}
use mcp_plugin.Plugin.Registry.Fetch.Cache.{load_cache_shared}
use mcp_plugin.Tests.World.{decoders}

-- The state is the text of the file.
abbrev silent : Upstream Text
silent = record {
  connect = λ cfg w. (err (codes "refused"), w);
  list_tools = λ c w. (err (codes "refused"), w);
  is_streamable = λ c w. true;
  fallback_sse = λ c w. (some (codes "refused"), w);
  call_tool = λ c name args headers w. (err (codes "refused"), w);
  instructions = λ c w. [];
  glossary = λ c w. [];
  knowledge_articles = λ c w. [];
  is_alive = λ c w. true;
  close = λ c w. w;
}

abbrev one_file : Disk Text
one_file = record {
  read_file = λ dir name w. some w;
  write_file = λ dir name text w. (none, text);
  mkdir_all = λ dir w. (none, w);
}

-- A scanner of the text of one cached list, and of its parts.
abbrev pub scanner : Scanner
scanner s =
    if s == codes "file"
    then some (obj ((codes "tools", codes "list") ∷ []))
    else if s == codes "list"
    then some (arr (codes "tool" ∷ []))
    else if s == codes "tool"
    then some (obj ((codes "name", codes "name") ∷ []))
    else some (str (codes "add"))

abbrev host : Host Text
host = record {
  upstream = silent;
  disk = one_file;
  shape = scanner;
  decoders = decoders;
  encode_cached = λ server tools. ok (codes "file");
  quote = λ s. s;
}

abbrev tools : List Tool
tools = record no_tool { name = codes "add" } ∷ []

decoded : decode_cached host (codes "file") ≡ tools
unfolding decode_cached decode_struct ◌==◌ set_fields set_cached_field is_field fold_from has_prefix
    lower_byte decode_list decode_each set_tool_field decode_string
decoded = refl

-- The list that was saved is loaded.
loaded :
    load_cache host
      (codes "cache")
      (codes "crm")
      (save_cache host (codes "cache") (codes "crm") tools []).1
    ≡ tools
unfolding save_cache write_cached load_cache
loaded = decoded

load_cache_shared_example :
    load_cache host (codes "cache") (codes "a/b") (codes "file")
    ≡ load_cache host (codes "cache") (codes "a_b") (codes "file")
load_cache_shared_example =
    load_cache_shared host (codes "cache") (codes "a") (codes "b") (codes "file")
