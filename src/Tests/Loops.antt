-- ===== src/Tests/Loops.antt =====
-- Runs of the background loops: servers that come up after some waits, and an environment that names
-- one server.
use mathlib.Core.Path.{subst}
use mcp_plugin.Base.Tests.{
  ℕ, zero, suc, true, ◌-◌, ◌≡◌, refl, sym, Option, none, some, List, [], ◌∷◌, arith, Result, ok,
  err,
}
use mcp_plugin.Base.Text.{Text, codes, ◌==◌, has_prefix, lower_byte}
use mcp_plugin.Json.Decode.{
  decode_struct, set_fields, is_field, fold_from, decode_list, decode_each, decode_string,
}
use mcp_plugin.Config.Expand.{ServerConfig}
use mcp_plugin.Mcp.Types.Tools.{Tool, set_tool_field}
use mcp_plugin.Plugin.Types.{Registry}
use mcp_plugin.Plugin.Upstream.{Upstream, Disk, Host}
use mcp_plugin.Plugin.Registry.Fetch.{
  fetch_tools, fetch_connected, list_or_fall_back, refresh_cache, save_cache, write_cached,
  load_cache, decode_cached, set_cached_field,
}
use mcp_plugin.Plugin.Registry.Build.{
  build, finish, add_servers, add_server, add_fetched, add_unreachable, cached_tools, add_tools,
  add_tool,
}
use mcp_plugin.Plugin.Registry.Build.Consistent.{build-IsConsistent}
use mcp_plugin.Plugin.Registry.Live.{reconnect}
use mcp_plugin.Plugin.Registry.Loops.Pending.{reconnect-IsNoWorse}
use mcp_plugin.Plugin.Registry.Loops.{retry_loop, reconnect_offline_loop}
use mcp_plugin.Plugin.Registry.Loops.Retry.{ComesUp, IsDueWithin, Exits, retry_loop-Exits}
use mcp_plugin.Plugin.Registry.Loops.Online
use mcp_plugin.Plugin.Registry.Loops.Online.{
  ComesOnline, IsAllOnline, reconnect_offline_loop-IsAllOnline,
}
use mcp_plugin.Tests.World.{crm, add, decoders}
use mcp_plugin.Tests.Cache.{scanner}

-- The state is how many waits it still takes every server to come up.
abbrev connection : ℕ → Result ℕ
connection zero = ok 7
connection (suc n) = err (codes "refused")

abbrev upstream : Upstream ℕ
upstream = record {
  connect = λ cfg w. (connection w, w);
  list_tools = λ c w. (ok (add ∷ []), w);
  is_streamable = λ c w. true;
  fallback_sse = λ c w. (none, w);
  call_tool = λ c name args headers w. (ok (codes "added", []), w);
  instructions = λ c w. [];
  glossary = λ c w. [];
  knowledge_articles = λ c w. [];
  is_alive = λ c w. true;
  close = λ c w. w;
}

abbrev disk : Disk ℕ
disk = record {
  read_file = λ dir name w. some (codes "file");
  write_file = λ dir name text w. (some (codes "read-only"), w);
  mkdir_all = λ dir w. (some (codes "read-only"), w);
}

abbrev host : Host ℕ
host = record {
  upstream = upstream;
  disk = disk;
  shape = scanner;
  decoders = decoders;
  encode_cached = λ server tools. err (codes "unused");
  quote = λ s. s;
}

fetched : (cfg : ServerConfig) (w : ℕ) → (fetch_tools upstream cfg w).1 ≡ w
unfolding fetch_tools fetch_connected list_or_fall_back
fetched cfg zero = refl
fetched cfg (suc w) = refl

saved : (dir server : Text) (tools : List Tool) (w : ℕ) → refresh_cache host dir server tools w ≡ w
unfolding refresh_cache save_cache write_cached
saved [] server tools w = refl
saved (c ∷ dir) server tools w = refl

-- A server that is due answers.
found : (cfg : ServerConfig) → (fetch_tools upstream cfg 0).0 ≡ ok (add ∷ [], 7)
unfolding fetch_tools fetch_connected list_or_fall_back
found cfg = refl

abbrev pause : ℕ → ℕ → Option ℕ
pause seconds w = some (w - 1)

abbrev coming_up : ComesUp host pause
coming_up = record {
  due = λ cfg w. w;
  answers = λ cfg w e.
      subst (λ x. (f : List Tool × ℕ) × ((fetch_tools upstream cfg x).0 ≡ ok f)) (sym e)
        ((add ∷ [], 7), found cfg);
  waits = λ seconds w. (w - 1, refl, λ cfg. omega arith);
  fetches = λ cfg c w. omega (arith, fetched c w);
  saves = λ cfg dir server tools w. omega (arith, saved dir server tools w);
}

abbrev failed : Registry
failed = (build host [] (crm ∷ []) 3).0

failed_is : failed.failed_servers ≡ crm ∷ []
unfolding build finish add_servers add_server add_fetched fetch_tools fetch_connected
    add_unreachable cached_tools
failed_is = refl

failed_due : IsDueWithin host pause coming_up 3 3 failed.failed_servers
failed_due = subst (IsDueWithin host pause coming_up 3 3) (sym failed_is) (omega arith, tt)

retry_loop-Exits_example : Exits host pause coming_up [] (retry_loop host [] pause 3 failed 3)
retry_loop-Exits_example =
    retry_loop-Exits host pause coming_up [] 2 failed 3 (λ e. absurd (cc (failed_is, e))) failed_due

-- During a wait `Execute` tries to reconnect.
abbrev pause_beside : ℕ → Registry → ℕ → Option (Registry × ℕ)
pause_beside seconds r w = some ((reconnect host crm r w).1, w - 1)

abbrev coming_online : ComesOnline host pause_beside
coming_online = record {
  due = λ cfg w. w;
  answers = λ cfg w e. subst (λ x. (n : ℕ) × (connection x ≡ ok n)) (sym e) (7, refl);
  waits = λ seconds r w. (
    ((reconnect host crm r w).1, w - 1),
    refl,
    reconnect-IsNoWorse host crm r w,
    λ cfg. omega arith,
  );
  connects = λ cfg c w. omega arith;
  lists = λ cfg n w. omega arith;
  saves = λ cfg dir server tools w. omega (arith, saved dir server tools w);
}

abbrev cached : Registry
cached = (build host (codes "cache") (crm ∷ []) 3).0

cached_is : cached.offline_servers ≡ crm ∷ []
unfolding build finish add_servers add_server add_fetched fetch_tools fetch_connected
    add_unreachable cached_tools load_cache decode_cached decode_struct ◌==◌ set_fields
    set_cached_field is_field fold_from has_prefix lower_byte decode_list decode_each set_tool_field
    decode_string add_tools add_tool
cached_is = refl

cached_due :
    Online.IsDueWithin host pause_beside coming_online (codes "cache") 3 3 cached.offline_servers
cached_due =
    subst (Online.IsDueWithin host pause_beside coming_online (codes "cache") 3 3) (sym cached_is)
      (omega arith, tt)

reconnect_offline_loop-IsAllOnline_example :
    IsAllOnline host pause_beside coming_online
      (codes "cache")
      (reconnect_offline_loop host (codes "cache") pause_beside 3 cached 3)
reconnect_offline_loop-IsAllOnline_example =
    reconnect_offline_loop-IsAllOnline host pause_beside coming_online (codes "cache") 2 cached 3
      (build-IsConsistent host (codes "cache") (crm ∷ []) 3) cached_due
