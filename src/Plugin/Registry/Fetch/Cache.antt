-- ===== src/Plugin/Registry/Fetch/Cache.antt =====
-- What the cache gives back.
use mcp_plugin.Base.Tests.{
  ◌≡◌, refl, ap, none, some, List, [], ◌∷◌, ◌++◌, nat_eq, if◌then◌else◌, ok, err,
}
use mcp_plugin.Base.Text.{Text, codes}
use mcp_plugin.Mcp.Types.Tools.{Tool}
use mcp_plugin.Plugin.Upstream.{Host}
use mcp_plugin.Plugin.Registry.Fetch.{safe_name, cache_file, write_cached, load_cache}

safe_name-underscore : (s t : Text) → safe_name (s ++ b'/' ∷ t) ≡ safe_name (s ++ b'_' ∷ t)
unfolding safe_name
safe_name-underscore [] t = refl
safe_name-underscore (c ∷ s) t =
    ap (λ (r : Text). (if nat_eq c b'/' then b'_' else c) ∷ r) (safe_name-underscore s t)

cache_file-underscore : (s t : Text) → cache_file (s ++ b'/' ∷ t) ≡ cache_file (s ++ b'_' ∷ t)
unfolding cache_file
cache_file-underscore s t = ap (λ (r : Text). r ++ codes ".json") (safe_name-underscore s t)

module _ {W : Type 0} (host : Host W) where
  pub write_cached-err :
      (dir server e : Text) (tools : List Tool) (w : W)
      → host.encode_cached server tools ≡ err e
      → write_cached host none dir server tools w ≡ (some e, w)
  unfolding write_cached
  write_cached-err dir server e tools w encoded = rw (encoded, write_cached)

  pub write_cached-ok :
      (dir server text : Text) (tools : List Tool) (w : W)
      → host.encode_cached server tools ≡ ok text
      → write_cached host none dir server tools w
        ≡ host.disk.write_file dir (cache_file server) text w
  unfolding write_cached
  write_cached-ok dir server text tools w encoded = rw (encoded, write_cached)

  -- Servers whose names differ in a "/" against a "_" share one cache file: what is loaded for one
  -- is what is loaded for the other.
  pub load_cache_shared :
      (dir s t : Text) (w : W)
      → load_cache host dir (s ++ b'/' ∷ t) w ≡ load_cache host dir (s ++ b'_' ∷ t) w
  unfolding load_cache
  load_cache_shared dir s t w = rw (cache_file-underscore s t, load_cache)
