-- ===== src/Plugin/Registry/Fetch/Owned.antt =====
-- The contract between the registry and the client objects, and what of them `fetchTools` and the
-- cache keep.
use mathlib.Core.Path.{subst}
use mcp_plugin.Base.Tests.{
  ℕ, ◌≡◌, ◌≢◌, refl, sym, inl, inr, Option, none, some, List, [], ◌∷◌, Result, ok, err, Bool-cases,
}
use mcp_plugin.Base.Text.{Text}
use mcp_plugin.Base.Dict.{Dict}
use mcp_plugin.Config.Expand.{ServerConfig}
use mcp_plugin.Mcp.Types.Tools.{Tool}
use mcp_plugin.Plugin.Args.Value.{Value}
use mcp_plugin.Plugin.Upstream.{Host}
use mcp_plugin.Plugin.Registry.Fetch.{
  listed, list_again, list_or_fall_back, fetch_connected, fetch_tools, write_cached, save_cache,
  refresh_cache, cache_file,
}
use mcp_plugin.Plugin.Registry.Fetch.Cache.{write_cached-ok, write_cached-err}

-- What the registry needs of the client objects, for a property `P` of one of them: a connection
-- makes a new object with the property; no operation but a fallback on the object takes it away; a fallback
-- that succeeds gives it again.
pub record Contract {W : Type 0} (host : Host W) (P : ℕ → W → Type 0) : Type 0 where
  pub fresh :
      (cfg : ServerConfig) (m n : ℕ) (w : W)
      → (host.upstream.connect cfg w).0 ≡ ok n
      → P m w
      → m ≢ n
  pub connects :
      (cfg : ServerConfig) (n : ℕ) (w : W)
      → (host.upstream.connect cfg w).0 ≡ ok n
      → P n (host.upstream.connect cfg w).1
  pub connect : (cfg : ServerConfig) (m : ℕ) (w : W) → P m w → P m (host.upstream.connect cfg w).1
  pub list_tools : (n m : ℕ) (w : W) → P m w → P m (host.upstream.list_tools n w).1
  pub fallback_sse : (n m : ℕ) (w : W) → m ≢ n → P m w → P m (host.upstream.fallback_sse n w).1
  pub call_tool :
      (n m : ℕ) (name : Text) (args : Dict Value) (headers : Dict Text) (w : W)
      → P m w
      → P m (host.upstream.call_tool n name args headers w).1
  pub close : (n m : ℕ) (w : W) → P m w → P m (host.upstream.close n w)
  pub falls_back :
      (n : ℕ) (w : W)
      → (host.upstream.fallback_sse n w).0 ≡ none
      → P n (host.upstream.fallback_sse n w).1
  pub mkdir_all : (dir : Text) (m : ℕ) (w : W) → P m w → P m (host.disk.mkdir_all dir w).1
  pub write_file :
      (dir name text : Text) (m : ℕ) (w : W) → P m w → P m (host.disk.write_file dir name text w).1

module _ {W : Type 0} (host : Host W) (P : ℕ → W → Type 0) (c : Contract host P) where
  abbrev pub Kept : W → W → Type 0
  Kept w w' = (m : ℕ) → P m w → P m w'

  abbrev pub Fetched : W → Result (List Tool × ℕ) × W → Type 0
  Fetched w (r, w') = Kept w w' × ((tools : List Tool) (n : ℕ) → r ≡ ok (tools, n) → P n w')

  listed-Fetched :
      (r : Result (List Tool)) (n : ℕ) (w w' : W)
      → Kept w w'
      → P n w'
      → Fetched w (listed host.upstream r n w')
  unfolding listed
  listed-Fetched (ok tools) n w w' kept has = (kept, λ ts m e. subst (λ x. P x w') (cc e) has)
  listed-Fetched (err e) n w w' kept has = (kept, λ ts m h. absurd (cc h))

  list_again-Fetched :
      (failed : Option Text) (e : Text) (n : ℕ) (w w' : W)
      → Kept w w'
      → (failed ≡ none → P n w')
      → Fetched w (list_again host.upstream failed e n w')
  unfolding list_again
  list_again-Fetched (some s) e n w w' kept has = (kept, λ ts m h. absurd (cc h))
  list_again-Fetched none e n w w' kept has =
      listed-Fetched (host.upstream.list_tools n w').0 n w (host.upstream.list_tools n w').1
        (λ m p. c.list_tools n m w' (kept m p)) (c.list_tools n n w' (has refl))

  list_or_fall_back-Fetched :
      (r : Result (List Tool)) (n : ℕ) (w w' : W)
      → ((m : ℕ) → P m w → m ≢ n)
      → Kept w w'
      → P n w'
      → Fetched w (list_or_fall_back host.upstream r n w')
  unfolding list_or_fall_back
  list_or_fall_back-Fetched (ok tools) n w w' new kept has =
      (kept, λ ts m e. subst (λ x. P x w') (cc e) has)
  list_or_fall_back-Fetched (err e) n w w' new kept has =
      elim (Bool-cases (host.upstream.is_streamable n w')) [
        | inl fall ↦ rw fall (
            list_again-Fetched (host.upstream.fallback_sse n w').0 e n w
              (host.upstream.fallback_sse n w').1
              (λ m p. c.fallback_sse n m w' (new m p) (kept m p)) (c.falls_back n w'))
        | inr stay ↦ rw stay (kept, λ ts m h. absurd (cc h))
      ]

  fetch_connected-Fetched :
      (r : Result ℕ) (w w' : W)
      → ((n m : ℕ) → r ≡ ok n → P m w → m ≢ n)
      → Kept w w'
      → ((n : ℕ) → r ≡ ok n → P n w')
      → Fetched w (fetch_connected host.upstream r w')
  unfolding fetch_connected
  fetch_connected-Fetched (err e) w w' new kept has = (kept, λ ts m h. absurd (cc h))
  fetch_connected-Fetched (ok n) w w' new kept has =
      list_or_fall_back-Fetched (host.upstream.list_tools n w').0 n w
        (host.upstream.list_tools n w').1 (λ m p. new n m refl p)
        (λ m p. c.list_tools n m w' (kept m p)) (c.list_tools n n w' (has n refl))

  pub fetch_tools-Fetched :
      (cfg : ServerConfig) (w : W) → Fetched w (fetch_tools host.upstream cfg w)
  unfolding fetch_tools
  fetch_tools-Fetched cfg w =
      fetch_connected-Fetched (host.upstream.connect cfg w).0 w (host.upstream.connect cfg w).1
        (λ n m e p. c.fresh cfg m n w e p) (λ m p. c.connect cfg m w p)
        (λ n e. c.connects cfg n w e)

  encoded_cached-Kept :
      (dir server : Text) (tools : List Tool) (r : Result Text) (w : W)
      → host.encode_cached server tools ≡ r
      → Kept w (write_cached host none dir server tools w).1
  encoded_cached-Kept dir server tools (ok text) w is m p =
      subst (λ (s : Option Text × W). P m s.1)
        (sym (write_cached-ok host dir server text tools w is))
        (c.write_file dir (cache_file server) text m w p)
  encoded_cached-Kept dir server tools (err e) w is m p =
      subst (λ (s : Option Text × W). P m s.1) (sym (write_cached-err host dir server e tools w is))
        p

  write_cached-Kept :
      (failed : Option Text) (dir server : Text) (tools : List Tool) (w : W)
      → Kept w (write_cached host failed dir server tools w).1
  unfolding write_cached
  write_cached-Kept (some e) dir server tools w m p = p
  write_cached-Kept none dir server tools w m p =
      encoded_cached-Kept dir server tools (host.encode_cached server tools) w refl m p

  pub refresh_cache-Kept :
      (dir server : Text) (tools : List Tool) (w : W)
      → Kept w (refresh_cache host dir server tools w)
  unfolding refresh_cache save_cache
  refresh_cache-Kept [] server tools w m p = p
  refresh_cache-Kept (d ∷ dir) server tools w m p =
      write_cached-Kept (host.disk.mkdir_all (d ∷ dir) w).0 (d ∷ dir) server tools _ m
        (c.mkdir_all (d ∷ dir) m w p)
