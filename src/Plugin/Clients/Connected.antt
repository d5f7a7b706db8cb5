-- ===== src/Plugin/Clients/Connected.antt =====
-- No client of the registry is without a transport.
use mathlib.Core.Path.{subst}
use mcp_plugin.Base.Tests.{
  ℕ, ◌<◌, ◌≡◌, ◌≢◌, refl, ap, ◌∙◌, inl, inr, true, none, some, List, ◌∷◌, arith, nat_eq, length,
  Result, ok, Bool-cases, Option-cases,
}
use mcp_plugin.Base.Text.{Text}
use mcp_plugin.Base.Dict.{Dict}
use mcp_plugin.Base.Arena.{fetch, store, fetch_bound, fetch_newest, fetch_older, fetch-store}
use mcp_plugin.Config.Expand.{ServerConfig}
use mcp_plugin.Mcp.Types.Tools.{Tool}
use mcp_plugin.Mcp.Client.Transport.{Transport, Wire, Client, new_client, next_id}
use mcp_plugin.Mcp.Client.Connect.{Tried}
use mcp_plugin.Mcp.Client.Connect
use mcp_plugin.Mcp.Client.Calls
use mcp_plugin.Mcp.Client.Ready.{HasTransport, Connects, connect-Connects, fallback_sse-Connects}
use mcp_plugin.Plugin.Args.Value.{Value, Decoders}
use mcp_plugin.Plugin.Upstream.{Disk, Host}
use mcp_plugin.Plugin.Registry.Fetch.Owned.{Contract}
use mcp_plugin.Plugin.Clients
use mcp_plugin.Plugin.Clients.{
  Objects, connected, connect, kept, on_transport, list_tools, call_tool, fallback_sse, host,
}

-- The client `n` is there, and has a transport.
abbrev pub IsReady : {W : Type 0} → ℕ → Objects W → Type 0
IsReady n o = (c : Client) × (fetch n o.clients ≡ some c) × HasTransport c

module _ {W : Type 0} (wire : Wire W) where
  other_same : {A : Type 0} (n m : ℕ) → m ≢ n → nat_eq n m ≡ true → A
  other_same n m other same = absurd (other (ground arith))

  stored-IsReady :
      (n m : ℕ) (new : Client) (o : Objects W) (w : W)
      → (nat_eq n m ≡ true → HasTransport new)
      → IsReady m o
      → IsReady m (record { clients = store n new o.clients; rest = w })
  stored-IsReady n m new o w has (c, found, ready) = elim (Bool-cases (nat_eq n m)) [
    | inl same ↦ (new, fetch-store n m new c o.clients found ∙ rw same refl, has same)
    | inr other ↦ (c, fetch-store n m new c o.clients found ∙ rw other refl, ready)
  ]

  connected-IsReady :
      (t : Tried W) (n : ℕ) (cs : List Client)
      → Connects t
      → (connected wire t cs).0 ≡ ok n
      → IsReady n (connected wire t cs).1
  unfolding connected Connects
  connected-IsReady (none, c, w) n cs has e =
      (c, subst (λ x. fetch x (c ∷ cs) ≡ some c) (cc e) (fetch_newest c cs), has)
  connected-IsReady (some m, c, w) n cs has e = absurd (cc e)

  connected-older :
      (t : Tried W) (m : ℕ) (o : Objects W) → IsReady m o → IsReady m (connected wire t o.clients).1
  unfolding connected
  connected-older (none, c, w) m o (d, found, ready) = (d, fetch_older m d c o.clients found, ready)
  connected-older (some e, c, w) m o ready = ready

  connected-fresh :
      (t : Tried W) (m n : ℕ) (o : Objects W)
      → (connected wire t o.clients).0 ≡ ok n
      → IsReady m o
      → m ≢ n
  unfolding connected
  connected-fresh (none, c, w) m n o e (d, found, ready) =
      λ same. apart (cc e) (fetch_bound m d o.clients found) same
    where
      apart : length o.clients ≡ n → m < length o.clients → m ≡ n → ⊥
      apart is lt same = omega arith
  connected-fresh (some f, c, w) m n o e ready = absurd (cc e)

  -- A method that leaves a client with a transport leaves every client with one.
  kept-IsReady :
      {A : Type 0} (n m : ℕ) (r : A × Client × W) (o : Objects W)
      → (nat_eq n m ≡ true → HasTransport r.1)
      → IsReady m o
      → IsReady m (kept wire n o.clients r).1
  unfolding kept
  kept-IsReady n m (a, c, w) o has ready = stored-IsReady n m c o w has ready

  on_transport-IsReady :
      {A : Type 0} (n m : ℕ) (method : Transport → Client → W → Result A × Client × W)
      (o : Objects W)
      → ((tp : Transport) (c : Client) → (method tp c o.rest).1 ≡ next_id c)
      → IsReady m o
      → IsReady m (on_transport wire n method o).1
  unfolding next_id on_transport fetch
  on_transport-IsReady n m method o counts ready = elim (Option-cases (fetch n o.clients)) [
    | inl gone ↦ rw (gone, on_transport) ready
    | inr (c, found) ↦ elim (Option-cases c.tp) [
      | inl missing ↦ rw (found, on_transport, missing) ready
      | inr (tp, has) ↦
          rw (found, on_transport, has)
            (kept-IsReady n m (method tp c o.rest) o
              (λ _. (tp, ap (λ (x : Client). x.tp) (counts tp c) ∙ has)) ready)
    ]
  ]

  list_tools-IsReady : (n m : ℕ) (o : Objects W) → IsReady m o → IsReady m (list_tools wire n o).1
  unfolding list_tools Calls.list_tools
  list_tools-IsReady n m o ready =
      on_transport-IsReady n m (Calls.list_tools wire) o (λ tp c. refl) ready

  call_tool-IsReady :
      (n m : ℕ) (name : Text) (args : Dict Value) (headers : Dict Text) (o : Objects W)
      → IsReady m o
      → IsReady m (call_tool wire n name args headers o).1
  unfolding call_tool Calls.call_tool
  call_tool-IsReady n m name args headers o ready =
      on_transport-IsReady n m (λ tp. Calls.call_tool wire tp name args headers) o (λ tp c. refl)
        ready

  fallback_sse-IsReady :
      (n m : ℕ) (o : Objects W) → m ≢ n → IsReady m o → IsReady m (fallback_sse wire n o).1
  unfolding fallback_sse fetch
  fallback_sse-IsReady n m o other ready = elim (Option-cases (fetch n o.clients)) [
    | inl gone ↦ rw (gone, fallback_sse) ready
    | inr (c, found) ↦
        rw (found, fallback_sse)
          (kept-IsReady n m (Connect.fallback_sse wire c o.rest) o
            (λ same. other_same n m other same) ready)
  ]

  succeeded : (t : Tried W) → Connects t → t.0 ≡ none → HasTransport t.1
  unfolding Connects
  succeeded (none, c, w) has e = has
  succeeded (some f, c, w) has e = absurd (cc e)

  kept_first :
      {A : Type 0} (n : ℕ) (cs : List Client) (r : A × Client × W) (a : A)
      → (kept wire n cs r).0 ≡ a
      → r.0 ≡ a
  unfolding kept
  kept_first n cs (b, c, w) a e = e

  kept_new :
      {A : Type 0} (n : ℕ) (c : Client) (r : A × Client × W) (o : Objects W)
      → fetch n o.clients ≡ some c
      → HasTransport r.1
      → IsReady n (kept wire n o.clients r).1
  unfolding kept
  kept_new n c (a, new, w) o found has =
      (new, fetch-store n n new c o.clients found ∙ ground arith, has)

  fallen_back-IsReady :
      (n : ℕ) (o : Objects W)
      → (fallback_sse wire n o).0 ≡ none
      → IsReady n (fallback_sse wire n o).1
  unfolding fallback_sse fetch
  fallen_back-IsReady n o = elim (Option-cases (fetch n o.clients)) [
    | inl gone ↦ rw (gone, fallback_sse) (λ e. absurd (cc e))
    | inr (c, found) ↦
        rw (found, fallback_sse)
          (λ e. kept_new n c (Connect.fallback_sse wire c o.rest) o found (
            succeeded (Connect.fallback_sse wire c o.rest) (fallback_sse-Connects wire c o.rest)
              (kept_first n o.clients _ none e)))
  ]

  module _ (disk : Disk W) (decoders : Decoders) (encode : Text → List Tool → Result Text)
      (quote : Text → Text) where
    abbrev pub live_host : Host (Objects W)
    live_host = host wire disk decoders encode quote

    connect-IsReady :
        (cfg : ServerConfig) (m : ℕ) (o : Objects W)
        → IsReady m o
        → IsReady m (connect wire cfg o).1
    unfolding connect
    connect-IsReady cfg m o ready =
        connected-older (Connect.connect wire (new_client cfg) o.rest) m o ready

    new-IsReady :
        (cfg : ServerConfig) (n : ℕ) (o : Objects W)
        → (connect wire cfg o).0 ≡ ok n
        → IsReady n (connect wire cfg o).1
    unfolding connect
    new-IsReady cfg n o e =
        connected-IsReady (Connect.connect wire (new_client cfg) o.rest) n o.clients
          (connect-Connects wire (new_client cfg) o.rest) e

    new_fresh :
        (cfg : ServerConfig) (m n : ℕ) (o : Objects W)
        → (connect wire cfg o).0 ≡ ok n
        → IsReady m o
        → m ≢ n
    unfolding connect
    new_fresh cfg m n o e ready =
        connected-fresh (Connect.connect wire (new_client cfg) o.rest) m n o e ready

    -- The clients keep the contract of the registry.
    pub clients_contract : Contract live_host IsReady
    unfolding Clients.close
    clients_contract = record {
      fresh = new_fresh;
      connects = new-IsReady;
      connect = connect-IsReady;
      list_tools = list_tools-IsReady;
      fallback_sse = fallback_sse-IsReady;
      call_tool = call_tool-IsReady;
      close = λ n m o ready. ready;
      falls_back = fallen_back-IsReady;
      mkdir_all = λ dir m o ready. ready;
      write_file = λ dir name text m o ready. ready;
    }
