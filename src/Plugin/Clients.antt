-- ===== src/Plugin/Clients.antt =====
-- The clients of mcp/client.go as the objects that the registry holds: all of them, with the state of
-- their transports and of the files.
pub mod Connected
use mcp_plugin.Base.Tests.{
  ℕ, Bool, true, false, Option, none, some, List, [], ◌∷◌, length, Result, ok, err,
}
use mcp_plugin.Base.Text.{Text, codes}
use mcp_plugin.Base.Dict.{Dict}
use mcp_plugin.Base.Arena.{fetch, store}
use mcp_plugin.Json.Decode.{Scanner}
use mcp_plugin.Config.Expand.{ServerConfig}
use mcp_plugin.Mcp.Types.Tools.{Tool}
use mcp_plugin.Mcp.Types.Payloads.{GlossaryEntry, KnowledgeArticle}
use mcp_plugin.Mcp.Client.Transport.{Transport, Wire, Client, new_client}
use mcp_plugin.Mcp.Client.Connect.{Tried}
use mcp_plugin.Mcp.Client.Connect
use mcp_plugin.Mcp.Client.Calls
use mcp_plugin.Plugin.Args.Value.{Value, Decoders}
use mcp_plugin.Plugin.Upstream.{Upstream, Disk, Host}

pub record Objects (W : Type 0) : Type 0 where
  pub clients : List Client
  pub rest : W

-- The panic of a call through a nil transport, or on a nil client.
abbrev pub nil_dereference : Text
nil_dereference = codes "runtime error: invalid memory address or nil pointer dereference"

module _ {W : Type 0} (wire : Wire W) where
  -- `NewClient` and `Connect`: the registry sees only a client that has connected.
  unfoldable pub connected : Tried W → List Client → Result ℕ × Objects W
  connected (none, c, w) cs = (ok (length cs), record { clients = c ∷ cs; rest = w })
  connected (some e, c, w) cs = (err e, record { clients = cs; rest = w })

  unfoldable pub connect : ServerConfig → Objects W → Result ℕ × Objects W
  connect cfg o = connected (Connect.connect wire (new_client cfg) o.rest) o.clients

  -- The outcome of a method, with the receiver written back.
  unfoldable pub kept : {A : Type 0} → ℕ → List Client → A × Client × W → A × Objects W
  kept n cs (r, c, w) = (r, record { clients = store n c cs; rest = w })

  -- The receiver of a method, and its transport.
  unfoldable pub on_transport :
      {A : Type 0}
      → ℕ
      → (Transport → Client → W → Result A × Client × W)
      → Objects W
      → Result A × Objects W
  on_transport n method o = elim (fetch n o.clients) [
    | none ↦ (err nil_dereference, o)
    | some c ↦ elim c.tp [
      | none ↦ (err nil_dereference, o)
      | some tp ↦ kept n o.clients (method tp c o.rest)
    ]
  ]

  unfoldable pub list_tools : ℕ → Objects W → Result (List Tool) × Objects W
  list_tools n o = on_transport n (Calls.list_tools wire) o

  unfoldable pub call_tool :
      ℕ → Text → Dict Value → Dict Text → Objects W → Result (Text × Text) × Objects W
  call_tool n name args headers o =
      on_transport n (λ tp. Calls.call_tool wire tp name args headers) o

  unfoldable pub fallback_sse : ℕ → Objects W → Option Text × Objects W
  fallback_sse n o = elim (fetch n o.clients) [
    | none ↦ (some nil_dereference, o)
    | some c ↦ kept n o.clients (Connect.fallback_sse wire c o.rest)
  ]

  -- A method that only reads the client.
  abbrev pub read : {A : Type 0} → A → (Client → A) → ℕ → Objects W → A
  read nothing part n o = elim (fetch n o.clients) [ none ↦ nothing | some c ↦ part c ]

  unfoldable pub close : ℕ → Objects W → Objects W
  close n o = record o { rest = read o.rest (λ c. Calls.close wire c o.rest) n o }

  abbrev pub upstream : Upstream (Objects W)
  upstream = record {
    connect = connect;
    list_tools = list_tools;
    is_streamable = read false (λ c. Calls.is_streamable_http c.tp);
    fallback_sse = fallback_sse;
    call_tool = call_tool;
    instructions = read [] (λ c. c.instructions);
    glossary = read [] (λ c. c.glossary);
    knowledge_articles = read [] (λ c. c.knowledge_articles);
    is_alive = λ n o. read false (λ c. Calls.is_alive wire c o.rest) n o;
    close = close;
  }

  abbrev disk_beside : Disk W → Disk (Objects W)
  disk_beside disk = record {
    read_file = λ dir name o. disk.read_file dir name o.rest;
    write_file = λ dir name text o.
        (let (e, w) = disk.write_file dir name text o.rest in (e, record o { rest = w }));
    mkdir_all = λ dir o. (let (e, w) = disk.mkdir_all dir o.rest in (e, record o { rest = w }));
  }

  -- The registry's host, with these clients
  abbrev pub host :
      Disk W → Decoders → (Text → List Tool → Result Text) → (Text → Text) → Host (Objects W)
  host disk decoders encode quote = record {
    upstream = upstream;
    disk = disk_beside disk;
    shape = wire.shape;
    decoders = decoders;
    encode_cached = encode;
    quote = quote;
  }
