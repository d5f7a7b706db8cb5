-- ===== src/Tests/Net.antt =====
-- Runs of the clients over the two transports.
use mcp_plugin.Base.Tests.{ℕ, ◌≡◌, refl, ◌∷◌, false, none, [], ok, err}
use mcp_plugin.Base.Text.{codes}
use mcp_plugin.Mcp.Streamable.{Http}
use mcp_plugin.Mcp.Sse.Post.{Streams, closed, opened}
use mcp_plugin.Mcp.Sse.Post
use mcp_plugin.Mcp.Client.Transport.{sse}
use mcp_plugin.Mcp.Client.Connect.{connect}
use mcp_plugin.Mcp.Client.Net.{Net, open_sse, sse_connected, sse_link}
use mcp_plugin.Mcp.Client.Net.Tracked.{live, live_links}
use mcp_plugin.Tests.World.{unicode, crm}
use mcp_plugin.Tests.Cache.{scanner}

-- The state is the number of POSTs so far.
abbrev http : Http ℕ
http = record {
  encode = λ req. ok (codes "{}");
  refuse = λ url. none;
  exchange = λ timeout url headers body w.
      (ok (record { status = 200; headers = []; body = codes "{}" }), w);
  unmarshal = λ s. err (codes "unused");
  decode_one = λ s. ok (record { failed = none; result = codes "file" });
  lines = λ s. [];
  decimal = λ n. codes "status";
  unicode = unicode;
}

abbrev streams : Streams ℕ
streams = record {
  get = λ url headers w. (err (codes "refused"), w);
  parses = λ s. false;
  resolve_reference = λ base ref. ref;
  cancelled = codes "context canceled";
  select = λ endpoint id seconds w. (closed, w);
  ended = λ endpoint w. false;
}

abbrev quiet : Net ℕ
quiet = record { links = []; rest = 0 }

-- A refused GET leaves the context of its connection.
leaked : live (open_sse http streams scanner crm quiet).1 ≡ sse 0 ∷ []
unfolding live_links open_sse sse_connected sse_link Post.connect opened
leaked = refl
