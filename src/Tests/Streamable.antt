-- ===== src/Tests/Streamable.antt =====
-- Runs of the Streamable HTTP transport.
use mcp_plugin.Base.Tests.{ℕ, ◌≡◌, refl, none, some, [], ◌∷◌, ok, err}
use mcp_plugin.Base.Text.{Text, codes, ◌==◌}
use mcp_plugin.Base.Dict.{Dict, lookup}
use mcp_plugin.Mcp.Headers.{
  canonical, canonical_from, cased, is_upper, is_lower, all_token, is_token, member,
}
use mcp_plugin.Mcp.Client.Transport.{RpcRequest, tools_list}
use mcp_plugin.Mcp.Streamable.{
  HttpReply, Http, StreamableHttp, session_key, posted, round_trip, is_success, get,
}
use mcp_plugin.Mcp.Streamable.Session.{round_trip_follows_session}
use mcp_plugin.Tests.World.{unicode}

abbrev reply : ℕ → HttpReply
reply status = record {
  status = status;
  headers = (session_key, codes "s-1") ∷ [];
  body = codes "{}";
}

-- The state is the status that the server answers with.
abbrev http : Http ℕ
http = record {
  encode = λ req. ok (codes "{}");
  refuse = λ url. none;
  exchange = λ timeout url headers body w. (ok (reply w), w);
  unmarshal = λ s. err (codes "unused");
  decode_one = λ s. ok (record { failed = none; result = s });
  lines = λ s. [];
  decimal = λ n. codes "status";
  unicode = unicode;
}

abbrev fresh : StreamableHttp
fresh = record { url = codes "http://crm"; session_id = []; static = [] }

abbrev request : RpcRequest
request = record { id = some 1; call = tools_list }

abbrev next : RpcRequest
next = record { id = some 2; call = tools_list }

abbrev static : Dict Text
static = (codes "Authorization", codes "Bearer t") ∷ []

abbrev first : StreamableHttp
first = record fresh { static = static }

abbrev after : StreamableHttp
after = (round_trip http request 30 [] first 200).1

round_trip_follows_session_example :
    (headers : Dict Text) × (round_trip http next 60 [] after
        (round_trip http request 30 [] first 200).2
      ≡ posted http
          (
            ok (reply (round_trip http request 30 [] first 200).2),
            (round_trip http request 30 [] first 200).2,
          )
          (record first { session_id = codes "s-1" }))
    × (lookup session_key headers ≡ some (codes "s-1"))
unfolding is_success get lookup ◌==◌ canonical canonical_from cased is_upper is_lower all_token
    is_token member
round_trip_follows_session_example =
    round_trip_follows_session http request 30 [] first 200 (codes "{}") (codes "s-1") (reply 200)
      next 60 [] (codes "{}") refl refl refl refl refl (λ e. cc) refl
