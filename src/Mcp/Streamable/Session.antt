-- ===== src/Mcp/Streamable/Session.antt =====
-- The session id of the Streamable HTTP transport.
use mathlib.Core.Path.{ap₂}
use mcp_plugin.Base.Tests.{
  ℕ, ◌≡◌, refl, ap, ◌∙◌, ◌≢◌, true, Option, none, some, [], ◌∷◌, Result, ok,
}
use mcp_plugin.Base.Text.{Text, ◌==◌}
use mcp_plugin.Base.Dict.{Dict, lookup, insert}
use mcp_plugin.Mcp.Headers.{
  canonical, set_all, outbound, canonical_from, cased, is_upper, is_lower, all_token, is_token,
  member,
}
use mcp_plugin.Mcp.Headers.Laws.{or_else, last_set, lookup-outbound}
use mcp_plugin.Mcp.Client.Transport.{RpcRequest, RpcReply}
use mcp_plugin.Mcp.Streamable.{
  HttpReply, Http, StreamableHttp, session_key, get, session_header, request_headers, is_success,
  keep_session, replied, post, posted, round_trip,
}

keep_session-session :
    (reply : HttpReply) (s : StreamableHttp) (sid : Text)
    → get session_key reply.headers ≡ sid
    → sid ≢ []
    → keep_session reply s ≡ record s { session_id = sid }
unfolding keep_session
keep_session-session reply s [] given ne = absurd (ne refl)
keep_session-session reply s (c ∷ sid) given ne = rw (given, keep_session)

request_headers-session :
    (s : StreamableHttp) (sid : Text)
    → sid ≢ []
    → s.session_id ≡ sid
    → lookup session_key (request_headers s) ≡ some sid
unfolding request_headers session_header lookup set_all insert canonical canonical_from cased
    is_upper is_lower all_token is_token member ◌==◌
request_headers-session s [] ne is = absurd (ne refl)
request_headers-session s (c ∷ sid) ne is = rw is refl

module _ {W : Type 0} (http : Http W) where
  round_trip-posted :
      (req : RpcRequest) (timeout : ℕ) (extra : Dict Text) (s : StreamableHttp) (w : W)
      (body : Text)
      → http.encode req ≡ ok body
      → http.refuse s.url ≡ none
      → round_trip http req timeout extra s w ≡ posted http (post http req timeout extra s body w) s
  unfolding round_trip
  round_trip-posted req timeout extra s w body encoded fine = rw (encoded, round_trip, fine)

  replied-state :
      (reply : HttpReply) (s : StreamableHttp)
      → is_success reply.status ≡ true
      → (replied http (ok reply) s).1 ≡ keep_session reply s
  unfolding replied
  replied-state reply s good = rw good

  round_trip-replied :
      (req : RpcRequest) (timeout : ℕ) (extra : Dict Text) (s : StreamableHttp) (w : W)
      (body sid : Text) (reply : HttpReply)
      → http.encode req ≡ ok body
      → http.refuse s.url ≡ none
      → (post http req timeout extra s body w).0 ≡ ok reply
      → is_success reply.status ≡ true
      → get session_key reply.headers ≡ sid
      → sid ≢ []
      → (round_trip http req timeout extra s w).1 ≡ record s { session_id = sid }
  unfolding posted
  round_trip-replied req timeout extra s w body sid reply encoded fine answered good named ne =
      ap (λ (t : Result RpcReply × StreamableHttp × W). t.1)
        (round_trip-posted req timeout extra s w body encoded fine)
      ∙ ap (λ (r : Result HttpReply). (replied http r s).1) answered
      ∙ replied-state reply s good
      ∙ keep_session-session reply s sid named ne

  lookup-sent :
      (s t : StreamableHttp) (extra : Dict Text) (sid : Text)
      → sid ≢ []
      → t ≡ record s { session_id = sid }
      → lookup session_key (outbound t.static extra (request_headers t))
        ≡ or_else (last_set session_key extra) (or_else (last_set session_key s.static) (some sid))
  lookup-sent s t extra sid ne is =
      lookup-outbound session_key t.static extra (request_headers t)
      ∙ ap₂
          (λ (c : Dict Text) (o : Option Text).
            or_else (last_set session_key extra) (or_else (last_set session_key c) o))
          (ap (λ (x : StreamableHttp). x.static) is)
          (request_headers-session t sid ne (ap (λ (x : StreamableHttp). x.session_id) is))

  -- Once a successful reply has named a session, whether or not its body could be decoded, the next
  -- request whose encoding succeeds is one POST to the same URL whose headers name that session, and
  -- its outcome is that POST's: unless the request or the configuration sets a header of that name,
  -- whose value is then the one sent.
  pub round_trip_follows_session :
      (req : RpcRequest) (timeout : ℕ) (extra : Dict Text) (s : StreamableHttp) (w : W)
      (body sid : Text) (reply : HttpReply) (req' : RpcRequest) (timeout' : ℕ) (extra' : Dict Text)
      (body' : Text)
      → http.encode req ≡ ok body
      → http.refuse s.url ≡ none
      → (post http req timeout extra s body w).0 ≡ ok reply
      → is_success reply.status ≡ true
      → get session_key reply.headers ≡ sid
      → sid ≢ []
      → http.encode req' ≡ ok body'
      → (headers : Dict Text) × (round_trip http req' timeout' extra'
            (round_trip http req timeout extra s w).1
            (round_trip http req timeout extra s w).2
          ≡ posted http
              (http.exchange
                (some timeout')
                s.url
                headers
                body'
                (round_trip http req timeout extra s w).2)
              (record s { session_id = sid }))
        × (lookup session_key headers
            ≡ or_else
                (last_set session_key extra')
                (or_else (last_set session_key s.static) (some sid)))
  round_trip_follows_session req timeout extra s w body sid reply req' timeout' extra' body' encoded
        fine answered good named ne encoded' =
      let (_, s', w') = round_trip http req timeout extra s w in
      let is : s' ≡ record s { session_id = sid } =
        round_trip-replied req timeout extra s w body sid reply encoded fine answered good named
          ne in
      (
        outbound s'.static extra' (request_headers s'),
        round_trip-posted req' timeout' extra' s' w' body' encoded'
              (ap (λ (t : StreamableHttp). http.refuse t.url) is ∙ fine)
            ∙ ap₂
                (λ (u : Text) (t : StreamableHttp).
                  posted http
                    (http.exchange (some timeout') u
                      (outbound s'.static extra' (request_headers s')) body' w')
                    t)
                (ap (λ (t : StreamableHttp). t.url) is) is,
        lookup-sent s s' extra' sid ne is,
      )
