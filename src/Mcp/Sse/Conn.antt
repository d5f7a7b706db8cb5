-- ===== src/Mcp/Sse/Conn.antt =====
-- mcp/sse.go `sseConn`: subscriptions, dispatch and the endpoint. A channel is what its buffer of
-- one holds.
pub mod Laws
use mcp_plugin.Base.Tests.{
  ℕ, Bool, false, ◌||◌, Option, none, some, List, [], ◌∷◌, nat_eq, if◌then◌else◌, ◌≡◌, ◌↔◌, true,
  arith, refl,
}
use mcp_plugin.Base.Text.{Text, codes, ◌==◌, Unicode, trim_space}
use mcp_plugin.Base.Int.{ℤ, pos, negsuc}
use mcp_plugin.Mcp.Sse.Frames.{Event}

unfoldable pub int_eq : ℤ → ℤ → Bool
int_eq (pos a) (pos b) = nat_eq a b
int_eq (negsuc a) (negsuc b) = nat_eq a b
int_eq _ _ = false

-- `rpcResponse`: the id as JSON gives it, the raw result, and the error if there is one.
pub data RpcId : Type 0 where
  float64 : ℕ → RpcId
  int64 : ℤ → RpcId
  other : RpcId

pub record RpcResponse : Type 0 where
  pub id : RpcId
  pub result : Text
  pub failed : Option Text

-- `pending`, keyed by the request's id
abbrev pub Pending : Type 0
Pending = List (ℤ × Option RpcResponse)

unfoldable pub channel : ℤ → Pending → Option (Option RpcResponse)
channel i [] = none
channel i ((j, ch) ∷ p) = if int_eq j i then some ch else channel i p

unfoldable pub put_channel : ℤ → Option RpcResponse → Pending → Pending
put_channel i ch [] = (i, ch) ∷ []
put_channel i ch ((j, old) ∷ p) = if int_eq j i then (j, ch) ∷ p else (j, old) ∷ put_channel i ch p

unfoldable pub drop_channel : ℤ → Pending → Pending
drop_channel i [] = []
drop_channel i ((j, ch) ∷ p) =
    let rest = drop_channel i p in if int_eq j i then rest else (j, ch) ∷ rest

-- `sseConn`: the endpoint is what the first endpoint event sent.
pub record Conn : Type 0 where
  pub pending : Pending
  pub endpoint : Option Text

-- `subscribe`
unfoldable pub subscribe : ℤ → Conn → Conn
subscribe i c = record c { pending = put_channel i none c.pending }

-- `unsubscribe`
unfoldable pub unsubscribe : ℤ → Conn → Conn
unsubscribe i c = record c { pending = drop_channel i c.pending }

-- A send to the buffered channel; none is a send that blocks, as the buffer is full.
unfoldable pub deliver : ℤ → RpcResponse → Option (Option RpcResponse) → Conn → Option Conn
deliver i resp none c = some c
deliver i resp (some none) c = some (record c { pending = put_channel i (some resp) c.pending })
deliver i resp (some (some waiting)) c = none

module _ (to_int64 : ℕ → ℤ) where
  unfoldable pub key_of : RpcId → Option ℤ
  key_of (float64 bits) = some (to_int64 bits)
  key_of (int64 i) = some i
  key_of other = none

  unfoldable pub dispatch_key : Option ℤ → RpcResponse → Conn → Option Conn
  dispatch_key none resp c = some c
  dispatch_key (some i) resp c = deliver i resp (channel i c.pending) c

  -- `dispatch`; the conversion of a float64 to an int64 is a parameter.
  unfoldable pub dispatch : RpcResponse → Conn → Option Conn
  dispatch resp c = dispatch_key (key_of resp.id) resp c

  -- The `sync.Once` around the send of the endpoint.
  unfoldable pub set_endpoint : Text → Option Text → Option Text
  set_endpoint endpoint none = some endpoint
  set_endpoint endpoint (some first) = some first

  module _ (u : Unicode) (resolve_endpoint : Text → Text → Text)
      (unmarshal : Text → Option RpcResponse) where
    unfoldable pub dispatch_data : Option RpcResponse → Conn → Option Conn
    dispatch_data none c = some c
    dispatch_data (some resp) c = dispatch resp c

    -- `handleEvent`
    unfoldable pub handle_event : Text → Event → Conn → Option Conn
    handle_event sse_url (event_type, text) c =
        if event_type == codes "endpoint"
        then some (record c {
          endpoint = set_endpoint (resolve_endpoint sse_url (trim_space u text)) c.endpoint;
        })
        else if event_type == [] || event_type == codes "message"
        then dispatch_data (unmarshal text) c
        else some c
