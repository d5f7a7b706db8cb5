-- ===== src/Plugin/Handler/Execute/Laws.antt =====
-- What `Execute` calls, and when.
use mathlib.Core.Option
use mcp_plugin.Base.Tests.{
  ℕ, ◌≡◌, refl, ap, ◌∙◌, ◌≢◌, inl, inr, true, false, Option, none, some, [], ◌∷◌, ◌++◌, arith,
  Option-cases,
}
use mcp_plugin.Base.Text.{Text, codes, ◌==◌, eq_iff}
use mcp_plugin.Base.Dict.{Dict, lookup, has_key}
use mcp_plugin.Mcp.Types.Property.{SchemaProp}
use mcp_plugin.Plugin.Types.{Entry, Registry}
use mcp_plugin.Plugin.Upstream.{Host}
use mcp_plugin.Plugin.Args.Value.{Value, Decoders}
use mcp_plugin.Plugin.Args.Coerce.{convert, convert_args}
use mcp_plugin.Plugin.Args.ToolNames.{resolve_tool_name_args}
use mcp_plugin.Plugin.Args.ToolNames.Laws.{resolved, lookup-resolve_tool_name_args}
use mcp_plugin.Plugin.Args.IncludeFields.{include_fields}
use mcp_plugin.Plugin.Args.IncludeFields.Laws.{sanitize_include_fields_keeps}
use mcp_plugin.Plugin.Args.Context.{credential_headers, forward}
use mcp_plugin.Plugin.Args.Context.Laws.{lookup-forward}
use mcp_plugin.Plugin.Registry.Build.Consistent.{IsConsistent, announces}
use mcp_plugin.Plugin.Handler.Execute.{
  Request, error, answered, call_with, forward_and_call, converted, call_live, execute_client,
  execute,
}

lookup-convert_args :
    (d : Decoders) (properties : Dict SchemaProp) (k : Text) (args : Dict Text)
    → lookup k (convert_args d properties args)
      ≡ Option.map (convert d properties k) (lookup k args)
unfolding lookup convert_args
lookup-convert_args d properties k [] = refl
lookup-convert_args d properties k ((j, v) ∷ args) =
    ground (arith, eq_iff j k, lookup-convert_args d properties k args)

-- An argument that no step of `Execute` treats by its name.
pub record IsPlain (ctx : Dict Text) (k : Text) : Type 0 where
  pub not_default : codes "default_tool_name" ≢ k
  pub not_tool : codes "tool_name" ≢ k
  pub not_tasks : codes "tasks" ≢ k
  pub not_fields : include_fields ≢ k
  pub not_context : has_key k ctx ≡ false

test_ne : (s t : Text) → s ≢ t → (s == t) ≡ false
test_ne s t h = ground (arith, eq_iff s t)

map-resolved_plain :
    (actions : Dict Entry) (k : Text) (o : Option Value)
    → codes "default_tool_name" ≢ k
    → codes "tool_name" ≢ k
    → codes "tasks" ≢ k
    → Option.map (resolved actions k) o ≡ o
map-resolved_plain actions k none a b c = refl
map-resolved_plain actions k (some w) a b c = rw (test_ne _ _ a, test_ne _ _ b, test_ne _ _ c)

has_key_of_found :
    (k : Text) (m : Dict Entry) (e : Entry) → lookup k m ≡ some e → has_key k m ≡ true
unfolding has_key
has_key_of_found k m e h = rw (h, has_key)

module _ {W : Type 0} (host : Host W) where
  converted_plain :
      (req : Request) (e : Entry) (reg : Registry) (args : Dict Value) (k : Text)
      → converted host req e reg ≡ some args
      → IsPlain e.cfg.context_headers k
      → lookup k args ≡ Option.map (convert host.decoders e.schema.properties k) (lookup k req.args)
  unfolding converted
  converted_plain req e reg args k h plain =
      let sent : Dict Value = convert_args host.decoders e.schema.properties req.args in
      sanitize_include_fields_keeps host.decoders.unicode e.schema.properties k
        (resolve_tool_name_args reg.actions sent) args plain.not_fields h
      ∙ lookup-resolve_tool_name_args reg.actions k sent
      ∙ map-resolved_plain reg.actions k (lookup k sent) plain.not_default plain.not_tool
          plain.not_tasks
      ∙ lookup-convert_args host.decoders e.schema.properties k req.args

  -- The one call that `Execute` makes: what it sends as the argument `k`.
  pub record Sends (req : Request) (e : Entry) (args : Dict Value) : Type 0 where
    -- no context argument reaches the tool
    pub no_leak : (k : Text) → has_key k e.cfg.context_headers ≡ true → lookup k args ≡ none
    -- every other argument is the request's, as the schema converts it, and none is added
    pub faithful :
        (k : Text)
        → IsPlain e.cfg.context_headers k
        → lookup k args
          ≡ Option.map (convert host.decoders e.schema.properties k) (lookup k req.args)

  abbrev pub sent_call : Request → Entry → Dict Value → Dict Value × Dict Text
  sent_call req e args =
      forward e.cfg.context_headers
        (args, credential_headers (lookup e.cfg.server req.credential_headers))

  pub sent_call-Sends :
      (req : Request) (e : Entry) (reg : Registry) (args : Dict Value)
      → converted host req e reg ≡ some args
      → Sends req e (sent_call req e args).0
  sent_call-Sends req e reg args h = record {
    no_leak = λ k is. lookup-forward k e.cfg.context_headers args _ ∙ rw is;
    faithful = λ k plain.
        lookup-forward k e.cfg.context_headers args _
        ∙ rw plain.not_context (converted_plain req e reg args k h plain);
  }

  pub execute_known :
      (req : Request) (reg : Registry) (e : Entry) (o : Option ℕ) (w : W)
      → lookup req.action reg.actions ≡ some e
      → e.client ≡ o
      → execute host req (some reg) w ≡ execute_client host o req e reg w
  unfolding execute
  execute_known req reg e o w known has =
      rw (known, execute) (ap (λ (c : Option ℕ). execute_client host c req e reg w) has)

  execute_client_alive :
      (req : Request) (reg : Registry) (e : Entry) (client : ℕ) (w : W)
      → host.upstream.is_alive client w ≡ true
      → execute_client host (some client) req e reg w ≡ call_live host req e client reg w
  unfolding execute_client
  execute_client_alive req reg e client w alive = rw alive

  pub call_live-converted :
      (req : Request) (reg : Registry) (e : Entry) (client : ℕ) (args : Dict Value) (w : W)
      → converted host req e reg ≡ some args
      → call_live host req e client reg w ≡ forward_and_call host req e client reg args w
  unfolding call_live
  call_live-converted req reg e client args w conv = rw (conv, call_live)

  -- Where the action is known and its client alive, and the arguments convert, `Execute` makes one
  -- call of the tool, under the server's name for it, and returns what that call answers. No
  -- context argument is sent, and each argument that no step treats by its name is sent as the
  -- schema converts it.
  pub execute_alive :
      (req : Request) (reg : Registry) (e : Entry) (client : ℕ) (args : Dict Value) (w : W)
      → lookup req.action reg.actions ≡ some e
      → e.client ≡ some client
      → host.upstream.is_alive client w ≡ true
      → converted host req e reg ≡ some args
      → (sent : Dict Value) × (headers : Dict Text) × (execute host req (some reg) w
          ≡ answered host req.id reg
              (host.upstream.call_tool client e.mcp_tool_name sent headers w))
        × Sends req e sent
  unfolding forward_and_call call_with
  execute_alive req reg e client args w known live alive conv = (
    (sent_call req e args).0,
    (sent_call req e args).1,
    execute_known req reg e (some client) w known live
        ∙ execute_client_alive req reg e client w alive
        ∙ call_live-converted req reg e client args w conv,
    sent_call-Sends req e reg args conv,
  )

  -- An action that the capabilities of a consistent registry do not list is refused, and nothing
  -- else happens.
  pub execute_unannounced :
      (req : Request) (reg : Registry) (w : W)
      → IsConsistent reg
      → announces reg.caps.actions req.action ≡ false
      → execute host req (some reg) w
        ≡ (error req.id (codes "unknown action " ++ host.quote req.action), some reg, w)
  unfolding execute
  execute_unannounced req reg w c silent = elim (Option-cases (lookup req.action reg.actions)) [
    | inl missing ↦ rw (missing, execute)
    | inr (e, found) ↦
        absurd
          (cc (c.same_actions req.action, silent, has_key_of_found req.action reg.actions e found))
  ]
