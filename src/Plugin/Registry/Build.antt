-- ===== src/Plugin/Registry/Build.antt =====
-- plugin/registry.go: `Build`.
pub mod Consistent
pub mod Owned
pub mod Fresh
use mcp_plugin.Base.Tests.{
  ℕ, Bool, ◌||◌, Option, none, some, List, [], ◌∷◌, ◌++◌, if◌then◌else◌, Result, ok, err,
}
use mcp_plugin.Base.Text.{Text, codes, ◌==◌, join}
use mcp_plugin.Base.Dict.{Dict, insert}
use mcp_plugin.Config.Expand.{ServerConfig}
use mcp_plugin.Mcp.Types.Tools.{Tool}
use mcp_plugin.Mcp.Types.Payloads.{GlossaryEntry, KnowledgeArticle}
use mcp_plugin.Plugin.Args.Value.{Decoders}
use mcp_plugin.Plugin.Types.{Entry, ActionMsg, Registry, default_caps, separator}
use mcp_plugin.Plugin.Upstream.{Upstream, Disk, Host}
use mcp_plugin.Plugin.Registry.Meta.{
  read_only_from_annotations, always_include_from_meta, confirmation_hint_from_meta,
  companions_from_meta, schema_to_params, inject_context_args, action_name,
}
use mcp_plugin.Plugin.Registry.Fetch.{fetch_tools, load_cache, refresh_cache}

abbrev pub offline_mark : Text
offline_mark = codes "[offline] "

abbrev pub newlines : Text
newlines = 10 ∷ 10 ∷ []

unfoldable pub marked : Option ℕ → Text → Text
marked none desc = offline_mark ++ desc
marked (some _) desc = desc

unfoldable pub with_output_schema : Text → Text → Text
with_output_schema desc [] = desc
with_output_schema desc (c ∷ schema) =
    desc ++ (newlines ++ (codes "Output schema (return JSON matching this): " ++ c ∷ schema))

-- Entries and articles with an empty required field are dropped.
unfoldable pub keep_glossary : List GlossaryEntry → List GlossaryEntry
keep_glossary [] = []
keep_glossary (g ∷ gs) =
    let rest = keep_glossary gs in if g.term == [] || g.definition == [] then rest else g ∷ rest

unfoldable pub keep_articles : Text → List KnowledgeArticle → List KnowledgeArticle
keep_articles server [] = []
keep_articles server (k ∷ ks) =
    let rest = keep_articles server ks in
    if k.id == [] || k.title == [] || k.content == []
    then rest
    else record k { id = action_name server k.id } ∷ rest

-- The variables of the loop: the registry, and `instructionSections`.
pub record Progress : Type 0 where
  pub registry : Registry
  pub sections : List Text

abbrev pub start : Progress
start = record {
  registry = record {
    actions = [];
    caps = default_caps;
    failed_servers = [];
    offline_servers = [];
  };
  sections = [];
}

abbrev pub entry_of : ServerConfig → Option ℕ → Tool → Entry
entry_of cfg client tool = record {
  client = client;
  mcp_tool_name = tool.name;
  schema = tool.input_schema;
  cfg = cfg;
}

unfoldable pub add_section : Text → Text → List Text → List Text
add_section server [] sections = sections
add_section server (c ∷ instr) sections =
    sections ++ (codes "## " ++ (server ++ 10 ∷ c ∷ instr)) ∷ []

module _ {W : Type 0} (host : Host W) where
  unfoldable pub action_of : ServerConfig → Option ℕ → Tool → ActionMsg
  action_of cfg client tool = record {
    name = action_name cfg.server tool.name;
    description = with_output_schema (marked client tool.description) tool.output_schema;
    parameters = schema_to_params tool.input_schema;
    read_only = read_only_from_annotations tool.annotations;
    always_include = always_include_from_meta host.shape tool.meta;
    confirmation_hint = confirmation_hint_from_meta host.shape host.decoders.unicode tool.meta;
    companions = companions_from_meta host.shape cfg.server tool.meta;
    inject_context_args = inject_context_args cfg.context_headers;
  }

  -- One round of the loop over a server's tools.
  unfoldable pub add_tool : ServerConfig → Option ℕ → Tool → Registry → Registry
  add_tool cfg client tool r = record r {
    actions = insert (action_name cfg.server tool.name) (entry_of cfg client tool) r.actions;
    caps = record (r.caps) { actions = r.caps.actions ++ action_of cfg client tool ∷ [] };
  }

  unfoldable pub add_tools : ServerConfig → Option ℕ → List Tool → Registry → Registry
  add_tools cfg client [] r = r
  add_tools cfg client (tool ∷ tools) r = add_tools cfg client tools (add_tool cfg client tool r)

  -- The glossary and the articles of a server that answered.
  unfoldable pub add_texts : ServerConfig → ℕ → W → Registry → Registry
  add_texts cfg client w r = record r {
    caps = record (r.caps) {
      glossary = r.caps.glossary ++ keep_glossary (host.upstream.glossary client w);
      knowledge_articles =
          r.caps.knowledge_articles
          ++ keep_articles cfg.server (host.upstream.knowledge_articles client w);
    };
  }

  unfoldable pub add_live : ServerConfig → List Tool → ℕ → W → Progress → Progress
  add_live cfg tools client w p = record {
    registry = add_tools cfg (some client) tools (add_texts cfg client w p.registry);
    sections = add_section cfg.server (host.upstream.instructions client w) p.sections;
  }

  -- A server that did not answer, with its cached tools.
  unfoldable pub add_unreachable : ServerConfig → List Tool → Progress → Progress
  add_unreachable cfg [] p = record p {
    registry = record (p.registry) { failed_servers = p.registry.failed_servers ++ cfg ∷ [] };
  }
  add_unreachable cfg (t ∷ ts) p = record p {
    registry =
        add_tools cfg none (t ∷ ts)
          (record (p.registry) { offline_servers = p.registry.offline_servers ++ cfg ∷ [] });
  }

  unfoldable pub cached_tools : Text → Text → W → List Tool
  cached_tools cache_dir server w =
      let loaded = load_cache host cache_dir server w in elim cache_dir [ [] ↦ [] | c ∷ d ↦ loaded ]

  unfoldable pub add_fetched :
      Text → ServerConfig → Result (List Tool × ℕ) → W → Progress → Progress × W
  add_fetched cache_dir cfg (ok (tools, client)) w p =
      let w' = refresh_cache host cache_dir cfg.server tools w in
      (add_live cfg tools client w' p, w')
  add_fetched cache_dir cfg (err e) w p =
      (add_unreachable cfg (cached_tools cache_dir cfg.server w) p, w)

  -- One round of the loop over the servers.
  unfoldable pub add_server : Text → ServerConfig → Progress × W → Progress × W
  add_server cache_dir cfg (p, w) =
      let (r, w') = fetch_tools host.upstream cfg w in add_fetched cache_dir cfg r w' p

  unfoldable pub add_servers : Text → List ServerConfig → Progress × W → Progress × W
  add_servers cache_dir [] s = s
  add_servers cache_dir (cfg ∷ cfgs) s = add_servers cache_dir cfgs (add_server cache_dir cfg s)

  unfoldable pub finish : Progress → Registry
  finish p = record (p.registry) {
    caps = record (p.registry.caps) { system_prompt_addition = join p.sections newlines };
  }

  -- `Build`
  unfoldable pub build : Text → List ServerConfig → W → Registry × W
  build cache_dir cfgs w = let (p, w') = add_servers cache_dir cfgs (start, w) in (finish p, w')
