-- ===== src/Mcp/Types/Payloads.antt =====
-- mcp/types.go: the results of initialize and tools/call.
use mcp_plugin.Base.Tests.{Bool, false, Option, some, List, [], if◌then◌else◌, ◌>>=◌}
use mcp_plugin.Base.Text.{Text, codes}
use mcp_plugin.Json.Decode.{
  Scanner, is_field, decode_string, decode_bool, decode_list, decode_struct,
}

-- `Content`
pub record Content : Type 0 where
  pub type : Text
  pub text : Text

-- `toolsCallResult`
pub record ToolsCallResult : Type 0 where
  pub content : List Content
  pub is_error : Bool
  pub structured_content : Text

-- `InitGlossaryEntry`
pub record GlossaryEntry : Type 0 where
  pub term : Text
  pub definition : Text
  pub category : Text
  pub tags : List Text
  pub synonyms : List Text

-- `InitKnowledgeArticle`
pub record KnowledgeArticle : Type 0 where
  pub id : Text
  pub title : Text
  pub content : Text
  pub tags : List Text

-- `initializeResult`
pub record InitializeResult : Type 0 where
  pub instructions : Text
  pub glossary : List GlossaryEntry
  pub knowledge_articles : List KnowledgeArticle

abbrev pub no_content : Content
no_content = record { type = []; text = [] }

abbrev pub no_entry : GlossaryEntry
no_entry = record { term = []; definition = []; category = []; tags = []; synonyms = [] }

abbrev pub no_article : KnowledgeArticle
no_article = record { id = []; title = []; content = []; tags = [] }

module _ (shape : Scanner) where
  unfoldable pub set_content_field : Text → Text → Content → Option Content
  set_content_field key raw c =
      if is_field key (codes "type")
      then (do x ← decode_string shape c.type raw; some (record c { type = x }))
      else if is_field key (codes "text")
      then (do x ← decode_string shape c.text raw; some (record c { text = x }))
      else some c

  unfoldable pub set_call_field : Text → Text → ToolsCallResult → Option ToolsCallResult
  set_call_field key raw r =
      if is_field key (codes "content")
      then (do
        x ← decode_list shape (decode_struct shape set_content_field no_content) raw
        some (record r { content = x }))
      else if is_field key (codes "isError")
      then (do x ← decode_bool shape r.is_error raw; some (record r { is_error = x }))
      else if is_field key (codes "structuredContent")
      then some (record r { structured_content = raw })
      else some r

  unfoldable pub decode_call : Text → Option ToolsCallResult
  decode_call =
      decode_struct shape set_call_field
        (record { content = []; is_error = false; structured_content = [] })

  unfoldable pub set_glossary_field : Text → Text → GlossaryEntry → Option GlossaryEntry
  set_glossary_field key raw g =
      if is_field key (codes "term")
      then (do x ← decode_string shape g.term raw; some (record g { term = x }))
      else if is_field key (codes "definition")
      then (do x ← decode_string shape g.definition raw; some (record g { definition = x }))
      else if is_field key (codes "category")
      then (do x ← decode_string shape g.category raw; some (record g { category = x }))
      else if is_field key (codes "tags")
      then (do x ← decode_list shape (decode_string shape []) raw; some (record g { tags = x }))
      else if is_field key (codes "synonyms")
      then (do x ← decode_list shape (decode_string shape []) raw; some (record g { synonyms = x }))
      else some g

  unfoldable pub set_article_field : Text → Text → KnowledgeArticle → Option KnowledgeArticle
  set_article_field key raw k =
      if is_field key (codes "id")
      then (do x ← decode_string shape k.id raw; some (record k { id = x }))
      else if is_field key (codes "title")
      then (do x ← decode_string shape k.title raw; some (record k { title = x }))
      else if is_field key (codes "content")
      then (do x ← decode_string shape k.content raw; some (record k { content = x }))
      else if is_field key (codes "tags")
      then (do x ← decode_list shape (decode_string shape []) raw; some (record k { tags = x }))
      else some k

  unfoldable pub set_init_field : Text → Text → InitializeResult → Option InitializeResult
  set_init_field key raw r =
      if is_field key (codes "instructions")
      then (do x ← decode_string shape r.instructions raw; some (record r { instructions = x }))
      else if is_field key (codes "glossary")
      then (do
        x ← decode_list shape (decode_struct shape set_glossary_field no_entry) raw
        some (record r { glossary = x }))
      else if is_field key (codes "knowledge_articles")
      then (do
        x ← decode_list shape (decode_struct shape set_article_field no_article) raw
        some (record r { knowledge_articles = x }))
      else some r

  unfoldable pub decode_init : Text → Option InitializeResult
  decode_init =
      decode_struct shape set_init_field
        (record { instructions = []; glossary = []; knowledge_articles = [] })
