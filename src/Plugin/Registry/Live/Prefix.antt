-- ===== src/Plugin/Registry/Live/Prefix.antt =====
-- Which announcements lose their "[offline] " mark when a server is back.
use mcp_plugin.Base.Tests.{◌≡◌, ap, ◌∙◌, ◌++◌, true, append_assoc}
use mcp_plugin.Base.Text.{Text, has_prefix, has_prefix-append, cut_prefix-append, trim_prefix}
use mcp_plugin.Plugin.Types.{ActionMsg, separator}
use mcp_plugin.Plugin.Registry.Meta.{action_name}
use mcp_plugin.Plugin.Registry.Build.{offline_mark}
use mcp_plugin.Plugin.Registry.Live.{strip_mark}

trim_prefix-append : (p s : Text) → trim_prefix (p ++ s) p ≡ s
unfolding trim_prefix
trim_prefix-append p s = rw (cut_prefix-append p s, trim_prefix)

strip_mark_of_prefix :
    (server rest desc : Text) (a : ActionMsg)
    → a.name ≡ server ++ (separator ++ rest)
    → a.description ≡ offline_mark ++ desc
    → (strip_mark server a).description ≡ desc
unfolding strip_mark
strip_mark_of_prefix server rest desc a name marked =
    let starts : has_prefix a.name (server ++ separator) ≡ true =
      rw name (
        rw (← append_assoc server separator rest) (has_prefix-append (server ++ separator) rest)) in
    rw (starts, strip_mark)
      (ap (λ (t : Text). trim_prefix t offline_mark) marked ∙ trim_prefix-append offline_mark desc)

-- When a server is back, each of its announced actions loses exactly the mark.
pub strip_mark_own :
    (server tool desc : Text) (a : ActionMsg)
    → a.name ≡ action_name server tool
    → a.description ≡ offline_mark ++ desc
    → (strip_mark server a).description ≡ desc
strip_mark_own server tool desc a name marked = strip_mark_of_prefix server tool desc a name marked

-- An action of another server loses its mark as well, offline or not, if that server's name is
-- the first server's followed by "__" and more.
pub strip_mark_other :
    (server more tool desc : Text) (a : ActionMsg)
    → a.name ≡ action_name (server ++ (separator ++ more)) tool
    → a.description ≡ offline_mark ++ desc
    → (strip_mark server a).description ≡ desc
strip_mark_other server more tool desc a name marked =
    strip_mark_of_prefix server (more ++ (separator ++ tool)) desc a
      (name ∙ append_assoc server (separator ++ more) (separator ++ tool)) marked
