-- ===== src/Plugin/Handler/Refresh/Single.antt =====
-- Refreshes are single-flight.
use mcp_plugin.Base.Tests.{
  ◌≤◌, ◌≡◌, refl, sym, ap, ◌∙◌, Bool, true, false, List, [], ◌∷◌, ◌++◌, arith, length,
  length-append,
}
use mcp_plugin.Base.Text.{Text}
use mcp_plugin.Plugin.Types.{Registry}
use mcp_plugin.Plugin.Upstream.{Host}
use mcp_plugin.Plugin.Handler.Refresh.{
  Handler, set_registry, coalesces, refresh_commit, refresh_end,
}
use mcp_plugin.Plugin.Handler.Refresh.System.{
  Phase, building, clearing, System, Step, configured, begun, committed, cleared, reconnected,
  stripped, Reach, here, next,
}

abbrev pub busy : List Phase → Bool
busy [] = false
busy (t ∷ ts) = true

-- At most one refresh is under way, and the flag says whether one is.
pub record IsSingle (s : System) : Type 0 where
  pub one : length s.tasks ≤ 1
  pub flag : s.handler.refreshing ≡ busy s.tasks

refreshing-commit : (r : Registry) (h : Handler) → (refresh_commit r h).refreshing ≡ h.refreshing
unfolding refresh_commit
refreshing-commit r h = ground arith

idle_of_begun : (h : Handler) → coalesces h ≡ false → h.refreshing ≡ false
unfolding coalesces
idle_of_begun h free = ground arith

busy_middle : (before after : List Phase) (t : Phase) → busy (before ++ t ∷ after) ≡ true
busy_middle [] after t = refl
busy_middle (x ∷ before) after t = refl

no_tasks : (ts : List Phase) → busy ts ≡ false → length ts ≡ 0
no_tasks [] h = refl
no_tasks (t ∷ ts) h = cc

nothing_else :
    (before after : List Phase) (t : Phase)
    → length (before ++ t ∷ after) ≤ 1
    → before ++ after ≡ []
nothing_else [] [] t h = refl
nothing_else [] (x ∷ after) t h = absurd (omega arith)
nothing_else (x ∷ before) after t h = absurd (omega (arith, length-append before (t ∷ after)))

module _ {W : Type 0} (host : Host W) (cache_dir : Text) where
  Step-IsSingle : {s t : System} → Step host cache_dir s t → IsSingle s → IsSingle t
  Step-IsSingle (configured cfgs r b n) i =
      unfold set_registry in record { one = i.one; flag = i.flag }
  Step-IsSingle {s} (begun free) i = record {
    one = omega (arith, no_tasks s.tasks (sym i.flag ∙ idle_of_begun s.handler free));
    flag = refl;
  }
  Step-IsSingle {s} (committed before after cfgs r e b) i = record {
    one = omega (
      arith,
      ap (length {A = Phase}) e,
      length-append before (building cfgs ∷ after),
      length-append before (clearing ∷ after),
    );
    flag =
        refreshing-commit r s.handler
        ∙ i.flag
        ∙ ap busy e
        ∙ busy_middle before after (building cfgs)
        ∙ sym (busy_middle before after clearing);
  }
  Step-IsSingle {s} (cleared before after e) i =
      let fits : length (before ++ clearing ∷ after) ≤ 1 = rw (← e) i.one in
      rw (nothing_else before after clearing fits)
        (record { one = omega arith; flag = unfold refresh_end in refl })
  Step-IsSingle (reconnected r cfg w e) i = record { one = i.one; flag = i.flag }
  Step-IsSingle (stripped r server e) i = record { one = i.one; flag = i.flag }

  -- However calls of the handler interleave, at most one refresh is building at a time, and once the
  -- last has returned the flag is clear: no refresh blocks the later ones.
  pub Reach-IsSingle : {s : System} → Reach host cache_dir s → IsSingle s
  Reach-IsSingle here = record { one = omega arith; flag = refl }
  Reach-IsSingle (next r st) = Step-IsSingle st (Reach-IsSingle r)
