-- ===== src/Dyninst/Context.antt =====
-- What the Dyninst front end knows, and the cross-references that it writes: `CrossXref` and
-- `DisassContext` of tools/mcsema_disass/dyninst/Util.h. A fact of the context is its name; a message
-- of a segment is its place in the list of all that were written, and so is a pointer to it.
pub mod Written
use mcsema.Prelude.{
  ℕ, Bool, true, false, Option, none, some, List, [], ◌∷◌, ◌++◌, ◌==◌, if◌then◌else◌, length, min,
  suc,
}
use mcsema.Prelude.Maps.{Map, find?, emplace}
use mcsema.Dyninst.Sections.{Text}

-- `CrossXref` of a segment.
pub record CrossXref : Type 0 where
  pub ea : ℕ
  pub target_ea : ℕ
  pub segment : ℕ
  pub target_name : Text

-- `DataReference` of mcsema/CFG/CFG.proto, with the segment that it was added to.
pub record DataReference : Type 0 where
  pub segment : ℕ
  pub ea : ℕ
  pub width : ℕ
  pub target_ea : ℕ

pub record DisassContext : Type 0 where
  pub func_map : Map Text
  pub global_vars : Map Text
  pub external_vars : Map Text
  pub segment_vars : Map Text
  pub external_funcs : Map Text
  pub data_xrefs : Map ℕ
  pub written : List DataReference

-- `WriteDataXref`
pub write_data_xref : CrossXref → (width : ℕ) → DataReference
write_data_xref xref width = record {
  segment = xref.segment;
  ea = xref.ea;
  width = width;
  target_ea = xref.target_ea;
}

-- `WriteAndAccount`
unfoldable pub write_and_account : CrossXref → (width : ℕ) → DisassContext → DisassContext
unfolding write_data_xref
write_and_account xref width ctx = record ctx {
  written = ctx.written ++ write_data_xref xref (min width 8) ∷ [];
  data_xrefs = emplace xref.ea (length ctx.written) ctx.data_xrefs;
}

-- `FishForXref`: the reference under its new name, and the context, if there is a fact.
unfoldable pub fish : CrossXref → Option Text → DisassContext → Option (CrossXref × DisassContext)
unfolding write_and_account
fish xref none ctx = none
fish xref (some name) ctx =
    let named : CrossXref = record xref { target_name = name } in
    some (named, write_and_account named 8 ctx)

unfoldable pub fish_for_xref :
    Map Text → CrossXref → DisassContext → Option (CrossXref × DisassContext)
unfolding fish
fish_for_xref facts xref ctx = fish xref (find? xref.target_ea facts) ctx

-- The first kind of facts that has the target.
abbrev pub or_fish :
    Option (CrossXref × DisassContext)
    → Option (CrossXref × DisassContext)
    → Option (CrossXref × DisassContext)
or_fish (some caught) rest = some caught
or_fish none rest = rest

-- `GetLastXref`: the place of the last message of a segment.
pub last_xref : (segment : ℕ) → (place : ℕ) → List DataReference → Option ℕ → Option ℕ
last_xref segment place [] last = last
last_xref segment place (message ∷ messages) last =
    last_xref segment (suc place) messages (if message.segment == segment then some place else last)

pub account_last : (ea : ℕ) → Option ℕ → DisassContext → DisassContext
account_last ea none ctx = ctx
account_last ea (some place) ctx = record ctx { data_xrefs = emplace ea place ctx.data_xrefs }

unfoldable pub account : Option (CrossXref × DisassContext) → Option DisassContext
unfolding last_xref account_last
account none = none
account (some (xref, ctx)) =
    some (account_last xref.ea (last_xref xref.segment 0 ctx.written none) ctx)

-- `HandleDataXref`
unfoldable pub handle_data_xref : CrossXref → DisassContext → Option DisassContext
unfolding fish_for_xref account
handle_data_xref xref ctx = account (
    or_fish (fish_for_xref ctx.global_vars xref ctx) (
      or_fish (fish_for_xref ctx.external_funcs xref ctx) (
        or_fish (fish_for_xref ctx.external_vars xref ctx) (
          or_fish (fish_for_xref ctx.segment_vars xref ctx)
            (fish_for_xref ctx.func_map xref ctx)))))
