-- ===== src/Cfg/Loader/Whole.antt =====
-- The maps from addresses after the four loops (mcsema/CFG/CFG.cpp, `ReadProtoBuf`).
use mcsema.Prelude.{ℕ, ◌≡◌, subst, []}
use mcsema.Cfg.Types.{ok, >>=-inverts, ok-eq}
use mcsema.Cfg.Objects.{Objects, no_objects}
use mcsema.Cfg.Loader.{CfgModule, load_objects}
use mcsema.Cfg.Loader.Functions.{Libraries, load_functions}
use mcsema.Cfg.Loader.Externals.{Platform, load_external_functions}
use mcsema.Cfg.Loader.Variables.{load_external_variables}
use mcsema.Cfg.Loader.Kept.{
  IsLoaded, no_objects-IsLoaded, load_functions-IsLoaded, load_external_functions-IsLoaded,
}
use mcsema.Cfg.Loader.KeptVariables.{load_each_variable-IsLoaded}
use mcsema.Cfg.Loader.KeptSegments.{load_segments-IsLoaded}

-- When the four loops have ended, every address in the maps of functions, of variables and of
-- segments leads to an object that is there and that is at this address, and no object has a number
-- that is still to be given.
pub load_objects-IsLoaded :
    (k : ℕ) (libs : Libraries) (p : Platform) (cfg : CfgModule) (out : Objects)
    → load_objects k libs p cfg ≡ ok out
    → IsLoaded out
unfolding load_objects
load_objects-IsLoaded k libs p cfg out q =
    let (a, e1, rest1) = >>=-inverts (load_functions libs cfg.funcs no_objects) _ q in
    let (b, e2, rest2) =
      >>=-inverts (load_external_functions k libs p cfg.external_funcs a) _ rest1 in
    let (c, e3, rest3) = >>=-inverts (load_external_variables k cfg.external_vars b) _ rest2 in
    let with_functions =
      load_functions-IsLoaded libs cfg.funcs no_objects a no_objects-IsLoaded e1 in
    let with_externals =
      load_external_functions-IsLoaded k libs p cfg.external_funcs a b with_functions e2 in
    subst IsLoaded (ok-eq rest3) (
      load_segments-IsLoaded c.1 cfg.segments c.0 (
        unfold load_external_variables in
        load_each_variable-IsLoaded k cfg.external_vars [] b c with_externals e3))
