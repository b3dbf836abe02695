-- ===== src/Dyninst/Context/Written.antt =====
-- The references that are written one after the other (tools/mcsema_disass/dyninst/Util.h).
use mcsema.Prelude.{
  ℕ, ◌+◌, ◌<◌, ◌≤◌, ◌≡◌, refl, sym, ◌∙◌, ap, subst, Option, none, some, List, [], ◌∷◌, ◌++◌, arith,
  append_assoc, append-nil, none_not_some, some_eq,
}
use mcsema.Prelude.Maps.{find?}
use mcsema.Dyninst.Sections.{Text}
use mcsema.Dyninst.Context.{
  CrossXref, DataReference, DisassContext, write_data_xref, write_and_account, fish, fish_for_xref,
  or_fish, last_xref, account_last, account, handle_data_xref,
}

-- The references that were written after others: each of eight bytes, apart and in order, starting
-- between two addresses.
abbrev pub Spaced : (lo hi : ℕ) → List DataReference → Type 0
Spaced lo hi [] = Unit
Spaced lo hi (x ∷ xs) = (lo ≤ x.ea) × (x.ea < hi) × (x.width ≡ 8) × Spaced (x.ea + 8) hi xs

pub record Wrote (before after : DisassContext) (lo hi : ℕ) : Type 0 where
  pub new : List DataReference
  pub written : after.written ≡ before.written ++ new
  pub spaced : Spaced lo hi new

-- One reference of eight bytes at an address.
pub record WroteOne (before after : DisassContext) (ea : ℕ) : Type 0 where
  message : DataReference
  written : after.written ≡ before.written ++ message ∷ []
  at : message.ea ≡ ea
  wide : message.width ≡ 8
  pub globals : after.global_vars ≡ before.global_vars

Spaced-lower :
    (lo lo1 hi : ℕ) (xs : List DataReference) → lo ≤ lo1 → Spaced lo1 hi xs → Spaced lo hi xs
Spaced-lower lo lo1 hi [] l s = tt
Spaced-lower lo lo1 hi (x ∷ xs) l s = (omega (arith, l, s.0), s.1, s.2, s.3)

pub Wrote-nothing :
    (before after : DisassContext) (lo hi : ℕ)
    → after.written ≡ before.written
    → Wrote before after lo hi
Wrote-nothing before after lo hi e = record {
  new = [];
  written = e ∙ sym (append-nil before.written);
  spaced = tt;
}

-- A round that wrote at most one reference at its address, and then the rest.
pub Wrote-one :
    (before middle after : DisassContext) (lo hi : ℕ)
    → WroteOne before middle lo
    → lo < hi
    → Wrote middle after (lo + 8) hi
    → Wrote before after lo hi
Wrote-one before middle after lo hi one l rest = record {
  new = one.message ∷ rest.new;
  written =
      rest.written ∙ rw (one.written) (append_assoc before.written (one.message ∷ []) rest.new);
  spaced = (
    omega (arith, one.at),
    omega (arith, one.at, l),
    one.wide,
    subst (λ a. Spaced (a + 8) hi rest.new) (sym one.at) rest.spaced,
  );
}

pub Wrote-later :
    (before middle after : DisassContext) (lo lo1 hi : ℕ)
    → middle.written ≡ before.written
    → lo ≤ lo1
    → Wrote middle after lo1 hi
    → Wrote before after lo hi
Wrote-later before middle after lo lo1 hi e l rest = record {
  new = rest.new;
  written = rest.written ∙ ap (λ (w : List DataReference). w ++ rest.new) e;
  spaced = Spaced-lower lo lo1 hi rest.new l rest.spaced;
}

-- What a fact catches.
abbrev IsCatch : DisassContext → (ea : ℕ) → Option (CrossXref × DisassContext) → Type 0
IsCatch ctx ea none = Unit
IsCatch ctx ea (some (x, c)) = WroteOne ctx c ea

pub write_and_account-WroteOne :
    (xref : CrossXref) (ctx : DisassContext) → WroteOne ctx (write_and_account xref 8 ctx) xref.ea
unfolding write_and_account write_data_xref
write_and_account-WroteOne xref ctx = record {
  message = write_data_xref xref 8;
  written = refl;
  at = refl;
  wide = refl;
  globals = refl;
}

fish-IsCatch :
    (xref : CrossXref) (fact : Option Text) (ctx : DisassContext)
    → IsCatch ctx xref.ea (fish xref fact ctx)
unfolding fish
fish-IsCatch xref none ctx = tt
fish-IsCatch xref (some name) ctx =
    write_and_account-WroteOne (record xref { target_name = name }) ctx

or_fish-IsCatch :
    (ctx : DisassContext) (ea : ℕ) (first rest : Option (CrossXref × DisassContext))
    → IsCatch ctx ea first
    → IsCatch ctx ea rest
    → IsCatch ctx ea (or_fish first rest)
or_fish-IsCatch ctx ea none rest h k = k
or_fish-IsCatch ctx ea (some caught) rest h k = h

account_last_written :
    (ea : ℕ) (place : Option ℕ) (ctx : DisassContext)
    → (account_last ea place ctx).written ≡ ctx.written
unfolding account_last
account_last_written ea none ctx = refl
account_last_written ea (some place) ctx = refl

account_last_globals :
    (ea : ℕ) (place : Option ℕ) (ctx : DisassContext)
    → (account_last ea place ctx).global_vars ≡ ctx.global_vars
unfolding account_last
account_last_globals ea none ctx = refl
account_last_globals ea (some place) ctx = refl

account-WroteOne :
    (ctx : DisassContext) (ea : ℕ) (caught : Option (CrossXref × DisassContext))
    (after : DisassContext)
    → IsCatch ctx ea caught
    → account caught ≡ some after
    → WroteOne ctx after ea
unfolding account
account-WroteOne ctx ea none after h e = absurd (none_not_some e)
account-WroteOne ctx ea (some (x, c)) after h e =
    subst (λ d. WroteOne ctx d ea) (some_eq e)
      (record {
        message = h.message;
        written = account_last_written x.ea (last_xref x.segment 0 c.written none) c ∙ h.written;
        at = h.at;
        wide = h.wide;
        globals = account_last_globals x.ea (last_xref x.segment 0 c.written none) c ∙ h.globals;
      })

pub handle_data_xref-WroteOne :
    (xref : CrossXref) (ctx after : DisassContext)
    → handle_data_xref xref ctx ≡ some after
    → WroteOne ctx after xref.ea
unfolding handle_data_xref fish_for_xref
handle_data_xref-WroteOne xref ctx after e =
    account-WroteOne ctx xref.ea _ after
      (or_fish-IsCatch ctx xref.ea _ _
        (fish-IsCatch xref (find? xref.target_ea ctx.global_vars) ctx)
        (or_fish-IsCatch ctx xref.ea _ _
          (fish-IsCatch xref (find? xref.target_ea ctx.external_funcs) ctx)
          (or_fish-IsCatch ctx xref.ea _ _
            (fish-IsCatch xref (find? xref.target_ea ctx.external_vars) ctx)
            (or_fish-IsCatch ctx xref.ea _ _
              (fish-IsCatch xref (find? xref.target_ea ctx.segment_vars) ctx)
              (fish-IsCatch xref (find? xref.target_ea ctx.func_map) ctx)))))
      e
