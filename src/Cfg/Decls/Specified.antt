-- ===== src/Cfg/Decls/Specified.antt =====
-- What a recovered declaration says, value by value (mcsema/CFG/CFG.cpp, `RecoverFunctionDecl`).
use mcsema.Prelude.{
  ℕ, ◌≡◌, refl, sym, ◌∙◌, ap, subst, ◌||◌, Option, none, some, List, [], ◌∷◌, map_all, some_eq,
  none_not_some, and_then-inverts,
}
use mcsema.Cfg.Names.{Bytes}
use mcsema.Cfg.Decls.{
  CfgMemory, ValueDecl, CfgValueDecl, CfgFunctionDecl, ParameterDecl, FunctionDecl, Host,
  LlAttributes, place_value, recover_value_decl, recover_param_decl, stack_pointer_at,
  recover_stack_pointer, ll_noreturn, ll_variadic, no_params, build_decl, name_or_empty,
}

-- A value stands where the specification has it, memory before a register, and has its type.
abbrev pub IsPlaced : Host → Option CfgMemory → Option Bytes → ValueDecl → Type 0
IsPlaced host (some memory) register v =
    ((reg : ℕ) × (host.register_by_name memory.register ≡ some reg) × (v.mem_reg ≡ some reg))
    × (v.mem_offset ≡ memory.offset)
    × (v.reg ≡ none)
IsPlaced host none (some register) v =
    ((reg : ℕ) × (host.register_by_name register ≡ some reg) × (v.reg ≡ some reg))
    × (v.mem_reg ≡ none)
    × (v.mem_offset ≡ 0)
IsPlaced host none none v = ⊥

abbrev pub IsValue : Host → CfgValueDecl → ValueDecl → Type 0
IsValue host cfg v =
    (host.parse_type cfg.type ≡ some v.type) × IsPlaced host cfg.memory cfg.register v

abbrev pub IsParam : Host → CfgValueDecl → ParameterDecl → Type 0
IsParam host cfg p = (p.name ≡ name_or_empty cfg.name) × IsValue host cfg p.value

-- The stack pointer is the register of the specification, at its offset.
abbrev pub IsStackPointer : Host → Option CfgMemory → Option Bytes → (reg offset : ℕ) → Type 0
IsStackPointer host (some memory) register reg offset =
    (host.register_by_name memory.register ≡ some reg) × (offset ≡ memory.offset)
IsStackPointer host none (some register) reg offset =
    (host.register_by_name register ≡ some reg) × (offset ≡ 0)
IsStackPointer host none none reg offset = ⊥

abbrev pub IsReturnPointer : Host → Option CfgValueDecl → (reg offset : ℕ) → Type 0
IsReturnPointer host none reg offset = ⊥
IsReturnPointer host (some cfg) reg offset = IsStackPointer host cfg.memory cfg.register reg offset

-- Each value of one list for the one at its place in the other, and as many.
abbrev pub Each {κ} :
    {B : Type κ} → (CfgValueDecl → B → Type 0) → List CfgValueDecl → List B → Type 0
Each R [] [] = Unit
Each R (cfg ∷ cfgs) (v ∷ vs) = R cfg v × Each R cfgs vs
Each R _ _ = ⊥

-- The declaration says what the specification and the function in the module say.
pub record AsSpecified (host : Host) (ea : ℕ) (cfg : CfgFunctionDecl) (ll : Option LlAttributes)
    (r : FunctionDecl) : Type 0 where
  pub at_address : r.address ≡ ea
  pub noreturn : r.is_noreturn ≡ cfg.is_noreturn || ll_noreturn ll
  pub variadic : r.is_variadic ≡ (cfg.is_variadic || ll_variadic ll) || no_params r.params
  pub convention : r.calling_convention ≡ cfg.calling_convention
  pub stack_pointer :
      IsReturnPointer host cfg.return_stack_pointer r.return_stack_pointer
        r.return_stack_pointer_offset
  pub returns : Each (IsValue host) cfg.return_values r.returns
  pub params : Each (IsParam host) cfg.parameters r.params
  pub return_address : IsValue host cfg.return_address r.return_address

place_value-IsPlaced :
    (host : Host) (type : ℕ) (memory : Option CfgMemory) (register : Option Bytes) (v : ValueDecl)
    → place_value host type memory register ≡ some v
    → (v.type ≡ type) × IsPlaced host memory register v
unfolding place_value
place_value-IsPlaced host type (some memory) register v e =
    let (reg, e1, last) = and_then-inverts (host.register_by_name memory.register) _ e in
    subst (λ (w : ValueDecl). (w.type ≡ type) × IsPlaced host (some memory) register w)
      (some_eq last) (refl, ((reg, e1, refl), refl, refl))
place_value-IsPlaced host type none (some register) v e =
    let (reg, e1, last) = and_then-inverts (host.register_by_name register) _ e in
    subst (λ (w : ValueDecl). (w.type ≡ type) × IsPlaced host none (some register) w) (some_eq last)
      (refl, ((reg, e1, refl), refl, refl))
place_value-IsPlaced host type none none v e = absurd (none_not_some e)

recover_value_decl-IsValue :
    (host : Host) (cfg : CfgValueDecl) (v : ValueDecl)
    → recover_value_decl host cfg ≡ some v
    → IsValue host cfg v
unfolding recover_value_decl
recover_value_decl-IsValue host cfg v e =
    let (type, e1, rest) = and_then-inverts (host.parse_type cfg.type) _ e in
    let placed = place_value-IsPlaced host type cfg.memory cfg.register v rest in
    (e1 ∙ ap some (sym placed.0), placed.1)

recover_param_decl-IsParam :
    (host : Host) (cfg : CfgValueDecl) (p : ParameterDecl)
    → recover_param_decl host cfg ≡ some p
    → IsParam host cfg p
unfolding recover_param_decl
recover_param_decl-IsParam host cfg p e =
    let (value, e1, last) = and_then-inverts (recover_value_decl host cfg) _ e in
    subst (IsParam host cfg) (some_eq last) (refl, recover_value_decl-IsValue host cfg value e1)

stack_pointer_at-IsStackPointer :
    (host : Host) (memory : Option CfgMemory) (register : Option Bytes) (sp : ℕ × ℕ)
    → stack_pointer_at host memory register ≡ some sp
    → IsStackPointer host memory register sp.0 sp.1
unfolding stack_pointer_at
stack_pointer_at-IsStackPointer host (some memory) register sp e =
    let (reg, e1, last) = and_then-inverts (host.register_by_name memory.register) _ e in
    subst (λ (w : ℕ × ℕ). IsStackPointer host (some memory) register w.0 w.1) (some_eq last)
      (e1, refl)
stack_pointer_at-IsStackPointer host none (some register) sp e =
    let (reg, e1, last) = and_then-inverts (host.register_by_name register) _ e in
    subst (λ (w : ℕ × ℕ). IsStackPointer host none (some register) w.0 w.1) (some_eq last)
      (e1, refl)
stack_pointer_at-IsStackPointer host none none sp e = absurd (none_not_some e)

recover_stack_pointer-IsReturnPointer :
    (host : Host) (cfg : Option CfgValueDecl) (sp : ℕ × ℕ)
    → recover_stack_pointer host cfg ≡ some sp
    → IsReturnPointer host cfg sp.0 sp.1
unfolding recover_stack_pointer
recover_stack_pointer-IsReturnPointer host none sp e = absurd (none_not_some e)
recover_stack_pointer-IsReturnPointer host (some cfg) sp e =
    stack_pointer_at-IsStackPointer host cfg.memory cfg.register sp e

map_all-Each {κ} :
    {B : Type κ} (R : CfgValueDecl → B → Type 0) (step : CfgValueDecl → Option B)
    → ((cfg : CfgValueDecl) (v : B) → step cfg ≡ some v → R cfg v)
    → (cfgs : List CfgValueDecl) (out : List B) → map_all step cfgs ≡ some out
    → Each R cfgs out
map_all-Each R step holds [] out e = subst (Each R []) (some_eq e) tt
map_all-Each R step holds (cfg ∷ cfgs) out e =
    let (v, e1, rest) = and_then-inverts (step cfg) _ e in
    let (vs, e2, last) = and_then-inverts (map_all step cfgs) _ rest in
    subst (Each R (cfg ∷ cfgs)) (some_eq last)
      (holds cfg v e1, map_all-Each R step holds cfgs vs e2)

pub build_decl-AsSpecified :
    (host : Host) (ea : ℕ) (cfg : CfgFunctionDecl) (ll : Option LlAttributes) (r : FunctionDecl)
    → build_decl host ea cfg ll ≡ some r
    → AsSpecified host ea cfg ll r
unfolding build_decl
build_decl-AsSpecified host ea cfg ll r e =
    let (sp, e1, rest1) =
      and_then-inverts (recover_stack_pointer host cfg.return_stack_pointer) _ e in
    let (returns, e2, rest2) =
      and_then-inverts (map_all (recover_value_decl host) cfg.return_values) _ rest1 in
    let (params, e3, rest3) =
      and_then-inverts (map_all (recover_param_decl host) cfg.parameters) _ rest2 in
    let (address, e4, last) =
      and_then-inverts (recover_value_decl host cfg.return_address) _ rest3 in
    subst (AsSpecified host ea cfg ll) (some_eq last) (record {
      at_address = refl;
      noreturn = refl;
      variadic = refl;
      convention = refl;
      stack_pointer = recover_stack_pointer-IsReturnPointer host cfg.return_stack_pointer sp e1;
      returns =
          map_all-Each (IsValue host) (recover_value_decl host) (recover_value_decl-IsValue host)
            cfg.return_values returns e2;
      params =
          map_all-Each (IsParam host) (recover_param_decl host) (recover_param_decl-IsParam host)
            cfg.parameters params e3;
      return_address = recover_value_decl-IsValue host cfg.return_address address e4;
    })
