-- ===== src/Cfg/Decls/Recovered.antt =====
-- When a declaration is recovered, and what it is then (mcsema/CFG/CFG.cpp, `RecoverFunctionDecl`).
use mcsema.Prelude.{
  ℕ, ◌≡◌, ◌≢◌, refl, sym, ◌∙◌, ◌⊎◌, inl, inr, Option, none, some, List, [], ◌∷◌, All, and_then,
  map_all, none_not_some, Option-cases,
}
use mcsema.Cfg.Names.{Bytes}
use mcsema.Cfg.Decls.{
  CfgMemory, CfgValueDecl, CfgFunctionDecl, FunctionDecl, Host, LlAttributes, place_value,
  recover_value_decl, recover_param_decl, stack_pointer_at, recover_stack_pointer, build_decl,
  recover_function_decl,
}
use mcsema.Cfg.Decls.Specified.{AsSpecified, build_decl-AsSpecified}

module _ (host : Host) where
  -- The specification names known things: a register for the place of a value, and a type.
  abbrev pub IsKnown : Bytes → Type 0
  IsKnown name = host.register_by_name name ≢ none

  abbrev pub HasPlace : Option CfgMemory → Option Bytes → Type 0
  HasPlace (some memory) register = IsKnown memory.register
  HasPlace none (some register) = IsKnown register
  HasPlace none none = ⊥

  abbrev pub IsSound : CfgValueDecl → Type 0
  IsSound decl = (host.parse_type decl.type ≢ none) × HasPlace decl.memory decl.register

  abbrev HasStackPointer : Option CfgValueDecl → Type 0
  HasStackPointer none = ⊥
  HasStackPointer (some decl) = HasPlace decl.memory decl.register

  pub record IsSpecified (cfg : CfgFunctionDecl) : Type 0 where
    pub stack_pointer : HasStackPointer cfg.return_stack_pointer
    pub returns : All IsSound cfg.return_values
    pub params : All IsSound cfg.parameters
    pub address : IsSound cfg.return_address

-- A step has a result exactly if a condition holds.
data Step {ℓ} {A : Type ℓ} (Cond : Type 0) (o : Option A) : Type ℓ where
  taken : Cond → (a : A) → o ≡ some a → Step Cond o
  not_taken : ¬ Cond → o ≡ none → Step Cond o

Step-named : (host : Host) (name : Bytes) → Step (IsKnown host name) (host.register_by_name name)
Step-named host name = elim (Option-cases (host.register_by_name name)) [
  | inl e ↦ not_taken (λ k. k e) e
  | inr (r, e) ↦ taken (λ n. none_not_some (sym n ∙ e)) r e
]

Step-then {ι κ} :
    {A : Type ι} {B : Type κ} {P Q R : Type 0} (o : Option A) (next : A → Option B)
    → Step P o
    → ((a : A) → o ≡ some a → Step Q (next a))
    → (P → Q → R)
    → (R → P × Q)
    → Step R (and_then o next)
Step-then o next (not_taken bad e) f both back = not_taken (λ r. bad (back r).0) (rw e)
Step-then o next (taken p a e) f both back = elim (f a e) [
  | taken q b e' ↦ taken (both p q) b (rw (e, e'))
  | not_taken bad e' ↦ not_taken (λ r. bad (back r).1) (rw (e, e'))
]

Step-some {ℓ} : {A : Type ℓ} (a : A) → Step (Unit {0}) (some a)
Step-some a = taken tt a refl

-- Followed by a step that cannot fail.
Step-pure {ι κ} :
    {A : Type ι} {B : Type κ} {P : Type 0} (o : Option A) (f : A → B)
    → Step P o
    → Step P (and_then o (λ a. some (f a)))
Step-pure o f s = Step-then o (λ a. some (f a)) s (λ a e. Step-some (f a)) (λ p q. p) (λ p. (p, tt))

place_value-Step :
    (host : Host) (type : ℕ) (memory : Option CfgMemory) (register : Option Bytes)
    → Step (HasPlace host memory register) (place_value host type memory register)
unfolding place_value
place_value-Step host type (some memory) register = Step-pure _ _ (Step-named host memory.register)
place_value-Step host type none (some register) = Step-pure _ _ (Step-named host register)
place_value-Step host type none none = not_taken (λ h. h) refl

recover_value_decl-Step :
    (host : Host) (decl : CfgValueDecl) → Step (IsSound host decl) (recover_value_decl host decl)
unfolding recover_value_decl
recover_value_decl-Step host decl =
    Step-then (host.parse_type decl.type) _ typed
      (λ type e. place_value-Step host type decl.memory decl.register) (λ p q. (p, q)) (λ h. h)
  where
    typed : Step (host.parse_type decl.type ≢ none) (host.parse_type decl.type)
    typed = elim (Option-cases (host.parse_type decl.type)) [
      | inl e ↦ not_taken (λ k. k e) e
      | inr (r, e) ↦ taken (λ n. none_not_some (sym n ∙ e)) r e
    ]

recover_param_decl-Step :
    (host : Host) (decl : CfgValueDecl) → Step (IsSound host decl) (recover_param_decl host decl)
unfolding recover_param_decl
recover_param_decl-Step host decl = Step-pure _ _ (recover_value_decl-Step host decl)

stack_pointer_at-Step :
    (host : Host) (memory : Option CfgMemory) (register : Option Bytes)
    → Step (HasPlace host memory register) (stack_pointer_at host memory register)
unfolding stack_pointer_at
stack_pointer_at-Step host (some memory) register = Step-pure _ _ (Step-named host memory.register)
stack_pointer_at-Step host none (some register) = Step-pure _ _ (Step-named host register)
stack_pointer_at-Step host none none = not_taken (λ h. h) refl

recover_stack_pointer-Step :
    (host : Host) (decl : Option CfgValueDecl)
    → Step (HasStackPointer host decl) (recover_stack_pointer host decl)
unfolding recover_stack_pointer
recover_stack_pointer-Step host none = not_taken (λ h. h) refl
recover_stack_pointer-Step host (some decl) = stack_pointer_at-Step host decl.memory decl.register

map_all-Step {κ} :
    {B : Type κ} (Cond : CfgValueDecl → Type 0) (step : CfgValueDecl → Option B)
    → ((decl : CfgValueDecl) → Step (Cond decl) (step decl))
    → (decls : List CfgValueDecl) → Step (All Cond decls) (map_all step decls)
map_all-Step Cond step each [] = Step-some []
map_all-Step Cond step each (decl ∷ decls) =
    Step-then (step decl) _ (each decl)
      (λ first e. Step-pure _ _ (map_all-Step Cond step each decls)) (λ p q. (p, q)) (λ h. h)

build_decl-Step :
    (host : Host) (ea : ℕ) (cfg : CfgFunctionDecl) (ll : Option LlAttributes)
    → Step (IsSpecified host cfg) (build_decl host ea cfg ll)
unfolding build_decl
build_decl-Step host ea cfg ll =
    Step-then _ _ (recover_stack_pointer-Step host cfg.return_stack_pointer)
      (λ sp e.
        Step-then _ _
          (map_all-Step (IsSound host) (recover_value_decl host) (recover_value_decl-Step host)
            cfg.return_values)
          (λ returns e1.
            Step-then _ _
              (map_all-Step (IsSound host) (recover_param_decl host) (recover_param_decl-Step host)
                cfg.parameters)
              (λ params e2. Step-pure _ _ (recover_value_decl-Step host cfg.return_address))
              (λ p q. (p, q)) (λ h. h))
          (λ p q. (p, q)) (λ h. h))
      (λ p q. record { stack_pointer = p; returns = q.0; params = q.1.0; address = q.1.1 })
      (λ h. (h.stack_pointer, (h.returns, (h.params, h.address))))

-- If the specification has a stack pointer and every value of it a known type and place, then anvill
-- is asked for a declaration that says what the specification and the function in the module say: the
-- values, with their types, registers and offsets, the names of the parameters, the stack pointer and
-- the flags, and variadic if there are no parameters, and the function gets what anvill answers; if not, the
-- declaration of the function is left alone.
pub recover_function_decl_cases :
    (host : Host) (ea : ℕ) (cfg : CfgFunctionDecl) (ll : Option LlAttributes)
    → (IsSpecified host cfg
        × ((r : FunctionDecl) × AsSpecified host ea cfg ll r
            × (recover_function_decl host ea cfg ll ≡ host.declare_function r)))
      ⊎ (¬ IsSpecified host cfg × (recover_function_decl host ea cfg ll ≡ none))
unfolding recover_function_decl
recover_function_decl_cases host ea cfg ll = elim (build_decl-Step host ea cfg ll) [
  | taken spec r e ↦ inl (spec, (r, build_decl-AsSpecified host ea cfg ll r e, rw e))
  | not_taken bad e ↦ inr (bad, rw e)
]
