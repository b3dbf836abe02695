-- ===== src/Dyninst/Externals/Used.antt =====
-- The used names, and what becomes of the manager's tables
-- (tools/mcsema_disass/dyninst/ExternalFunctionManager.cpp).
use mcsema.Prelude.{
  Bool, ◌||◌, ap, arith, ◌≡◌, refl, ◌∙◌, true, false, Option, none, some, List, [], ◌∷◌, ◌++◌,
  same_text, same_text_eq, same_text_refl, append_assoc, append-nil, Bool-cases, inl, inr,
}
use mcsema.Dyninst.Externals.Definitions.{Text, ExternalFunction}
use mcsema.Dyninst.Externals.Order.{
  has, IsIncreasing, insert_all, insert_all-IsIncreasing, has-insert_all,
}
use mcsema.Dyninst.Externals.{
  Manager, find_func, erase_func, add_external_symbol, remove_external_symbol, is_some, is_external,
  get_external_function, nameless, use_one, use_all, get_all_used, clear_used, mark_as_used,
  insert_name,
}

abbrev known_or_nameless : Text → Option ExternalFunction → ExternalFunction
known_or_nameless name none = nameless name
known_or_nameless name (some f) = f

-- One function for each name, and the names that the table has.
abbrev pub functions_of : List (Text × ExternalFunction) → List Text → List ExternalFunction
functions_of funcs [] = []
functions_of funcs (name ∷ names) =
    known_or_nameless name (find_func name funcs) ∷ functions_of funcs names

abbrev known_name : Text → Option ExternalFunction → List Text
known_name name none = []
known_name name (some f) = name ∷ []

abbrev pub known_of : List (Text × ExternalFunction) → List Text → List Text
known_of funcs [] = []
known_of funcs (name ∷ names) = known_name name (find_func name funcs) ++ known_of funcs names

use_one_lem :
    (name : Text) (found : Option ExternalFunction) (result : List ExternalFunction)
    (unknowns : List Text)
    → use_one name found (result, unknowns)
      ≡ (result ++ known_or_nameless name found ∷ [], unknowns ++ known_name name found)
unfolding use_one
use_one_lem name none result unknowns = rw (append-nil unknowns) refl
use_one_lem name (some f) result unknowns = refl

use_all_lem :
    (funcs : List (Text × ExternalFunction)) (names : List Text) (result : List ExternalFunction)
    (unknowns : List Text)
    → use_all funcs names (result, unknowns)
      ≡ (result ++ functions_of funcs names, unknowns ++ known_of funcs names)
unfolding use_all
use_all_lem funcs [] result unknowns = rw (append-nil result, append-nil unknowns) refl
use_all_lem funcs (name ∷ names) result unknowns =
    rw (use_one_lem name (find_func name funcs) result unknowns) (
      use_all_lem funcs names (result ++ known_or_nameless name (find_func name funcs) ∷ [])
        (unknowns ++ known_name name (find_func name funcs))
      ∙ rw
          (
            append_assoc result (known_or_nameless name (find_func name funcs) ∷ [])
                (functions_of funcs names),
            append_assoc unknowns (known_name name (find_func name funcs)) (known_of funcs names),
          )
          refl)

-- Names that are marked one after the other.
abbrev pub mark_all : List Text → Manager → Manager
mark_all [] m = m
mark_all (name ∷ names) m = mark_all names (mark_as_used name m)

mark_all_lem :
    (names used : List Text) (m : Manager)
    → m.used_funcs ≡ used
    → ((mark_all names m).used_funcs ≡ insert_all names used)
      × ((mark_all names m).external_funcs ≡ m.external_funcs)
unfolding mark_as_used
mark_all_lem [] used m e = (e, refl)
mark_all_lem (name ∷ names) used m e =
    mark_all_lem names (insert_name name used) (mark_as_used name m) (ap (insert_name name) e)

-- After the marks are cleared and names are marked one after the other, GetAllUsed gives the used
-- functions in the order of their names, one for each name that was marked: what the table holds, or
-- a function with nothing but the name. What is added to the list of unknown names are exactly the
-- used names that the table does hold.
pub get_all_used_lem :
    (m : Manager) (names unknowns : List Text)
    → (used : List Text) × IsIncreasing used
      × ((t : Text) → has t used ≡ has t names)
      × (get_all_used (mark_all names (clear_used m)) unknowns
          ≡ (functions_of m.external_funcs used, unknowns ++ known_of m.external_funcs used))
unfolding get_all_used clear_used
get_all_used_lem m names unknowns =
    let (marked, kept) = mark_all_lem names [] (clear_used m) refl in
    (
      insert_all names [],
      insert_all-IsIncreasing names [] tt,
      λ t. has-insert_all t names [] ∙ or_nothing (has t names),
      rw (marked, kept) (use_all_lem m.external_funcs (insert_all names []) [] unknowns),
    )
  where
    or_nothing : (b : Bool) → b || false ≡ b
    or_nothing b = ground arith

find_func-erase_self :
    (name : Text) (funcs : List (Text × ExternalFunction))
    → find_func name (erase_func name funcs) ≡ none
unfolding find_func erase_func
find_func-erase_self name [] = refl
find_func-erase_self name ((other, f) ∷ funcs) = elim (Bool-cases (same_text other name)) [
  | inl e ↦ rw (e) (find_func-erase_self name funcs)
  | inr e ↦ rw (e, e) (find_func-erase_self name funcs)
]

same_text-other :
    (other name word : Text)
    → same_text other name ≡ true
    → same_text name word ≡ false
    → same_text other word ≡ false
same_text-other other name word e f = rw (same_text_eq other name e) f

find_func-erase_other :
    (name word : Text) (funcs : List (Text × ExternalFunction))
    → same_text name word ≡ false
    → find_func word (erase_func name funcs) ≡ find_func word funcs
unfolding find_func erase_func
find_func-erase_other name word [] differ = refl
find_func-erase_other name word ((other, f) ∷ funcs) differ =
    elim (Bool-cases (same_text other name)) [
      | inl e ↦
          rw (e, same_text-other other name word e differ)
            (find_func-erase_other name word funcs differ)
      | inr e ↦ elim (Bool-cases (same_text other word)) [
        | inl w ↦ rw (e, w) refl
        | inr w ↦ rw (e, w) (find_func-erase_other name word funcs differ)
      ]
    ]

-- What a name stands for after a definition is added, is the definition, also where the name had
-- another; after it is removed the name is external no more. Every other name keeps what it has.
pub get_external_function-add_remove :
    (m : Manager) (name : Text) (f : ExternalFunction)
    → (get_external_function (add_external_symbol name f m) name ≡ some f)
      × (is_external (add_external_symbol name f m) name ≡ true)
      × (get_external_function (remove_external_symbol name m) name ≡ none)
      × (is_external (remove_external_symbol name m) name ≡ false)
      × ((word : Text)
          → same_text name word ≡ false
          → (get_external_function (add_external_symbol name f m) word
              ≡ get_external_function m word)
            × (get_external_function (remove_external_symbol name m) word
                ≡ get_external_function m word))
unfolding get_external_function is_external add_external_symbol remove_external_symbol find_func
    is_some
get_external_function-add_remove m name f =
    let gone = find_func-erase_self name m.external_funcs in
    (
      rw (same_text_refl name) refl,
      rw (same_text_refl name) refl,
      gone,
      rw (gone) refl,
      λ word differ. (rw (differ) refl, find_func-erase_other name word m.external_funcs differ),
    )
