-- ===== src/Dyninst/Magic/Addresses.antt =====
-- Where external functions end up (tools/mcsema_disass/dyninst/MagicSection.cpp and MagicSection.h).
use mcsema.Prelude.{
  and_then, append-nil, append_assoc, ℕ, ◌+◌, ◌^◌, ◌≤◌, ◌<◌, ◌≡◌, ◌≢◌, refl, sym, ◌∙◌, ap, Option,
  none, some, List, [], ◌∷◌, ◌++◌, arith, ◌==◌, ==_ne, if◌then◌else◌, add64, add64-eq,
  none_not_some,
}
use mcsema.Prelude.Maps.{find?, or_else, IsSorted, find?-emplace, emplace-IsSorted}
use mcsema.Dyninst.Magic.{
  MagicSection, init, alloc_space, when_started, add_function, write_external_function,
  write_external_functions, or_zero, get_allocated, find_function, find_at, get_external_function,
}

-- The addresses handed out from `next` on, the place of a function among them, and their end.
abbrev pub slots : (next ptr : ℕ) → List ℕ → List ℕ
slots next ptr [] = []
slots next ptr (ea ∷ eas) = next ∷ slots (next + ptr) ptr eas

abbrev pub slot_of : ℕ → (next ptr : ℕ) → List ℕ → Option ℕ
slot_of real next ptr [] = none
slot_of real next ptr (ea ∷ eas) =
    if ea == real then some next else slot_of real (next + ptr) ptr eas

abbrev pub end_of : (next ptr : ℕ) → List ℕ → ℕ
end_of next ptr [] = next
end_of next ptr (ea ∷ eas) = end_of (next + ptr) ptr eas

end_of_bound : (next ptr : ℕ) (eas : List ℕ) → next ≤ end_of next ptr eas
end_of_bound next ptr [] = omega arith
end_of_bound next ptr (ea ∷ eas) = omega (arith, end_of_bound (next + ptr) ptr eas)

-- What writing functions makes of a section whose next address is `next`.
record Written (eas : List ℕ) (next : ℕ) (m n : MagicSection) : Type 0 where
  finds :
      (real : ℕ)
      → find? real n.real_to_imag
        ≡ or_else (find? real m.real_to_imag) (slot_of real next m.ptr_byte_size eas)
  funcs : n.ext_funcs ≡ m.ext_funcs ++ slots next m.ptr_byte_size eas

or_else-none : (o : Option ℕ) → o ≡ or_else o none
unfolding or_else
or_else-none none = refl
or_else-none (some a) = refl

or_else_step :
    (o : Option ℕ) (real ea next : ℕ) (d : Option ℕ)
    → or_else (or_else o (if ea == real then some next else none)) d
      ≡ or_else o (if ea == real then some next else d)
unfolding or_else
or_else_step none real ea next d = ground arith
or_else_step (some a) real ea next d = refl

write_one :
    (ea : ℕ) (m : MagicSection)
    → m.start_ea ≢ 0
    → write_external_function ea m ≡ some (add_function ea m)
unfolding write_external_function when_started
write_one ea m z = rw (==_ne m.start_ea 0 z) refl

write_step :
    (ea : ℕ) (eas : List ℕ) (m : MagicSection)
    → m.start_ea ≢ 0
    → write_external_functions (ea ∷ eas) m ≡ write_external_functions eas (add_function ea m)
unfolding write_external_functions
write_step ea eas m z =
    ap (λ o. and_then o (λ n. write_external_functions eas n)) (write_one ea m z)

Written-step :
    (ea : ℕ) (eas : List ℕ) (next : ℕ) (m n : MagicSection)
    → IsSorted m.real_to_imag
    → add64 m.start_ea m.size ≡ next
    → Written eas (next + m.ptr_byte_size) (add_function ea m) n
    → Written (ea ∷ eas) next m n
unfolding add_function alloc_space
Written-step ea eas next m n o here h = record {
  finds = λ real.
      h.finds real
      ∙ ap (λ d. or_else d (slot_of real (next + m.ptr_byte_size) m.ptr_byte_size eas))
          (find?-emplace real ea (add64 m.start_ea m.size) m.real_to_imag o
            ∙ ap (λ k. or_else (find? real m.real_to_imag) (if ea == real then some k else none))
                here)
      ∙ or_else_step (find? real m.real_to_imag) real ea next
          (slot_of real (next + m.ptr_byte_size) m.ptr_byte_size eas);
  funcs =
      h.funcs
      ∙ ap (λ k. (m.ext_funcs ++ k ∷ []) ++ slots (next + m.ptr_byte_size) m.ptr_byte_size eas) here
      ∙ append_assoc m.ext_funcs (next ∷ []) (slots (next + m.ptr_byte_size) m.ptr_byte_size eas);
}

write_external_functions-Written :
    (eas : List ℕ) (next : ℕ) (m : MagicSection)
    → m.start_ea ≢ 0
    → IsSorted m.real_to_imag
    → m.start_ea + m.size ≡ next
    → end_of next m.ptr_byte_size eas < 2 ^ 64
    → (n : MagicSection) × (write_external_functions eas m ≡ some n) × Written eas next m n
write_external_functions-Written [] next m z o e w = (
  m,
  unfold write_external_functions in refl,
  record {
    finds = λ real. or_else-none (find? real m.real_to_imag);
    funcs = sym (append-nil m.ext_funcs);
  },
)
write_external_functions-Written (ea ∷ eas) next m z o e w =
    let bound = end_of_bound (next + m.ptr_byte_size) m.ptr_byte_size eas in
    let grown : add64 m.size m.ptr_byte_size ≡ m.size + m.ptr_byte_size =
      add64-eq m.size m.ptr_byte_size (omega arith) in
    let here : add64 m.start_ea m.size ≡ next = add64-eq m.start_ea m.size (omega arith) ∙ e in
    let (n, q, h) =
      write_external_functions-Written eas (next + m.ptr_byte_size) (add_function ea m)
        (unfold add_function alloc_space in z)
        (unfold add_function alloc_space in
          emplace-IsSorted ea (add64 m.start_ea m.size) m.real_to_imag o)
        (unfold add_function alloc_space in omega (arith, grown, e))
        (unfold add_function alloc_space in w) in
    (n, write_step ea eas m z ∙ q, Written-step ea eas next m n o here h)

find_function_slot :
    (real next ptr ea : ℕ) (eas : List ℕ)
    → slot_of real next ptr eas ≡ some ea
    → find_function ea (slots next ptr eas) ≡ some ea
unfolding find_function
find_function_slot real next ptr ea [] h = absurd (none_not_some h)
find_function_slot real next ptr ea (x ∷ eas) h =
    ground (arith, find_function_slot real (next + ptr) ptr ea eas)

found_at :
    (o : Option ℕ) (real start_ea ptr : ℕ) (eas : List ℕ)
    → slot_of real start_ea ptr eas ≡ o
    → find_at o (slots start_ea ptr eas) ≡ o
unfolding find_at
found_at none real start_ea ptr eas e = refl
found_at (some ea) real start_ea ptr eas e = find_function_slot real start_ea ptr ea eas e

found_function :
    (real start_ea ptr : ℕ) (eas : List ℕ) (m : MagicSection)
    → find? real m.real_to_imag ≡ slot_of real start_ea ptr eas
    → m.ext_funcs ≡ slots start_ea ptr eas
    → get_external_function real m ≡ slot_of real start_ea ptr eas
unfolding get_external_function
found_function real start_ea ptr eas m e f =
    ap (λ o. find_at o m.ext_funcs) e
    ∙ ap (find_at (slot_of real start_ea ptr eas)) f
    ∙ found_at (slot_of real start_ea ptr eas) real start_ea ptr eas refl

-- Written one after the other into a fresh section that does not start at 0 and has room for them,
-- external functions get consecutive addresses of a pointer each. GetAllocated gives for a function
-- the first that was handed out for it, and 0 if there is none, and GetExternalFunction finds the
-- function at that address.
pub write_external_functions_lem :
    (start_ea ptr : ℕ) (eas : List ℕ)
    → start_ea ≢ 0
    → end_of start_ea ptr eas < 2 ^ 64
    → (m : MagicSection) × (write_external_functions eas (init start_ea ptr) ≡ some m)
      × (m.ext_funcs ≡ slots start_ea ptr eas)
      × ((real : ℕ)
          → (get_allocated real m ≡ or_zero (slot_of real start_ea ptr eas))
            × (get_external_function real m ≡ slot_of real start_ea ptr eas))
write_external_functions_lem start_ea ptr eas z w =
    let (m, q, h) =
      write_external_functions-Written eas start_ea (init start_ea ptr) (unfold init in z)
        (unfold init in tt) (unfold init in omega arith) (unfold init in w) in
    let funcs : m.ext_funcs ≡ slots start_ea ptr eas = h.funcs ∙ (unfold init in refl) in
    let finds : (real : ℕ) → find? real m.real_to_imag ≡ slot_of real start_ea ptr eas =
      λ real. h.finds real ∙ (unfold init find? or_else in refl) in
    (
      m,
      q,
      funcs,
      λ real. (
        unfold get_allocated in ap or_zero (finds real),
        found_function real start_ea ptr eas m (finds real) funcs,
      ),
    )
