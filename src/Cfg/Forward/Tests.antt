-- ===== src/Cfg/Forward/Tests.antt =====
-- Three duplicates of one object, resolved (mcsema/CFG/CFG.cpp, `ForwardTo` and `Get`).
use mcsema.Prelude.{ℕ, ◌≡◌, refl, some, arith}
use mcsema.Cfg.Forward.{Forwards, fresh_forwards, set_forward, get, forward_to}
use mcsema.Cfg.Forward.Roots.{Root, here, hop, IsForest, SameRoots, link-Ends}
use mcsema.Cfg.Forward.Classes.{Joined, fresh-IsForest, get_finds, forward_to_joins}

linked-IsForest :
    (f : Forwards) (a r : ℕ) → f a ≡ a → f r ≡ r → IsForest f → IsForest (set_forward f a r)
linked-IsForest f a r ea er forest x = (_, link-Ends f a r er ea (forest x).1.1)

-- 2 forwards to 1, and 1 to 0.
abbrev chain : Forwards
chain = set_forward (set_forward fresh_forwards 2 1) 1 0

chain-IsForest : IsForest chain
unfolding set_forward fresh_forwards
chain-IsForest =
    linked-IsForest (set_forward fresh_forwards 2 1) 1 0 refl refl
      (linked-IsForest fresh_forwards 2 1 refl refl fresh-IsForest)

two-Root : Root chain 2 0 2
unfolding set_forward fresh_forwards
two-Root =
    hop (λ (e : ◌≡◌ {A = ℕ} 1 2). omega arith)
      (hop (λ (e : ◌≡◌ {A = ℕ} 0 1). omega arith) (here refl))

get_finds_example : (g : Forwards) × (get 3 chain 2 ≡ some (g, 0)) × SameRoots chain g
get_finds_example = get_finds 3 chain chain-IsForest two-Root (omega arith)

forward_to_joins_example : (g : Forwards) × (forward_to 4 chain 2 5 ≡ some g) × Joined chain g 0 5
forward_to_joins_example =
    forward_to_joins 4 chain chain-IsForest (unfold set_forward fresh_forwards in refl) two-Root
      (omega arith)
