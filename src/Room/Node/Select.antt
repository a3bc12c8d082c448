-- ===== src/Room/Node/Select.antt =====
-- internal/room/allocator.go: which node `Select` returns.
use spatial_server.Base.{
  ◌≤◌, ◌≡◌, refl, true, false, ◌⊎◌, inl, Option, none, some, List, [], ◌∷◌, arith,
}
use spatial_server.Types.{Result, ok, err, no_capacity}
use spatial_server.Room.Node.{
  NodeDescriptor, can_accept, load_score, consider, choose, or_no_capacity, select,
}

-- A candidate that can take a zone, and is not better than `best`.
abbrev pub NotBetter : NodeDescriptor → Option NodeDescriptor → Type 0
NotBetter best none = Unit
NotBetter best (some n) = can_accept n ≡ true → load_score best ≤ load_score n

-- `best` beats every candidate of the list.
abbrev pub Beats : NodeDescriptor → List (Option NodeDescriptor) → Type 0
Beats best [] = Unit
Beats best (c ∷ cs) = NotBetter best c × Beats best cs

-- The node is one of the candidates.
abbrev pub IsAmong : NodeDescriptor → List (Option NodeDescriptor) → Type 0
IsAmong n [] = ⊥
IsAmong n (c ∷ cs) = (c ≡ some n) ⊎ IsAmong n cs

-- No candidate can take a zone.
abbrev pub NoneAccepts : List (Option NodeDescriptor) → Type 0
NoneAccepts [] = Unit
NoneAccepts (none ∷ cs) = NoneAccepts cs
NoneAccepts (some n ∷ cs) = (can_accept n ≡ false) × NoneAccepts cs

abbrev AtMost : NodeDescriptor → Option NodeDescriptor → Type 0
AtMost n none = Unit
AtMost n (some best) = load_score n ≤ load_score best

-- What the loop returns when it starts from `best`.
abbrev IsChoice :
    Option NodeDescriptor → List (Option NodeDescriptor) → Option NodeDescriptor → Type 0
IsChoice best cs none = (best ≡ none) × NoneAccepts cs
IsChoice best cs (some n) =
    ((best ≡ some n) ⊎ ((can_accept n ≡ true) × IsAmong n cs)) × Beats n cs × AtMost n best

consider-IsChoice :
    (best : Option NodeDescriptor) (n : NodeDescriptor) (cs : List (Option NodeDescriptor))
    (r : Option NodeDescriptor)
    → IsChoice (consider best n) cs r
    → IsChoice best (some n ∷ cs) r
unfolding consider
consider-IsChoice none n cs none h = ground arith
consider-IsChoice none n cs (some m) h = ground arith
consider-IsChoice (some b) n cs none h = ground arith
consider-IsChoice (some b) n cs (some m) h = ground arith

choose-IsChoice :
    (best : Option NodeDescriptor) (cs : List (Option NodeDescriptor))
    → IsChoice best cs (choose best cs)
unfolding choose
choose-IsChoice none [] = (refl, tt)
choose-IsChoice (some b) [] = (inl refl, tt, omega arith)
choose-IsChoice best (none ∷ cs) = skip best cs (choose best cs) (choose-IsChoice best cs)
  where
    skip :
        (best : Option NodeDescriptor) (cs : List (Option NodeDescriptor))
        (r : Option NodeDescriptor)
        → IsChoice best cs r
        → IsChoice best (none ∷ cs) r
    skip best cs none h = h
    skip best cs (some n) h = ground arith
choose-IsChoice best (some n ∷ cs) =
    consider-IsChoice best n cs (choose (consider best n) cs) (choose-IsChoice (consider best n) cs)

-- A node among the candidates that can take a zone and whose score no such candidate is below, or
-- the error, if no candidate can take one.
abbrev pub IsSelection : List (Option NodeDescriptor) → Result NodeDescriptor → Type 0
IsSelection cs (ok n) = (can_accept n ≡ true) × IsAmong n cs × Beats n cs
IsSelection cs (err e) = (e ≡ no_capacity) × NoneAccepts cs

-- `Select` returns a candidate that can take a zone with the least load score among those, and
-- fails with `ErrNoCapacity` exactly if there is none.
pub select-IsSelection : (cs : List (Option NodeDescriptor)) → IsSelection cs (select cs)
unfolding select
select-IsSelection cs = of_choice cs (choose none cs) (choose-IsChoice none cs)
  where
    of_choice :
        (cs : List (Option NodeDescriptor)) (r : Option NodeDescriptor)
        → IsChoice none cs r
        → IsSelection cs (or_no_capacity r)
    of_choice cs none h = (refl, h.1)
    of_choice cs (some n) h = ground arith

choose-idle :
    (n : NodeDescriptor) (cs : List (Option NodeDescriptor))
    → load_score n ≡ 0
    → choose (some n) cs ≡ some n
unfolding choose consider
choose-idle n [] h = refl
choose-idle n (none ∷ cs) h = choose-idle n cs h
choose-idle n (some m ∷ cs) h = ground (arith, choose-idle n cs h)

-- A first candidate that can take a zone and whose load score is 0 is the one that `Select` returns.
pub select-unloaded :
    (n : NodeDescriptor) (cs : List (Option NodeDescriptor))
    → can_accept n ≡ true
    → load_score n ≡ 0
    → select (some n ∷ cs) ≡ ok n
unfolding select choose consider
select-unloaded n cs c h = rw c (rw (choose-idle n cs h) (unfold or_no_capacity in refl))
