-- ===== src/Room/Database/Live.antt =====
-- internal/storage/room/server_repo.go: the active servers, in the order of the table.
use spatial_server.Base.{
  ℕ, ◌≡◌, refl, sym, ◌∙◌, true, false, inl, inr, Bool-cases, Option, none, some, some-injective, ap,
  List, [], ◌∷◌, ◌==◌, elem, string_key, Map, get, NodupKeys, keys, has_key, elem-keys,
  get-key_head, subst, ◌⊎◌, arith,
}
use spatial_server.Types.{ServerId, server_status_key, ok}
use spatial_server.Room.Node.{NodeDescriptor, can_accept, load_score, select}
use spatial_server.Room.Node.Select.{select-unloaded}
use spatial_server.Room.Database.{ServerRow}
use spatial_server.Room.Database.Servers.{scanned, active_servers}

abbrev pub head : List (Option NodeDescriptor) → Option NodeDescriptor
head [] = none
head (n ∷ ns) = n

-- The first server of the table that is active.
abbrev pub first_active : Map ServerId ServerRow → Option NodeDescriptor
first_active m = head (active_servers m)

pub scanned-accepts :
    (id : ServerId) (row : ServerRow) (t : ℕ) → can_accept (scanned id row t) ≡ true
unfolding can_accept scanned
scanned-accepts id row t = ground arith

pub scanned-load : (id : ServerId) (row : ServerRow) (t : ℕ) → load_score (scanned id row t) ≡ 0
unfolding load_score scanned
scanned-load id row t = refl

-- What a list of the active servers holds at its front.
abbrev pub IsListed : Map ServerId ServerRow → NodeDescriptor → Type 0
IsListed m n =
    (row : ServerRow) × (get m n.node_id ≡ some row)
    × (row.status ≡ "active")
    × (n ≡ scanned n.node_id row 0)

pub has_key_of :
    (m : Map ServerId ServerRow) (id : ServerId) (row : ServerRow)
    → get m id ≡ some row
    → has_key m id ≡ true
unfolding has_key
has_key_of m id row g = rw (g, has_key) refl

get-behind :
    (id : ServerId) (row : ServerRow) (m : Map ServerId ServerRow) (other : ServerId)
    (found : ServerRow)
    → elem id (keys m) ≡ false
    → get m other ≡ some found
    → get ((id, row) ∷ m) other ≡ some found
unfolding get
get-behind id row m other found h g = ground (arith, elem-keys m other, has_key_of m other found g)

-- The list of the active servers is empty, or starts with a server that has an active row.
pub active_servers-cases :
    (m : Map ServerId ServerRow)
    → NodupKeys m
    → (active_servers m ≡ [])
      ⊎ ((n : NodeDescriptor) × (ns : List (Option NodeDescriptor)) × (active_servers m
            ≡ some n ∷ ns)
          × IsListed m n)
unfolding keys elem
active_servers-cases [] d = inl (unfold active_servers in refl)
active_servers-cases ((id, row) ∷ m) d = elim (Bool-cases (row.status == "active")) [
  | inl live ↦ inr (
    scanned id row 0,
    active_servers m,
    unfold active_servers in rw live refl,
    (row, unfold scanned in get-key_head id row m, ground arith, unfold scanned in refl),
  )
  | inr off ↦ elim (active_servers-cases m d.1) [
    | inl e ↦ inl (unfold active_servers in rw off e)
    | inr (n, ns, e, (found, g, live, same)) ↦ inr (
      n,
      ns,
      unfold active_servers in rw off e,
      (found, get-behind id row m n.node_id found d.0 g, live, same),
    )
  ]
]

-- `Select` takes the first of them.
pub select-listed :
    (m : Map ServerId ServerRow) (n : NodeDescriptor) (ns : List (Option NodeDescriptor))
    → IsListed m n
    → select (some n ∷ ns) ≡ ok n
select-listed m n ns (row, g, live, same) =
    subst (λ n. select (some n ∷ ns) ≡ ok n) (sym same)
      (select-unloaded (scanned n.node_id row 0) ns (scanned-accepts n.node_id row 0)
        (scanned-load n.node_id row 0))

pub first_active-IsListed :
    (m : Map ServerId ServerRow) (n : NodeDescriptor)
    → NodupKeys m
    → first_active m ≡ some n
    → IsListed m n
first_active-IsListed m n d h = elim (active_servers-cases m d) [
  | inl e ↦ cc (ap head e)
  | inr (k, ns, e, l) ↦ subst (IsListed m) (some-injective k n (sym (ap head e) ∙ h)) l
]
