-- ===== src/Room/Database/Shut.antt =====
-- internal/storage/room/server_repo.go: the active servers after some were marked as shut down.
use spatial_server.Base.{
  ◌≡◌, refl, sym, ◌∙◌, Bool, true, false, inl, inr, Bool-cases, Option, none, some, List, [], ◌∷◌,
  if◌then◌else◌, ◌==◌, elem, String, string_key, String_dec, Map, get, put, get-put, put-NodupKeys,
  NodupKeys, arith, Option-cases, ap, some-injective,
}
use spatial_server.Types.{ServerId}
use spatial_server.Room.Node.{NodeDescriptor}
use spatial_server.Room.Database.{ServerRow}
use spatial_server.Room.Database.Servers.{active_servers, shut_row, scanned}
use spatial_server.Room.Database.Live.{IsListed, first_active, first_active-IsListed}

abbrev pub shut_one : Map ServerId ServerRow → ServerId → Map ServerId ServerRow
shut_one m id = shut_row m id (get m id)

abbrev pub shut_all : Map ServerId ServerRow → List ServerId → Map ServerId ServerRow
shut_all m [] = m
shut_all m (id ∷ ids) = shut_all (shut_one m id) ids

abbrev pub shut_if : Bool → Option ServerRow → Option ServerRow
shut_if b none = none
shut_if b (some row) = if b then some (record row { status = "shutdown" }) else some row

-- The server is not `dead`.
abbrev pub Elsewhere : ServerId → Option NodeDescriptor → Type 0
Elsewhere dead none = Unit
Elsewhere dead (some n) = (n.node_id == dead) ≡ false

off : ◌==◌ {K = String} "shutdown" "active" ≡ false
unfolding String_dec
off = refl

first-cons :
    (k : ServerId) (at : ServerRow) (m : Map ServerId ServerRow)
    → first_active ((k, at) ∷ m)
      ≡ (if at.status == "active" then some (scanned k at 0) else first_active m)
unfolding active_servers
first-cons k at m = ground arith

first_is :
    (k : ServerId) (at : ServerRow) (n : NodeDescriptor)
    → some (scanned k at 0) ≡ some n
    → n.node_id ≡ k
unfolding scanned
first_is k at n h = ap (λ n. n.node_id) (sym (some-injective (scanned k at 0) n h))

put_off-none :
    (m : Map ServerId ServerRow) (id : ServerId) (row : ServerRow)
    → (row.status == "active") ≡ false
    → first_active m ≡ none
    → first_active (put m id row) ≡ none
unfolding active_servers put
put_off-none [] id row off h = rw off refl
put_off-none ((k, at) ∷ m) id row off h = ground (arith, put_off-none m id row off)

put_off-some :
    (m : Map ServerId ServerRow) (id : ServerId) (row : ServerRow) (n : NodeDescriptor)
    → (row.status == "active") ≡ false
    → first_active m ≡ some n
    → (n.node_id == id) ≡ false
    → first_active (put m id row) ≡ some n
unfolding put
put_off-some [] id row n off h e = unfold active_servers in cc
put_off-some ((k, at) ∷ m) id row n off h e = elim (Bool-cases (at.status == "active")) [
  | inl live ↦
      let same : some (scanned k at 0) ≡ some n = ground (arith, first-cons k at m) in
      ground (arith, first_is k at n same, same, first-cons k at (put m id row))
  | inr idle ↦ ground (
    arith,
    put_off-some m id row n off,
    first-cons k at m,
    first-cons id row m,
    first-cons k at (put m id row),
  )
]

pub shut_one-none :
    (m : Map ServerId ServerRow) (id : ServerId)
    → first_active m ≡ none
    → first_active (shut_one m id) ≡ none
shut_one-none m id h = elim (Option-cases (get m id)) [
  | inl e ↦ rw e (unfold shut_row in h)
  | inr (row, e) ↦
      rw e (unfold shut_row in put_off-none m id (record row { status = "shutdown" }) off h)
]

pub shut_one-some :
    (m : Map ServerId ServerRow) (id : ServerId) (n : NodeDescriptor)
    → first_active m ≡ some n
    → (n.node_id == id) ≡ false
    → first_active (shut_one m id) ≡ some n
shut_one-some m id n h ne = elim (Option-cases (get m id)) [
  | inl e ↦ rw e (unfold shut_row in h)
  | inr (row, e) ↦
      rw e (unfold shut_row in put_off-some m id (record row { status = "shutdown" }) n off h ne)
]

pub shut_one-NodupKeys :
    (m : Map ServerId ServerRow) (id : ServerId) → NodupKeys m → NodupKeys (shut_one m id)
shut_one-NodupKeys m id d = elim (Option-cases (get m id)) [
  | inl e ↦ rw e (unfold shut_row in d)
  | inr (row, e) ↦
      rw e (unfold shut_row in put-NodupKeys m id (record row { status = "shutdown" }) d)
]

pub get-shut_one :
    (m : Map ServerId ServerRow) (id other : ServerId)
    → get (shut_one m id) other ≡ shut_if (id == other) (get m other)
get-shut_one m id other = elim (Option-cases (get m id)) [
  | inl e ↦ rw e (unfold shut_row in ground arith)
  | inr (row, e) ↦
      rw e
        (unfold shut_row in ground (arith, get-put m id other (record row { status = "shutdown" })))
]

shut_if-off :
    (o : Option ServerRow) (row : ServerRow)
    → shut_if true o ≡ some row
    → (row.status == "active") ≡ false
shut_if-off none row h = cc
shut_if-off (some at) row h =
    let same = some-injective (record at { status = "shutdown" }) row h in
    ap (λ r. r.status == "active") (sym same) ∙ off

pub shut_one-Elsewhere :
    (m : Map ServerId ServerRow) (id : ServerId)
    → NodupKeys m
    → Elsewhere id (first_active (shut_one m id))
shut_one-Elsewhere m id d = of_first (first_active (shut_one m id)) refl
  where
    absurd_listed :
        (n : NodeDescriptor)
        → IsListed (shut_one m id) n
        → (n.node_id == id) ≡ true
        → (n.node_id == id) ≡ false
    absurd_listed n (row, there, live, same) at =
        ground (arith, get-shut_one m id n.node_id, shut_if-off (get m n.node_id) row)

    of_first : (f : Option NodeDescriptor) → first_active (shut_one m id) ≡ f → Elsewhere id f
    of_first none h = tt
    of_first (some n) h = elim (Bool-cases (n.node_id == id)) [
      | inr other ↦ other
      | inl at ↦
          absurd_listed n (first_active-IsListed (shut_one m id) n (shut_one-NodupKeys m id d) h) at
    ]

pub shut_all-none :
    (m : Map ServerId ServerRow) (ids : List ServerId)
    → first_active m ≡ none
    → first_active (shut_all m ids) ≡ none
shut_all-none m [] h = h
shut_all-none m (id ∷ ids) h = shut_all-none (shut_one m id) ids (shut_one-none m id h)

pub shut_all-some :
    (m : Map ServerId ServerRow) (ids : List ServerId) (n : NodeDescriptor)
    → first_active m ≡ some n
    → elem n.node_id ids ≡ false
    → first_active (shut_all m ids) ≡ some n
unfolding elem
shut_all-some m [] n h e = h
shut_all-some m (id ∷ ids) n h e =
    shut_all-some (shut_one m id) ids n (shut_one-some m id n h (ground arith)) (ground arith)

pub get-shut_all :
    (m : Map ServerId ServerRow) (ids : List ServerId) (id : ServerId)
    → get (shut_all m ids) id ≡ shut_if (elem id ids) (get m id)
unfolding elem
get-shut_all m [] id = ground arith
get-shut_all m (dead ∷ ids) id =
    get-shut_all (shut_one m dead) ids id ∙ ground (arith, get-shut_one m dead id)
