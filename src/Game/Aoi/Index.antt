-- ===== src/Game/Aoi/Index.antt =====
-- internal/game/aoi/aoi.go: the cells and the positions tell the same of every entity.
use spatial_server.Base.{
  ℕ, ◌<◌, ◌≡◌, refl, Bool, true, false, Option, none, some, List, [], ◌∷◌, ◌++◌, if◌then◌else◌,
  ◌==◌, string_key, elem, remove_first, Distinct, elem-append_one, elem-remove_first,
  remove_first_absent, remove_first-Distinct, Option-cases, Bool-cases, ◌∙◌, inl, inr,
  append_one-Distinct, Map, get, put, get-put, get-delete, arith,
}
use spatial_server.Base.Int.{ceil_div}
use spatial_server.Types.{EntityId, Vector3}
use spatial_server.Game.Aoi.{
  CellKey, cell_key, Aoi, new, cell_key_for, cell, enter, cut, leave, move, change_cell,
}

-- Whether an entity at this position belongs to the cell.
abbrev pub lies_in : Aoi → CellKey → Option Vector3 → Bool
lies_in a key none = false
lies_in a key (some p) = cell_key_for a p == key

-- Each cell lists, once each, the entities whose position falls into it, and no other.
pub record IsIndexed (a : Aoi) : Type 0 where
  pub sized : 0 < a.cell_size
  pub ranged : a.cell_range ≡ ceil_div a.radius a.cell_size
  pub listed :
      (id : EntityId) (key : CellKey)
      → elem id (cell a.cells key) ≡ lies_in a key (get a.positions id)
  pub distinct : (key : CellKey) → Distinct (cell a.cells key)

-- A new grid is well formed.
pub new-IsIndexed : (cell_size radius : ℕ) → 0 < cell_size → IsIndexed (new cell_size radius)
unfolding new cell elem get
new-IsIndexed cell_size radius h = record {
  sized = h;
  ranged = refl;
  listed = λ id key. refl;
  distinct = λ key. tt;
}

-- Appending an identifier to one cell.
pub cell-put :
    (cells : Map CellKey (List EntityId)) (k key : CellKey) (ids : List EntityId)
    → cell (put cells k ids) key ≡ (if k == key then ids else cell cells key)
unfolding cell
cell-put cells k key ids = ground (arith, get-put cells k key ids)

cell-cut :
    (cells : Map CellKey (List EntityId)) (id : EntityId) (old key : CellKey)
    → cell (cut cells old (cell cells old) id) key
      ≡ (if old == key then remove_first id (cell cells old) else cell cells key)
unfolding cut
cell-cut cells id old key = ground (
  arith,
  cell-put cells old key (remove_first id (cell cells old)),
  remove_first_absent id (cell cells old),
)

-- The cells after an entity left from the position `p`.
pub cell-leave :
    (a : Aoi) (id : EntityId) (p : Vector3) (key : CellKey)
    → get a.positions id ≡ some p
    → cell (leave a id).cells key ≡ (
        if cell_key_for a p == key
        then remove_first id (cell a.cells (cell_key_for a p))
        else cell a.cells key)
cell-leave a id p key e = unfold leave in rw e (cell-cut a.cells id (cell_key_for a p) key)

-- An entity that is not in the grid enters it.
pub enter-IsIndexed :
    (a : Aoi) (id : EntityId) (p : Vector3)
    → get a.positions id ≡ none
    → IsIndexed a
    → IsIndexed (enter a id p)
unfolding cell_key_for enter
enter-IsIndexed a id p fresh v =
    let k = cell_key_for a p in
    let ids = cell a.cells k in
    record {
      sized = v.sized;
      ranged = v.ranged;
      listed = λ j key. ground (
        arith,
        cell-put a.cells k key (ids ++ id ∷ []),
        v.listed j key,
        get-put a.positions id j p,
        elem-append_one j id ids,
      );
      distinct = λ key. ground (
        arith,
        cell-put a.cells k key (ids ++ id ∷ []),
        v.distinct key,
        v.listed id key,
        append_one-Distinct id ids,
      );
    }

-- Leaving takes the entity out, whether or not it was there.
pub leave-IsIndexed : (a : Aoi) (id : EntityId) → IsIndexed a → IsIndexed (leave a id)
leave-IsIndexed a id v = elim (Option-cases (get a.positions id)) [
  | inl absent ↦ unfold leave in rw absent v
  | inr (p, e) ↦
      unfold leave cell_key_for in
      rw e (
        let k = cell_key_for a p in
        let ids = cell a.cells k in
        record {
          sized = v.sized;
          ranged = v.ranged;
          listed = λ j key. ground (
            arith,
            cell-cut a.cells id k key,
            v.listed j key,
            v.distinct key,
            get-delete a.positions id j,
            elem-remove_first id j ids,
          );
          distinct = λ key.
              ground
                (arith, cell-cut a.cells id k key, v.distinct key, remove_first-Distinct id ids);
        })
]

-- The cells after an identifier went from the cell `k` to the cell `k'`.
shift : Map CellKey (List EntityId) → CellKey → CellKey → EntityId → Map CellKey (List EntityId)
shift cells k k' id =
    let moved = cut cells k (cell cells k) id in put moved k' (cell moved k' ++ id ∷ [])

module _ (cells : Map CellKey (List EntityId)) (k k' key : CellKey) (id : EntityId) where
  elem-shift :
      (j : EntityId)
      → Distinct (cell cells k)
      → elem id (cell cells key) ≡ (k == key)
      → elem j (cell (shift cells k k' id) key)
        ≡ (if id == j then k' == key else elem j (cell cells key))
  unfolding shift
  elem-shift j d h =
      let moved = cut cells k (cell cells k) id in
      ground (
        arith,
        cell-put moved k' key (cell moved k' ++ id ∷ []),
        cell-cut cells id k key,
        elem-remove_first id j (cell cells k),
        elem-append_one j id (cell moved k'),
      )

  shift-Distinct :
      Distinct (cell cells k)
      → Distinct (cell cells key)
      → elem id (cell cells key) ≡ (k == key)
      → Distinct (cell (shift cells k k' id) key)
  unfolding shift
  shift-Distinct dk d h =
      let moved = cut cells k (cell cells k) id in
      ground (
        arith,
        cell-put moved k' key (cell moved k' ++ id ∷ []),
        cell-cut cells id k key,
        elem-remove_first id id (cell cells k),
        remove_first-Distinct id (cell cells k),
        append_one-Distinct id (cell moved k'),
      )

change_cell-IsIndexed :
    (a : Aoi) (id : EntityId) (old p : Vector3)
    → get a.positions id ≡ some old
    → IsIndexed a
    → IsIndexed (change_cell a id (cell_key_for a old) p)
unfolding change_cell cell_key_for shift
change_cell-IsIndexed a id old p e v =
    let k = cell_key_for a old in
    let k' = cell_key_for a p in
    let at : (key : CellKey) → elem id (cell a.cells key) ≡ (k == key) =
      λ key. ground (arith, v.listed id key) in
    record {
      sized = v.sized;
      ranged = v.ranged;
      listed = λ j key.
          elem-shift a.cells k k' key id j (v.distinct k) (at key)
          ∙ ground (arith, v.listed j key, get-put a.positions id j p);
      distinct = λ key. shift-Distinct a.cells k k' key id (v.distinct k) (v.distinct key) (at key);
    }

stay-IsIndexed :
    (a : Aoi) (id : EntityId) (old p : Vector3)
    → get a.positions id ≡ some old
    → (cell_key_for a old == cell_key_for a p) ≡ true
    → IsIndexed a
    → IsIndexed (record a { positions = put a.positions id p })
unfolding cell_key_for
stay-IsIndexed a id old p e same v = record {
  sized = v.sized;
  ranged = v.ranged;
  listed = λ j key. ground (arith, v.listed j key, get-put a.positions id j p);
  distinct = v.distinct;
}

-- A move keeps the grid well formed, of an entity that is there or not.
pub move-IsIndexed : (a : Aoi) (id : EntityId) (p : Vector3) → IsIndexed a → IsIndexed (move a id p)
move-IsIndexed a id p v = elim (Option-cases (get a.positions id)) [
  | inl absent ↦ unfold move in rw absent (enter-IsIndexed a id p absent v)
  | inr (old, e) ↦ elim (Bool-cases (cell_key_for a old == cell_key_for a p)) [
    | inl same ↦ unfold move in rw (e, same) (stay-IsIndexed a id old p e same v)
    | inr apart ↦ unfold move in rw (e, apart) (change_cell-IsIndexed a id old p e v)
  ]
]
