-- ===== src/Room/Migration/Transfer.antt =====
-- internal/room/migration.go: a transfer hands a zone over once, and tells every listener.
use spatial_server.Base.{
  ◌≡◌, refl, Bool, true, false, Option, none, some, List, [], ◌∷◌, ◌++◌, map, ap, if◌then◌else◌,
  ◌==◌, String, string_key, get, put, get-put, ◌∙◌, arith,
}
use spatial_server.Types.{ServerId, ZoneStatus, zone_status_key, conflict, invalid_arg}
use spatial_server.Room.Migration.{
  Notice, ZoneRow, MigrationCoordinator, prepare_row, complete_row, prepare_transfer,
  complete_transfer, notify,
}

-- Each listener is given the notice, after those that it was given before.
notify-map :
    (ls : List (List Notice)) (n : Notice) → notify ls n ≡ map (λ given. given ++ n ∷ []) ls
unfolding notify
notify-map [] n = refl
notify-map (l ∷ ls) n = ap (λ rest. (l ++ n ∷ []) ∷ rest) (notify-map ls n)

-- From an active zone: `PrepareTransfer` succeeds and leaves the owner in place, and a second one
-- fails with a conflict while the transfer runs. `CompleteTransfer` then makes any target the
-- owner, whatever target was prepared, and gives each listener one more notice, of that owner; a
-- second completion is refused, and the zone may be transferred again.
pub transfer_once :
    (m : MigrationCoordinator) (zone : String) (row : ZoneRow) (prepared target late : ServerId)
    → get m.rows zone ≡ some row
    → row.status ≡ ZoneStatus.active
    → let p = prepare_transfer m zone prepared in
      let c = complete_transfer p.0 zone target in
      (p.2 ≡ none)
      × (get p.0.rows zone ≡ some (record row { status = ZoneStatus.transferring }))
      × ((prepare_transfer p.0 zone late).2 ≡ some conflict)
      × (c.1 ≡ none)
      × (get c.0.rows zone ≡ some (record { owner = target; status = ZoneStatus.active }))
      × (c.0.listeners
          ≡ map
              (λ given.
                given ++ record { zone = zone; owner = target; status = ZoneStatus.active } ∷ [])
              m.listeners)
      × ((complete_transfer c.0 zone late).1 ≡ some invalid_arg)
      × ((prepare_transfer c.0 zone late).2 ≡ none)
unfolding prepare_transfer complete_transfer
transfer_once m zone row prepared target late e a =
    let moving : ZoneRow = record row { status = ZoneStatus.transferring } in
    let done : ZoneRow = record { owner = target; status = ZoneStatus.active } in
    ground (
      arith,
      get-put m.rows zone zone moving,
      get-put (put m.rows zone moving) zone zone done,
      notify-map m.listeners (record { zone = zone; owner = target; status = ZoneStatus.active }),
    )

-- The calls of all servers, in order.
pub data Call : Type 0 where
  preparing completing : String → ServerId → Call

unfoldable pub call : MigrationCoordinator → Call → MigrationCoordinator
call m (preparing zone target) = (prepare_transfer m zone target).0
call m (completing zone target) = (complete_transfer m zone target).0

unfoldable pub run : MigrationCoordinator → List Call → MigrationCoordinator
run m [] = m
run m (c ∷ cs) = run (call m c) cs

-- Whether the zone's transfer is completed somewhere in the history.
unfoldable pub completed : String → List Call → Bool
completed zone [] = false
completed zone (preparing z s ∷ cs) = completed zone cs
completed zone (completing z s ∷ cs) =
    let rest = completed zone cs in if z == zone then true else rest

abbrev pub owner_of : Option ZoneRow → Option ServerId
owner_of none = none
owner_of (some row) = some row.owner

prepare_owner :
    (m : MigrationCoordinator) (z zone : String) (o : Option ZoneRow)
    → get m.rows z ≡ o
    → owner_of (get (prepare_row m z o).0.rows zone) ≡ owner_of (get m.rows zone)
unfolding prepare_row
prepare_owner m z zone none e = refl
prepare_owner m z zone (some row) e =
    ground (arith, get-put m.rows z zone (record row { status = ZoneStatus.transferring }))

complete_owner :
    (m : MigrationCoordinator) (z zone : String) (target : ServerId) (o : Option ZoneRow)
    → (z == zone) ≡ false
    → owner_of (get (complete_row m z target o).0.rows zone) ≡ owner_of (get m.rows zone)
unfolding complete_row
complete_owner m z zone target none e = refl
complete_owner m z zone target (some row) e =
    ground (arith, get-put m.rows z zone (record { owner = target; status = ZoneStatus.active }))

-- A zone's owner changes only by `CompleteTransfer`: through a history that does not call it for
-- the zone, the owner stays, and so does the absence of a row.
pub owner_stays :
    (m : MigrationCoordinator) (cs : List Call) (zone : String)
    → completed zone cs ≡ false
    → owner_of (get (run m cs).rows zone) ≡ owner_of (get m.rows zone)
unfolding run call completed prepare_transfer complete_transfer
owner_stays m [] zone h = refl
owner_stays m (preparing z s ∷ cs) zone h =
    owner_stays (call m (preparing z s)) cs zone h ∙ prepare_owner m z zone (get m.rows z) refl
owner_stays m (completing z s ∷ cs) zone h =
    owner_stays (call m (completing z s)) cs zone (ground arith)
    ∙ complete_owner m z zone s (get m.rows z) (ground arith)
