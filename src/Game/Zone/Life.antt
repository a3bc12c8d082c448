-- ===== src/Game/Zone/Life.antt =====
-- internal/game/zone/zone.go: which statuses a zone goes through, and who owns it in them.
use spatial_server.Base.{
  ◌≡◌, ◌≢◌, true, false, Option, none, some, List, [], ◌∷◌, elem, if◌then◌else◌, not, ◌||◌, arith,
  string_key, ◌==◌,
}
use spatial_server.Types.{
  ServerId, ZoneId, RuntimeId, ZoneStatus, zone_status_key, valid_transition, Error, conflict,
  invalid_arg,
}
use spatial_server.Base.Int.{ℤ}
use spatial_server.Base.{ℕ}
use spatial_server.Game.Zone.{
  Zone, new, claim, release, begin_transfer, complete_transfer, mark_orphan, is_owned_by,
}

-- The calls that may be refused.
pub data Call : Type 0 where
  claiming : ServerId → Call
  releasing : Call
  beginning : Call
  completing : ServerId → Call

unfoldable pub call : Zone → Call → Zone × Option Error
unfolding claim release begin_transfer complete_transfer
call z (claiming s) = claim z s
call z releasing = release z
call z beginning = begin_transfer z
call z (completing s) = complete_transfer z s

-- The statuses in which a call is accepted.
abbrev pub accepts : Call → List ZoneStatus
accepts (claiming s) = ZoneStatus.unowned ∷ ZoneStatus.transferring ∷ ZoneStatus.orphan ∷ []
accepts releasing = ZoneStatus.active ∷ ZoneStatus.orphan ∷ []
accepts beginning = ZoneStatus.active ∷ []
accepts (completing s) = ZoneStatus.transferring ∷ []

-- The error of a call that is refused.
abbrev pub refusal : Call → Error
refusal (claiming s) = conflict
refusal releasing = invalid_arg
refusal beginning = conflict
refusal (completing s) = invalid_arg

-- The status and the owner after a call that is accepted.
abbrev pub status_after : Call → ZoneStatus
status_after (claiming s) = ZoneStatus.active
status_after releasing = ZoneStatus.unowned
status_after beginning = ZoneStatus.transferring
status_after (completing s) = ZoneStatus.active

abbrev pub owner_after : Call → ServerId → ServerId
owner_after (claiming s) owner = s
owner_after releasing owner = ""
owner_after beginning owner = owner
owner_after (completing s) owner = s

-- `Claim` is accepted exactly in an unowned, transferring or orphaned zone, `Release` in an active or
-- orphaned one, `BeginTransfer` in an active one and `CompleteTransfer` in a transferring one. A call
-- that is refused returns its error and leaves the zone as it was. One that is accepted sets the
-- status to that of the call, and the owner to the server that is given, to none by `Release`, or
-- leaves it by `BeginTransfer`; it changes nothing else of the zone, and the table of
-- `ValidTransition` has the change of the status.
pub call_follows_table :
    (z : Zone) (c : Call)
    → (call z c ≡ (
        if elem z.status (accepts c)
        then (record z { status = status_after c; server_id = owner_after c z.server_id }, none)
        else (z, some (refusal c))))
      × ((not (elem z.status (accepts c)) || valid_transition z.status (status_after c)) ≡ true)
unfolding call valid_transition elem
call_follows_table z (claiming s) = (ground arith, ground arith)
call_follows_table z releasing = (ground arith, ground arith)
call_follows_table z beginning = (ground arith, ground arith)
call_follows_table z (completing s) = (ground arith, ground arith)

-- `MarkOrphan` follows the table only in a zone that is being transferred.
pub mark_orphan_table :
    (z : Zone)
    → valid_transition z.status (mark_orphan z).status ≡ (z.status == ZoneStatus.transferring)
unfolding mark_orphan valid_transition
mark_orphan_table z = ground arith

-- A call that is given an owner is given a server's identifier.
abbrev pub NamesServer : Call → Type 0
NamesServer (claiming s) = s ≢ ""
NamesServer (completing s) = s ≢ ""
NamesServer _ = Unit

-- A step of a zone's life: a call, refused or not, or `MarkOrphan`.
pub data Step (z : Zone) : Zone → Type 0 where
  called : (c : Call) → NamesServer c → Step z (call z c).0
  orphaned : Step z (mark_orphan z)

pub data Reach (z : Zone) : Zone → Type 0 where
  here : Reach z z
  next : {y x : Zone} → Reach z y → Step y x → Reach z x

pub record IsOwned (z : Zone) : Type 0 where
  pub unowned_free : z.status ≡ ZoneStatus.unowned → z.server_id ≡ ""
  pub active_taken : z.status ≡ ZoneStatus.active → z.server_id ≢ ""
  pub transferring_taken : z.status ≡ ZoneStatus.transferring → z.server_id ≢ ""

call-IsOwned : (z : Zone) (c : Call) → NamesServer c → IsOwned z → IsOwned (call z c).0
unfolding call valid_transition
call-IsOwned z (claiming s) n v = ground arith
call-IsOwned z releasing n v = ground arith
call-IsOwned z beginning n v = ground arith
call-IsOwned z (completing s) n v = ground arith

Step-IsOwned : {z y : Zone} → Step z y → IsOwned z → IsOwned y
Step-IsOwned {z} (called c n) v = call-IsOwned z c n v
Step-IsOwned orphaned v = unfold mark_orphan in ground arith

Reach-IsOwned : {z y : Zone} → Reach z y → IsOwned z → IsOwned y
Reach-IsOwned here v = v
Reach-IsOwned (next r s) v = Step-IsOwned s (Reach-IsOwned r v)

-- Through any calls that name servers by non-empty identifiers, a zone made by `New` has no owner
-- while its status is unowned, and has one while it is active or being transferred.
pub life-IsOwned :
    (id : ZoneId) (runtime : RuntimeId) (x y : ℤ) (size : ℕ) {z : Zone}
    → Reach (new id runtime x y size) z
    → IsOwned z
unfolding new
life-IsOwned id runtime x y size r = Reach-IsOwned r (ground arith)

-- `Release` after a `Claim` that was not refused gives the zone back: unowned, and owned by no server.
pub release-claim :
    (z : Zone) (s t : ServerId)
    → (claim z s).1 ≡ none
    → (is_owned_by (claim z s).0 s ≡ true)
      × ((release (claim z s).0).1 ≡ none)
      × (is_owned_by (release (claim z s).0).0 t ≡ false)
      × ((claim (release (claim z s).0).0 t).1 ≡ none)
unfolding claim release is_owned_by valid_transition
release-claim z s t h = ground arith
