-- ===== src/Room/Ownership/Exclusive.antt =====
-- internal/room/registry.go: a zone that is claimed stays with its owner until that owner releases it.
use spatial_server.Base.{
  ◌≡◌, refl, Bool, true, false, ◌&&◌, Option, none, some, List, [], ◌∷◌, if◌then◌else◌, ◌==◌,
  string_key, String, get-put, get-delete, has_key, arith,
}
use spatial_server.Types.{ServerId, Error, not_found, conflict, not_owned}
use spatial_server.Room.Ownership.{ZoneOwnership, claim, release, lookup}

-- The calls of all clients, in the order in which they take the lock.
pub data Call : Type 0 where
  claiming releasing : String → ServerId → Call

unfoldable pub call : ZoneOwnership → Call → ZoneOwnership
call zo (claiming zone server) = (claim zo zone server).0
call zo (releasing zone server) = (release zo zone server).0

unfoldable pub run : ZoneOwnership → List Call → ZoneOwnership
run zo [] = zo
run zo (c ∷ cs) = run (call zo c) cs

-- The outcome of a claim and of a release, by the owner before it.
abbrev pub claim_result : Option ServerId → Option Error
claim_result none = none
claim_result (some _) = some conflict

abbrev pub release_result : ServerId → Option ServerId → Option Error
release_result server none = some not_found
release_result server (some owner) = if owner == server then none else some not_owned

-- `Claim` takes a zone exactly if it has no owner, and fails with a conflict otherwise; whatever it
-- answers, no other zone changes its owner and a zone with an owner keeps it.
pub claim_exact :
    (zo : ZoneOwnership) (zone other : String) (server : ServerId)
    → ((claim zo zone server).1 ≡ claim_result (lookup zo zone))
      × (lookup (claim zo zone server).0 other ≡ elim (lookup zo other) [
        | none ↦ if zone == other then some server else none
        | some owner ↦ some owner
      ])
unfolding claim lookup has_key
claim_exact zo zone other server = ground (arith, get-put zo.zones zone other server)

-- `Release` frees a zone exactly if the caller owns it, tells a free zone from one that another
-- server owns, and leaves every other zone as it was.
pub release_exact :
    (zo : ZoneOwnership) (zone other : String) (server : ServerId)
    → ((release zo zone server).1 ≡ release_result server (lookup zo zone))
      × (lookup (release zo zone server).0 other ≡ (
          if zone == other
          then elim (lookup zo zone) [
            | none ↦ none
            | some owner ↦ if owner == server then none else some owner
          ]
          else lookup zo other))
unfolding release lookup
release_exact zo zone other server = ground (arith, get-delete zo.zones zone other)

-- Whether the owner gives the zone back somewhere in the history.
unfoldable pub gives_back : String → ServerId → List Call → Bool
gives_back zone owner [] = false
gives_back zone owner (claiming z s ∷ cs) = gives_back zone owner cs
gives_back zone owner (releasing z s ∷ cs) =
    let rest = gives_back zone owner cs in if (z == zone) && (s == owner) then true else rest

call-keeps :
    (zo : ZoneOwnership) (c : Call) (zone : String) (owner : ServerId)
    → lookup zo zone ≡ some owner
    → gives_back zone owner (c ∷ []) ≡ false
    → lookup (call zo c) zone ≡ some owner
unfolding call gives_back
call-keeps zo (claiming z s) zone owner h g = ground (arith, claim_exact zo z zone s)
call-keeps zo (releasing z s) zone owner h g = ground (arith, release_exact zo z zone s)

-- Whatever the other clients call, a zone keeps its owner through every history in which that owner
-- does not release it.
pub owner_keeps :
    (zo : ZoneOwnership) (cs : List Call) (zone : String) (owner : ServerId)
    → lookup zo zone ≡ some owner
    → gives_back zone owner cs ≡ false
    → lookup (run zo cs) zone ≡ some owner
unfolding run gives_back
owner_keeps zo [] zone owner h g = h
owner_keeps zo (claiming z s ∷ cs) zone owner h g =
    owner_keeps (call zo (claiming z s)) cs zone owner
      (call-keeps zo (claiming z s) zone owner h refl) g
owner_keeps zo (releasing z s ∷ cs) zone owner h g =
    owner_keeps (call zo (releasing z s)) cs zone owner
      (call-keeps zo (releasing z s) zone owner h (ground arith)) (ground arith)
