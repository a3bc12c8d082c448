-- ===== src/Room/Registry/Life.antt =====
-- internal/room/registry.go: who is registered, and who may be chosen.
use spatial_server.Base.{
  ℕ, ◌≡◌, ◌≢◌, refl, ◌∙◌, subst, some-injective, inl, inr, true, Option, none, some, List, [], ◌∷◌,
  if◌then◌else◌, ◌==◌, string_key, nat_key, elem, Map, get, get-put, has_key, Entries, put-Entries,
  delete-Entries, get-Entries, Entries-weaken, arith, Bool-cases,
}
use spatial_server.Types.{ServerId, ServerStatus, server_status_key, Result, ok, err}
use spatial_server.Room.Node.{NodeDescriptor, NodeLoad, can_accept, select}
use spatial_server.Room.Node.Select.{IsAmong, IsSelection, select-IsSelection}
use spatial_server.Room.Registry.{
  ServerRegistry, new, register, find, refresh, heartbeat, update_load, remove, values, list, found,
  least_loaded,
}

-- The calls of all servers, in the order in which they take the lock.
pub data Call : Type 0 where
  registering : NodeDescriptor → ℕ → ℕ → Call
  beating : ServerId → ℕ → Call
  loading : ServerId → NodeLoad → ℕ → Call
  removing : ServerId → Call

unfoldable pub call : ServerRegistry → Call → ServerRegistry
call r (registering info now later) = (register r info now later).0
call r (beating id now) = (heartbeat r id now).0
call r (loading id load now) = (update_load r id load now).0
call r (removing id) = remove r id

unfoldable pub run : ServerRegistry → List Call → ServerRegistry
run r [] = r
run r (c ∷ cs) = run (call r c) cs

-- The servers of the heartbeats and of the load reports.
pub heard : List ServerId → List Call → List ServerId
heard ids [] = ids
heard ids (registering info now later ∷ cs) = heard ids cs
heard ids (beating id now ∷ cs) = heard (id ∷ ids) cs
heard ids (loading id load now ∷ cs) = heard (id ∷ ids) cs
heard ids (removing id ∷ cs) = heard ids cs

-- Every server registers in a status other than active, as the room service has it.
abbrev pub RegisterInactive : List Call → Type 0
RegisterInactive [] = Unit
RegisterInactive (registering info now later ∷ cs) =
    (info.status ≢ ServerStatus.active) × RegisterInactive cs
RegisterInactive (beating id now ∷ cs) = RegisterInactive cs
RegisterInactive (loading id load now ∷ cs) = RegisterInactive cs
RegisterInactive (removing id ∷ cs) = RegisterInactive cs

-- An entry stands under its own identifier, and is active only after a heartbeat.
record IsKnown (ids : List ServerId) (k : ServerId) (n : NodeDescriptor) : Type 0 where
  named : n.node_id ≡ k
  heeded : n.status ≡ ServerStatus.active → elem k ids ≡ true

know_more :
    (ids : List ServerId) (id k : ServerId) (n : NodeDescriptor)
    → IsKnown ids k n
    → IsKnown (id ∷ ids) k n
unfolding elem
know_more ids id k n h = ground arith

register-IsKnown :
    (ids : List ServerId) (r : ServerRegistry) (info : NodeDescriptor) (now later : ℕ)
    → info.status ≢ ServerStatus.active
    → Entries (IsKnown ids) r.svr
    → Entries (IsKnown ids) (register r info now later).0.svr
unfolding register
register-IsKnown ids r info now later inactive h = elim (Bool-cases (has_key r.svr info.node_id)) [
  | inl old ↦ rw old h
  | inr fresh ↦ rw fresh (
      put-Entries (IsKnown ids) r.svr info.node_id _
        (record { named = refl; heeded = λ a. absurd (inactive a) }) h)
]

refresh-IsKnown :
    (ids : List ServerId) (r : ServerRegistry) (id : ServerId)
    (change : NodeDescriptor → NodeDescriptor) (o : Option NodeDescriptor)
    → get r.svr id ≡ o
    → ((n : NodeDescriptor) → (change n).node_id ≡ n.node_id)
    → Entries (IsKnown ids) r.svr
    → Entries (IsKnown (id ∷ ids)) (refresh r id change o).0.svr
unfolding refresh elem
refresh-IsKnown ids r id change none e keeps h =
    Entries-weaken (IsKnown ids) (IsKnown (id ∷ ids)) r.svr (know_more ids id) h
refresh-IsKnown ids r id change (some n) e keeps h =
    put-Entries (IsKnown (id ∷ ids)) r.svr id (change n)
      (record {
        named = keeps n ∙ (get-Entries (IsKnown ids) r.svr id n h e).named;
        heeded = λ a. ground arith;
      })
      (Entries-weaken (IsKnown ids) (IsKnown (id ∷ ids)) r.svr (know_more ids id) h)

run-IsKnown :
    (ids : List ServerId) (r : ServerRegistry) (cs : List Call)
    → RegisterInactive cs
    → Entries (IsKnown ids) r.svr
    → Entries (IsKnown (heard ids cs)) (run r cs).svr
unfolding run call heard heartbeat update_load remove
run-IsKnown ids r [] i h = h
run-IsKnown ids r (registering info now later ∷ cs) i h =
    run-IsKnown ids (register r info now later).0 cs i.1
      (register-IsKnown ids r info now later i.0 h)
run-IsKnown ids r (beating id now ∷ cs) i h =
    run-IsKnown (id ∷ ids) (heartbeat r id now).0 cs i
      (refresh-IsKnown ids r id _ (get r.svr id) refl (λ n. refl) h)
run-IsKnown ids r (loading id load now ∷ cs) i h =
    run-IsKnown (id ∷ ids) (update_load r id load now).0 cs i
      (refresh-IsKnown ids r id _ (get r.svr id) refl (λ n. refl) h)
run-IsKnown ids r (removing id ∷ cs) i h =
    run-IsKnown ids (remove r id) cs i (delete-Entries (IsKnown ids) r.svr id h)

among-values :
    (ids : List ServerId) (m : Map ServerId NodeDescriptor) (n : NodeDescriptor)
    → Entries (IsKnown ids) m
    → IsAmong n (values m)
    → IsKnown ids n.node_id n
unfolding values
among-values ids [] n h a = absurd a
among-values ids ((k, v) ∷ m) n h (inl e) = ground arith
among-values ids ((k, v) ∷ m) n h (inr a) = among-values ids m n h.1 a

found-IsSelection :
    (cs : List (Option NodeDescriptor)) (res : Result NodeDescriptor) (n : NodeDescriptor)
    → IsSelection cs res
    → found res ≡ some n
    → (can_accept n ≡ true) × IsAmong n cs
unfolding found
found-IsSelection cs (ok m) n h e =
    subst (λ k. (can_accept k ≡ true) × IsAmong k cs) (some-injective m n e) (h.0, h.1)
found-IsSelection cs (err x) n h e = cc

active_of_accept : (n : NodeDescriptor) → can_accept n ≡ true → n.status ≡ ServerStatus.active
unfolding can_accept
active_of_accept n h = ground arith

-- In every history in which the servers register in a status other than active, a server that the
-- registry picks as the least loaded can take a zone, and the history holds a heartbeat or a load
-- report of it.
pub chosen_was_heard :
    (cs : List Call) (n : NodeDescriptor)
    → RegisterInactive cs
    → least_loaded (run new cs) ≡ some n
    → (can_accept n ≡ true) × (elem n.node_id (heard [] cs) ≡ true)
unfolding least_loaded list new
chosen_was_heard cs n i e =
    let r = run new cs in
    let (accepts, among) =
      found-IsSelection (list r) (select (list r)) n (select-IsSelection (list r)) e in
    let known = run-IsKnown [] new cs i tt in
    (accepts, (among-values (heard [] cs) r.svr n known among).heeded (active_of_accept n accepts))

-- For a registered server `Heartbeat` returns no error; it and `UpdateLoad` make the server
-- active, seen at the time of the call, and touch no other server.
pub heartbeat_exact :
    (r : ServerRegistry) (id other : ServerId) (load : NodeLoad) (now : ℕ) (n : NodeDescriptor)
    → find r id ≡ some n
    → ((heartbeat r id now).1 ≡ none)
      × (find (heartbeat r id now).0 other ≡ (
          if id == other
          then some (record n { last_heartbeat = now; status = ServerStatus.active })
          else find r other))
      × (find (update_load r id load now).0 other ≡ (
          if id == other
          then some (record n { load = load; last_heartbeat = now; status = ServerStatus.active })
          else find r other))
unfolding heartbeat update_load find
heartbeat_exact r id other load now n e = rw e (
  refl,
  get-put r.svr id other (record n { last_heartbeat = now; status = ServerStatus.active }),
  get-put r.svr id other
      (record n { load = load; last_heartbeat = now; status = ServerStatus.active }),
)
