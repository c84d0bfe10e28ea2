-- ===== src/Entry/Laws.antt =====
-- Which entries count as the same node, and what `merge` keeps.
use elastos_carrier_native.Prelude.{ℕ, ◌≡◌, refl, true, [], ◌∷◌, arith}
use elastos_carrier_native.Id.{NodeId, id_eq, compare_to}
use elastos_carrier_native.Entry.{
  Entry, address_eq, matches, merge, signal_response, signal_request, signal_request_timeout,
}

id_eq_comm : (x y : NodeId) → id_eq x y ≡ id_eq y x
unfolding id_eq compare_to
id_eq_comm [] [] = refl
id_eq_comm [] (y ∷ ys) = refl
id_eq_comm (x ∷ xs) [] = refl
id_eq_comm (x ∷ xs) (y ∷ ys) = ground (arith, id_eq_comm xs ys)

pub matches_comm : (a b : Entry) → matches a b ≡ matches b a
unfolding matches address_eq
matches_comm a b =
    ground (arith, id_eq_comm a.node_id b.node_id, id_eq_comm a.address.storage b.address.storage)

-- Two entries with the node and the address of one entry.
pub record SameNode (a b : Entry) : Type 0 where
  pub id : b.node_id ≡ a.node_id
  pub address : b.address ≡ a.address
  pub object : b.ref ≡ a.ref

pub matches-SameNode : {a b : Entry} (c : Entry) → SameNode a b → matches b c ≡ matches a c
unfolding matches
matches-SameNode c h = rw (h.id, h.address)

pub merge-SameNode : (e other : Entry) → SameNode e (merge e other)
unfolding merge
merge-SameNode e other = ground arith

pub signal_response-SameNode : (e : Entry) (now : ℕ) → SameNode e (signal_response e now)
unfolding signal_response
signal_response-SameNode e now = ground arith

pub signal_request-SameNode : (e : Entry) (now : ℕ) → SameNode e (signal_request e now)
unfolding signal_request
signal_request-SameNode e now = ground arith

pub signal_request_timeout-SameNode : (e : Entry) → SameNode e (signal_request_timeout e)
unfolding signal_request_timeout
signal_request_timeout-SameNode e = ground arith

-- A merge never forgets that a node was reached.
pub reachable-merge : (e other : Entry) → e.reachable ≡ true → (merge e other).reachable ≡ true
unfolding merge
reachable-merge e other h = ground arith

pub reachable-signal_request_timeout :
    (e : Entry) → e.reachable ≡ true → (signal_request_timeout e).reachable ≡ true
unfolding signal_request_timeout
reachable-signal_request_timeout e h = ground arith
