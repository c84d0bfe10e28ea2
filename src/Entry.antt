-- ===== src/Entry.antt =====
-- core/kbucket_entry.cc, core/kbucket_entry.h and the comparison of include/carrier/node_info.h: one
-- entry of a bucket. `ref` is the identity of the shared object that the source's `Sp` points to;
-- the current time is an argument. Times are `uint64_t`, and a difference of two wraps;
-- `failedRequests` is an `int`, which a loaded file can set to any value.
pub mod Laws
pub mod Backoff
use elastos_carrier_native.Prelude.{
  ℕ, zero, suc, ◌+◌, ◌-◌, ◌*◌, ◌%◌, ◌^◌, min, max, Bool, true, false, not, ◌&&◌, ◌||◌, ltb, leb,
  ◌==◌, if◌then◌else◌, List, [], ◌∷◌, ℤ, pos, negsuc, ltb_ℤ, eqb_ℤ, min_ℤ, pred_ℤ, suc_ℤ, pos_part,
}
use elastos_carrier_native.Id.{NodeId, id_eq}

abbrev pub kbucket_max_timeouts : ℕ
kbucket_max_timeouts = 5

abbrev pub old_and_stale_timeouts : ℕ
old_and_stale_timeouts = 2

abbrev pub old_and_stale_time : ℕ
old_and_stale_time = 15 * 60 * 1000

abbrev pub ping_backoff_base : ℕ
ping_backoff_base = 60 * 1000

-- `a - b` of two `uint64_t`.
abbrev pub sub64 : ℕ → ℕ → ℕ
sub64 a b = (a + 2 ^ 64 - b) % 2 ^ 64

-- `SocketAddress`: its family, and the `sslen(family)` bytes that `operator==` compares.
pub record Address : Type 0 where
  pub family : ℕ
  pub storage : List ℕ

unfoldable pub address_eq : Address → Address → Bool
address_eq a b = a.family == b.family && id_eq a.storage b.storage

pub record Entry : Type 0 where
  pub ref : ℕ
  pub node_id : NodeId
  pub address : Address
  pub version : ℤ
  pub created : ℕ
  pub last_seen : ℕ
  pub last_send : ℕ
  pub reachable : Bool
  pub failed_requests : ℤ

-- `KBucketEntry(id, addr)`.
unfoldable pub new_entry : ℕ → NodeId → Address → ℕ → Entry
new_entry ref id addr now = record {
  ref = ref;
  node_id = id;
  address = addr;
  version = pos 0;
  created = now;
  last_seen = now;
  last_send = 0;
  reachable = false;
  failed_requests = pos 0;
}

-- `NodeInfo::matches` and `NodeInfo::equals`.
unfoldable pub matches : Entry → Entry → Bool
matches a b = id_eq a.node_id b.node_id || address_eq a.address b.address

unfoldable pub equals : Entry → Entry → Bool
equals a b = id_eq a.node_id b.node_id && address_eq a.address b.address

unfoldable pub is_never_contacted : Entry → Bool
is_never_contacted e = e.last_send == 0

unfoldable pub is_eligible_for_nodes_list : Entry → Bool
is_eligible_for_nodes_list e = e.reachable && ltb_ℤ e.failed_requests (pos 3)

unfoldable pub is_eligible_for_local_lookup : Entry → Bool
is_eligible_for_local_lookup e =
    (e.reachable && ltb_ℤ e.failed_requests (pos 4)) || ltb_ℤ e.failed_requests (pos 1)

-- `std::max<int>(0, failedRequests - 1)`.
abbrev pub extra_failures : Entry → ℕ
extra_failures e = pos_part (pred_ℤ e.failed_requests)

-- `base << n`. The result fits an `int` up to n = 15.
abbrev pub backoff_shift : ℕ → ℕ
backoff_shift n = ping_backoff_base * 2 ^ n

-- The same as the `int` of 32 bits that it is, converted to `uint64_t` by the comparison with one.
abbrev pub backoff_compared : ℕ → ℕ
backoff_compared n =
    let bits = backoff_shift n % 2 ^ 32 in
    if ltb bits (2 ^ 31) then bits else bits + (2 ^ 64 - 2 ^ 32)

unfoldable pub backoff_window_end : Entry → ℤ
backoff_window_end e =
    if eqb_ℤ e.failed_requests (pos 0) || e.last_send == 0
    then negsuc 0
    else pos (e.last_send + backoff_shift (min kbucket_max_timeouts (extra_failures e)))

unfoldable pub within_backoff_window : Entry → ℕ → Bool
within_backoff_window e now =
    not (eqb_ℤ e.failed_requests (pos 0))
    && ltb (sub64 now e.last_send) (backoff_compared (max kbucket_max_timeouts (extra_failures e)))

unfoldable pub needs_ping : Entry → ℕ → Bool
unfolding within_backoff_window
needs_ping e now =
    if ltb (sub64 now e.last_seen) (30 * 1000) || within_backoff_window e now
    then false
    else not (eqb_ℤ e.failed_requests (pos 0)) || ltb old_and_stale_time (sub64 now e.last_seen)

unfoldable pub old_and_stale : Entry → ℕ → Bool
old_and_stale e now =
    ltb_ℤ (pos old_and_stale_timeouts) e.failed_requests
    && ltb old_and_stale_time (sub64 now e.last_seen)

unfoldable pub removable_without_replacement : Entry → Bool
removable_without_replacement e =
    let seen_since_last_ping = ltb e.last_send e.last_seen in
    ltb_ℤ (pos kbucket_max_timeouts) e.failed_requests && not seen_since_last_ping

unfoldable pub needs_replacement : Entry → ℕ → Bool
unfolding old_and_stale
needs_replacement e now =
    (ltb_ℤ (pos 1) e.failed_requests && not e.reachable)
    || (ltb_ℤ (pos kbucket_max_timeouts) e.failed_requests && old_and_stale e now)

unfoldable pub signal_response : Entry → ℕ → Entry
signal_response e now = record e { last_seen = now; reachable = true; failed_requests = pos 0 }

unfoldable pub signal_request : Entry → ℕ → Entry
signal_request e now = record e { last_send = now }

unfoldable pub merge_request_time : Entry → ℕ → Entry
merge_request_time e sent = record e { last_send = max e.last_send sent }

unfoldable pub signal_request_timeout : Entry → Entry
signal_request_timeout e = record e {
  failed_requests = if ltb_ℤ e.failed_requests (pos 1) then pos 1 else suc_ℤ e.failed_requests;
}

-- `this` after `merge(other)`.
unfoldable pub merge : Entry → Entry → Entry
unfolding equals
merge e other = if not (equals e other) || e.ref == other.ref then e else record e {
  created = min e.created other.created;
  last_seen = max e.last_seen other.last_seen;
  last_send = max e.last_send other.last_send;
  reachable = if other.reachable then true else e.reachable;
  failed_requests =
      if ltb_ℤ (pos 0) other.failed_requests
      then min_ℤ e.failed_requests other.failed_requests
      else e.failed_requests;
}
