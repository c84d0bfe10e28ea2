-- ===== src/KBucket.antt =====
-- core/kbucket.cc and core/kbucket.h: one bucket of the routing table. A method that writes returns
-- the new bucket; the current time is an argument. An entry object stands in one live bucket, so the
-- list holds the entries themselves, and `remove(toRemove)` compares their `ref`s.
pub mod Apart
pub mod Replace
pub mod Merge
pub mod Invariant
pub mod Holds
pub mod Eviction
use elastos_carrier_native.Prelude.{
  ℕ, zero, suc, ◌+◌, ◌*◌, ◌≤◌, ◌<◌, ◌≡◌, Bool, true, false, not, ◌&&◌, ◌||◌, ltb, leb, ◌==◌,
  if◌then◌else◌, Option, none, some, List, [], ◌∷◌, ◌++◌, length, filterb, anyb, find?, All,
}
use elastos_carrier_native.Id.{NodeId, id_eq}
use elastos_carrier_native.Prefix.{Prefix}
use elastos_carrier_native.Entry.{
  Entry, sub64, equals, matches, merge, needs_replacement, needs_ping, signal_response,
  signal_request, signal_request_timeout,
}

abbrev pub max_entries : ℕ
max_entries = 8

abbrev pub bucket_refresh_interval : ℕ
bucket_refresh_interval = 15 * 60 * 1000

pub record KBucket : Type 0 where
  pub prefix : Prefix
  pub home_bucket : Bool
  pub entries : List Entry
  pub last_refresh : ℕ

unfoldable pub new_bucket : Prefix → Bool → KBucket
new_bucket prefix is_home = record {
  prefix = prefix;
  home_bucket = is_home;
  entries = [];
  last_refresh = 0;
}

unfoldable pub is_full : KBucket → Bool
is_full b = leb max_entries (length b.entries)

unfoldable pub get : KBucket → NodeId → Option Entry
get b id = find? (λ e. id_eq e.node_id id) b.entries

unfoldable pub exists : KBucket → NodeId → Bool
exists b id = anyb (λ e. id_eq e.node_id id) b.entries

unfoldable pub bucket_needs_replacement : KBucket → ℕ → Bool
bucket_needs_replacement b now = anyb (λ e. needs_replacement e now) b.entries

unfoldable pub needs_to_be_refreshed : KBucket → ℕ → Bool
needs_to_be_refreshed b now =
    ltb bucket_refresh_interval (sub64 now b.last_refresh) && anyb (λ e. needs_ping e now) b.entries

unfoldable pub update_refresh_timer : KBucket → ℕ → KBucket
update_refresh_timer b now = record b { last_refresh = now }

-- `newEntries.remove(toRemove)`.
unfoldable pub remove_ref : ℕ → List Entry → List Entry
remove_ref r [] = []
remove_ref r (e ∷ es) = if e.ref == r then remove_ref r es else e ∷ remove_ref r es

-- `std::list::sort` by creation time: stable, so it is insertion from the back.
unfoldable pub insert_created : Entry → List Entry → List Entry
insert_created x [] = x ∷ []
insert_created x (e ∷ es) = if ltb e.created x.created then e ∷ insert_created x es else x ∷ e ∷ es

unfoldable pub sort_created : List Entry → List Entry
unfolding insert_created
sort_created [] = []
sort_created (e ∷ es) = insert_created e (sort_created es)

unfoldable pub youngest_of : List Entry → Option Entry
youngest_of [] = none
youngest_of (e ∷ es) = elim (youngest_of es) [ none ↦ some e | some y ↦ some y ]

abbrev pub removed_from : Option Entry → List Entry → List Entry
removed_from none es = es
removed_from (some r) es = remove_ref r.ref es

-- `unorderedInsert`: the new entry is older than the youngest.
unfoldable pub unordered_insert : List Entry → Entry → Bool
unfolding youngest_of
unordered_insert es new = elim (youngest_of es) [
  | none ↦ false
  | some y ↦ ltb new.created y.created
]

-- The second half of `_update(toRemove, toInsert)`, over the list with `toRemove` taken out.
unfoldable pub insert_entry : List Entry → Entry → List Entry
insert_entry es new =
    let was_full = leb max_entries (length es) in
    let unordered = unordered_insert es new in
    let appended = if not was_full || unordered then es ++ new ∷ [] else es in
    if unordered then sort_created appended else appended

-- `_update(toRemove, toInsert)`. Where neither `added` nor `removed` is set the list is as it was,
-- so `setEntries` is left unconditional.
unfoldable pub update_entries : List Entry → Option Entry → Option Entry → List Entry
update_entries es to_remove none = removed_from to_remove es
update_entries es to_remove (some new) =
    if anyb (λ e. matches new e) es then es else insert_entry (removed_from to_remove es) new

-- The first loop of `_put`: `some` if it returns.
unfoldable pub merge_existing : List Entry → Entry → Option (List Entry)
merge_existing [] new = none
merge_existing (e ∷ es) new =
    let rest : Option (List Entry) = elim (merge_existing es new) [
      | none ↦ none
      | some es' ↦ some (e ∷ es')
    ] in
    if equals e new then some (merge e new ∷ es) else if matches e new then some (e ∷ es) else rest

-- `_replaceBadEntry`: `some` if it returns true.
unfoldable pub replace_bad_entry : List Entry → Entry → ℕ → Option (List Entry)
replace_bad_entry es new now = elim (find? (λ e. needs_replacement e now) es) [
  | none ↦ none
  | some bad ↦ some (update_entries es (some bad) (some new))
]

-- `_put` below the first loop.
unfoldable pub put_new : List Entry → Entry → ℕ → List Entry
put_new es new now =
    if not new.reachable
    then es
    else if ltb (length es) max_entries
    then update_entries es none (some new)
    else elim (replace_bad_entry es new now) [
      | some es' ↦ es'
      | none ↦ elim (youngest_of es) [
        | none ↦ es
        | some youngest ↦
            if ltb new.created youngest.created
            then update_entries es (some youngest) (some new)
            else es
      ]
    ]

unfoldable pub put_entries : List Entry → Entry → ℕ → List Entry
put_entries es new now = elim (merge_existing es new) [ some es' ↦ es' | none ↦ put_new es new now ]

-- `_put(newEntry)`; a null pointer is `none`.
unfoldable pub put : KBucket → Option Entry → ℕ → KBucket
put b none now = b
put b (some new) now = record b { entries = put_entries b.entries new now }

unfoldable pub remove_if_bad : KBucket → Entry → Bool → ℕ → KBucket
remove_if_bad b to_remove force now =
    if (force || needs_replacement to_remove now)
      && anyb (λ e. id_eq e.node_id to_remove.node_id) b.entries
    then record b { entries = update_entries b.entries (some to_remove) none }
    else b

-- The loops that change the first entry with a given id.
unfoldable pub update_first : (Entry → Bool) → (Entry → Entry) → List Entry → List Entry
update_first p f [] = []
update_first p f (e ∷ es) = if p e then f e ∷ es else e ∷ update_first p f es

-- `_update(toRefresh)`.
unfoldable pub refresh : KBucket → Entry → KBucket
unfolding update_first
refresh b other = record b {
  entries = update_first (λ e. equals e other) (λ e. merge e other) b.entries;
}

-- `is_response` and `has_call` are what `_notifyOfResponse` asks of the message.
unfoldable pub notify_of_response : KBucket → Bool → Bool → NodeId → ℕ → KBucket
unfolding update_first
notify_of_response b is_response has_call id now =
    if not is_response || not has_call then b else record b {
      entries = update_first (λ e. id_eq e.node_id id) (λ e. signal_response e now) b.entries;
    }

unfoldable pub on_send : KBucket → NodeId → ℕ → KBucket
unfolding update_first
on_send b id now = record b {
  entries = update_first (λ e. id_eq e.node_id id) (λ e. signal_request e now) b.entries;
}

-- The entry is changed in place, and then removed if it is bad.
unfoldable pub on_timeout : KBucket → NodeId → ℕ → KBucket
unfolding update_first
on_timeout b id now = elim (find? (λ e. id_eq e.node_id id) b.entries) [
  | none ↦ b
  | some e ↦
      let failed = record b {
        entries = update_first (λ x. id_eq x.node_id id) signal_request_timeout b.entries;
      } in
      remove_if_bad failed (signal_request_timeout e) false now
]

-- No two entries claim the same id or address.
abbrev pub IsApart : List Entry → Type 0
IsApart [] = Unit
IsApart (e ∷ es) = All (λ x. matches e x ≡ false) es × IsApart es

pub record IsBucket (b : KBucket) : Type 0 where
  pub room : length b.entries ≤ max_entries
  pub reached : All (λ e. e.reachable ≡ true) b.entries
  pub apart : IsApart b.entries
