-- ===== src/Routing/Refinement.antt =====
-- The table as its clients see it: a finite map from ids to entries, with the calls as changes of that map.
use mathlib.Core.Path.{fun_ext}
use os_domotics.Prelude.{
  Bool, Bool-cases, List, Option, Option-cases, [], ap, arith, codes, false, if◌then◌else◌, inl,
  inr, none, refl, some, subst, sym, true, ℕ, ℤ, ◌==◌, ◌∙◌, ◌∷◌, ◌≡◌,
}
use os_domotics.ReturnCodes.{ok, route_not_found, unable_to_allocate_heap}
use os_domotics.Routing.{
  Entry, Table, find_routing_data, insert_direct_routing_data_pid, insert_indirect_routing_data_pid,
  insert_routing_data, remove_entry, set_type,
}
use os_domotics.Routing.Bucket.{with_type}
use os_domotics.Routing.Table.{
  IsTable, find-insert_routing_data, find-remove_entry, find-set_type, insert-IsTable,
  remove_entry-IsTable, set_type-IsTable,
}

pub data Call : Type 0 where
  insert_direct : Bool → ℕ → ℕ → ℕ → ℕ → ℤ → Call
  insert_indirect : Bool → ℕ → ℕ → ℕ → ℕ → Call
  remove : ℕ → Call
  retype : ℕ → ℕ → Call

-- The table after a call of the program, and what it returns; a call without a result gives OK.
unfoldable pub call : Call → Table → Table × ℕ
call (insert_direct allocated id pid type current_id fd) t =
    insert_direct_routing_data_pid allocated t id pid type current_id fd
call (insert_indirect allocated id pid type parent_id) t =
    insert_indirect_routing_data_pid allocated t id pid type parent_id
call (remove id) t = (remove_entry t id, ok)
call (retype id type) t = (set_type t id type, ok)

abbrev pub Map : Type 0
Map = ℕ → Option Entry

-- A map changed at one id.
abbrev pub update : Map → ℕ → Option Entry → Map
update f id o q = if q == id then o else f q

-- The same calls on a map. An insertion behind a parent takes over the descriptor of its next hop.
unfoldable pub promised : Call → Map → Map × ℕ
promised (insert_direct allocated id pid type current_id fd) f =
    let e : Entry = record {
      id = id;
      pid = pid;
      type = type;
      parent_id = current_id;
      next_hop_fd = fd;
    } in
    if allocated then (update f id (some e), ok) else (f, unable_to_allocate_heap)
promised (insert_indirect allocated id pid type parent_id) f = elim (f parent_id) [
  | none ↦ (f, route_not_found)
  | some parent ↦
      let e : Entry = record {
        id = id;
        pid = pid;
        type = type;
        parent_id = parent_id;
        next_hop_fd = parent.next_hop_fd;
      } in
      if allocated then (update f id (some e), ok) else (f, unable_to_allocate_heap)
]
promised (remove id) f = (update f id none, ok)
promised (retype id type) f = (update f id (with_type type (f id)), ok)

-- What a client observes of some calls: the codes, and then any search.
unfoldable pub run : List Call → Table → Table × List ℕ
run [] t = (t, [])
run (c ∷ cs) t = let (t', code) = call c t in let (t'', codes) = run cs t' in (t'', code ∷ codes)

unfoldable pub promised_run : List Call → Map → Map × List ℕ
promised_run [] f = (f, [])
promised_run (c ∷ cs) f =
    let (f', code) = promised c f in let (f'', codes) = promised_run cs f' in (f'', code ∷ codes)

IsCalled : Table × ℕ → Map × ℕ → Type 0
IsCalled (t, code) (f, code') = IsTable t × (find_routing_data t ≡ f) × (code ≡ code')

inserted :
    (t : Table) (e : Entry)
    → IsTable t
    → find_routing_data (insert_routing_data t e) ≡ update (find_routing_data t) e.id (some e)
inserted t e v = fun_ext λ q. find-insert_routing_data t e v q

indirect-IsCalled :
    (allocated : Bool) (id pid type parent_id : ℕ) (t : Table)
    → IsTable t
    → IsCalled
        (insert_indirect_routing_data_pid allocated t id pid type parent_id)
        (promised (insert_indirect allocated id pid type parent_id) (find_routing_data t))
unfolding IsCalled promised insert_indirect_routing_data_pid
indirect-IsCalled true id pid type parent_id t v =
    elim (Option-cases (find_routing_data t parent_id)) [
      | inl out ↦ rw (insert_indirect_routing_data_pid, promised, out) (v, refl, refl)
      | inr (parent, found) ↦
          rw (insert_indirect_routing_data_pid, promised, found)
            (insert-IsTable t _ v, inserted t _ v, refl)
    ]
indirect-IsCalled false id pid type parent_id t v =
    elim (Option-cases (find_routing_data t parent_id)) [
      | inl out ↦ rw (insert_indirect_routing_data_pid, promised, out) (v, refl, refl)
      | inr (parent, found) ↦ rw (insert_indirect_routing_data_pid, promised, found) (v, refl, refl)
    ]

call-IsCalled :
    (c : Call) (t : Table) → IsTable t → IsCalled (call c t) (promised c (find_routing_data t))
unfolding IsCalled call promised insert_direct_routing_data_pid insert_indirect_routing_data_pid
call-IsCalled (insert_direct true id pid type current_id fd) t v =
    (insert-IsTable t _ v, inserted t _ v, refl)
call-IsCalled (insert_direct false id pid type current_id fd) t v = (v, refl, refl)
call-IsCalled (insert_indirect allocated id pid type parent_id) t v =
    indirect-IsCalled allocated id pid type parent_id t v
call-IsCalled (remove id) t v =
    (remove_entry-IsTable t id v, fun_ext λ q. find-remove_entry t id v q, refl)
call-IsCalled (retype id type) t v = (
  set_type-IsTable t id type v,
  fun_ext λ q. elim (Bool-cases (q == id)) [
    | inl hit ↦
        let same : q ≡ id = ground (arith, hit) in
        let f = find_routing_data t in
        subst
          (λ n. find_routing_data (set_type t id type) n ≡ update f id (with_type type (f id)) n)
          (sym same) (find-set_type t id type v id)
    | inr miss ↦ ground (arith, find-set_type t id type v q, miss)
  ],
  refl,
)

-- From any well-formed table, the table behaves over any sequence of insertions, removals of one entry and
-- changes of a type as the finite map from ids to entries: every call returns what the map promises, whether memory is allocated or not and whether the parent
-- of an insertion is known or not, every search in the end gives what the map has, and the table stays well
-- formed.
pub run_refines :
    (cs : List Call) (t : Table)
    → IsTable t
    → IsTable (run cs t).0
      × (find_routing_data (run cs t).0 ≡ (promised_run cs (find_routing_data t)).0)
      × ((run cs t).1 ≡ (promised_run cs (find_routing_data t)).1)
unfolding run promised_run IsCalled
run_refines [] t v = (v, refl, refl)
run_refines (c ∷ cs) t v =
    let (table, found, code) = call-IsCalled c t v in
    let (table', found', codes) = run_refines cs (call c t).0 table in
    (
      table',
      found' ∙ ap (λ f. (promised_run cs f).0) found,
      ap (λ n. n ∷ (run cs (call c t).0).1) code
          ∙ ap (λ l. (promised c (find_routing_data t)).1 ∷ l)
              (codes ∙ ap (λ f. (promised_run cs f).1) found),
    )
