-- ===== src/Routing/Registry/Exported.antt =====
-- What a search in the registry finds after an export: the file is written and read line by line.
use os_domotics.Messages.{next_unsigned}
use os_domotics.Messages.Joined.{next_unsigned-joined, print_unsigned-Lacks}
use os_domotics.Prelude.{
  All, All-append, Bool-cases, Bytes, Lacks, List, Option, Option-cases, [], ap, append-nil,
  append_assoc, arith, if◌then◌else◌, inl, inr, length, length-append, none, refl, some, subst, suc,
  sym, true, zero, ℕ, ◌++◌, ◌<◌, ◌==◌, ◌∙◌, ◌∷◌, ◌≡◌, ◌≤◌, ◌⊎◌,
}
use os_domotics.ReturnCodes.{device_not_found, is_error, ok, unable_to_write_file}
use os_domotics.Routing.{Entry, Table, find_all_routing_data, find_direct_routing_data}
use os_domotics.Routing.Registry.{
  Files, export_lines, export_routing_table, find_device_type, is_put, parse_registry_line,
  read_line, registry_line, search_registry, without_line_feed,
}
use os_domotics.Text.{c_string, print_unsigned, space}
use os_domotics.Text.Decimal.{length-print_unsigned}

-- The walk of `find_all_routing_data` from an entry on, as a list.
unfoldable pub walk : ℕ → Table → ℕ → Option Entry → Option (List Entry)
walk fuel t parent_id none = some []
walk zero t parent_id (some current) = none
walk (suc fuel) t parent_id (some current) =
    let rest : Option (List Entry) = elim (find_all_routing_data fuel t parent_id (some current)) [
      | none ↦ none
      | some next ↦ walk fuel t parent_id next
    ] in
    elim rest [ none ↦ none | some es ↦ some (current ∷ es) ]

abbrev pub lines : List Entry → Bytes
lines [] = []
lines (e ∷ es) = registry_line e ++ lines es

-- The first entry with an id decides its type.
abbrev pub type_in : List Entry → ℕ → Option ℕ
type_in [] q = none
type_in (e ∷ es) q = if e.id == q then some e.type else type_in es q

-- The widths of `device_id_t` and `device_type_t`.
abbrev pub IsWide : Entry → Type 0
IsWide e = (e.id < 65536) × (e.type < 256)

-- Every call on the files succeeds.
pub record IsWorking (f : Files) : Type 0 where
  pub opened : f.opened ≡ true
  pub put : (line : Bytes) → f.put line ≡ true
  pub shut : f.shut ≡ true
  pub renamed : f.renamed ≡ true

line_text : Entry → Bytes
line_text e = print_unsigned e.id ++ space ∷ print_unsigned e.type

registry_line-text : (e : Entry) → registry_line e ≡ line_text e ++ 10 ∷ []
unfolding registry_line line_text
registry_line-text e = sym (append_assoc (print_unsigned e.id) (space ∷ print_unsigned e.type) _)

line_text-Lacks : (b : ℕ) (e : Entry) → b < 32 → Lacks b (line_text e)
unfolding line_text
line_text-Lacks b e h =
    All-append _ (print_unsigned e.id) (space ∷ print_unsigned e.type)
      (print_unsigned-Lacks b e.id (inl (omega arith)))
      (λ same. absurd (omega arith), print_unsigned-Lacks b e.type (inl (omega arith)))

length-line_text : (e : Entry) → IsWide e → length (line_text e) ≤ 9
unfolding line_text
length-line_text e (wide, narrow) = omega (
  arith,
  length-append (print_unsigned e.id) (space ∷ print_unsigned e.type),
  length-print_unsigned e.id 4 (omega arith),
  length-print_unsigned e.type 2 (omega arith),
)

read_line-append :
    (n : ℕ) (text rest : Bytes)
    → length text < n
    → Lacks 10 text
    → read_line n (text ++ 10 ∷ rest) ≡ (text ++ 10 ∷ [], rest)
unfolding read_line
read_line-append zero text rest h l = absurd (omega arith)
read_line-append (suc n) [] rest h l = ground arith
read_line-append (suc n) (c ∷ text) rest h l =
    ground (arith, l.0, read_line-append n text rest (omega arith) l.1)

c_string-Lacks : (text : Bytes) → Lacks 0 text → c_string text ≡ text
unfolding c_string
c_string-Lacks [] l = refl
c_string-Lacks (c ∷ text) l = ground (arith, l.0, c_string-Lacks text l.1)

without_line_feed-append : (text : Bytes) → without_line_feed (text ++ 10 ∷ []) ≡ text
unfolding without_line_feed
without_line_feed-append [] = refl
without_line_feed-append (c ∷ []) = refl
without_line_feed-append (c ∷ d ∷ text) = ap (λ s. c ∷ s) (without_line_feed-append (d ∷ text))

next_unsigned-line :
    (e : Entry) → IsWide e → next_unsigned (line_text e) ≡ some (e.id, print_unsigned e.type)
unfolding line_text
next_unsigned-line e (wide, narrow) =
    rw append-nil at (next_unsigned-joined e.id (e.type ∷ []) (omega arith))

next_unsigned-type : (n : ℕ) → n < 256 → next_unsigned (print_unsigned n) ≡ some (n, [])
next_unsigned-type n h = rw append-nil at (next_unsigned-joined n [] (omega arith))

parse_registry_line-line :
    (e : Entry) → IsWide e → parse_registry_line (line_text e ++ 10 ∷ []) ≡ some (e.id, e.type)
unfolding parse_registry_line
parse_registry_line-line e (wide, narrow) = ground (
  arith,
  c_string-Lacks (line_text e ++ 10 ∷ []) (
      All-append _ (line_text e) (10 ∷ []) (line_text-Lacks 0 e (omega arith))
        (λ same. absurd (omega arith), tt)),
  without_line_feed-append (line_text e),
  next_unsigned-line e (wide, narrow),
  next_unsigned-type e.type narrow,
)

search_registry-text :
    (fuel : ℕ) (e : Entry) (text rest : Bytes) (q : ℕ)
    → length text ≤ 9
    → Lacks 10 text
    → parse_registry_line (text ++ 10 ∷ []) ≡ some (e.id, e.type)
    → search_registry (suc fuel) (text ++ 10 ∷ rest) q
      ≡ (if e.id == q then some (some e.type, ok) else search_registry fuel rest q)
unfolding search_registry
search_registry-text fuel e [] rest q short l h =
    ground (arith, h, read_line-append 15 [] rest (omega arith) l)
search_registry-text fuel e (c ∷ text) rest q short l h =
    ground (arith, h, read_line-append 15 (c ∷ text) rest (omega arith) l)

search_registry-line :
    (fuel : ℕ) (e : Entry) (rest : Bytes) (q : ℕ)
    → IsWide e
    → search_registry (suc fuel) (registry_line e ++ rest) q
      ≡ (if e.id == q then some (some e.type, ok) else search_registry fuel rest q)
search_registry-line fuel e rest q wide =
    let same : registry_line e ++ rest ≡ line_text e ++ 10 ∷ rest =
      ap (λ s. s ++ rest) (registry_line-text e) ∙ append_assoc (line_text e) (10 ∷ []) rest in
    subst
      (λ s.
        search_registry (suc fuel) s q
        ≡ (if e.id == q then some (some e.type, ok) else search_registry fuel rest q))
      (sym same)
      (search_registry-text fuel e (line_text e) rest q (length-line_text e wide)
        (line_text-Lacks 10 e (omega arith)) (parse_registry_line-line e wide))

-- A search in exported lines finds the type of the first entry with the id.
search_registry-lines :
    (es : List Entry) (fuel q : ℕ)
    → All IsWide es
    → length es ≤ fuel
    → search_registry fuel (lines es) q ≡ some (type_in es q, ok)
unfolding search_registry
search_registry-lines [] fuel q w h = refl
search_registry-lines (e ∷ es) zero q w h = absurd (omega arith)
search_registry-lines (e ∷ es) (suc fuel) q w h = ground (
  arith,
  search_registry-line fuel e (lines es) q w.0,
  search_registry-lines es fuel q w.1 (omega arith),
)

is_put-IsWorking :
    (f : Files) (e : Entry) → IsWorking f → IsWide e → is_put f (registry_line e) ≡ true
is_put-IsWorking f e k wide =
    let longer = length-append (line_text e) (10 ∷ []) in
    let same = ap length (registry_line-text e) in
    let short : length (registry_line e) < 16 =
      omega (arith, longer, same, length-line_text e wide) in
    ground (arith, k.put (registry_line e), short)

export_lines-walk :
    (fuel : ℕ) (f : Files) (t : Table) (parent_id : ℕ) (current : Option Entry) (es : List Entry)
    → IsWorking f
    → All IsWide es
    → walk fuel t parent_id current ≡ some es
    → export_lines fuel f t parent_id current ≡ some (lines es, ok)
unfolding export_lines walk
export_lines-walk fuel f t parent_id none es k w h = ground (arith, h)
export_lines-walk zero f t parent_id (some c) es k w h = cc
export_lines-walk (suc fuel) f t parent_id (some c) es k w h =
    elim (Option-cases (find_all_routing_data fuel t parent_id (some c))) [
      | inl out ↦ ground (arith, h, out)
      | inr (next, found) ↦ elim (Option-cases (walk fuel t parent_id next)) [
        | inl out ↦ ground (arith, h, found, out)
        | inr (later, walked) ↦
            let same : c ∷ later ≡ es = ground (arith, h, found, walked) in
            let wide = subst (All IsWide) (sym same) w in
            let tail = export_lines-walk fuel f t parent_id next later k wide.1 walked in
            subst (λ l. export_lines (suc fuel) f t parent_id (some c) ≡ some (lines l, ok)) same
              (ground (arith, found, tail, is_put-IsWorking f c k wide.0))
      ]
    ]

-- Where the walk below `parent_id` ends with the entries `es`, all of them within the widths of ids and types,
-- and every call on the files succeeds, an export replaces the registry, and a search in the new registry,
-- with fuel for one line of each entry, gives the type of the first entry with the id. The error is
-- DEVICE_NOT_FOUND where `es` has no such entry, and then the type is left as it was.
pub find_device_type-export_routing_table :
    (fuel n : ℕ) (f : Files) (t : Table) (parent_id : ℕ) (registry : Option Bytes) (es : List Entry)
    → IsWorking f
    → All IsWide es
    → walk fuel t parent_id (find_direct_routing_data t parent_id none) ≡ some es
    → length es ≤ n
    → (text : Bytes) × (export_routing_table fuel f t parent_id registry ≡ some (some text, ok))
      × ((q type : ℕ)
          → find_device_type n f (some text) q type
            ≡ some (elim (type_in es q) [
              | none ↦ (type, device_not_found)
              | some current_type ↦ (current_type, ok)
            ]))
unfolding export_routing_table find_device_type
find_device_type-export_routing_table fuel n f t parent_id registry es k w walked enough = (
  lines es,
  ground (
    arith,
    k.opened,
    k.shut,
    k.renamed,
    export_lines-walk fuel f t parent_id (find_direct_routing_data t parent_id none) es k w walked,
  ),
  λ q type. elim (Option-cases (type_in es q)) [
    | inl out ↦ ground (arith, out, k.opened, k.shut, search_registry-lines es n q w enough)
    | inr (c, found) ↦
        ground (arith, found, k.opened, k.shut, search_registry-lines es n q w enough)
  ],
)

export_lines-code :
    (fuel : ℕ) (f : Files) (t : Table) (parent_id : ℕ) (current : Option Entry) (text : Bytes)
    (code : ℕ)
    → export_lines fuel f t parent_id current ≡ some (text, code)
    → (code ≡ ok) ⊎ (code ≡ unable_to_write_file)
unfolding export_lines
export_lines-code fuel f t parent_id none text code h = inl (ground (arith, h))
export_lines-code zero f t parent_id (some c) text code h = cc
export_lines-code (suc fuel) f t parent_id (some c) text code h =
    elim (Bool-cases (is_put f (registry_line c))) [
      | inr bad ↦ inr (ground (arith, h, bad))
      | inl put ↦ elim (Option-cases (find_all_routing_data fuel t parent_id (some c))) [
        | inl out ↦ ground (arith, h, put, out)
        | inr (next, found) ↦ elim (Option-cases (export_lines fuel f t parent_id next)) [
          | inl out ↦ ground (arith, h, put, found, out)
          | inr ((later, code'), walked) ↦
              let same : code' ≡ code = ground (arith, h, put, found, walked) in
              export_lines-code fuel f t parent_id next later code
                (walked ∙ ap (λ n. some (later, n)) same)
        ]
      ]
    ]

-- An export that reports an error leaves the registry as it was, whatever call failed; one that reports none
-- has put a whole new file in its place.
pub export_routing_table-atomic :
    (fuel : ℕ) (f : Files) (t : Table) (parent_id : ℕ) (registry registry' : Option Bytes)
    (code : ℕ)
    → export_routing_table fuel f t parent_id registry ≡ some (registry', code)
    → ((is_error code ≡ true) × (registry' ≡ registry))
      ⊎ ((code ≡ ok)
          × (text : Bytes) × (export_lines fuel f t parent_id
                (find_direct_routing_data t parent_id none)
              ≡ some (text, ok))
          × (registry' ≡ some text))
unfolding export_routing_table
export_routing_table-atomic fuel f t parent_id registry registry' code h =
    elim (Option-cases
      (export_lines fuel f t parent_id (find_direct_routing_data t parent_id none))) [
        | inl out ↦ inl (ground (arith, h, out))
        | inr ((text, code'), written) ↦ elim (Bool-cases (f.opened)) [
          | inr bad ↦ inl (ground (arith, h, bad))
          | inl opened ↦ elim (Bool-cases (f.shut)) [
            | inr bad ↦ inl (ground (arith, h, opened, written, bad))
            | inl shut ↦ elim (Bool-cases (f.renamed)) [
              | inr bad ↦ inl (ground (arith, h, opened, written, shut, bad))
              | inl renamed ↦
                  go text code' written opened shut renamed
                    (export_lines-code fuel f t parent_id _ text code' written)
            ]
          ]
        ]
      ]
  where
    go :
        (text : Bytes) (code' : ℕ)
        → export_lines fuel f t parent_id (find_direct_routing_data t parent_id none)
          ≡ some (text, code')
        → f.opened ≡ true
        → f.shut ≡ true
        → f.renamed ≡ true
        → (code' ≡ ok) ⊎ (code' ≡ unable_to_write_file)
        → ((is_error code ≡ true) × (registry' ≡ registry))
          ⊎ ((code ≡ ok)
              × (text : Bytes) × (export_lines fuel f t parent_id
                    (find_direct_routing_data t parent_id none)
                  ≡ some (text, ok))
              × (registry' ≡ some text))
    go text code' written opened shut renamed (inl e) =
        inr (ground (arith, h, opened, written, shut, renamed, e))
    go text code' written opened shut renamed (inr e) =
        inl (ground (arith, h, opened, written, shut, renamed, e))
