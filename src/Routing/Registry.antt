-- ===== src/Routing/Registry.antt =====
-- The registry of the devices: `export_routing_table` and `find_device_type` of code/src/routing.c. The
-- controller writes the file, and a manual interaction reads it.
pub mod Exported
pub mod RoundTrip
pub mod Ends
use os_domotics.Messages.{next_unsigned}
use os_domotics.Prelude.{
  Bool, Bytes, Option, [], if◌then◌else◌, length, ltb, none, not, some, suc, u16, u8, zero, ℕ, ◌&&◌,
  ◌++◌, ◌-◌, ◌==◌, ◌∷◌,
}
use os_domotics.ReturnCodes.{
  device_not_found, is_error, ok, registry_format_error, unable_to_close_file, unable_to_open_file,
  unable_to_rename_file, unable_to_write_file,
}
use os_domotics.Routing.{Entry, Table, find_all_routing_data, find_direct_routing_data}
use os_domotics.Text.{c_string, print_unsigned, space}

abbrev pub registry_line_size : ℕ
registry_line_size = 16

-- What the calls on files answer: fopen, fputs, fclose and rename.
pub record Files : Type 0 where
  pub opened : Bool
  pub put : Bytes → Bool
  pub shut : Bool
  pub renamed : Bool

-- `"%u %u\n"`
unfoldable pub registry_line : Entry → Bytes
registry_line e = print_unsigned e.id ++ space ∷ (print_unsigned e.type ++ 10 ∷ [])

abbrev pub is_put : Files → Bytes → Bool
is_put f line = ltb (length line) registry_line_size && f.put line

-- The loop of `export_routing_table`: what is in the temporary file, and the error. `none` means that the
-- walk has not ended within the fuel.
unfoldable pub export_lines : ℕ → Files → Table → ℕ → Option Entry → Option (Bytes × ℕ)
export_lines fuel f t parent_id none = some ([], ok)
export_lines zero f t parent_id (some current) = none
export_lines (suc fuel) f t parent_id (some current) =
    let line = registry_line current in
    let rest : Option (Bytes × ℕ) = elim (find_all_routing_data fuel t parent_id (some current)) [
      | none ↦ none
      | some next ↦ export_lines fuel f t parent_id next
    ] in
    let written : Option (Bytes × ℕ) = elim rest [
      | none ↦ none
      | some (text, code) ↦ some (line ++ text, code)
    ] in
    if is_put f line then written else some ([], unable_to_write_file)

-- The new contents of the registry, `none` where there is no such file, and the error.
unfoldable pub export_routing_table :
    ℕ → Files → Table → ℕ → Option Bytes → Option (Option Bytes × ℕ)
unfolding export_lines
export_routing_table fuel f t parent_id registry =
    let exported : Option (Option Bytes × ℕ) =
      elim (export_lines fuel f t parent_id (find_direct_routing_data t parent_id none)) [
        | none ↦ none
        | some (text, code) ↦ some (
            if not f.shut
            then (registry, unable_to_close_file)
            else if is_error code
            then (registry, code)
            else if f.renamed
            then (some text, ok)
            else (registry, unable_to_rename_file))
      ] in
    if f.opened then exported else some (registry, unable_to_open_file)

-- `fgets`: at most `size - 1` bytes, up to a line feed, and what is left of the file.
unfoldable pub read_line : ℕ → Bytes → Bytes × Bytes
read_line zero text = ([], text)
read_line (suc n) [] = ([], [])
read_line (suc n) (c ∷ text) =
    let (line, rest) = read_line n text in if c == 10 then (c ∷ [], text) else (c ∷ line, rest)

-- The line feed at the end of a line is taken away.
unfoldable pub without_line_feed : Bytes → Bytes
without_line_feed [] = []
without_line_feed (c ∷ []) = if c == 10 then [] else c ∷ []
without_line_feed (c ∷ d ∷ line) = c ∷ without_line_feed (d ∷ line)

-- The id and the type of a line, in their 16 and 8 bits; `none` is the error of the format.
unfoldable pub parse_registry_line : Bytes → Option (ℕ × ℕ)
parse_registry_line line = elim (next_unsigned (without_line_feed (c_string line))) [
  | none ↦ none
  | some (current_id, rest) ↦ elim (next_unsigned rest) [
    | none ↦ none
    | some (current_type, _) ↦ some (u16 current_id, u8 current_type)
  ]
]

-- The loop of `find_device_type`: the type found, and the error. `none` means that the file has not ended
-- within the fuel.
unfoldable pub search_registry : ℕ → Bytes → ℕ → Option (Option ℕ × ℕ)
search_registry fuel [] id = some (none, ok)
search_registry zero (c ∷ text) id = none
search_registry (suc fuel) (c ∷ text) id =
    let (line, rest) = read_line (registry_line_size - 1) (c ∷ text) in
    let later = search_registry fuel rest id in
    elim (parse_registry_line line) [
      | none ↦ some (none, registry_format_error)
      | some (current_id, current_type) ↦
          if current_id == id then some (some current_type, ok) else later
    ]

-- The type that `*type` has after the call, from the one before, and the error.
unfoldable pub find_device_type : ℕ → Files → Option Bytes → ℕ → ℕ → Option (ℕ × ℕ)
unfolding search_registry
find_device_type fuel f none id type = some (type, device_not_found)
find_device_type fuel f (some text) id type =
    let searched : Option (ℕ × ℕ) = elim (search_registry fuel text id) [
      | none ↦ none
      | some (found, code) ↦
          let type' : ℕ = elim found [ none ↦ type | some current_type ↦ current_type ] in
          let missing : ℕ = elim found [ none ↦ device_not_found | some _ ↦ ok ] in
          some (
            type',
            if not f.shut then unable_to_close_file else if is_error code then code else missing,
          )
    ] in
    if f.opened then searched else some (type, unable_to_open_file)
