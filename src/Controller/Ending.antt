-- ===== src/Controller/Ending.antt =====
-- A pending exit ends: the turns of the thread for responses, one after the other.
use os_domotics.Commands.{delete, is_delete, is_link}
use os_domotics.Controller.Check.{Controller, has_direct_child, id}
use os_domotics.Controller.Deleted.{IsForgotten, update_with_delete_response-IsForgotten}
use os_domotics.Controller.Deletions.{update_with_delete_response}
use os_domotics.Controller.Dispatch.{execute_exit_command}
use os_domotics.Controller.Exit.{execute_exit_command-runs, requests_for}
use os_domotics.Controller.Processes.{System}
use os_domotics.Controller.Responses.{
  complaint, delete_update, link_update, output_response, process_response, succeeded,
}
use os_domotics.Hub.{later}
use os_domotics.Messages.{Response}
use os_domotics.Prelude.{
  Bool-cases, List, Option, Option-cases, [], arith, false, inl, inr, none, refl, some, subst, sym,
  true, ℕ, ◌++◌, ◌∙◌, ◌∷◌, ◌≡◌, ◌≢◌, ◌⊎◌,
}
use os_domotics.ReturnCodes.{child_not_found, is_error, unable_to_unlock_mutex}
use os_domotics.Routing.{Entry, Table, find_direct_routing_data, find_routing_data}
use os_domotics.Routing.Children.{find_direct_sound}
use os_domotics.Routing.Loops.{direct_children}
use os_domotics.Routing.Refinement.{run}
use os_domotics.Routing.Remove.{Below}
use os_domotics.Routing.Table.{IsTable, find-id}
use os_domotics.Routing.Tree.{IsTree}
use os_domotics.Utils.{Effect, printed}

-- The responses that are processed, each with the answers that the system gives meanwhile.
unfoldable pub process_responses :
    ℕ → List (System × Response) → Controller → Option (Controller × List Effect)
unfolding process_response
process_responses fuel [] c = some (c, [])
process_responses fuel ((s, r) ∷ rs) c = elim (process_response fuel s r c) [
  | none ↦ none
  | some (c', effects) ↦ elim (process_responses fuel rs c') [
    | none ↦ none
    | some (c'', more) ↦ some (c'', effects ++ more)
  ]
]

-- A successful answer to a delete request.
abbrev pub IsDeleted : Response → Type 0
IsDeleted r = (is_error r.response_code ≡ false) × (is_delete r.command_code ≡ true)

abbrev pub AllDeleted : List (System × Response) → Type 0
AllDeleted [] = Unit
AllDeleted ((s, r) ∷ rs) = IsDeleted r × AllDeleted rs

abbrev pub HasAnswer : List (System × Response) → ℕ → Type 0
HasAnswer [] q = ⊥
HasAnswer ((s, r) ∷ rs) q = (r.source ≡ q) ⊎ HasAnswer rs q

delete_is_no_link : (c : ℕ) → is_delete c ≡ true → is_link c ≡ false
delete_is_no_link c h = ground (arith, h)

link_update-delete :
    (fuel : ℕ) (s : System) (r : Response) (c : Controller)
    → is_delete r.command_code ≡ true
    → link_update fuel s r c ≡ some (c, [])
link_update-delete fuel s r c h =
    let no_link = delete_is_no_link r.command_code h in
    elim (Bool-cases (succeeded r)) [
      | inl good ↦ ground (arith, good, no_link)
      | inr bad ↦ ground (arith, bad)
    ]

delete_update-run :
    (fuel : ℕ) (s : System) (r : Response) (c c' : Controller) (code : ℕ) (effects : List Effect)
    → IsDeleted r
    → update_with_delete_response fuel s r c ≡ some (c', code, effects)
    → delete_update fuel s r c ≡ some (c', effects ++ complaint code)
delete_update-run fuel s r c c' code effects (success, deleted) run =
    ground (arith, success, deleted, run)

-- One delete response: the controller after the update, but that a failed unlock forces the exit.
process_response-delete :
    (fuel : ℕ) (s : System) (r : Response) (c c' : Controller) (code : ℕ) (effects : List Effect)
    → IsDeleted r
    → update_with_delete_response fuel s r c ≡ some (c', code, effects)
    → (result : Controller × List Effect) × (process_response fuel s r c ≡ some result)
      × (result.0.routing_table ≡ c'.routing_table)
      × (result.0.pending_shutdown ≡ c'.pending_shutdown)
      × (c'.force_exit ≡ true → result.0.force_exit ≡ true)
unfolding process_response
process_response-delete fuel s r c c' code effects (success, deleted) run =
    let links = link_update-delete fuel s r c deleted in
    let deletion = delete_update-run fuel s r c c' code effects (success, deleted) run in
    let line = output_response c.routing_table r in
    let more = effects ++ complaint code in
    elim (Bool-cases (s.kernel.unlocked)) [
      | inl unlocked ↦ (
        (c', [] ++ line ∷ more),
        rw (process_response, links, deletion, unlocked) refl,
        refl,
        refl,
        λ h. h,
      )
      | inr stuck ↦ (
        (
          record c' { force_exit = true },
          [] ++ line ∷ (more ++ printed unable_to_unlock_mutex ∷ []),
        ),
        rw (process_response, links, deletion, stuck) refl,
        refl,
        refl,
        λ h. refl,
      )
    ]

-- The exit is forced, or it is pending with a direct child left, and every direct child answers.
abbrev IsEnding : List (System × Response) → Controller → Type 0
IsEnding rs c =
    (c.force_exit ≡ true)
    ⊎ ((c.pending_shutdown ≡ true)
        × (has_direct_child c.routing_table id ≡ true)
        × ((e : Entry)
            → find_routing_data c.routing_table e.id ≡ some e
            → e.parent_id ≡ id
            → HasAnswer rs e.id))

has_direct_child-find :
    (t : Table) (p : ℕ)
    → IsTable t
    → has_direct_child t p ≡ true
    → (e : Entry) × (find_routing_data t e.id ≡ some e) × (e.parent_id ≡ p)
has_direct_child-find t p v h = elim (Option-cases (find_direct_routing_data t p none)) [
  | inl out ↦ ground (arith, h, out)
  | inr (e, found) ↦ let (parent, stored) = find_direct_sound t p e v found in (e, stored, parent)
]

-- The direct children that a deletion leaves were there before, and are not the deleted device.
left_child :
    (rank : ℕ → ℕ) (bound fuel : ℕ) (t u : Table) (device e : Entry)
    → IsForgotten rank bound fuel t device u
    → find_routing_data u e.id ≡ some e
    → (e.id ≢ device.id)
      × ((d : Entry) × (find_routing_data t d.id ≡ some d)
          × (d.id ≡ e.id)
          × (d.parent_id ≡ e.parent_id))
left_child rank bound fuel t u device e forgotten f =
    let outside : ¬ Below t device.id e.id = λ b. cc (forgotten.gone e.id b, f) in
    let (type, same) = forgotten.kept e.id outside in
    (
      λ s. outside (subst (Below t device.id) (sym s) Below.self),
      elim (Option-cases (find_routing_data t e.id)) [
        | inl out ↦ ground (arith, f, same, out)
        | inr (d, found) ↦
            let own = find-id t e.id d found in
            (
              d,
              subst (λ n. find_routing_data t n ≡ some d) (sym own) found,
              own,
              ground (arith, f, same, found),
            )
      ],
    )

-- What is known after one turn.
abbrev Turns :
    (ℕ → ℕ) → ℕ → ℕ → List (System × Response) → Option (Controller × List Effect) → Type 0
Turns rank bound fuel rs turned =
    (result : Controller × List Effect) × (turned ≡ some result)
    × IsTree rank bound fuel result.0.routing_table
    × IsEnding rs result.0

unknown_source :
    (rank : ℕ → ℕ) (bound fuel : ℕ) (s : System) (r : Response) (rs : List (System × Response))
    (c : Controller)
    → IsTree rank bound fuel c.routing_table
    → IsDeleted r
    → IsEnding ((s, r) ∷ rs) c
    → find_routing_data c.routing_table r.source ≡ none
    → Turns rank bound fuel rs (process_response fuel s r c)
unfolding update_with_delete_response
unknown_source rank bound fuel s r rs c tree deleted ending out =
    let run : update_with_delete_response fuel s r c ≡ some (c, child_not_found, []) =
      rw (update_with_delete_response, out) refl in
    let (result, turned, table, pending, force) =
      process_response-delete fuel s r c c child_not_found [] deleted run in
    (
      result,
      turned,
      subst (IsTree rank bound fuel) (sym table) tree,
      elim ending [
        | inl h ↦ inl (force h)
        | inr (h, child, answers) ↦ inr (
          pending ∙ h,
          subst (λ t. has_direct_child t id ≡ true) (sym table) child,
          λ e f p.
              let stored = subst (λ t. find_routing_data t e.id ≡ some e) table f in
              elim (answers e stored p) [
                | inl same ↦
                    absurd (
                      cc (subst (λ n. find_routing_data c.routing_table n ≡ none) same out, stored))
                | inr later ↦ later
              ],
        )
      ],
    )

known_source :
    (rank : ℕ → ℕ) (bound fuel : ℕ) (s : System) (r : Response) (rs : List (System × Response))
    (c : Controller) (device : Entry)
    → IsTree rank bound fuel c.routing_table
    → IsDeleted r
    → IsEnding ((s, r) ∷ rs) c
    → find_routing_data c.routing_table r.source ≡ some device
    → Turns rank bound fuel rs (process_response fuel s r c)
known_source rank bound fuel s r rs c device tree deleted ending found =
    let (c', code, effects, run, forgotten, kept_pending, kept_force) =
      update_with_delete_response-IsForgotten rank bound fuel s r c device tree found in
    let (result, turned, table, pending, force) =
      process_response-delete fuel s r c c' code effects deleted run in
    let own = find-id c.routing_table r.source device found in
    (
      result,
      turned,
      subst (IsTree rank bound fuel) (sym table) forgotten.tree,
      elim ending [
        | inl h ↦ inl (force (ground (arith, kept_force, h)))
        | inr (h, child, answers) ↦ elim (Bool-cases (has_direct_child c'.routing_table id)) [
          | inr none_left ↦ inl (force (ground (arith, kept_force, kept_pending, h, none_left)))
          | inl some_left ↦ inr (
            pending ∙ (kept_pending ∙ h),
            subst (λ t. has_direct_child t id ≡ true) (sym table) some_left,
            λ e f p.
                let stored = subst (λ t. find_routing_data t e.id ≡ some e) table f in
                let (other, (d, before, same, parent)) =
                  left_child rank bound fuel c.routing_table c'.routing_table device e forgotten
                    stored in
                elim (answers d before (parent ∙ p)) [
                  | inl source ↦ absurd (other (sym same ∙ (sym source ∙ sym own)))
                  | inr later ↦ subst (HasAnswer rs) same later
                ],
          )
        ]
      ],
    )

ends :
    (rank : ℕ → ℕ) (bound fuel : ℕ) (rs : List (System × Response)) (c : Controller)
    → IsTree rank bound fuel c.routing_table
    → AllDeleted rs
    → IsEnding rs c
    → (result : Controller × List Effect) × (process_responses fuel rs c ≡ some result)
      × (result.0.force_exit ≡ true)
unfolding process_responses
ends rank bound fuel [] c tree deleted ending = (
  (c, []),
  refl,
  elim ending [
    | inl h ↦ h
    | inr (_, child, answers) ↦
        let (e, stored, parent) = has_direct_child-find c.routing_table id tree.table child in
        absurd (answers e stored parent)
  ],
)
ends rank bound fuel ((s, r) ∷ rs) c tree deleted ending =
    let (turned, run, tree', ending') : Turns rank bound fuel rs (process_response fuel s r c) =
      elim (Option-cases (find_routing_data c.routing_table r.source)) [
        | inl out ↦ unknown_source rank bound fuel s r rs c tree deleted.0 ending out
        | inr (device, found) ↦
            known_source rank bound fuel s r rs c device tree deleted.0 ending found
      ] in
    let (result, rest, h) = ends rank bound fuel rs turned.0 tree' deleted.1 ending' in
    ((result.0, turned.1 ++ result.1), rw (process_responses, run, rest) refl, h)

-- Once the exit command was given on a tree of devices, with the mutex working and fuel for the tree, the
-- controller ends: after any sequence of successful delete responses, in any order, among which there is one
-- of every direct child, the exit is forced, whatever the system answers meanwhile.
pub execute_exit_command-ends :
    (rank : ℕ → ℕ) (bound fuel : ℕ) (s : System) (rs : List (System × Response)) (c : Controller)
    → IsTree rank bound fuel c.routing_table
    → s.kernel.locked ≡ true
    → s.kernel.unlocked ≡ true
    → AllDeleted rs
    → ((e : Entry)
        → find_routing_data c.routing_table e.id ≡ some e
        → e.parent_id ≡ id
        → HasAnswer rs e.id)
    → (asked : Controller × ℕ × List Effect) × (result : Controller × List Effect)
      × (execute_exit_command fuel s c ≡ some asked)
      × (process_responses fuel rs asked.0 ≡ some result)
      × (result.0.force_exit ≡ true)
execute_exit_command-ends rank bound fuel s rs c tree locked unlocked deleted answers =
    let (c', error, run, table, state) =
      execute_exit_command-runs fuel s c tree.table (omega (arith, tree.enough)) locked unlocked in
    let tree' = subst (IsTree rank bound fuel) (sym table) tree in
    let ending : IsEnding rs c' = elim (Bool-cases (has_direct_child c.routing_table id)) [
      | inr none_left ↦ inl (rw none_left at state)
      | inl some_left ↦ inr (
        rw some_left at state,
        subst (λ t. has_direct_child t id ≡ true) (sym table) some_left,
        λ e f p. answers e (subst (λ t. find_routing_data t e.id ≡ some e) table f) p,
      )
    ] in
    let (result, ran, h) = ends rank bound fuel rs c' tree' deleted ending in
    (
      (
        c',
        error,
        requests_for s.kernel delete c.request.argument (direct_children c.routing_table id),
      ),
      result,
      run,
      ran,
      h,
    )
