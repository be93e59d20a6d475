-- ===== src/Hub/Shutdown.antt =====
-- The end of a hub: `handle_shutdown` of code/src/hub.c.
use os_domotics.Hub.{Hub}
use os_domotics.Messages.Joined.{joined}
use os_domotics.Prelude.{
  Bool, Bool-cases, List, Option, [], ap, append-nil, arith, if◌then◌else◌, inl, inr, none, not,
  refl, some, suc, true, zero, ℕ, ℤ, ◌++◌, ◌∙◌, ◌∷◌, ◌≡◌, ◌⊎◌,
}
use os_domotics.ReturnCodes.{
  is_error, ok, unable_to_cancel_thread, unable_to_close_pipe, unable_to_join_thread,
}
use os_domotics.ReturnCodes.Exits.{exit_code, exit_code-cases}
use os_domotics.Routing.{Entry, Table, find_direct_routing_data, remove_routing_data}
use os_domotics.Routing.Cleared.{remove_first, without_children}
use os_domotics.Routing.Loops.{direct_children}
use os_domotics.Routing.Refinement.{run}
use os_domotics.Routing.Tree.{IsTree}
use os_domotics.Utils.{
  Effect, Kernel, closed_pipe, end_device_fifos, printed, shown, signalled, unlinked, wrote,
}

-- The loop over the children. A pipe that cannot be closed ends it. `none` means that the children have not
-- ended within the fuel.
unfoldable pub close_children :
    ℕ → Kernel → ℕ → Table → Option Entry → ℕ → Option (Table × ℕ × List Effect)
close_children fuel k hub_id t none error = some (t, error, [])
close_children zero k hub_id t (some child) error = none
close_children (suc fuel) k hub_id t (some child) error =
    let next = find_direct_routing_data t hub_id (some child) in
    let closed : Option (Table × ℕ × List Effect) =
      elim (remove_routing_data fuel t child.id hub_id) [
        | none ↦ none
        | some t' ↦ elim (close_children fuel k hub_id t' next error) [
          | none ↦ none
          | some (t'', error', more) ↦ some (t'', error', closed_pipe child.next_hop_fd ∷ more)
        ]
      ] in
    if k.closed child.next_hop_fd
    then closed
    else some (t, unable_to_close_pipe, printed unable_to_close_pipe ∷ [])

-- The error of the other thread's end. `joined` tells whether pthread_join succeeds.
abbrev pub thread_end_error : Kernel → Bool → Bool → ℕ
thread_end_error k joined is_bottom_up_thread =
    if is_bottom_up_thread
    then ok
    else if not joined
    then unable_to_join_thread
    else if not k.cancelled
    then unable_to_cancel_thread
    else ok

-- An error is printed.
abbrev pub complaints : ℕ → List Effect
complaints code = if is_error code then printed code ∷ [] else []

-- The children of a hub that has some.
unfoldable pub close_all_children : ℕ → Kernel → Hub → ℕ → Option (Table × ℕ × List Effect)
unfolding close_children
close_all_children fuel k h error =
    let closed =
      close_children fuel k h.id h.routing_table
        (find_direct_routing_data h.routing_table h.id none) error in
    if h.has_children then closed else some (h.routing_table, error, [])

-- The exit code, and the table that is left.
unfoldable pub handle_shutdown : ℕ → Kernel → Bool → Bool → ℕ → Hub → Option (Hub × ℕ × List Effect)
unfolding close_all_children
handle_shutdown fuel k joined is_bottom_up_thread error h =
    let first = thread_end_error k joined is_bottom_up_thread in
    let complained = complaints first in
    elim (close_all_children fuel k h first) [
      | none ↦ none
      | some (t, second, effects) ↦
          let err =
            end_device_fifos k h.id h.rcv_requests_parent_fd h.snd_responses_parent_fd
              (some h.rcv_responses_children_fd) in
          let last = if is_error err then err else second in
          some (
            record h { routing_table = t },
            exit_code last error,
            complained ++ (effects ++ complaints last),
          )
    ]

-- The pipes that a step closes one by one.
abbrev pub closed_pipes : List Effect → List ℤ
closed_pipes [] = []
closed_pipes (closed_pipe fd ∷ effects) = fd ∷ closed_pipes effects
closed_pipes (_ ∷ effects) = closed_pipes effects

abbrev pub next_hops : List Entry → List ℤ
next_hops [] = []
next_hops (e ∷ es) = e.next_hop_fd ∷ next_hops es

closed_pipes-append :
    (xs ys : List Effect) → closed_pipes (xs ++ ys) ≡ closed_pipes xs ++ closed_pipes ys
closed_pipes-append [] ys = refl
closed_pipes-append (closed_pipe fd ∷ xs) ys = ap (λ l. fd ∷ l) (closed_pipes-append xs ys)
closed_pipes-append (wrote _ _ ∷ xs) ys = closed_pipes-append xs ys
closed_pipes-append (printed _ ∷ xs) ys = closed_pipes-append xs ys
closed_pipes-append (shown _ ∷ xs) ys = closed_pipes-append xs ys
closed_pipes-append (signalled _ ∷ xs) ys = closed_pipes-append xs ys
closed_pipes-append (unlinked _ ∷ xs) ys = closed_pipes-append xs ys

closed_pipes-complaints : (code : ℕ) → closed_pipes (complaints code) ≡ []
closed_pipes-complaints code = elim (Bool-cases (is_error code)) [
  | inl bad ↦ ground (arith, bad)
  | inr good ↦ ground (arith, good)
]

close_children-ends :
    (rank : ℕ → ℕ) (bound fuel : ℕ) (k : Kernel) (hub_id : ℕ) (t : Table) (cs : List Entry)
    (error : ℕ)
    → IsTree rank bound fuel t
    → direct_children t hub_id ≡ cs
    → ((fd : ℤ) → k.closed fd ≡ true)
    → (u : Table) × (effects : List Effect) × (close_children fuel k hub_id t
          (find_direct_routing_data t hub_id none)
          error
        ≡ some (u, error, effects))
      × (closed_pipes effects ≡ next_hops cs)
      × (direct_children u hub_id ≡ [])
unfolding close_children
close_children-ends rank bound zero k hub_id t cs error tree list closed =
    absurd (omega (arith, tree.enough))
close_children-ends rank bound (suc fuel) k hub_id t [] error tree list closed =
    (t, [], rw (without_children t hub_id tree.table list) refl, refl, list)
close_children-ends rank bound (suc fuel) k hub_id t (c ∷ cs) error tree list closed =
    let (s, a) = remove_first rank bound fuel t hub_id c cs tree list in
    let (u, effects, rest, sums, empty) =
      close_children-ends rank bound fuel k hub_id s cs error a.tree a.left closed in
    (
      u,
      closed_pipe c.next_hop_fd ∷ effects,
      rw (a.first, close_children, a.run, a.next, closed c.next_hop_fd, rest) refl,
      ap (λ l. c.next_hop_fd ∷ l) sums,
      empty,
    )

close_all_children-ends :
    (rank : ℕ → ℕ) (bound fuel : ℕ) (k : Kernel) (h : Hub) (error : ℕ)
    → IsTree rank bound fuel h.routing_table
    → ((fd : ℤ) → k.closed fd ≡ true)
    → (u : Table) × (effects : List Effect) × (close_all_children fuel k h error
        ≡ some (u, error, effects))
      × (closed_pipes effects
          ≡ (if h.has_children then next_hops (direct_children h.routing_table h.id) else []))
      × (if h.has_children then direct_children u h.id ≡ [] else u ≡ h.routing_table)
unfolding close_all_children
close_all_children-ends rank bound fuel k h error tree closed =
    let (u, effects, run, sums, empty) =
      close_children-ends rank bound fuel k h.id h.routing_table
        (direct_children h.routing_table h.id) error tree refl closed in
    elim (Bool-cases h.has_children) [
      | inl parent ↦ rw parent (u, effects, run, sums, empty)
      | inr alone ↦ rw alone (h.routing_table, [], refl, refl, refl)
    ]

-- A hub whose table is a tree, with fuel for it, and all of whose descriptors can be closed goes through its
-- shutdown to the exit, and the exit code is the error that it is ended for, or an error of the shutdown. Where
-- `has_children` is set, it closes the pipe of each of its direct children, each once and in the order of the
-- table, and none of them is left in the table; where it is not set, it closes no pipe of a child and leaves the
-- table.
pub handle_shutdown-closes :
    (rank : ℕ → ℕ) (bound fuel : ℕ) (k : Kernel) (joined is_bottom_up_thread : Bool) (error : ℕ)
    (h : Hub)
    → IsTree rank bound fuel h.routing_table
    → ((fd : ℤ) → k.closed fd ≡ true)
    → (h' : Hub) × (code : ℕ) × (effects : List Effect) × (handle_shutdown fuel k joined
          is_bottom_up_thread error h
        ≡ some (h', code, effects))
      × ((is_error code ≡ true) ⊎ (code ≡ error))
      × (closed_pipes effects
          ≡ (if h.has_children then next_hops (direct_children h.routing_table h.id) else []))
      × (if h.has_children
          then direct_children h'.routing_table h.id ≡ []
          else h'.routing_table ≡ h.routing_table)
unfolding handle_shutdown
handle_shutdown-closes rank bound fuel k joined is_bottom_up_thread error h tree closed =
    let first = thread_end_error k joined is_bottom_up_thread in
    let (u, effects, run, sums, left) =
      close_all_children-ends rank bound fuel k h first tree closed in
    let err =
      end_device_fifos k h.id h.rcv_requests_parent_fd h.snd_responses_parent_fd
        (some h.rcv_responses_children_fd) in
    let last = if is_error err then err else first in
    (
      record h { routing_table = u },
      exit_code last error,
      complaints first ++ (effects ++ complaints last),
      rw (handle_shutdown, run) refl,
      exit_code-cases last error,
      closed_pipes-append (complaints first) (effects ++ complaints last)
          ∙ (ap (λ l. l ++ closed_pipes (effects ++ complaints last))
                (closed_pipes-complaints first)
              ∙ (closed_pipes-append effects (complaints last)
                  ∙ (ap (λ l. closed_pipes effects ++ l) (closed_pipes-complaints last)
                      ∙ (append-nil (closed_pipes effects) ∙ sums)))),
      left,
    )
