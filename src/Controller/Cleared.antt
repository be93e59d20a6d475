-- ===== src/Controller/Cleared.antt =====
-- The second loop of `shutdown_devices`: everything below the parent leaves the table.
use os_domotics.Controller.Processes.{remove_devices}
use os_domotics.Prelude.{
  List, [], arith, inl, inr, none, refl, some, subst, suc, zero, ℕ, ◌∷◌, ◌≡◌, ◌⊎◌,
}
use os_domotics.Routing.{Entry, Table, find_direct_routing_data, find_routing_data}
use os_domotics.Routing.Cleared.{Within-none, remove_first, without_children}
use os_domotics.Routing.Loops.{direct_children}
use os_domotics.Routing.Order.{In}
use os_domotics.Routing.Remove.{Below, Within}
use os_domotics.Routing.Tree.{IsTree}

-- The loop ends. What was below a direct child is gone, and nothing is new.
pub remove_devices-ends :
    (rank : ℕ → ℕ) (bound fuel : ℕ) (t : Table) (p : ℕ) (cs : List Entry)
    → IsTree rank bound fuel t
    → direct_children t p ≡ cs
    → (u : Table) × (remove_devices fuel t p (find_direct_routing_data t p none) ≡ some u)
      × Within u t
      × ((e : Entry) → In e cs → (q : ℕ) → Below t e.id q → find_routing_data u q ≡ none)
unfolding remove_devices
remove_devices-ends rank bound zero t p cs tree list = absurd (omega (arith, tree.enough))
remove_devices-ends rank bound (suc fuel) t p [] tree list =
    (t, rw (without_children t p tree.table list) refl, λ q e f. f, λ e i q b. absurd i)
remove_devices-ends rank bound (suc fuel) t p (c ∷ cs) tree list =
    let (s, a) = remove_first rank bound fuel t p c cs tree list in
    let (u, rest, within, gone) = remove_devices-ends rank bound fuel s p cs a.tree a.left in
    (
      u,
      rw (a.first, remove_devices, a.run, a.next) rest,
      λ q e f. a.within q e (within q e f),
      λ e i q b. elim (there_cases e i) [
        | inl h ↦ Within-none s u q within (a.gone q (subst (λ x. Below t x.id q) h b))
        | inr j ↦ gone e j q (a.kept e j q b)
      ],
    )
  where
    there_cases : (e : Entry) → (e ≡ c) ⊎ In e cs → (e ≡ c) ⊎ In e cs
    there_cases e i = i
