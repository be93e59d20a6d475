-- ===== src/Controller/Lacking.antt =====
-- Tables that lack the dead ones of some entries.
use os_domotics.Controller.Deleted.{with_type-none}
use os_domotics.Controller.Processes.{System}
use os_domotics.Controller.Shutdown.{is_dead}
use os_domotics.Prelude.{
  List, [], ap, false, inl, inr, none, refl, subst, sym, true, ℕ, ◌∙◌, ◌∷◌, ◌≡◌, ◌≢◌,
}
use os_domotics.Routing.{Entry, Table, find_routing_data}
use os_domotics.Routing.Bucket.{with_type}
use os_domotics.Routing.Order.{In}
use os_domotics.Routing.Tree.{IsTree}
use os_domotics.Routing.Types.{Retyped-refl, with_type-with_type}
use os_domotics.Routing.Whole.{In-map_entries, map_entries, map_entries-In}

-- What is left of `t` when the dead ones of the entries `es` are removed.
pub record LacksDead (rank : ℕ → ℕ) (bound fuel : ℕ) (s : System) (t : Table) (es : List Entry)
    (u : Table) : Type 0 where
  pub tree : IsTree rank bound fuel u
  pub gone :
      (e : Entry) → In e es → is_dead (s.polled e.pid) ≡ true → find_routing_data u e.id ≡ none
  pub kept :
      (q : ℕ)
      → ((e : Entry) → In e es → is_dead (s.polled e.pid) ≡ true → q ≢ e.id)
      → (type : ℕ) × (find_routing_data u q ≡ with_type type (find_routing_data t q))

pub LacksDead-nil :
    (rank : ℕ → ℕ) (bound fuel : ℕ) (s : System) (t : Table)
    → IsTree rank bound fuel t
    → LacksDead rank bound fuel s t [] t
LacksDead-nil rank bound fuel s t tree = record {
  tree = tree;
  gone = λ e i _. absurd i;
  kept = λ q _. Retyped-refl t q;
}

pub LacksDead-alive :
    (rank : ℕ → ℕ) (bound fuel : ℕ) (s : System) (t u : Table) (e : Entry) (es : List Entry)
    → is_dead (s.polled e.pid) ≡ false
    → LacksDead rank bound fuel s t es u
    → LacksDead rank bound fuel s t (e ∷ es) u
LacksDead-alive rank bound fuel s t u e es alive l = record {
  tree = l.tree;
  gone = λ d i dead. elim i [
    | inl h ↦
        let died : is_dead (s.polled e.pid) ≡ true =
          subst (λ x. is_dead (s.polled x.pid) ≡ true) h dead in
        cc (died, alive)
    | inr j ↦ l.gone d j dead
  ];
  kept = λ q h. l.kept q (λ d i dead. h d (inr i) dead);
}

pub LacksDead-dead :
    (rank : ℕ → ℕ) (bound fuel : ℕ) (s : System) (t r u : Table) (e : Entry) (es : List Entry)
    (types : ℕ → ℕ)
    → is_dead (s.polled e.pid) ≡ true
    → ((d : Entry) → In d es → d.id ≢ e.id)
    → find_routing_data r e.id ≡ none
    → ((q : ℕ) → q ≢ e.id → find_routing_data r q ≡ with_type (types q) (find_routing_data t q))
    → LacksDead rank bound fuel s r (map_entries (λ x. record x { type = types x.id }) es) u
    → LacksDead rank bound fuel s t (e ∷ es) u
LacksDead-dead rank bound fuel s t r u e es types dead apart none_left others l = record {
  tree = l.tree;
  gone = λ d i died. elim i [
    | inl h ↦
        let (type, same) = l.kept e.id (λ x j _ k.
          let (y, i', p) = In-map_entries f es x j in apart y i' (sym (k ∙ ap (λ z. z.id) p))) in
        subst (λ z. find_routing_data u z.id ≡ none) (sym h)
          (same ∙ with_type-none type (find_routing_data r e.id) none_left)
    | inr j ↦ l.gone (f d) (map_entries-In f es d j) died
  ];
  kept = λ q h.
      let (type, same) = l.kept q (λ x j died k.
        let (y, i', p) = In-map_entries f es x j in
        h y (inr i') (ap (λ z. is_dead (s.polled z.pid)) (sym p) ∙ died) (k ∙ ap (λ z. z.id) p)) in
      let other = h e (inl refl) dead in
      (
        type,
        same
            ∙ (ap (with_type type) (others q other)
                ∙ with_type-with_type type (types q) (find_routing_data t q)),
      );
}
  where
    f : Entry → Entry
    f x = record x { type = types x.id }
