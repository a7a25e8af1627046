-- ===== src/Stats/Register.antt =====
-- stats/graphite.go: after `init` every counter of server/stats.go is the one registered under its name.
use go_dnsmasq.Base.{
  ℕ, ◌==◌, ◌≡◌, refl, ap, sym, ◌∙◌, subst, inl, inr, Bool, true, false, [], ◌∷◌, Option, none, some,
  Occurs, All, arith, is_some, Bool-cases, ==_iff,
}
use go_dnsmasq.Base.Text.{Bytes, equal}
use go_dnsmasq.Base.Text.Laws.{equal_refl, equal→eq}
use go_dnsmasq.Base.Map.{Map, lookup, Distinct}
use go_dnsmasq.Server.Tally.{index}
use go_dnsmasq.Server.World.{Counter}
use go_dnsmasq.Stats.{counters, Registered, register_counter, register_all, init}
use go_dnsmasq.Stats.Names.{
  metric_name, at_index, at_index-index, Named, All-Occurs, All-counters, All-of, lookup-Occurs,
}

-- An order in which a `range` visits the entries of `counters`.
pub record Visits (order : Map Counter) : Type 0 where
  pub once : Distinct order
  pub entries : (k : Bytes) (c : Counter) → Occurs (k, c) order → Occurs (k, c) counters
  pub whole : (k : Bytes) (c : Counter) → Occurs (k, c) counters → Occurs (k, c) order

module _ {R : Type 0} (register : Bytes → ℕ → R → R × Bool) (get : R → Bytes → Option ℕ) where
  -- `metrics.Register` as documented: a name that is not in the registry is registered, with no error, and no other
  -- name changes.
  pub record IsRegistry : Type 0 where
    pub accepts : (k : Bytes) (n : ℕ) (r : R) → get r k ≡ none → (register k n r).1 ≡ true
    pub own : (k : Bytes) (n : ℕ) (r : R) → get r k ≡ none → get (register k n r).0 k ≡ some n
    pub others :
        (k : Bytes) (n : ℕ) (r : R) (j : Bytes)
        → get r k ≡ none
        → equal k j ≡ false
        → get (register k n r).0 j ≡ get r j

  -- After the loop over these entries.
  record Wires (es : Map Counter) (s s' : Registered R) : Type 0 where
    no_error : s'.failed ≡ s.failed
    wired :
        (k : Bytes) (c : Counter)
        → Occurs (k, c) es
        → (n : ℕ) × (s'.vars c ≡ some n) × (get s'.registry k ≡ some n)
    registry : (j : Bytes) → lookup j es ≡ none → get s'.registry j ≡ get s.registry j
    vars : (c : Counter) → lookup (metric_name c) es ≡ none → s'.vars c ≡ s.vars c

  -- No two counters share a name.
  same_name : (c d : Counter) → index c ≡ index d → metric_name c ≡ metric_name d
  same_name c d e = ap metric_name (sym (at_index-index c) ∙ ap at_index e ∙ at_index-index d)

  module _ (reg : IsRegistry) where
    -- A variable with another name is another one.
    other_variable :
        (k : Bytes) (c d : Counter)
        → k ≡ metric_name c
        → equal k (metric_name d) ≡ false
        → (index c == index d) ≡ false
    other_variable k c d named differ = elim (Bool-cases (index c == index d)) [
      | inl e ↦
          let same : k ≡ metric_name d = named ∙ same_name c d ((==_iff (index c) (index d)).0 e) in
          absurd (
            ground (
              arith,
              differ,
              equal_refl (metric_name d),
              ap (λ (m : Bytes). equal m (metric_name d)) same,
            ))
      | inr e ↦ e
    ]

    -- One entry, in front of others.
    register_counter-Wires :
        (k : Bytes) (c : Counter) (es : Map Counter) (s s' : Registered R)
        → k ≡ metric_name c
        → lookup k es ≡ none
        → get s.registry k ≡ none
        → Wires es (register_counter register (k, c) s) s'
        → Wires ((k, c) ∷ es) s s'
    unfolding register_counter lookup
    register_counter-Wires k c es s s' named new free w = record {
      no_error = rw w.no_error (rw (reg.accepts k s.made s.registry free) refl);
      wired = λ j d o. by j d o;
      registry = λ j h.
          w.registry j (ground (arith, h))
          ∙ reg.others k s.made s.registry j free (ground (arith, h));
      vars = λ d h.
          w.vars d (ground (arith, h))
          ∙ ground (arith, other_variable k c d named (ground (arith, h)));
    }
      where
        first : (n : ℕ) × (s'.vars c ≡ some n) × (get s'.registry k ≡ some n)
        first = (
          s.made,
          w.vars c (rw (sym named) new) ∙ ground arith,
          w.registry k new ∙ reg.own k s.made s.registry free,
        )

        by :
            (j : Bytes) (d : Counter)
            → Occurs (j, d) ((k, c) ∷ es)
            → (n : ℕ) × (s'.vars d ≡ some n) × (get s'.registry j ≡ some n)
        by j d (inr o) = w.wired j d o
        by j d (inl e) =
            subst
              (λ (p : Bytes × Counter).
                (n : ℕ) × (s'.vars p.1 ≡ some n) × (get s'.registry p.0 ≡ some n))
              (sym e) first

    register_all-Wires :
        (es : Map Counter) (s : Registered R)
        → All Named es
        → Distinct es
        → ((j : Bytes) → is_some (lookup j es) ≡ true → get s.registry j ≡ none)
        → Wires es s (register_all register es s)
    unfolding register_all register_counter lookup
    register_all-Wires [] s named once free = record {
      no_error = refl;
      wired = λ k c o. absurd o;
      registry = λ j h. refl;
      vars = λ c h. refl;
    }
    register_all-Wires ((k, c) ∷ es) s (named, names) (new, once) free =
        let open_k : get s.registry k ≡ none = free k (ground (arith, equal_refl k)) in
        register_counter-Wires k c es s _ named new open_k (
          register_all-Wires es (register_counter register (k, c) s) names once
            (λ j h. still j h open_k))
      where
        apart : (j : Bytes) → is_some (lookup j es) ≡ true → equal k j ≡ false
        apart j h = elim (Bool-cases (equal k j)) [
          | inl e ↦
              absurd (ground (arith, h, ap (λ (i : Bytes). lookup i es) (equal→eq k j e), new))
          | inr e ↦ e
        ]

        still :
            (j : Bytes)
            → is_some (lookup j es) ≡ true
            → get s.registry k ≡ none
            → get (register_counter register (k, c) s).registry j ≡ none
        still j h open_k =
            reg.others k s.made s.registry j open_k (apart j h)
            ∙ free j (ground (arith, h, apart j h))

    -- After `init` every variable of server/stats.go in the table holds a counter, which is the one that the registry
    -- has under its name, and no name is refused: whatever the order in which the table is visited, if the registry
    -- has none of the names before and registers a new name as documented.
    pub init-counters :
        (order : Map Counter) (r : R)
        → Visits order
        → ((j : Bytes) (d : Counter) → Occurs (j, d) counters → get r j ≡ none)
        → (k : Bytes) (c : Counter) → Occurs (k, c) counters
        → ((n : ℕ) × ((init register order r).vars c ≡ some n)
            × (get (init register order r).registry k ≡ some n))
          × ((init register order r).failed ≡ [])
    unfolding init
    init-counters order r v free k c o =
        let w =
          register_all-Wires order _
            (All-of order (λ e o'. All-Occurs Named e counters All-counters (v.entries e.0 e.1 o')))
            v.once (λ j h. let (d, o') = lookup-Occurs order j h in free j d (v.entries j d o')) in
        (w.wired k c (v.whole k c o), w.no_error)
