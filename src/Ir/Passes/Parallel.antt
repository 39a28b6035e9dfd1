-- ===== src/Ir/Passes/Parallel.antt =====
-- Parallel and sequential runs of a pass whose results do not depend on its cells.
use mathlib.Core.List.{Permᴰ}
use mathlib.Core.Path.{subst}
use truth_table.Common.{
  ℕ, ◌≡◌, refl, sym, ap, ap₂, ◌∙◌, [], ◌∷◌, Option, none, some, map, true, false, ◌==◌, arith,
  Bool-cases, inl, inr, ==_iff,
}
use truth_table.Ir.Nodes.{Node}
use truth_table.Ir.Tree.{contains_key, get, insert, Arena}
use truth_table.Ir.Tree.Arena.{AreDistinct}
use truth_table.Ir.Passes.{
  Ir, PayloadMap, PassOrder, LocalPass, or_else, payload_for_node, input_payload, transform_nodes,
  apply_local_pass_sequential, run_schedule, in_order, insert_all, apply_local_pass_parallel,
}

module _ {G : Type 0} where
  contains_key-Permᴰ : {m n : Arena G} (i : ℕ) → Permᴰ m n → contains_key i m ≡ contains_key i n
  contains_key-Permᴰ i Permᴰ.nil = refl
  contains_key-Permᴰ i (Permᴰ.cons e p) = rw (e, contains_key-Permᴰ i p) refl
  contains_key-Permᴰ i (Permᴰ.swap e f) = rw (e, f) (ground arith)
  contains_key-Permᴰ i (Permᴰ.trans p q) = contains_key-Permᴰ i p ∙ contains_key-Permᴰ i q

  AreDistinct-swap :
      (a b : ℕ × Node G) (l : Arena G) → AreDistinct (a ∷ b ∷ l) → AreDistinct (b ∷ a ∷ l)
  AreDistinct-swap a b l d = (
    ground (arith, d.0, d.1.0),
    (
      elim (Bool-cases (contains_key (a.0) l)) [ inl e ↦ ground (arith, d.0, e) | inr e ↦ e ],
      d.1.1,
    ),
  )

  get_swap :
      (a b : ℕ × Node G) (l : Arena G) (i : ℕ)
      → AreDistinct (a ∷ b ∷ l)
      → get i (a ∷ b ∷ l) ≡ get i (b ∷ a ∷ l)
  get_swap a b l i d = ground (arith, d.0)

  AreDistinct-Permᴰ : {m n : Arena G} → Permᴰ m n → AreDistinct m → AreDistinct n
  AreDistinct-Permᴰ Permᴰ.nil d = tt
  AreDistinct-Permᴰ (Permᴰ.cons {a = a} e p) d =
      rw (← e) (sym (contains_key-Permᴰ (a.0) p) ∙ d.0, AreDistinct-Permᴰ p d.1)
  AreDistinct-Permᴰ (Permᴰ.swap {a = a} {b = b} {l = l} e f) d =
      subst AreDistinct (ap₂ (λ x y. x ∷ y ∷ l) f e) (AreDistinct-swap a b l d)
  AreDistinct-Permᴰ (Permᴰ.trans p q) d = AreDistinct-Permᴰ q (AreDistinct-Permᴰ p d)

  get-Permᴰ : {m n : Arena G} (i : ℕ) → Permᴰ m n → AreDistinct m → get i m ≡ get i n
  get-Permᴰ i Permᴰ.nil d = refl
  get-Permᴰ i (Permᴰ.cons e p) d = rw (e, get-Permᴰ i p d.1) refl
  get-Permᴰ i (Permᴰ.swap {a = a} {b = b} {l = l} e f) d =
      get_swap a b l i d ∙ ap (get i) (ap₂ (λ x y. x ∷ y ∷ l) f e)
  get-Permᴰ i (Permᴰ.trans p q) d = get-Permᴰ i p d ∙ get-Permᴰ i q (AreDistinct-Permᴰ p d)

  get-head : (m : Arena G) (e : ℕ × Node G) → AreDistinct (e ∷ m) → get (e.0) (e ∷ m) ≡ some (e.1)
  get-head m e d = ground arith

  -- every entry of the first is found in the second
  abbrev AllFound : Arena G → Arena G → Type 0
  AllFound [] m = Unit
  AllFound (e ∷ rest) m = (get e.0 m ≡ some e.1) × AllFound rest m

  AllFound-cons :
      (rest m : Arena G) (e : ℕ × Node G)
      → contains_key e.0 rest ≡ false
      → AllFound rest m
      → AllFound rest (e ∷ m)
  AllFound-cons [] m e new found = tt
  AllFound-cons (c ∷ rest) m e new found =
      (ground (arith, new, found.0), AllFound-cons rest m e (ground (arith, new)) found.1)

  AreDistinct-AllFound : (m : Arena G) → AreDistinct m → AllFound m m
  AreDistinct-AllFound [] d = tt
  AreDistinct-AllFound (e ∷ m) d =
      (get-head m e d, AllFound-cons m m e d.0 (AreDistinct-AllFound m d.1))

abbrev pub payloads_of : {G P S : Type 0} → Option (Ir G P × S) → Option (PayloadMap P)
payloads_of none = none
payloads_of (some run) = some (run.0.payloads)

or_else-none : {A : Type 0} (a : Option A) → or_else a none ≡ a
or_else-none none = refl
or_else-none (some a) = refl

module _ {G PIn POut S : Type 0} (pass : LocalPass G PIn POut S) (ir : Ir G PIn) (s₀ : S) where
  -- a node's result, which is the same from each state
  abbrev result : ℕ × Node G → Option POut
  result e = (pass.transform e.1 e.0 (payload_for_node ir e.0) s₀).0

  abbrev results : Arena G → PayloadMap POut
  results = map (λ e. (e.0, result e))

  run_schedule_lem :
      (schedule : Arena G) (s : S)
      → ((n : Node G) (id : ℕ) (p : Option PIn) (s' : S)
          → (pass.transform n id p s').0 ≡ (pass.transform n id p s₀).0)
      → ((id : ℕ) → contains_key id schedule ≡ true → contains_key id ir.payloads ≡ true)
      → (run_schedule pass ir schedule s).0 ≡ results schedule
  unfolding run_schedule
  run_schedule_lem [] s stateless covered = refl
  run_schedule_lem (e ∷ schedule) s stateless covered =
      rw (covered (e.0) (ground arith), stateless)
        (ap₂ (λ x y. x ∷ y) refl
          (run_schedule_lem schedule _ stateless (λ id h. covered id (ground (arith, h)))))

  transform_nodes_lem :
      (nodes : Arena G) (out : PayloadMap POut) (s : S)
      → ((n : Node G) (id : ℕ) (p : Option PIn) (s' : S)
          → (pass.transform n id p s').0 ≡ (pass.transform n id p s₀).0)
      → ((n : Node G) (id : ℕ) → pass.fallback_payload n id ≡ none)
      → (transform_nodes pass ir nodes out s).0 ≡ insert_all (results nodes) out
  unfolding transform_nodes
  transform_nodes_lem [] out s stateless plain = refl
  transform_nodes_lem (e ∷ nodes) out s stateless plain =
      let same : input_payload pass ir e.1 e.0 ≡ payload_for_node ir e.0 =
        rw (plain e.1 e.0) (or_else-none (payload_for_node ir e.0)) in
      transform_nodes_lem nodes _ _ stateless plain
      ∙ ap (λ o. insert_all (results nodes) (insert e.0 o out))
          (ap (λ p. (pass.transform e.1 e.0 p s).0) same ∙ stateless e.1 e.0 _ s)

  get-results :
      (m : Arena G) (id : ℕ) (n : Node G)
      → get id m ≡ some n
      → get id (results m) ≡ some (result (id, n))
  get-results [] id n h = cc
  get-results ((i, c) ∷ m) id n h = elim (Bool-cases (i == id)) [
    | inl e ↦
        rw e (
          ap (λ x. some (result x))
            (ap₂ (λ x y. (x, y)) ((==_iff i id).0 e) (ground (arith, e, h))))
    | inr e ↦ rw e (get-results m id n (rw e at h))
  ]

  in_order_lem :
      (rest arena schedule : Arena G)
      → ((id : ℕ) → get id schedule ≡ get id arena)
      → AllFound rest arena
      → in_order rest (results schedule) ≡ results rest
  in_order_lem [] arena schedule same found = refl
  in_order_lem (e ∷ rest) arena schedule same found =
      rw
        (
          get-results schedule e.0 e.1 (same e.0 ∙ found.0),
          in_order_lem rest arena schedule same found.1,
        )
        refl

module _ {G PIn POut S : Type 0} (pass : LocalPass G PIn POut S) (ir : Ir G PIn) (s₀ : S) where
  -- For a pass in post-order that has no fallback and whose results do not depend on its cells, and
  -- for an arena without a key met twice all of whose keys have a payload entry: whatever the order in
  -- which the threads take the nodes, the parallel run ends and makes the payload map that the
  -- sequential run makes.
  pub parallel-sequential :
      (schedule : Arena G)
      → pass.order ≡ PassOrder.post_order
      → Permᴰ ir.tree.arena schedule
      → AreDistinct ir.tree.arena
      → ((id : ℕ) → contains_key id ir.tree.arena ≡ true → contains_key id ir.payloads ≡ true)
      → ((n : Node G) (id : ℕ) (p : Option PIn) (s' : S)
          → (pass.transform n id p s').0 ≡ (pass.transform n id p (pass.begin_pass ir s₀)).0)
      → ((n : Node G) (id : ℕ) → pass.fallback_payload n id ≡ none)
      → payloads_of (apply_local_pass_parallel pass schedule ir s₀)
        ≡ some ((apply_local_pass_sequential pass ir s₀).0.payloads)
  unfolding apply_local_pass_parallel apply_local_pass_sequential
  parallel-sequential schedule post perm distinct covered stateless plain =
      let s₁ : S = pass.begin_pass ir s₀ in
      let arena : Arena G = ir.tree.arena in
      let covers : (id : ℕ) → contains_key id schedule ≡ true → contains_key id ir.payloads ≡ true =
        λ id h. covered id (contains_key-Permᴰ id perm ∙ h) in
      rw
        (
          post,
          apply_local_pass_parallel,
          run_schedule_lem pass ir s₁ schedule s₁ stateless covers,
          in_order_lem pass ir s₁ arena arena schedule (λ id. sym (get-Permᴰ id perm distinct))
              (AreDistinct-AllFound arena distinct),
          transform_nodes_lem pass ir s₁ arena [] s₁ stateless plain,
        )
        refl
