-- ===== src/Proxy/Choose/Best.antt =====
-- What choose_best_tunnel returns: a registered candidate than which none is better
-- (rathole/src/proxy.rs).
use rathole_with_proxy.Base.{
  ◌≡◌, ◌∙◌, sym, All, Bool-cases, ◌≢◌, ◌↔◌, refl, inl, inr, Bool, true, false, Option, none, some,
  List, [], ◌∷◌, Text, text_eq, HashMap, get, get-keys, In-keys, keys, filter, In, Ordering, arith,
  Option-cases,
}
use rathole_with_proxy.Float.{Float, IsIeee}
use rathole_with_proxy.Sort.{sort_by, Sorted, In-sort_by, sort_by-In, sort_by-Sorted}
use rathole_with_proxy.Health.{TunnelHealth}
use rathole_with_proxy.Proxy.Choose.{
  is_candidate, compare_candidates, pick_registered, choose_best_tunnel,
}
use rathole_with_proxy.Proxy.Choose.Better.{Better, Better-compare_health}
use rathole_with_proxy.Proxy.Choose.Order.{
  AllWellFormed, compare_candidates_total, compare_candidates_trans,
}

In-filter :
    {A : Type 0} (p : A → Bool) (y : A) (xs : List A) → In y xs → p y ≡ true → In y (filter p xs)
In-filter p y [] h e = h
In-filter p y (x ∷ xs) (inl q) e = ground arith
In-filter p y (x ∷ xs) (inr q) e = ground (arith, In-filter p y xs q e)

filter-In :
    {A : Type 0} (p : A → Bool) (y : A) (xs : List A) → In y (filter p xs) → In y xs × (p y ≡ true)
filter-In p y [] h = absurd h
filter-In p y (x ∷ xs) h = ground (arith, filter-In p y xs)

In-All : {A : Type 0} (P : A → Type 0) (y : A) (xs : List A) → All P xs → In y xs → P y
In-All P y [] a h = absurd h
In-All P y (x ∷ xs) a (inl e) = rw e a.0
In-All P y (x ∷ xs) a (inr h) = In-All P y xs a.1 h

module _ (f : Float) {S : Type 0} (tunnels : HashMap Text S) where
  pick_registered-registered :
      (ids : List Text) (id : Text) (tx : S)
      → pick_registered f tunnels ids ≡ some (id, tx)
      → (get id tunnels ≡ some tx) × In id ids
  unfolding pick_registered
  pick_registered-registered [] id tx h = cc
  pick_registered-registered (j ∷ js) id tx h = ground (arith, pick_registered-registered js id tx)

  -- Where the first candidate is registered, it is the one.
  pick_registered-first :
      (i : Text) (is : List Text) (id : Text) (tx : S)
      → In i (keys tunnels)
      → pick_registered f tunnels (i ∷ is) ≡ some (id, tx)
      → id ≡ i
  unfolding pick_registered
  pick_registered-first i is id tx k h = ground (arith, get-keys i tunnels k)

  pick_registered-none :
      (ids : List Text) (i : Text)
      → In i ids
      → In i (keys tunnels)
      → pick_registered f tunnels ids ≢ none
  unfolding pick_registered
  pick_registered-none [] i h k = absurd h
  pick_registered-none (j ∷ js) i (inl e) k = ground (arith, get-keys i tunnels k)
  pick_registered-none (j ∷ js) i (inr h) k = ground (arith, pick_registered-none js i h k)

  pick_registered-least :
      (c : Text → Text → Ordering)
      → ((i j : Text) → c i j ≡ Ordering.gt → c j i ≢ Ordering.gt)
      → (ids : List Text) → Sorted c ids
      → ((i : Text) → In i ids → In i (keys tunnels))
      → (id : Text) (tx : S) → pick_registered f tunnels ids ≡ some (id, tx)
      → (j : Text) → In j ids
      → c id j ≢ Ordering.gt
  pick_registered-least c total [] s k id tx h j n = absurd n
  pick_registered-least c total (i ∷ is) s k id tx h j (inl e) =
      ground (arith, pick_registered-first i is id tx (k i (inl refl)) h, total i i)
  pick_registered-least c total (i ∷ is) s k id tx h j (inr n) =
      rw (pick_registered-first i is id tx (k i (inl refl)) h)
        (In-All (λ z. c i z ≢ Ordering.gt) j is s.0 n)

  module _ (health : HashMap Text (TunnelHealth f.Carrier)) (subdomain : Text) where
    candidates : List Text
    candidates = filter (is_candidate subdomain) (keys tunnels)

    -- The early return on no candidates is what the search of an empty list gives.
    choose_best_tunnel-pick :
        choose_best_tunnel f tunnels health subdomain
        ≡ pick_registered f tunnels (sort_by (compare_candidates f health) candidates)
    unfolding choose_best_tunnel pick_registered sort_by candidates
    choose_best_tunnel-pick = ground arith

    sorted : List Text
    unfolding candidates
    sorted = sort_by (compare_candidates f health) candidates

    In-sorted :
        (j : Text) (tx : S)
        → get j tunnels ≡ some tx
        → is_candidate subdomain j ≡ true
        → In j sorted
    unfolding sorted
    In-sorted j tx h e =
        In-sort_by (compare_candidates f health) j _
          (In-filter (is_candidate subdomain) j (keys tunnels) (In-keys j tunnels tx h) e)

    sorted-In : (j : Text) → In j sorted → In j (keys tunnels) × (is_candidate subdomain j ≡ true)
    unfolding sorted
    sorted-In j h =
        filter-In (is_candidate subdomain) j (keys tunnels)
          (sort_by-In (compare_candidates f health) j _ h)

    picked :
        (o : Option (Text × S))
        → choose_best_tunnel f tunnels health subdomain ≡ o
        → pick_registered f tunnels sorted ≡ o
    unfolding sorted
    picked o h = sym choose_best_tunnel-pick ∙ h

    -- What is chosen is registered, and is a candidate for the subdomain.
    pub choose_best_tunnel-registered :
        (id : Text) (tx : S)
        → choose_best_tunnel f tunnels health subdomain ≡ some (id, tx)
        → (get id tunnels ≡ some tx) × (is_candidate subdomain id ≡ true)
    choose_best_tunnel-registered id tx h =
        let (r, n) = pick_registered-registered sorted id tx (picked (some (id, tx)) h) in
        (r, (sorted-In id n).1)

    -- A tunnel is chosen unless no registered tunnel fits the subdomain.
    pub choose_best_tunnel-none :
        (choose_best_tunnel f tunnels health subdomain ≡ none)
        ↔ ((j : Text) (tx : S) → get j tunnels ≡ some tx → is_candidate subdomain j ≡ false)
    choose_best_tunnel-none = (
      (λ h j tx r. elim (Bool-cases (is_candidate subdomain j)) [
        | inl e ↦ absurd (
            pick_registered-none sorted j (In-sorted j tx r e) (In-keys j tunnels tx r)
              (picked none h))
        | inr e ↦ e
      ]),
      (λ all. elim (Option-cases (choose_best_tunnel f tunnels health subdomain)) [
        | inl e ↦ e
        | inr ((id, tx), e) ↦ let (r, c) = choose_best_tunnel-registered id tx e in cc (all id tx r)
      ]),
    )

    -- The chosen tunnel is registered, fits the subdomain and is a least one of the comparison.
    pub choose_best_tunnel-least :
        IsIeee f
        → AllWellFormed f health
        → (id : Text) (tx : S) → choose_best_tunnel f tunnels health subdomain ≡ some (id, tx)
        → (get id tunnels ≡ some tx)
          × (is_candidate subdomain id ≡ true)
          × ((j : Text) (other : S)
              → get j tunnels ≡ some other
              → is_candidate subdomain j ≡ true
              → compare_candidates f health id j ≢ Ordering.gt)
    unfolding sorted
    choose_best_tunnel-least ieee ok id tx h =
        let (r, c) = choose_best_tunnel-registered id tx h in
        (
          r,
          c,
          (λ j other q e.
              pick_registered-least (compare_candidates f health) total sorted
                (sort_by-Sorted (compare_candidates f health) total
                  (compare_candidates_trans f ieee health ok) candidates)
                (λ i n. (sorted-In i n).0) id tx (picked (some (id, tx)) h) j
                (In-sorted j other q e)),
        )
      where
        total :
            (i j : Text)
            → compare_candidates f health i j ≡ Ordering.gt
            → compare_candidates f health j i ≢ Ordering.gt
        total = compare_candidates_total f ieee health ok

    -- The chosen tunnel is registered and fits the subdomain, and no registered tunnel
    -- that fits is better: none has a healthier status, or with the same status a lower error
    -- rate, or with the same error rate too a lower latency. Without a record a tunnel counts as
    -- Warning with an error rate of 0.5, without a latency as one of 9999 ms. The floats have the
    -- order of IEEE 754, and every health record is well-formed, so that it holds no NaN.
    pub choose_best_tunnel-best :
        IsIeee f
        → AllWellFormed f health
        → (id : Text) (tx : S) → choose_best_tunnel f tunnels health subdomain ≡ some (id, tx)
        → (get id tunnels ≡ some tx)
          × (is_candidate subdomain id ≡ true)
          × ((j : Text) (other : S)
              → get j tunnels ≡ some other
              → is_candidate subdomain j ≡ true
              → Better f (get j health) (get id health)
              → ⊥)
    choose_best_tunnel-best ieee ok id tx h =
        let (r, c, least) = choose_best_tunnel-least ieee ok id tx h in
        (
          r,
          c,
          λ j other q e better.
              least j other q e (Better-compare_health f (get id health) (get j health) better),
        )
