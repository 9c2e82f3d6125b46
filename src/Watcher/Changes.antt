-- ===== src/Watcher/Changes.antt =====
-- The changes that rathole/src/config_watcher.rs finds between two lists of services, done to a running
-- map of services (handle_hot_reload of rathole/src/server.rs and rathole/src/client.rs). `h` is the
-- key of a service in that map: the digest of its name, or the name.
use rathole_with_proxy.Base.{
  Bool, true, false, not, ◌&&◌, ◌≡◌, refl, ◌∙◌, ap, Option, none, some, List, [], ◌∷◌, filter, All,
  inl, inr, Text, text_eq, HashMap, get, insert, remove, keys, Eq, ◌==◌, ==_iff, if◌then◌else◌,
  get-insert, get-remove, arith, Bool-cases, Option-cases, sym, subst,
}
use rathole_with_proxy.Config.Equality.{option_eq}
use rathole_with_proxy.Watcher.{is_none}

-- No key has two entries.
abbrev pub DistinctKeys : {V : Type 0} → HashMap Text V → Type 0
DistinctKeys [] = Unit
DistinctKeys ((k, v) ∷ m) = (get k m ≡ none) × DistinctKeys m

abbrev or_else : {A : Type 0} → Option A → Option A → Option A
or_else none b = b
or_else (some a) b = some a

abbrev elem : Text → List Text → Bool
elem k [] = false
elem k (j ∷ js) = if j == k then true else elem k js

or_else-none : {A : Type 0} (o : Option A) → or_else o none ≡ o
or_else-none none = refl
or_else-none (some a) = refl

fresh_key :
    {V : Type 0} (j k : Text) (m : HashMap Text V)
    → get j m ≡ none
    → (j == k) ≡ true
    → get k m ≡ none
fresh_key j k m fresh same = subst (λ z. get z m ≡ none) ((==_iff j k).0 same) fresh

module _ {D : Type 0} ⦃e : Eq D⦄ (h : Text → D) where
  -- Among the names, only `k` has its key.
  abbrev pub Separate : Text → List Text → Type 0
  Separate k names = All (λ n. h n ≡ h k → n ≡ k) names

  -- A key is that of `k` exactly for `k`.
  same_key : (j k : Text) → (h j ≡ h k → j ≡ k) → (h j == h k) ≡ (j == k)
  same_key j k s = elim (Bool-cases (j == k)) [
    | inl same ↦ (==_iff (h j) (h k)).1 (ap h ((==_iff j k).0 same)) ∙ sym same
    | inr other ↦ ground (arith, ==_iff (h j) (h k), ==_iff j k, s)
  ]

  module _ {V : Type 0} where
    -- A service for each entry.
    abbrev pub start_all : HashMap Text V → HashMap D V → HashMap D V
    start_all [] m = m
    start_all ((name, c) ∷ us) m = start_all us (insert (h name) c m)

    abbrev pub delete_all : List Text → HashMap D V → HashMap D V
    delete_all [] m = m
    delete_all (n ∷ ns) m = delete_all ns (remove (h n) m)

    start_all-get :
        (k : Text) (us : HashMap Text V) (m : HashMap D V)
        → Separate k (keys us)
        → DistinctKeys us
        → get (h k) (start_all us m) ≡ or_else (get k us) (get (h k) m)
    unfolding get
    start_all-get k [] m sep d = refl
    start_all-get k ((j, c) ∷ us) m (s, sep) (fresh, d) =
        let ih = start_all-get k us (insert (h j) c m) sep d in
        let gi = get-insert (h j) (h k) c m in
        elim (Bool-cases (j == k)) [
          | inl same ↦ rw (ih, gi, same_key j k s, same, fresh_key j k us fresh same) refl
          | inr other ↦ rw (ih, gi, same_key j k s, other) refl
        ]

    pub start_all-start :
        (k : Text) (us : HashMap Text V)
        → Separate k (keys us)
        → DistinctKeys us
        → get (h k) (start_all us []) ≡ get k us
    unfolding get
    start_all-start k us sep d = start_all-get k us [] sep d ∙ or_else-none (get k us)

    delete_all-get :
        (k : Text) (p : Text → Bool) (names : List Text) (m : HashMap D V)
        → Separate k names
        → get (h k) (delete_all (filter p names) m)
          ≡ (if elem k names && p k then none else get (h k) m)
    delete_all-get k p [] m sep = refl
    delete_all-get k p (n ∷ ns) m (a, sep) = elim (Bool-cases (p n)) [
      | inl del ↦
          let ih = delete_all-get k p ns (remove (h n) m) sep in
          let gr = get-remove (h n) (h k) m in
          elim (Bool-cases (n == k)) [
            | inl same ↦
                let pk : p k ≡ true = subst (λ z. p z ≡ true) ((==_iff n k).0 same) del in
                rw (del, ih, gr, same_key n k a, same, pk) (ground arith)
            | inr other ↦ rw (del, ih, gr, same_key n k a, other) refl
          ]
      | inr stay ↦ elim (Bool-cases (n == k)) [
        | inl same ↦
            let pk : p k ≡ false = subst (λ z. p z ≡ false) ((==_iff n k).0 same) stay in
            ground (arith, delete_all-get k p ns m sep)
        | inr other ↦ rw (stay, other) (delete_all-get k p ns m sep)
      ]
    ]

    module _ (name : V → Text) where
      -- Every service has the name of its key, as validation leaves it.
      abbrev pub Named : HashMap Text V → Type 0
      Named us = All (λ u. name u.1 ≡ u.0) us

      abbrev pub add_all : HashMap Text V → HashMap D V → HashMap D V
      add_all [] m = m
      add_all ((k, c) ∷ us) m = add_all us (insert (h (name c)) c m)

      abbrev kept : (Text × V → Bool) → Text → Option V → Option V
      kept q k none = none
      kept q k (some c) = if q (k, c) then some c else none

      add_all-get :
          (k : Text) (q : Text × V → Bool) (us : HashMap Text V) (m : HashMap D V)
          → Separate k (keys us)
          → DistinctKeys us
          → Named us
          → get (h k) (add_all (filter q us) m) ≡ or_else (kept q k (get k us)) (get (h k) m)
      unfolding get
      add_all-get k q [] m sep d named = refl
      add_all-get k q ((j, c) ∷ us) m (a, sep) (fresh, d) (same_name, named) =
          elim (Bool-cases (q (j, c))) [
            | inl go ↦
                let ih = add_all-get k q us (insert (h (name c)) c m) sep d named in
                let gi = get-insert (h j) (h k) c m in
                let at : h (name c) ≡ h j = ap h same_name in
                elim (Bool-cases (j == k)) [
                  | inl same ↦
                      let qk : q (k, c) ≡ true =
                        subst (λ z. q (z, c) ≡ true) ((==_iff j k).0 same) go in
                      rw (go, ih, at, gi, same_key j k a, same, fresh_key j k us fresh same, qk)
                        refl
                  | inr other ↦ rw (go, ih, at, gi, same_key j k a, other) refl
                ]
            | inr skip ↦ elim (Bool-cases (j == k)) [
              | inl same ↦
                  let qk : q (k, c) ≡ false =
                    subst (λ z. q (z, c) ≡ false) ((==_iff j k).0 same) skip in
                  let ih = add_all-get k q us m sep d named in
                  rw (skip, ih, same, fresh_key j k us fresh same, qk) refl
              | inr other ↦ rw (skip, other) (add_all-get k q us m sep d named)
            ]
          ]

      elem-none : (k : Text) (us : HashMap Text V) → elem k (keys us) ≡ false → get k us ≡ none
      unfolding get
      elem-none k [] q = refl
      elem-none k ((j, c) ∷ us) q = ground (arith, elem-none k us)

      module _ ⦃v : Eq V⦄ where
        merge :
            (k : Text) (old new : HashMap Text V)
            → or_else
                (kept (λ u. not (get u.0 old == some u.1)) k (get k new))
                (if elem k (keys old) && is_none (get k new) then none else get k old)
              ≡ get k new
        merge k old new = elim (Option-cases (get k new)) [
          | inl q ↦ elim (Bool-cases (elem k (keys old))) [
            | inl e ↦ ground arith
            | inr e ↦ ground (arith, elem-none k old e)
          ]
          | inr (c, q) ↦ ground (arith, ==_iff (get k old) (some c))
        ]

        -- A map that has the old service of a name gets its new one.
        pub changes-get :
            (k : Text) (old new : HashMap Text V) (m : HashMap D V)
            → Separate k (keys old)
            → Separate k (keys new)
            → DistinctKeys new
            → Named new
            → get (h k) m ≡ get k old
            → get (h k) (
                add_all
                  (filter (λ u. not (get u.0 old == some u.1)) new)
                  (delete_all (filter (λ n. is_none (get n new)) (keys old)) m))
              ≡ get k new
        changes-get k old new m so sn nd named same =
            let dels = delete_all (filter (λ n. is_none (get n new)) (keys old)) m in
            let a = add_all-get k (λ u. not (get u.0 old == some u.1)) new dels sn nd named in
            let b = delete_all-get k (λ n. is_none (get n new)) (keys old) m so in
            rw (a, b, same) (merge k old new)
