-- ===== src/Domain/KernelCmdline/Lookup.antt =====
-- Reading an argument list after `set` and `erase`.
use limine_manager.Prelude.{
  ◌≡◌, refl, inl, inr, ◌∙◌, sym, ap, true, false, Option, none, some, List, [], ◌∷◌, ◌++◌,
  if◌then◌else◌, Bool-cases, Option-cases, Text, text_eq, text_eq_iff, arith,
}
use limine_manager.Prelude.{head?}
use limine_manager.Domain.KernelCmdline.{
  KernelCommandLine, is_key, value_in, value, values_in, values, contains_in, contains, set_in, set,
  erase_in, erase,
}
use limine_manager.Domain.KernelCmdline.Keys.{
  after_key, NoEquals, has_value-after_key, drop-after_key, after_key_self, after_key_unique,
  after_key-NoEquals, before_equals-append,
}

abbrev or_else : Option Text → Option Text → Option Text
or_else none y = y
or_else (some x) y = some x

value_in-cons :
    (key a : Text) (rest : List Text)
    → value_in key (a ∷ rest) ≡ or_else (after_key key a) (value_in key rest)
unfolding value_in
value_in-cons key a rest = elim (Option-cases (after_key key a)) [
  | inl e ↦ rw (has_value-after_key, e) refl
  | inr (v, e) ↦ rw (has_value-after_key, e) (ap some (drop-after_key key a e))
]

-- An argument that is the key `k` has no value for another key.
after_key-other :
    (j k a : Text)
    → NoEquals j
    → NoEquals k
    → is_key a k ≡ true
    → text_eq k j ≡ false
    → after_key j a ≡ none
unfolding is_key
after_key-other j k a nj nk h ne = elim (Bool-cases (text_eq a k)) [
  | inl e ↦ rw ((text_eq_iff a k).0 e) (after_key-NoEquals j k nk)
  | inr e ↦ elim (Option-cases (after_key j a)) [
    | inl n ↦ n
    | inr (v, hv) ↦ elim (Option-cases (after_key k a)) [
      | inl n ↦ ground (arith, has_value-after_key a k)
      | inr (w, hw) ↦ ground (arith, (text_eq_iff k j).1 (sym (after_key_unique j k a nj nk hv hw)))
    ]
  ]
]

-- What is no `k` argument has no value for `k`.
after_key-not_key : (k a : Text) → is_key a k ≡ false → after_key k a ≡ none
unfolding is_key
after_key-not_key k a h = elim (Option-cases (after_key k a)) [
  | inl n ↦ n
  | inr (v, e) ↦ ground (arith, has_value-after_key a k)
]

after_key-replacement :
    (j k v : Text)
    → NoEquals j
    → NoEquals k
    → after_key j (k ++ (b'=' ∷ v)) ≡ (if text_eq k j then some v else none)
after_key-replacement j k v nj nk = elim (Bool-cases (text_eq k j)) [
  | inl e ↦ rw e (rw (← (text_eq_iff k j).0 e) (after_key_self k v))
  | inr e ↦ rw e (elim (Option-cases (after_key j (k ++ (b'=' ∷ v)))) [
    | inl n ↦ n
    | inr (w, h) ↦ ground (
      arith,
      (text_eq_iff k j).1
          (sym (after_key_unique j k (k ++ (b'=' ∷ v)) nj nk h (after_key_self k v))),
    )
  ])
]

value_in-replacement :
    (j k v : Text) (rest : List Text)
    → NoEquals j
    → NoEquals k
    → value_in j ((k ++ (b'=' ∷ v)) ∷ rest) ≡ (if text_eq k j then some v else value_in j rest)
value_in-replacement j k v rest nj nk =
    value_in-cons j (k ++ (b'=' ∷ v)) rest
    ∙ ap (λ o. or_else o (value_in j rest)) (after_key-replacement j k v nj nk)
    ∙ ground arith

value_in-set_in :
    (j k v : Text) (arguments : List Text)
    → NoEquals j
    → NoEquals k
    → value_in j (set_in (k ++ (b'=' ∷ v)) arguments)
      ≡ (if text_eq k j then some v else value_in j arguments)
unfolding set_in
value_in-set_in j k v [] nj nk = value_in-replacement j k v [] nj nk
value_in-set_in j k v (a ∷ rest) nj nk =
    let before = before_equals-append k v nk in
    elim (Bool-cases (is_key a k)) [
      | inl same ↦ ground (
        arith,
        before,
        value_in-replacement j k v rest nj nk,
        value_in-cons j a rest,
        after_key-other j k a nj nk same,
      )
      | inr other ↦ ground (
        arith,
        before,
        value_in-cons j a rest,
        value_in-cons j a (set_in (k ++ (b'=' ∷ v)) rest),
        value_in-set_in j k v rest nj nk,
        after_key-not_key k a other,
        text_eq_iff k j,
      )
    ]

-- For keys that hold no '=', `value` after `set` is the value that was set, and every other key
-- keeps the value it had, or stays without one.
pub value-set :
    (c : KernelCommandLine) (j k v : Text)
    → NoEquals j
    → NoEquals k
    → value (set c k v) j ≡ (if text_eq k j then some v else value c j)
unfolding value set
value-set c j k v nj nk = value_in-set_in j k v c.arguments nj nk

values_in-cons :
    (key a : Text) (rest : List Text)
    → values_in key (a ∷ rest)
      ≡ elim (after_key key a) [ none ↦ values_in key rest | some v ↦ v ∷ values_in key rest ]
unfolding values_in
values_in-cons key a rest = elim (Option-cases (after_key key a)) [
  | inl e ↦ rw (has_value-after_key, e) refl
  | inr (v, e) ↦
      rw (has_value-after_key, e)
        (ap (λ (t : Text). t ∷ values_in key rest) (drop-after_key key a e))
]

values_in-erase_in :
    (j k : Text) (arguments : List Text)
    → NoEquals j
    → NoEquals k
    → values_in j (erase_in k arguments) ≡ (if text_eq k j then [] else values_in j arguments)
unfolding erase_in
values_in-erase_in j k [] nj nk = unfold values_in in ground arith
values_in-erase_in j k (a ∷ rest) nj nk = elim (Bool-cases (is_key a k)) [
  | inl same ↦ ground (
    arith,
    values_in-cons j a rest,
    after_key-other j k a nj nk same,
    values_in-erase_in j k rest nj nk,
  )
  | inr other ↦ ground (
    arith,
    values_in-cons j a rest,
    values_in-cons j a (erase_in k rest),
    values_in-erase_in j k rest nj nk,
    after_key-not_key k a other,
    text_eq_iff k j,
  )
]

contains_in-erase_in :
    (k : Text) (arguments : List Text) → contains_in k (erase_in k arguments) ≡ false
unfolding contains_in erase_in
contains_in-erase_in k [] = refl
contains_in-erase_in k (a ∷ rest) = ground (arith, contains_in-erase_in k rest)

-- After `erase` of a key that holds no '=', the command line does not contain it, and `values` of
-- any other such key are what they were, in their order.
pub values-erase :
    (c : KernelCommandLine) (j k : Text)
    → NoEquals j
    → NoEquals k
    → (contains (erase c k) k ≡ false)
      × (values (erase c k) j ≡ (if text_eq k j then [] else values c j))
unfolding values erase contains
values-erase c j k nj nk =
    (contains_in-erase_in k c.arguments, values_in-erase_in j k c.arguments nj nk)

value_in-values_in :
    (key : Text) (arguments : List Text) → value_in key arguments ≡ head? (values_in key arguments)
unfolding value_in values_in
value_in-values_in key [] = refl
value_in-values_in key (a ∷ rest) = ground (arith, value_in-values_in key rest)

-- `value` is the first of `values`, and is absent exactly when there is none.
pub value-values : (c : KernelCommandLine) (key : Text) → value c key ≡ head? (values c key)
unfolding value values
value-values c key = value_in-values_in key c.arguments
