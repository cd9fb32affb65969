-- ===== src/Domain/KernelCmdline/Keys.antt =====
-- What an argument says of a key, by recursion: the tests of the source agree with it.
use limine_manager.Prelude.{
  suc, ◌+◌, ◌≡◌, refl, false, Option, none, some, [], ◌∷◌, ◌++◌, ◌==◌, if◌then◌else◌, length, drop,
  any_of, is_some, Text, text_eq, arith, add-one,
}
use limine_manager.Domain.KernelCmdline.{has_value, before_equals}

-- What stands behind `key=` in an argument that begins so.
unfoldable pub after_key : Text → Text → Option Text
after_key [] [] = none
after_key [] (c ∷ cs) = if c == b'=' then some cs else none
after_key (k ∷ ks) [] = none
after_key (k ∷ ks) (c ∷ cs) = let later = after_key ks cs in if k == c then later else none

-- A key that can be told from its value.
abbrev pub NoEquals : Text → Type 0
NoEquals key = any_of (λ c. c == b'=') key ≡ false

pub has_value-after_key :
    (argument key : Text) → has_value argument key ≡ is_some (after_key key argument)
unfolding has_value after_key text_eq
has_value-after_key [] [] = refl
has_value-after_key (c ∷ cs) [] = ground arith
has_value-after_key [] (k ∷ ks) = ground arith
has_value-after_key (c ∷ cs) (k ∷ ks) = ground (arith, has_value-after_key cs ks)

drop-suc-after_key :
    (key argument : Text) {v : Text}
    → after_key key argument ≡ some v
    → drop (suc (length key)) argument ≡ v
unfolding after_key
drop-suc-after_key [] [] h = cc
drop-suc-after_key [] (c ∷ cs) h = ground arith
drop-suc-after_key (k ∷ ks) [] h = cc
drop-suc-after_key (k ∷ ks) (c ∷ cs) {v} h = ground (arith, drop-suc-after_key ks cs {v = v})

pub drop-after_key :
    (key argument : Text) {v : Text}
    → after_key key argument ≡ some v
    → drop (length key + 1) argument ≡ v
drop-after_key key argument h = rw add-one (drop-suc-after_key key argument h)

pub after_key_self : (key v : Text) → after_key key (key ++ (b'=' ∷ v)) ≡ some v
unfolding after_key
after_key_self [] v = refl
after_key_self (k ∷ ks) v = ground (arith, after_key_self ks v)

pub after_key-eq :
    (key argument : Text) {v : Text}
    → after_key key argument ≡ some v
    → argument ≡ key ++ (b'=' ∷ v)
unfolding after_key
after_key-eq [] [] h = cc
after_key-eq [] (c ∷ cs) h = ground arith
after_key-eq (k ∷ ks) [] h = cc
after_key-eq (k ∷ ks) (c ∷ cs) {v} h = ground (arith, after_key-eq ks cs {v = v})

-- An argument has one key.
pub after_key_unique :
    (j k argument : Text) {v w : Text}
    → NoEquals j
    → NoEquals k
    → after_key j argument ≡ some v
    → after_key k argument ≡ some w
    → j ≡ k
unfolding after_key
after_key_unique [] [] a nj nk hj hk = refl
after_key_unique [] (k ∷ ks) [] nj nk hj hk = cc
after_key_unique [] (k ∷ ks) (c ∷ cs) nj nk hj hk = ground arith
after_key_unique (j ∷ js) [] [] nj nk hj hk = cc
after_key_unique (j ∷ js) [] (c ∷ cs) nj nk hj hk = ground arith
after_key_unique (j ∷ js) (k ∷ ks) [] nj nk hj hk = cc
after_key_unique (j ∷ js) (k ∷ ks) (c ∷ cs) {v} {w} nj nk hj hk =
    ground (arith, after_key_unique js ks cs {v = v} {w = w})

-- A bare key has no value for any key.
pub after_key-NoEquals : (j k : Text) → NoEquals k → after_key j k ≡ none
unfolding after_key
after_key-NoEquals [] [] n = refl
after_key-NoEquals [] (c ∷ cs) n = ground arith
after_key-NoEquals (j ∷ js) [] n = refl
after_key-NoEquals (j ∷ js) (c ∷ cs) n = ground (arith, after_key-NoEquals js cs)

pub before_equals-append : (key v : Text) → NoEquals key → before_equals (key ++ (b'=' ∷ v)) ≡ key
unfolding before_equals
before_equals-append [] v n = refl
before_equals-append (k ∷ ks) v n = ground (arith, before_equals-append ks v)
