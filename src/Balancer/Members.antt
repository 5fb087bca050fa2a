-- ===== src/Balancer/Members.antt =====
-- load_balancer.go: what the registry promises, as a set of addresses. The order of the list is
-- forgotten.
use mathlib.Core.Quot
use mathlib.Core.Quot.{Quot, Quot-set}
use distributed_messaging_sy.Base.{
  ◌≡◌, refl, Bool, true, ◌&&◌, ◌||◌, bytes_eq, bytes_eq_iff, bytes_eq_refl, if◌then◌else◌,
  bytes_cases, Bytes, List, [], ◌∷◌, ◌++◌, arith, Bool-cases, inl, inr,
}
use distributed_messaging_sy.Balancer.{is_registered}

abbrev pub SameMembers : List Bytes → List Bytes → Type 0
SameMembers xs ys = (a : Bytes) → is_registered a xs ≡ is_registered a ys

abbrev pub Members : Type 0
Members = Quot SameMembers

abbrev pub of_list : List Bytes → Members
of_list = Quot.mk

-- An address is a member.
unfoldable pub member : Bytes → Members → Bool
member a = Quot.lift (hlevel) (is_registered a) λ xs ys h. h a

abbrev pub keep : (Bytes → Bool) → List Bytes → List Bytes
keep p [] = []
keep p (x ∷ xs) = if p x then x ∷ keep p xs else keep p xs

pub is_registered-cons :
    (a b : Bytes) (xs : List Bytes)
    → is_registered a (b ∷ xs) ≡ (bytes_eq b a || is_registered a xs)
unfolding is_registered
is_registered-cons a b xs = ground arith

is_registered-keep :
    (p : Bytes → Bool) (a : Bytes) (xs : List Bytes)
    → is_registered a (keep p xs) ≡ (p a && is_registered a xs)
unfolding is_registered
is_registered-keep p a [] = ground arith
is_registered-keep p a (x ∷ xs) = elim (bytes_cases x a) [
  | inl e ↦ rw e (ground (arith, bytes_eq_refl a, is_registered-keep p a xs))
  | inr n ↦ ground (arith, bytes_eq_iff x a, is_registered-keep p a xs)
]

pub join-SameMembers :
    (b : Bytes) (xs ys : List Bytes) → SameMembers xs ys → SameMembers (b ∷ xs) (b ∷ ys)
join-SameMembers b xs ys h a =
    ground (arith, is_registered-cons a b xs, is_registered-cons a b ys, h a)

pub keep-SameMembers :
    (p : Bytes → Bool) (xs ys : List Bytes)
    → SameMembers xs ys
    → SameMembers (keep p xs) (keep p ys)
keep-SameMembers p xs ys h a =
    ground (arith, is_registered-keep p a xs, is_registered-keep p a ys, h a)

-- The set with one address more
unfoldable pub join : Bytes → Members → Members
join b =
    Quot.lift Quot-set (λ xs. of_list (b ∷ xs)) λ xs ys h. Quot.sound (join-SameMembers b xs ys h)

-- The members that pass a test
unfoldable pub retain : (Bytes → Bool) → Members → Members
retain p =
    Quot.lift Quot-set (λ xs. of_list (keep p xs))
      λ xs ys h. Quot.sound (keep-SameMembers p xs ys h)

pub member-join : (a b : Bytes) (m : Members) → member a (join b m) ≡ (bytes_eq b a || member a m)
unfolding member join
member-join a b = Quot.ind (λ _. hlevel) (is_registered-cons a b)

pub member-retain :
    (a : Bytes) (p : Bytes → Bool) (m : Members) → member a (retain p m) ≡ (p a && member a m)
unfolding member retain
member-retain a p = Quot.ind (λ _. hlevel) (is_registered-keep p a)

pub is_registered-append :
    (a : Bytes) (xs ys : List Bytes)
    → is_registered a (xs ++ ys) ≡ (is_registered a xs || is_registered a ys)
unfolding is_registered
is_registered-append a [] ys = refl
is_registered-append a (x ∷ xs) ys = ground (arith, is_registered-append a xs ys)

-- An address at the end is a member like one at the head, and one that is there adds nothing.
pub of_list-append : (b : Bytes) (xs : List Bytes) → of_list (xs ++ b ∷ []) ≡ join b (of_list xs)
unfolding join is_registered
of_list-append b xs = Quot.sound (λ a. ground (
  arith,
  is_registered-append a xs (b ∷ []),
  is_registered-cons a b [],
  is_registered-cons a b xs,
  Bool-cases (bytes_eq b a),
))

pub join_member :
    (b : Bytes) (xs : List Bytes) → is_registered b xs ≡ true → join b (of_list xs) ≡ of_list xs
unfolding join is_registered
join_member b xs h = Quot.sound (λ a. elim (bytes_cases b a) [
  | inl e ↦ rw (is_registered-cons a b xs, ← e, h, bytes_eq_refl b)
  | inr n ↦ ground (arith, is_registered-cons a b xs, bytes_eq_iff b a)
])
