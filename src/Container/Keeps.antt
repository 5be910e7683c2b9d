-- ===== src/Container/Keeps.antt =====
-- src/c/container.c: what a load leaves as it was, and what it creates.
use iotech_c_utils.Common.{
  ℕ, suc, ◌≤◌, ◌<◌, ◌≡◌, refl, ap, ◌∙◌, arith, true, false, List, [], ◌∷◌, Option, none, some,
  if◌then◌else◌, ◌⊎◌, inl, inr, Bool-cases,
}
use iotech_c_utils.Data.{Entries, done, entry, string}
use iotech_c_utils.Config.{string_map_get, equal_bytes}
use iotech_c_utils.Config.Strings.{equal_bytes_self, equal_bytes_same}
use iotech_c_utils.Container.{Component, Factory, factory_find, find_locked, on_stack, map_string}

-- No two components have the same name.
abbrev pub Unique : List Component → Type 0
Unique [] = Unit
Unique (c ∷ cs) = (find_locked cs c.name ≡ none) × Unique cs

-- The names of a configuration that are not being loaded.
abbrev pub open_count : Entries → List (List ℕ) → ℕ
open_count done stack = 0
open_count (entry (string k) v es) stack =
    let rest = open_count es stack in if on_stack k stack then rest else suc rest
open_count (entry k v es) stack = open_count es stack

abbrev pub pending : Option Entries → List (List ℕ) → ℕ
pending none stack = 0
pending (some es) stack = open_count es stack

abbrev pub declared_type : Option Entries → List ℕ → Option (List ℕ)
declared_type none name = none
declared_type (some es) name = map_string es name

open_count_le :
    (es : Entries) (n : List ℕ) (stack : List (List ℕ))
    → open_count es (n ∷ stack) ≤ open_count es stack
unfolding on_stack
open_count_le done n stack = omega arith
open_count_le (entry (string k) v es) n stack = ground (arith, open_count_le es n stack)
open_count_le (entry _ v es) n stack = open_count_le es n stack

pub open_count_less :
    (es : Entries) (n t : List ℕ) (stack : List (List ℕ))
    → map_string es n ≡ some t
    → on_stack n stack ≡ false
    → open_count es (n ∷ stack) < open_count es stack
unfolding on_stack string_map_get
open_count_less done n t stack h o = cc
open_count_less (entry (string k) v es) n t stack h o = elim (Bool-cases (equal_bytes k n)) [
  | inl e ↦
      let same = equal_bytes_same k n e in
      let off : on_stack k stack ≡ false = rw same o in
      rw (same, equal_bytes_self n, o) (omega (arith, open_count_le es n stack))
  | inr e ↦ ground (arith, open_count_less es n t stack, e, h, o)
]
open_count_less (entry _ v es) n t stack h o = open_count_less es n t stack h o

pub factory_find-type :
    (fs : List Factory) (type : List ℕ) (f : Factory)
    → factory_find fs type ≡ some f
    → f.type ≡ type
unfolding factory_find
factory_find-type [] type f h = cc
factory_find-type (g ∷ fs) type f h = elim (Bool-cases (equal_bytes g.type type)) [
  | inl e ↦ ground (arith, equal_bytes_same g.type type e, h, e)
  | inr e ↦ factory_find-type fs type f (rw e at h)
]

find_locked-create :
    (c : Component) (cs : List Component) (n : List ℕ) (x : Component)
    → find_locked cs n ≡ some x
    → find_locked (c ∷ cs) n ≡ some x
unfolding find_locked
find_locked-create c cs n x h = rw h refl

on_stack-top : (n : List ℕ) (stack : List (List ℕ)) → on_stack n (n ∷ stack) ≡ true
unfolding on_stack
on_stack-top n stack = rw (equal_bytes_self n) refl

on_stack-below :
    (n k : List ℕ) (stack : List (List ℕ)) → on_stack n stack ≡ true → on_stack n (k ∷ stack) ≡ true
unfolding on_stack
on_stack-below n k stack h = ground (arith, h)

other_name :
    (n k : List ℕ) (stack : List (List ℕ))
    → on_stack n stack ≡ true
    → on_stack k stack ≡ false
    → equal_bytes n k ≡ false
other_name n k stack h o = elim (Bool-cases (equal_bytes n k)) [
  | inl e ↦ let same = equal_bytes_same n k e in let o' : on_stack n stack ≡ false = rw same o in cc
  | inr e ↦ e
]

newest_from :
    (older : Option Component) (c : Component) (n : List ℕ) (x : Component)
    → elim older [ some d ↦ some d | none ↦ if equal_bytes n c.name then some c else none ] ≡ some x
    → (older ≡ some x) ⊎ ((n ≡ c.name) × (c ≡ x))
newest_from (some d) c n x h = inl h
newest_from none c n x h = elim (Bool-cases (equal_bytes n c.name)) [
  | inl e ↦ inr (equal_bytes_same n c.name e, ground (arith, h, e))
  | inr e ↦ ground (arith, h, e)
]

-- A component that is found is the one just created or another.
newest_or :
    (c : Component) (cs : List Component) (n : List ℕ) (x : Component)
    → find_locked (c ∷ cs) n ≡ some x
    → (find_locked cs n ≡ some x) ⊎ ((n ≡ c.name) × (c ≡ x))
unfolding find_locked
newest_or c cs n x h = newest_from (find_locked cs n) c n x h

-- What a load leaves as it was, and what it creates.
pub record Keeps (m : Option Entries) (stack : List (List ℕ)) (cs cs' : List Component)
    : Type 0 where
  pub unique : Unique cs → Unique cs'
  pub absent :
      (n : List ℕ) → on_stack n stack ≡ true → find_locked cs n ≡ none → find_locked cs' n ≡ none
  pub present :
      (n : List ℕ) (c : Component) → find_locked cs n ≡ some c → find_locked cs' n ≡ some c
  pub created :
      (n : List ℕ) (c : Component)
      → find_locked cs' n ≡ some c
      → (find_locked cs n ≡ some c) ⊎ (declared_type m n ≡ some c.type)

module _ {m : Option Entries} {stack : List (List ℕ)} where
  pub Keeps-refl : {cs : List Component} → Keeps m stack cs cs
  Keeps-refl = record {
    unique = λ u. u;
    absent = λ n o h. h;
    present = λ n c h. h;
    created = λ n c h. inl h;
  }

  pub Keeps-trans :
      {a b c : List Component} → Keeps m stack a b → Keeps m stack b c → Keeps m stack a c
  Keeps-trans p q = record {
    unique = λ u. q.unique (p.unique u);
    absent = λ n o h. q.absent n o (p.absent n o h);
    present = λ n x h. q.present n x (p.present n x h);
    created = λ n x h. elim (q.created n x h) [ inl e ↦ p.created n x e | inr d ↦ inr d ];
  }

  -- A component created under its name, which the loads inside have on the stack.
  pub Keeps-create :
      {cs cs' : List Component} (name : List ℕ) (c : Component)
      → Keeps m (name ∷ stack) cs cs'
      → find_locked cs name ≡ none
      → on_stack name stack ≡ false
      → declared_type m name ≡ some c.type
      → c.name ≡ name
      → Keeps m stack cs (c ∷ cs')
  unfolding find_locked on_stack
  Keeps-create {cs} {cs'} name c k f o d e = record {
    unique = λ u. (rw e (k.absent name (on_stack-top name stack) f), k.unique u);
    absent = λ n o' h.
        let gone = k.absent n (on_stack-below n name stack o') h in
        let other : equal_bytes n c.name ≡ false = rw e (other_name n name stack o' o) in
        rw (gone, other) refl;
    present = λ n x h. find_locked-create c cs' n x (k.present n x h);
    created = λ n x h. elim (newest_or c cs' n x h) [
      | inl h' ↦ k.created n x h'
      | inr (same, x') ↦ inr (rw (same, e) (d ∙ ap (λ y. some y.type) x'))
    ];
  }

  pub Keeps-fewer :
      {cs cs' : List Component} (name : List ℕ)
      → Keeps m (name ∷ stack) cs cs'
      → Keeps m stack cs cs'
  unfolding on_stack
  Keeps-fewer name k = record {
    unique = k.unique;
    absent = λ n o h. k.absent n (on_stack-below n name stack o) h;
    present = k.present;
    created = k.created;
  }
