-- ===== src/Blocking/Lists/Updates.antt =====
-- The updates of one domain: the count of what is blocked, and what an addition and a removal leave.
use nimbusdns.Common.{
  ℕ, ◌+◌, ◌-◌, ◌≡◌, ◌<◌, sym, ◌∙◌, subst, inl, inr, Bool, true, false, not, List, [], ◌∷◌, length,
  arith, Bool-cases, if◌then◌else◌,
}
use nimbusdns.Blocking.Wildcard.{Text, text_discrete, same, has}
use nimbusdns.Blocking.Lists.{
  BlockingLists, add_text, remove_text, add_deny_domain, remove_deny_domain, add_gravity_domain,
  remove_gravity_domain,
}

-- No string stands twice in a set.
abbrev pub Distinct : List Text → Type 0
Distinct [] = Unit
Distinct (x ∷ set) = (has x set ≡ false) × Distinct set

same_refl : (a : Text) → same a a ≡ true
unfolding same
same_refl a = ground (arith, text_discrete a a)

pub has-remove_text :
    (x y : Text) (set : List Text)
    → has y (remove_text x set) ≡ (if same x y then false else has y set)
unfolding has remove_text same
has-remove_text x y [] = ground arith
has-remove_text x y (z ∷ set) =
    ground (arith, has-remove_text x y set, text_discrete x y, text_discrete x z, text_discrete y z)

pub has-add_text :
    (x y : Text) (set : List Text) → has y (add_text x set) ≡ (if same x y then true else has y set)
unfolding has add_text same
has-add_text x y set = ground (arith, text_discrete x y, text_discrete y x)

add_text-Distinct : (x : Text) (set : List Text) → Distinct set → Distinct (add_text x set)
unfolding add_text
add_text-Distinct x set d = elim (Bool-cases (has x set)) [ inl t ↦ rw t d | inr f ↦ rw f (f, d) ]

length-add_text :
    (x : Text) (set : List Text)
    → length (add_text x set) ≡ (if has x set then length set else length set + 1)
unfolding add_text
length-add_text x set = ground arith

length-has : (x : Text) (set : List Text) → has x set ≡ true → 0 < length set
unfolding has
length-has x [] h = cc
length-has x (z ∷ set) h = omega arith

length-remove_text :
    (x : Text) (set : List Text)
    → Distinct set
    → length (remove_text x set) ≡ (if has x set then length set - 1 else length set)
unfolding remove_text has same
length-remove_text x [] d = ground arith
length-remove_text x (z ∷ set) d = elim (text_discrete x z) [
  | yes p ↦
      let absent : has x set ≡ false = subst (λ y. has y set ≡ false) (sym p) d.0 in
      ground (arith, absent, length-remove_text x set d.1)
  | no n ↦ ground (arith, length-remove_text x set d.1, length-has x set)
]

remove_text-Distinct : (x : Text) (set : List Text) → Distinct set → Distinct (remove_text x set)
unfolding remove_text
remove_text-Distinct x [] d = tt
remove_text-Distinct x (z ∷ set) d = elim (Bool-cases (same x z)) [
  | inl t ↦ rw t (remove_text-Distinct x set d.1)
  | inr f ↦ rw f (ground (arith, has-remove_text x z set, d.0), remove_text-Distinct x set d.1)
]

-- The count is that of the two exact sets and of `extra` wildcards and patterns.
pub record Counted {Regex : Type 0} (extra : ℕ) (l : BlockingLists Regex) : Type 0 where
  pub deny_distinct : Distinct l.denylist_exact
  pub gravity_distinct : Distinct l.gravity_exact
  pub total : l.total_blocked ≡ length l.gravity_exact + length l.denylist_exact + extra

module _ {Regex : Type 0} (trim lower : Text → Text) (re_match : Regex → Text → Bool) where
  -- The four updates of the denying sets keep `total_blocked` equal to the number of the domains in
  -- them, and of the wildcards and patterns.
  pub updates-Counted :
      (extra : ℕ) (domain : Text) (l : BlockingLists Regex)
      → Counted extra l
      → Counted extra (add_deny_domain re_match trim lower domain l)
        × Counted extra (remove_deny_domain re_match trim lower domain l)
        × Counted extra (add_gravity_domain re_match trim lower domain l)
        × Counted extra (remove_gravity_domain re_match trim lower domain l)
  unfolding add_deny_domain remove_deny_domain add_gravity_domain remove_gravity_domain
  updates-Counted extra domain l c =
      let d = lower (trim domain) in
      let t = trim domain in
      (
        record {
          deny_distinct = add_text-Distinct d l.denylist_exact c.deny_distinct;
          gravity_distinct = c.gravity_distinct;
          total = ground (arith, c.total, length-add_text d l.denylist_exact);
        },
        record {
          deny_distinct = remove_text-Distinct t l.denylist_exact c.deny_distinct;
          gravity_distinct = c.gravity_distinct;
          total = ground (
            arith,
            c.total,
            length-remove_text t l.denylist_exact c.deny_distinct,
            length-has t l.denylist_exact,
          );
        },
        record {
          deny_distinct = c.deny_distinct;
          gravity_distinct = add_text-Distinct d l.gravity_exact c.gravity_distinct;
          total = ground (arith, c.total, length-add_text d l.gravity_exact);
        },
        record {
          deny_distinct = c.deny_distinct;
          gravity_distinct = remove_text-Distinct t l.gravity_exact c.gravity_distinct;
          total = ground (
            arith,
            c.total,
            length-remove_text t l.gravity_exact c.gravity_distinct,
            length-has t l.gravity_exact,
          );
        },
      )

  -- A domain that is added to the denylist and then removed is gone exactly when it was written in
  -- lower case: the addition lowers its letters, and the removal does not.
  pub remove_deny_domain-add_deny_domain :
      (domain : Text) (l : BlockingLists Regex)
      → has
          (lower (trim domain))
          (remove_deny_domain re_match trim lower domain
            (add_deny_domain re_match trim lower domain l)).denylist_exact
        ≡ not (same (trim domain) (lower (trim domain)))
  unfolding add_deny_domain remove_deny_domain
  remove_deny_domain-add_deny_domain domain l =
      let d = lower (trim domain) in
      has-remove_text (trim domain) d (add_text d l.denylist_exact)
      ∙ ground (arith, has-add_text d d l.denylist_exact, same_refl d)
