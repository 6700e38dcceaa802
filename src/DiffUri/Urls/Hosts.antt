-- ===== src/DiffUri/Urls/Hosts.antt =====
-- internal/diffuri: a host and a port that are written together are read apart again.
use changesaga.Prelude.{
  ◌≡◌, refl, inl, inr, false, true, none, some, [], ◌∷◌, ◌++◌, Text, codes, has_suffix-append,
  Bool-cases, Option-cases, arith,
}
use changesaga.DiffUri.Urls.{
  split_colon, split_host_port, strip_brackets, is_bracketed, drop_last, is_digits, has_colon,
  in_brackets, join_host_port,
}

is_digits-has_colon : (p : Text) → is_digits p ≡ true → has_colon p ≡ false
is_digits-has_colon [] h = refl
is_digits-has_colon (c ∷ p) h = ground (arith, is_digits-has_colon p)

split_colon-none : (t : Text) → has_colon t ≡ false → split_colon t ≡ none
unfolding split_colon
split_colon-none [] h = refl
split_colon-none (c ∷ t) h = ground (arith, split_colon-none t)

split_colon-append : (n p : Text) → has_colon p ≡ false → split_colon (n ++ (58 ∷ p)) ≡ some (n, p)
unfolding split_colon
split_colon-append [] p h = rw (split_colon-none p h) refl
split_colon-append (c ∷ n) p h = rw (split_colon-append n p h) refl

is_digits-bracket : (t : Text) → is_digits (t ++ codes "]") ≡ false
is_digits-bracket [] = refl
is_digits-bracket (c ∷ t) = ground (arith, is_digits-bracket t)

-- Behind the last colon of a text that ends in a bracket stands no port.
split_colon-bracket :
    (t a b : Text) → split_colon (t ++ codes "]") ≡ some (a, b) → is_digits b ≡ false
unfolding split_colon
split_colon-bracket [] a b h = cc
split_colon-bracket (c ∷ t) a b h = elim (Option-cases (split_colon (t ++ codes "]"))) [
  | inl e ↦ ground (arith, is_digits-bracket t)
  | inr ((before, after), e) ↦ ground (arith, split_colon-bracket t before after e)
]

strip_brackets_plain : (t : Text) → is_bracketed t ≡ false → strip_brackets t ≡ t
unfolding strip_brackets
strip_brackets_plain [] h = refl
strip_brackets_plain (c ∷ t) h = rw h refl

drop_last-append : (t : Text) → drop_last (t ++ codes "]") ≡ t
unfolding drop_last
drop_last-append [] = refl
drop_last-append (c ∷ []) = refl
drop_last-append (c ∷ d ∷ t) = rw (drop_last-append (d ∷ t)) refl

strip_brackets-in_brackets : (t : Text) → strip_brackets (in_brackets t) ≡ t
unfolding strip_brackets is_bracketed
strip_brackets-in_brackets t = rw (has_suffix-append t (codes "]"), drop_last-append t) refl

-- A host and a port that are joined are read apart again.
pub split_host_port-append :
    (n p : Text) → is_digits p ≡ true → split_host_port (n ++ (58 ∷ p)) ≡ (strip_brackets n, p)
unfolding split_host_port
split_host_port-append n p h = rw (split_colon-append n p (is_digits-has_colon p h), h) refl

pub split_host_port-in_brackets : (n : Text) → split_host_port (in_brackets n) ≡ (n, [])
unfolding split_host_port
split_host_port-in_brackets n = elim (Option-cases (split_colon (in_brackets n))) [
  | inl e ↦ rw (e, strip_brackets-in_brackets n) refl
  | inr ((before, after), e) ↦
      rw (e, split_colon-bracket (91 ∷ n) before after e, strip_brackets-in_brackets n) refl
]

pub split_host_port_plain :
    (n : Text) → has_colon n ≡ false → is_bracketed n ≡ false → split_host_port n ≡ (n, [])
unfolding split_host_port
split_host_port_plain n c b = rw (split_colon-none n c, strip_brackets_plain n b) refl

pub join_host_port-split :
    (n p : Text)
    → is_bracketed n ≡ false
    → is_digits p ≡ true
    → split_host_port (join_host_port n p) ≡ (n, p)
join_host_port-split n p b d = elim (Bool-cases (has_colon n)) [
  | inl e ↦ rw (e, split_host_port-append (in_brackets n) p d, strip_brackets-in_brackets n) refl
  | inr e ↦ rw (e, split_host_port-append n p d, strip_brackets_plain n b) refl
]

-- A port has only digits.
pub split_host_port-digits : (t : Text) → is_digits (split_host_port t).1 ≡ true
unfolding split_host_port
split_host_port-digits t = elim (Option-cases (split_colon t)) [
  | inl e ↦ rw e refl
  | inr ((before, after), e) ↦ elim (Bool-cases (is_digits after)) [
    | inl d ↦ rw (e, d) d
    | inr d ↦ rw (e, d) refl
  ]
]
